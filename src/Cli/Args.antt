-- ===== src/Cli/Args.antt =====
-- pkg/cli/cli.go: the flags that are handed on to an agent's process as arguments.
pub mod ReadBack
use cloud_android_orchestrat.Prelude.{Bool, List, String, [], if◌then◌else◌, str_eq, ◌++◌, ◌∷◌}

-- `CVDRemoteFlags`
pub record CvdRemoteFlags : Type 0 where
  pub service_url : String
  pub zone : String
  pub http_proxy : String
  pub verbose : Bool

-- `ConnectFlags`
pub record ConnectFlags : Type 0 where
  pub root : CvdRemoteFlags
  pub host : String
  pub skip_confirmation : Bool
  pub ice_config : String

-- An option that is given unless its value is empty.
abbrev unless_empty : String → String → List String
unless_empty flag value = if str_eq value "" then [] else flag ∷ value ∷ []

-- `AsArgs` of the root's flags
unfoldable pub as_args : CvdRemoteFlags → List String
as_args f =
    "--service_url" ∷ f.service_url ∷ "--zone" ∷ f.zone ∷ []
    ++ unless_empty "--http_proxy" f.http_proxy
    ++ (if f.verbose then "-v" ∷ [] else [])

-- `AsArgs` of the connection's flags
unfoldable pub connect_as_args : ConnectFlags → List String
connect_as_args f =
    as_args f.root ++ unless_empty "--host" f.host ++ unless_empty "--ice_config" f.ice_config

-- `buildAgentCmdArgs`
unfoldable pub build_agent_cmd_args : ConnectFlags → String → List String
build_agent_cmd_args flags device = "agent" ∷ device ∷ connect_as_args flags
