-- ===== src/Startup.antt =====
-- cmd/cloud_orchestrator/main.go, and pkg/app's config, secrets, oauth2 and encryption: the choice of
-- the server's parts from its configuration. The cloud libraries are parameters.
pub mod Kms
pub mod Secrets
pub mod Loading
pub mod Laws
pub mod Cvdr
use Prim.Native.String.{String}
use Prim.Native.String.{String}
use Prim.Native.String.{String}
use Prim.Native.String.{String}
use cloud_android_orchestrat.Instances.Gce.Defs.{GceConfig}
use cloud_android_orchestrat.Instances.Local.{LocalConfig}
use cloud_android_orchestrat.Errors.{error_text, plain}
use cloud_android_orchestrat.Exec.{then_value, Result, err, ok, panic}
use cloud_android_orchestrat.Prelude.{Option, String, if◌then◌else◌, none, some, str_eq, ◌<>◌}

-- `config.Config`, as far as the start of the server reads it
pub record Config : Type 0 where
  pub instance_manager_type : String
  pub gce : GceConfig
  pub local : LocalConfig
  pub secret_manager_type : String
  pub oauth2_client_resource_id : String
  pub secret_file_path : String
  pub oauth2_provider : String
  pub oauth2_redirect_url : String
  pub account_manager_type : String
  pub encryption_service_type : String
  pub kms_key_name : String
  pub database_service_type : String
  pub spanner_database_name : String

-- `os.Getenv`: "" where a variable is not set
abbrev pub getenv : (String → Option String) → String → String
getenv env name = elim (env name) [ none ↦ "" | some v ↦ v ]

-- `LoadConfig`, where a file that cannot be opened is an error of `read_file`
unfoldable load_config :
    (String → Option String) → (String → Result String) → (String → Result Config) → Result Config
load_config env read_file decode =
    let conf_file = getenv env "CONFIG_FILE" in
    then_value (read_file (if str_eq conf_file "" then "conf.toml" else conf_file)) decode

-- `log.Fatal`: the process ends with this text.
abbrev pub or_fatal : {A : Type 0} → String → Result A → Result A
or_fatal msg (ok a) = ok a
or_fatal msg (err e) = err (plain (msg <> error_text e))
or_fatal msg (panic p) = panic p

-- `LoadConfiguration`
unfoldable load_configuration :
    (String → Option String) → (String → Result String) → (String → Result Config) → Result Config
load_configuration env read_file decode =
    or_fatal "Failed to load configuration: " (load_config env read_file decode)
