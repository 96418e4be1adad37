-- ===== src/Cli/Args/ReadBack.antt =====
-- The arguments of an agent, read back.
use cloud_android_orchestrat.Cli.Args.{ConnectFlags, as_args, build_agent_cmd_args, connect_as_args}
use cloud_android_orchestrat.Prelude.{
  Bool, Bool-cases, List, Option, String, [], arith, false, if◌then◌else◌, none, some, str_eq,
  str_eq_iff, true, ◌∷◌, ◌≡◌,
}

-- The value of an option that may stand first, and the arguments behind it.
abbrev option_value : String → List String → String × List String
option_value flag [] = ("", [])
option_value flag (arg ∷ []) = ("", arg ∷ [])
option_value flag (arg ∷ value ∷ rest) =
    if str_eq arg flag then (value, rest) else ("", arg ∷ value ∷ rest)

abbrev switch_value : String → List String → Bool × List String
switch_value flag [] = (false, [])
switch_value flag (arg ∷ rest) = if str_eq arg flag then (true, rest) else (false, arg ∷ rest)

-- The device and the flags, where all of the arguments are read.
unfoldable pub read_back : List String → Option (String × ConnectFlags)
read_back [] = none
read_back (command ∷ []) = none
read_back (command ∷ device ∷ args) =
    let (service_url, a) = option_value "--service_url" args in
    let (zone, b) = option_value "--zone" a in
    let (http_proxy, c) = option_value "--http_proxy" b in
    let (verbose, d) = switch_value "-v" c in
    let (host, e) = option_value "--host" d in
    let (ice_config, rest) = option_value "--ice_config" e in
    elim rest [
      | [] ↦ some (
        device,
        record {
          root = record {
            service_url = service_url;
            zone = zone;
            http_proxy = http_proxy;
            verbose = verbose;
          };
          host = host;
          skip_confirmation = false;
          ice_config = ice_config;
        },
      )
      | x ∷ xs ↦ none
    ]

-- The arguments with which an agent is started say which device is meant and carry every flag but
-- the one for the confirmation, whatever texts their values are.
pub read_back-build_agent_cmd_args :
    (flags : ConnectFlags) (device : String)
    → read_back (build_agent_cmd_args flags device)
      ≡ some (device, record flags { skip_confirmation = false })
unfolding read_back build_agent_cmd_args connect_as_args as_args
read_back-build_agent_cmd_args flags device = ground (
  arith,
  str_eq_iff flags.root.http_proxy "",
  str_eq_iff flags.host "",
  str_eq_iff flags.ice_config "",
  Bool-cases flags.root.verbose,
)
