-- ===== src/Cli/Commands.antt =====
-- pkg/cli/cli.go: what the commands share, and those for hosts.
pub mod Prompts
pub mod Hosts
pub mod Creating
pub mod Listing
pub mod Connecting
pub mod Disconnecting
pub mod Serving
pub mod Results
pub mod Outcomes
use cloud_android_orchestrat.Cli.Selection.{Chosen}
use cloud_android_orchestrat.Cli.Locators.{ConnStatus, StatusCmdRes}
use cloud_android_orchestrat.Cli.Connections.{Sockets}
use cloud_android_orchestrat.Client.Service.{build_root_endpoint}
use cloud_android_orchestrat.Cli.Service.{Service}
use cloud_android_orchestrat.Client.Requests.{ServiceOptions}
use cloud_android_orchestrat.Errors.{GoError, error_text, plain}
use cloud_android_orchestrat.Text.{itoa}
use cloud_android_orchestrat.Cli.Console.{Console, outside, print_err}
use cloud_android_orchestrat.Cli.Logs.{LogFile, log_files_delete_threshold, maybe_clean_old_logs}
use cloud_android_orchestrat.Cli.Args.{CvdRemoteFlags, build_agent_cmd_args}
use cloud_android_orchestrat.Exec.{
  Exec, Result, crash, err, lift, ok, panic, pure, raise, wrap_result, wrapped, ◌>>=◌, ◌>>◌,
}
use cloud_android_orchestrat.Prelude.{
  Bool, true, List, Option, String, [], false, if◌then◌else◌, ltb, none, some, str_eq, ℕ, ◌<>◌, ◌∷◌,
}

-- The options of a command, and the outside calls it makes: the building of a service from its
-- options, the sockets of agents, a child process, a number read from the terminal, and files.
pub record CommandEnv (W C : Type 0) : Type 0 where
  pub builder : ServiceOptions → String → Result (Service W)
  pub control_dir : String
  pub net : Sockets W C
  pub parse_status : String → Result StatusCmdRes
  pub scan : Exec W Chosen
  pub start_bg_command : List String → Exec W String
  pub decode_conn_status : String → Result ConnStatus
  pub load_ice_config : String → Exec W String
  pub read_env_config : String → Exec W String
  pub parse_env_config : String → Result String
  pub create_temp : Exec W String
  pub close_temp : Exec W (Unit {0})
  pub logs : W → List LogFile
  pub set_logs : W → List LogFile → W
  pub read_logs_error : W → Option GoError
  pub now : W → ℕ
  pub keep_log_files_days : ℕ
  pub multierror_text : List GoError → String

-- `buildServiceRootEndpoint`
unfoldable pub build_service_root_endpoint : String → String → String
build_service_root_endpoint service_url zone = build_root_endpoint service_url "v1" zone

-- `len(args) > 0`
abbrev pub has_args : List String → Bool
has_args [] = false
has_args (arg ∷ args) = true

abbrev pub lines_of : List String → String
lines_of [] = ""
lines_of (x ∷ xs) = x <> "\n" <> lines_of xs

module _ {W C : Type 0} (env : CommandEnv W C) where
  -- `merr`, which is nil where nothing was appended
  abbrev pub returned : List GoError → Exec (Console W) (Unit {0})
  returned [] = pure tt
  returned (e ∷ errs) = raise (plain (env.multierror_text (e ∷ errs)))

  -- `buildServiceBuilder`, with its retries
  unfoldable pub service_builder : CvdRemoteFlags → Result (Service W)
  service_builder flags =
      env.builder
        (record {
          root_endpoint = build_service_root_endpoint flags.service_url flags.zone;
          retry_attempts = 3;
        })
        flags.http_proxy

  -- `verifyICEConfigFlag`
  unfoldable pub verify_ice_config_flag : String → Exec W (Option String)
  verify_ice_config_flag v =
      if str_eq v ""
      then pure none
      else wrapped "Invalid --ice_config flag value" (env.load_ice_config v) >>= λ c. pure (some c)

  -- The cleaning of old log files that `ConnectDevice` starts, and what it prints.
  unfoldable pub clean_logs : Exec (Console W) (Unit {0})
  clean_logs c =
      let (r, files) =
        maybe_clean_old_logs (log_files_delete_threshold env.keep_log_files_days) (env.now c.world)
          (env.read_logs_error c.world) (env.logs c.world) in
      cleaned r (record c { world = env.set_logs c.world files })
    where
      deleted : ℕ → List GoError → Exec (Console W) (Unit {0})
      deleted count [] =
          if ltb 0 count
          then print_err ("Deleted " <> itoa count <> " old log files\n")
          else pure tt
      deleted count (e ∷ errs) =
          print_err ("Error deleting old logs: " <> env.multierror_text (e ∷ errs) <> "\n")

      cleaned : Result (ℕ × List GoError) → Exec (Console W) (Unit {0})
      cleaned (ok (count, errs)) = deleted count errs
      cleaned (err e) = print_err ("Error deleting old logs: " <> error_text e <> "\n")
      cleaned (panic p) = crash p

  -- What the agent has written to its output.
  abbrev agent_status : String → Result ConnStatus
  agent_status output =
      if str_eq output ""
      then err (plain "No response from agent")
      else wrap_result ("Failed to decode agent output(" <> output <> ")")
          (env.decode_conn_status output)

  -- `ConnectDevice`, where the cleaning goes before the rest
  unfoldable pub connect_device :
      CvdRemoteFlags → String → String → String → Exec (Console W) ConnStatus
  connect_device root host device ice_config = do
    clean_logs
    output ← wrapped "Unable to start connection agent" (
        outside (
          env.start_bg_command (
            build_agent_cmd_args
              (record {
                root = root;
                host = host;
                skip_confirmation = false;
                ice_config = ice_config;
              })
              device)))
    lift (agent_status output)
