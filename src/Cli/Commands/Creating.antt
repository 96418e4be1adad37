-- ===== src/Cli/Commands/Creating.antt =====
-- pkg/cli/cli.go: the command that creates virtual devices and connects to them.
use cloud_android_orchestrat.Cli.Commands.{returned}
use cloud_android_orchestrat.Exec.{on_error}
use cloud_android_orchestrat.Cli.Creation.{CreateCvdOpts}
use cloud_android_orchestrat.Errors.{GoError, api_call, app, app_caused, google, plain, wrap}
use cloud_android_orchestrat.Cli.Service.{Service}
use cloud_android_orchestrat.Cli.Args.{CvdRemoteFlags}
use cloud_android_orchestrat.Cli.LocalBuild.{Local}
use cloud_android_orchestrat.Cli.Console.{
  Console, outside, print_err, print_out, to_printable_str, with_state,
}
use cloud_android_orchestrat.Cli.Commands.{CommandEnv, connect_device, lines_of, service_builder}
use cloud_android_orchestrat.Cli.Locators.{ConnStatus, RemoteCvd}
use cloud_android_orchestrat.Exec.{raise_if, Exec, lift, pure, raise, wrapped, ◌>>=◌, ◌>>◌}
use cloud_android_orchestrat.Prelude.{
  Bool, List, Option, String, [], false, if◌then◌else◌, map, none, some, str_eq, ◌++◌, ◌<>◌, ◌==◌,
  ◌∷◌,
}
use cloud_android_orchestrat.Cli.Creation.{create_cvd, create_host}

-- `CreateCVDFlags`
record CreateCvdFlags : Type 0 where
  pub root : CvdRemoteFlags
  pub opts : CreateCvdOpts
  pub machine_type : String
  pub min_cpu_platform : String

-- `errors.As(err, &apiErr) && apiErr.Code == http.StatusUnauthorized`
unfoldable is_unauthorized : GoError → Bool
is_unauthorized (plain msg) = false
is_unauthorized (wrap msg e) = is_unauthorized e
is_unauthorized (google msg code) = false
is_unauthorized (api_call code msg details) = code == 401
is_unauthorized (app msg code) = false
is_unauthorized (app_caused msg code e) = is_unauthorized e

module _ {W C : Type 0} (env : CommandEnv W C) (visuals_on : Bool) where
  -- The configuration of an environment, from the file that the first argument names
  unfoldable pub env_config_of : List String → CreateCvdOpts → Exec (Console W) CreateCvdOpts
  env_config_of [] opts = pure opts
  env_config_of (file ∷ args) opts = do
    data_ ← wrapped "Invalid configuration file" (outside (env.read_env_config file))
    config ← wrapped "Invalid configuration file content" (lift (env.parse_env_config data_))
    pure (record opts { env_config = some config })

  -- A host is created where none is given.
  unfoldable host_or_new : Service W → CreateCvdFlags → Exec (Console W) String
  host_or_new service flags =
      let new_host : Exec (Console W) String = (do
        ins ← wrapped "Failed to create host" (
            with_state visuals_on "Creating Host"
              (outside (create_host service flags.machine_type flags.min_cpu_platform)))
        pure ins.name) in
      if str_eq flags.opts.host "" then new_host else pure flags.opts.host

  abbrev auth_hint : String → GoError → Exec (Console W) (List RemoteCvd)
  auth_hint service_url e =
      if is_unauthorized e
      then print_err ("Authorization required, please visit " <> service_url <> "/auth\n")
        >> raise e
      else raise e

  abbrev connection_of :
      Exec (Console W) ConnStatus → Exec (Console W) (Option ConnStatus × List GoError)
  connection_of m =
      on_error (m >>= λ s. pure {A = Option ConnStatus × List GoError} (some s, [])) (λ e.
        pure {A = Option ConnStatus × List GoError}
          (none, wrap "Failed to connect to device" e ∷ []))

  -- The loop that connects to the new devices
  unfoldable pub connect_each :
      CvdRemoteFlags → String → List RemoteCvd → Exec (Console W) (List RemoteCvd × List GoError)
  connect_each root host [] = pure ([], [])
  connect_each root host (cvd ∷ cvds) = do
    first ← connection_of (
        with_state visuals_on ("Connecting to " <> cvd.locator.name)
          (connect_device env root host cvd.locator.name ""))
    rest ← connect_each root host cvds
    pure (record cvd { conn_status = first.0 } ∷ rest.0, first.1 ++ rest.1)

module _ {W C : Type 0} (env : CommandEnv W C) (visuals_on : Bool) (files : Local) where
  -- `runCreateCVDCommand`
  unfoldable run_create_cvd_command : List String → CreateCvdFlags → Exec (Console W) (Unit {0})
  run_create_cvd_command args flags = do
    opts ← env_config_of env visuals_on args flags.opts
    raise_if (opts.num_instances == 0) (plain "Invalid --num_instances flag value: 0")
    service ← wrapped "Failed to build service instance" (lift (service_builder env flags.root))
    host ← host_or_new env visuals_on service flags
    cvds ←
        on_error (create_cvd service visuals_on files (record opts { host = host }))
          (auth_hint env visuals_on flags.root.service_url)
    linked ← connect_each env visuals_on flags.root host cvds
    print_out (lines_of (map to_printable_str linked.0))
    returned env linked.1
