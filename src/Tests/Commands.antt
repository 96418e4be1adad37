-- ===== src/Tests/Commands.antt =====
-- Commands over the sockets and the service of the agents' tests.
use cloud_android_orchestrat.Cli.Commands.Results.{
  run_disconnect_command_named, run_disconnect_command_panics,
}
use cloud_android_orchestrat.Cli.Commands.{CommandEnv, service_builder}
use cloud_android_orchestrat.Cli.Commands.Outcomes.{run_connect_command_of_host}
use cloud_android_orchestrat.Exec.{err, ok, panic, pure}
use cloud_android_orchestrat.Errors.{GoError, plain, wrap}
use cloud_android_orchestrat.Cli.Args.ReadBack.{read_back, read_back-build_agent_cmd_args}
use cloud_android_orchestrat.Cli.LocalBuild.{AndroidEnvVars, Local, modified}
use cloud_android_orchestrat.Cli.Commands.Disconnecting.{
  connections, mentions, run_disconnect_command,
}
use cloud_android_orchestrat.Cli.Connections.{
  Sockets, ask_agent, gather, list_cvd_connections, list_cvd_connections_by_host, of_host,
  send_status_cmd,
}
use cloud_android_orchestrat.Cli.Locators.{put_status}
use cloud_android_orchestrat.Cli.Console.{Console, spaced}
use cloud_android_orchestrat.Cli.Args.{ConnectFlags, CvdRemoteFlags, build_agent_cmd_args}
use cloud_android_orchestrat.Cli.Commands.Connecting.{run_connect_command}
use cloud_android_orchestrat.Prelude.{
  ap, arith, ◌<>◌, String, [], false, if◌then◌else◌, none, refl, some, str_eq, suc, true, ℕ, ◌∷◌,
  ◌≡◌, ◌≢◌,
}
use cloud_android_orchestrat.Text.{text_length}
use cloud_android_orchestrat.Tests.Agents.{
  phone, phone_status, test_sockets, test_service, parse_phone,
}

-- A directory that is no control directory cannot be read.
abbrev sockets : Sockets ℕ String
sockets = record test_sockets {
  read_dir = λ dir n.
      if str_eq dir "/run"
      then test_sockets.read_dir dir n
      else (err (plain "no such directory"), n);
}

abbrev test_env : CommandEnv ℕ String
test_env = record {
  builder = λ opts proxy. ok test_service;
  control_dir = "/run";
  net = sockets;
  parse_status = parse_phone;
  scan = pure (record { negative = false; magnitude = 0 });
  start_bg_command = λ args n. (err (plain "no such program"), suc n);
  decode_conn_status = λ text. err (plain "no JSON");
  load_ice_config = λ path. pure "{}";
  read_env_config = λ path. pure "{}";
  parse_env_config = λ text. ok text;
  create_temp = pure "/tmp/pull";
  close_temp = pure tt;
  logs = λ n. [];
  set_logs = λ n files. n;
  read_logs_error = λ n. none;
  now = λ n. 0;
  keep_log_files_days = 30;
  multierror_text = λ errs. "errors";
}

abbrev root_flags : CvdRemoteFlags
root_flags = record {
  service_url = "https://orchestrator";
  zone = "local";
  http_proxy = "";
  verbose = true;
}

abbrev host_flags : ConnectFlags
host_flags = record { root = root_flags; host = "cf-1"; skip_confirmation = true; ice_config = "" }

abbrev console : Console ℕ
console = record { world = 0; out = ""; err_out = "" }

read_back-build_agent_cmd_args_example :
    read_back (build_agent_cmd_args host_flags "cvd-1")
    ≡ some ("cvd-1", record host_flags { skip_confirmation = false })
read_back-build_agent_cmd_args_example = read_back-build_agent_cmd_args host_flags "cvd-1"

abbrev no_host : ConnectFlags
no_host = record host_flags { host = "" }

run_disconnect_command_named_example :
    ((run_disconnect_command test_env no_host ("cvd-1" ∷ []) console).0 ≢ ok tt)
    × (no_host.host ≡ ""
        → run_disconnect_command test_env no_host ("cvd-1" ∷ []) console
          ≡ (err (plain ("Missing host for devices: [" <> spaced ("cvd-1" ∷ []) <> "]")), console))
run_disconnect_command_named_example =
    run_disconnect_command_named test_env no_host "cvd-1" [] console

abbrev unreachable : GoError
unreachable = wrap "Unable to contact connection agent" (plain "refused")

run_disconnect_command_panics_example :
    run_disconnect_command test_env host_flags ("cvd-1" ∷ []) console ≡ (
      panic "assignment to entry in nil map",
      record console { world = (connections test_env "cf-1" 0).1 },
    )
unfolding connections list_cvd_connections_by_host list_cvd_connections mentions gather ask_agent
    send_status_cmd of_host put_status
run_disconnect_command_panics_example =
    run_disconnect_command_panics test_env host_flags "cvd-1" [] [] [] phone phone_status
      (unreachable ∷ []) console (λ e. let l = ap text_length e in absurd (omega (arith, l))) refl
      refl

run_connect_command_of_host_example : (run_connect_command test_env host_flags [] console).0 ≢ ok tt
unfolding service_builder
run_connect_command_of_host_example =
    run_connect_command_of_host test_env test_service host_flags console 0
      (plain "no such directory") refl refl refl refl

abbrev test_local : Local
test_local = record {
  lookup_env = λ name. some "/build";
  open_file = λ path. ok tt;
  read_file = λ path. ok "boot.img\nsuper.img\n";
  stat = λ path. modified 1;
}

abbrev vars : AndroidEnvVars
vars = record { build_top = "/build"; product_out = "/build/out"; host_out = "/build/host" }
