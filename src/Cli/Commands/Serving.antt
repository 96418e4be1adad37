-- ===== src/Cli/Commands/Serving.antt =====
-- pkg/cli/cli.go: the command of a connection agent's process.
use cloud_android_orchestrat.Exec.{logged}
use cloud_android_orchestrat.Exec.{on_error}
use cloud_android_orchestrat.Cli.Args.{ConnectFlags, CvdRemoteFlags}
use cloud_android_orchestrat.Errors.{GoError, error_text, plain}
use cloud_android_orchestrat.Cli.Locators.{ConnStatus, StatusCmdRes}
use cloud_android_orchestrat.Cli.Connections.{Sockets}
use cloud_android_orchestrat.Cli.Console.{Console, outside, print_err, print_out, spaced}
use cloud_android_orchestrat.Cli.Agent.{
  Agent, ConnController, Setup, find_or_connect, on_world, run,
}
use cloud_android_orchestrat.Exec.{
  Exec, Result, crash, err, lift, ok, panic, pure, raise, wrapped, ◌>>=◌, ◌>>◌,
}
use cloud_android_orchestrat.Prelude.{
  List, Option, String, [], if◌then◌else◌, none, some, str_eq, ℕ, ◌<>◌, ◌∷◌,
}

-- What an agent needs beside its controller: its service's address, the JSON of its messages, the
-- ADB server, the closing of its streams, and what its control socket accepts.
record AgentEnv (W C : Type 0) : Type 0 where
  pub root_uri : CvdRemoteFlags → Result String
  pub control_dir : String
  pub net : Sockets W C
  pub parse_status : String → Result StatusCmdRes
  pub marshal_status : StatusCmdRes → Result String
  marshal_conn_status : ConnStatus → Result String
  setup : Setup W
  pub load_ice_config : String → Exec W String
  adb_connect : ℕ → Exec W (Unit {0})
  adb_disconnect : ℕ → Exec W (Unit {0})
  close_streams : Exec W (Unit {0})
  pub accepted : W → List (Option C)
  pub multierror_text : List GoError → String

module _ {W C : Type 0} (env : AgentEnv W C) where
  abbrev checked_ice_config : String → Exec (Console (Agent W)) (Unit {0})
  checked_ice_config v =
      if str_eq v ""
      then pure tt
      else wrapped "Invalid --ice_config flag value" (outside (on_world (env.load_ice_config v)))
        >> pure tt

  abbrev single_device : List String → Exec (Console (Agent W)) String
  single_device [] = raise (plain "Missing device")
  single_device (device ∷ []) = pure device
  single_device (device ∷ other ∷ args) = raise (
      plain (
        "Connection agent only supports a single device, received: ["
        <> spaced (device ∷ other ∷ args)
        <> "]"))

  abbrev warned : List GoError → Exec (Console (Agent W)) (Unit {0})
  warned [] = pure tt
  warned (e ∷ errs) = print_err (env.multierror_text (e ∷ errs) <> "\n")

  abbrev printed_status : Result String → Exec (Console (Agent W)) (Unit {0})
  printed_status (ok text) = print_out (text <> "\n")
  printed_status (err e) =
      print_err ("Failed to encode connection status: " <> error_text e <> "\n")
  printed_status (panic p) = crash p

  -- The part that runs in the background, for a controller of this process
  abbrev served : ℕ → Option ConnController → Exec (Console (Agent W)) (Unit {0})
  served port none = pure tt
  served port (some tc) = do
    outside (on_world env.close_streams)
    outside (λ a. run env.net env.marshal_status tc (env.accepted a.world) a)
    logged (outside (on_world (env.adb_disconnect port)))

  -- `runConnectionAgentCommand`
  unfoldable run_connection_agent_command :
      ConnectFlags → List String → Exec (Console (Agent W)) (Unit {0})
  run_connection_agent_command flags args = do
    checked_ice_config flags.ice_config
    device ← single_device args
    root_uri ← lift (env.root_uri flags.root)
    ret ← outside (
        find_or_connect env.net env.parse_status env.setup env.control_dir
          (record { service_root_endpoint = root_uri; host = flags.host; name = device }))
    warned ret.errors
    printed_status (env.marshal_conn_status ret.status)
    on_error (outside (on_world (env.adb_connect ret.status.adb.port))) (λ e.
        print_err
          ("Failed to connect ADB to device \"" <> device <> "\": " <> error_text e <> "\n"))
    served ret.status.adb.port ret.controller
