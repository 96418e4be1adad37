-- ===== src/Cli/Agent.antt =====
-- pkg/cli/conn.go: the controller of a connection agent, which serves the commands of its control
-- socket, and the choice between an agent that runs and a new one.
pub mod Commands
pub mod Starting
use cloud_android_orchestrat.Exec.{on_error}
use cloud_android_orchestrat.Exec.{logged}
use cloud_android_orchestrat.Cli.Forwarder.{failed}
use cloud_android_orchestrat.Text.{itoa}
use cloud_android_orchestrat.Errors.{GoError, error_text, wrap}
use cloud_android_orchestrat.Cli.Locators.{ConnStatus, RemoteCvdLocator, StatusCmdRes, status_of}
use cloud_android_orchestrat.Cli.Connections.{
  Sockets, control_socket_name, list_cvd_connections_by_host, logs_dir, status_cmd, stop_cmd,
  version_cmd,
}
use cloud_android_orchestrat.Cli.Forwarder.{
  Forwarder, FwdState, new_forwarder, state_as_str, stop_forwarding, stopped,
}
use cloud_android_orchestrat.Exec.{
  Exec, Result, crash, err, gets, ok, panic, pure, raise, wrapped, zoom, ◌>>=◌, ◌>>◌,
}
use cloud_android_orchestrat.Prelude.{
  Bool, List, Option, String, [], false, if◌then◌else◌, none, some, str_eq, true, ℕ, ◌<>◌, ◌∷◌,
}

-- What a controller is set up with: the calls of `os`, `net`, `time` and of the client's service,
-- whose callbacks change the forwarder. `await_ready` is what happens until `readyCh` is closed.
pub record Setup (W : Type 0) : Type 0 where
  pub now : W → ℕ
  pub open_log_file : String → Exec W (Unit {0})
  pub listen_tcp : String → Exec W ℕ
  pub listen_unix : String → Exec W (Unit {0})
  pub connect_web_rtc : String → String → Exec (W × Forwarder) (Unit {0})
  pub await_ready : W × Forwarder → W × Forwarder
  pub close_web_rtc : W × Forwarder → W × Forwarder

-- The agent's process: the forwarder once it is made, and whether the control socket listens.
pub record Agent (W : Type 0) : Type 0 where
  pub world : W
  pub forwarder : Option Forwarder
  pub control_open : Bool

-- `ConnController`, with its forwarder's port
pub record ConnController : Type 0 where
  pub cvd : RemoteCvdLocator
  pub port : ℕ

-- `findOrConnRet`
pub record FindOrConnRet : Type 0 where
  pub status : ConnStatus
  pub controller : Option ConnController
  pub errors : List GoError

-- `State` and `Status`
abbrev status_now : ℕ → Forwarder → ConnStatus
status_now port f = record { adb = record { port = port; state = state_as_str f.state } }

module _ {W : Type 0} where
  abbrev pub on_world : {A : Type 0} → Exec W A → Exec (Agent W) A
  on_world m = zoom (λ a. a.world) (λ a w. record a { world = w }) m

  abbrev with_forwarder :
      {A : Type 0} → Exec (W × Forwarder) A → Option Forwarder → Exec (Agent W) A
  with_forwarder m none a = crash "nil pointer dereference" a
  with_forwarder m (some f) a =
      let (r, s) = m (a.world, f) in (r, record a { world = s.0; forwarder = some s.1 })

  abbrev on_forwarder : {A : Type 0} → Exec (W × Forwarder) A → Exec (Agent W) A
  on_forwarder m a = with_forwarder m a.forwarder a

  abbrev stopped_as : Result Forwarder → Exec (W × Forwarder) (Unit {0})
  stopped_as (ok g) s = (ok tt, (s.0, g))
  stopped_as (err e) s = (err e, s)
  stopped_as (panic p) s = (panic p, s)

  -- `tc.adbForwarder.StopForwarding(state)`
  abbrev stop_adb : FwdState → Exec (Agent W) (Unit {0})
  stop_adb state = on_forwarder (λ s. stopped_as (stop_forwarding state s.1) s)

  -- `OnError` and `OnFailure`
  unfoldable pub on_failure : Exec (Agent W) (Unit {0})
  on_failure = stop_adb failed

  -- `OnClose`
  unfoldable pub on_close : Exec (Agent W) (Unit {0})
  on_close = stop_adb stopped

  -- `Stop`
  unfoldable pub stop : Exec (Agent W) (Unit {0})
  stop = do stop_adb stopped; (λ a. (ok tt, record a { control_open = false }))

  -- `Status` of the agent's controller
  unfoldable pub status_of_controller : ConnController → Exec (Agent W) ConnStatus
  status_of_controller tc = on_forwarder (gets (λ s. status_now tc.port s.1))

module _ {W : Type 0} (os : Setup W) where
  -- `createLogger`
  unfoldable pub create_logger : String → RemoteCvdLocator → Exec W (Unit {0})
  create_logger control_dir dev w =
      wrapped "Failed to create log file"
        (os.open_log_file (
          logs_dir control_dir
          <> "/"
          <> itoa (os.now w)
          <> "_"
          <> dev.host
          <> "_"
          <> dev.name
          <> ".log"))
        w

  -- `NewForwarder`, with `bindTCPSocket`; the forwarder's port
  unfoldable pub make_forwarder : Exec (Agent W) ℕ
  make_forwarder = do
    port ←
        wrapped "Failed to bind to local"
          (wrapped "Error listening on local TCP port" (on_world (os.listen_tcp "127.0.0.1:")))
    (λ a. (ok port, record a { forwarder = some new_forwarder }))

  -- `createControlSocket`
  unfoldable pub create_control_socket : String → String → Exec (Agent W) (Unit {0})
  create_control_socket dir name = do
    wrapped "Failed to create control socket" (on_world (os.listen_unix (dir <> "/" <> name)))
    (λ a. (ok tt, record a { control_open = true }))

  -- What follows a control socket that could not be created.
  abbrev give_up : String → GoError → Exec (Agent W) (Unit {0})
  give_up name e = do
    stop_adb failed
    on_forwarder (λ s. (ok tt, os.close_web_rtc s))
    raise (wrap ("Control socket creation failed for \"" <> name <> "\"") e)

  -- `NewConnController`
  unfoldable pub new_conn_controller : String → RemoteCvdLocator → Exec (Agent W) ConnController
  new_conn_controller control_dir cvd = do
    on_world (create_logger control_dir cvd)
    port ← wrapped ("Failed to instantiate ADB forwarder for \"" <> cvd.name <> "\"") make_forwarder
    wrapped ("Failed to connect to \"" <> cvd.name <> "\"")
        (on_forwarder (os.connect_web_rtc cvd.host cvd.name))
    on_forwarder (λ s. (ok tt, os.await_ready s))
    status ← status_of_controller (record { cvd = cvd; port = port })
    on_error (create_control_socket control_dir (control_socket_name cvd status)) (give_up cvd.name)
    pure (record { cvd = cvd; port = port })

module _ {W C : Type 0} (net : Sockets W C) (marshal_status : StatusCmdRes → Result String) where
  abbrev marshaled_or_panic : Result String → Exec (Agent W) String
  marshaled_or_panic (ok msg) = pure msg
  marshaled_or_panic (err e) = crash ("Couldn't marshal status map: " <> error_text e)
  marshaled_or_panic (panic p) = crash p

  -- The `switch` of `handleControlCommand`
  unfoldable pub obey : ConnController → C → String → Exec (Agent W) (Unit {0})
  obey tc conn cmd =
      let reply : Exec (Agent W) (Unit {0}) = (do
        status ← status_of_controller tc
        msg ← marshaled_or_panic (marshal_status (record { cvd = tc.cvd; status = status }))
        logged (on_world (net.write conn msg))) in
      if str_eq cmd version_cmd
      then logged (on_world (net.write conn "1"))
      else if str_eq cmd status_cmd
      then reply
      else if str_eq cmd stop_cmd
      then stop
      else pure tt

  abbrev obeyed : ConnController → C → Result String → Exec (Agent W) (Unit {0})
  obeyed tc conn (ok cmd) = obey tc conn cmd
  obeyed tc conn (err e) = pure tt
  obeyed tc conn (panic p) = crash p

  -- `handleControlCommand`; an error of reading or writing is logged
  unfoldable pub handle_control_command : ConnController → C → Exec (Agent W) (Unit {0})
  handle_control_command tc conn a =
      let (r, w) = net.read conn 100 a.world in obeyed tc conn r (record a { world = w })

  -- `Run` behind its test, on what `Accept` gives while the control socket listens: a connection,
  -- or an error that is logged.
  unfoldable pub run : ConnController → List (Option C) → Exec (Agent W) (Unit {0})
  run tc [] = pure tt
  run tc (accepted ∷ more) =
      let served : C → Exec (Agent W) (Unit {0}) = (λ conn. do
        handle_control_command tc conn
        logged (on_world (net.close conn))
        run tc more) in
      let failed_accept = run tc more in
      λ a.
        if a.control_open
        then elim accepted [ some conn ↦ served conn a | none ↦ failed_accept a ]
        else (ok tt, a)

module _ {W C : Type 0} (net : Sockets W C) (parse_status : String → Result StatusCmdRes)
    (os : Setup W) where
  abbrev found_or_new :
      String → RemoteCvdLocator → List GoError → Option ConnStatus → Exec (Agent W) FindOrConnRet
  found_or_new control_dir cvd errors (some s) =
      pure (record { status = s; controller = none; errors = errors })
  found_or_new control_dir cvd errors none = do
    controller ←
        wrapped "Failed to create connection controller" (new_conn_controller os control_dir cvd)
    status ← status_of_controller controller
    pure (record { status = status; controller = some controller; errors = errors })

  -- `FindOrConnect`
  unfoldable pub find_or_connect : String → RemoteCvdLocator → Exec (Agent W) FindOrConnRet
  find_or_connect control_dir cvd = do
    l ← on_world (list_cvd_connections_by_host net parse_status control_dir cvd.host)
    found_or_new control_dir cvd l.1 (status_of cvd l.0)
