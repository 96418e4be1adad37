-- ===== src/Cli/Connections.antt =====
-- pkg/cli/conn.go: the control directory, whose sockets lead to the connection agents. The file
-- system and the sockets are parameters.
pub mod Listing
use cloud_android_orchestrat.Exec.{on_error}
use cloud_android_orchestrat.Text.{itoa}
use cloud_android_orchestrat.Errors.{GoError, wrap}
use cloud_android_orchestrat.Cli.Locators.{
  ConnStatus, RemoteCvdLocator, StatusCmdRes, Statuses, put_status,
}
use cloud_android_orchestrat.Exec.{
  Exec, Result, crash, deferring, err, lift, ok, panic, pure, wrapped, ◌>>=◌, ◌>>◌,
}
use cloud_android_orchestrat.Prelude.{
  Bool, List, String, [], if◌then◌else◌, str_eq, ℕ, ◌++◌, ◌<>◌, ◌∷◌,
}

-- An entry of `os.ReadDir`: its name, and `Type()&fs.ModeSocket != 0`
pub record DirEntry : Type 0 where
  pub name : String
  pub is_socket : Bool

-- The calls of `os` and `net`; `dial` has the network "unixpacket", and `read` at most so many
-- bytes.
pub record Sockets (W C : Type 0) : Type 0 where
  pub mkdir_all : String → Exec W (Unit {0})
  pub read_dir : String → Exec W (List DirEntry)
  pub dial : String → Exec W C
  pub write : C → String → Exec W (Unit {0})
  pub read : C → ℕ → Exec W String
  pub close : C → Exec W (Unit {0})

abbrev pub version_cmd : String
version_cmd = "version"

abbrev pub status_cmd : String
status_cmd = "status"

abbrev pub stop_cmd : String
stop_cmd = "stop"

-- `ControlSocketName`
unfoldable pub control_socket_name : RemoteCvdLocator → ConnStatus → String
control_socket_name cvd cs = itoa cs.adb.port <> ".sock"

-- `logsDir`
abbrev pub logs_dir : String → String
logs_dir control_dir = control_dir <> "/logs"

unfoldable pub of_host : String → Statuses → Statuses
of_host host [] = []
of_host host ((cvd, status) ∷ rest) =
    let kept = of_host host rest in if str_eq host cvd.host then (cvd, status) ∷ kept else kept

-- The statuses that were gathered, and the errors that `multierror.Append` collected.
abbrev gathered : Result StatusCmdRes → Statuses × List GoError → Statuses × List GoError
gathered (ok res) (statuses, merr) = (put_status res.cvd res.status statuses, merr)
gathered (err e) (statuses, merr) = (statuses, merr ++ e ∷ [])
gathered (panic p) acc = acc

module _ {W C : Type 0} (net : Sockets W C) (parse_status : String → Result StatusCmdRes) where
  -- `EnsureConnDirsExist`
  unfoldable ensure_conn_dirs_exist : String → Exec W (Unit {0})
  ensure_conn_dirs_exist control_dir = do
    wrapped ("Failed to create directory " <> control_dir) (net.mkdir_all control_dir)
    wrapped "Failed to create logs directory" (net.mkdir_all (logs_dir control_dir))

  -- `sendStatusCmd`
  unfoldable pub send_status_cmd : C → Exec W StatusCmdRes
  send_status_cmd conn = do
    wrapped "Failed to send status command" (net.write conn status_cmd)
    msg ← wrapped "Failed to read status command response" (net.read conn 512)
    wrapped "Failed to parse status command response" (lift (parse_status msg))

  -- `DisconnectCVD`; the connection is left open
  unfoldable pub disconnect_cvd : String → RemoteCvdLocator → ConnStatus → Exec W (Unit {0})
  disconnect_cvd control_dir cvd status = do
    conn ←
        wrapped ("Failed to connect to " <> cvd.host <> "/" <> cvd.name <> "'s agent")
          (net.dial (control_dir <> "/" <> control_socket_name cvd status))
    wrapped ("Failed to send stop command to " <> cvd.host <> "/" <> cvd.name)
        (net.write conn stop_cmd)

  -- What an agent answers on the socket of a path.
  unfoldable pub ask_agent : String → Exec W StatusCmdRes
  ask_agent path = do
    conn ← wrapped "Unable to contact connection agent" (net.dial path)
    deferring (net.close conn) (send_status_cmd conn)

  abbrev go_on :
      Result StatusCmdRes → Exec W (Statuses × List GoError) → Exec W (Statuses × List GoError)
  go_on (panic p) rest = crash p
  go_on (ok res) rest = rest
  go_on (err e) rest = rest

  -- The loop of `listCVDConnections`
  unfoldable pub gather :
      String → List DirEntry → Statuses × List GoError → Exec W (Statuses × List GoError)
  gather control_dir [] acc = pure acc
  gather control_dir (file ∷ entries) acc =
      if file.is_socket
      then (λ w.
          let (r, w') = ask_agent (control_dir <> "/" <> file.name) w in
          go_on r (gather control_dir entries (gathered r acc)) w')
      else gather control_dir entries acc

  abbrev listed : String → Result (List DirEntry) → Exec W (Statuses × List GoError)
  listed control_dir (ok entries) = gather control_dir entries ([], [])
  listed control_dir (err e) = pure ([], wrap ("Error reading " <> control_dir) e ∷ [])
  listed control_dir (panic p) = crash p

  -- `listCVDConnections`: what could be gathered is returned beside the errors.
  unfoldable pub list_cvd_connections : String → Exec W (Statuses × List GoError)
  list_cvd_connections control_dir w =
      let (r, w') = net.read_dir control_dir w in listed control_dir r w'

  -- `listCVDConnectionsByHost`
  unfoldable pub list_cvd_connections_by_host : String → String → Exec W (Statuses × List GoError)
  list_cvd_connections_by_host control_dir host = do
    l ← list_cvd_connections control_dir
    pure (of_host host l.0, l.1)
