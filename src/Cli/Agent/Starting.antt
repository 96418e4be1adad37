-- ===== src/Cli/Agent/Starting.antt =====
-- When an agent is started, and what a failed start leaves.
use cloud_android_orchestrat.Cli.Forwarder.Reachability.{more, none_more, Steps}
use cloud_android_orchestrat.Cli.Forwarder.{after, begin, fails, failed, Reachable}
use cloud_android_orchestrat.Cli.Connections.Listing.{answers}
use cloud_android_orchestrat.Cli.Forwarder.Reachability.{Steps}
use cloud_android_orchestrat.Cli.Agent.Commands.{stop_forwarding-final_state}
use cloud_android_orchestrat.Text.{itoa}
use cloud_android_orchestrat.Cli.Connections.Listing.{
  failures, is_panic, last_status, list_cvd_connections_by_host_lem,
}
use cloud_android_orchestrat.Prelude.{
  All, List, String, arith, false, none, refl, some, str_eq_iff, true, ℕ, ◌<>◌, ◌≡◌,
}
use cloud_android_orchestrat.Cli.Locators.{ConnStatus, RemoteCvdLocator, StatusCmdRes, status_of}
use cloud_android_orchestrat.Errors.{GoError, wrap}
use cloud_android_orchestrat.Cli.Forwarder.Reachability.{
  FwdState-cases, Reachable-safe, Steps-final, is_final, is_open,
}
use cloud_android_orchestrat.Cli.Agent.{
  Agent, Setup, create_control_socket, create_logger, find_or_connect, make_forwarder,
  new_conn_controller, status_of_controller,
}
use cloud_android_orchestrat.Exec.{Result, err, ok}
use cloud_android_orchestrat.Cli.Connections.{DirEntry, Sockets, control_socket_name}
use cloud_android_orchestrat.Cli.Forwarder.{Forwarder, Reachable, after, begin, new_forwarder}

module _ {W C : Type 0} (net : Sockets W C) (parse_status : String → Result StatusCmdRes)
    (os : Setup W) where
  -- Where the control directory can be read and no answer of an agent is a panic, a device that an
  -- agent answers for is not connected again: its status is returned without a controller, beside the
  -- errors of the agents that could not be asked, and no forwarder is made.
  pub find_or_connect_found :
      (control_dir : String) (cvd : RemoteCvdLocator) (entries : List DirEntry) (a : Agent W)
      (v : W) (s : ConnStatus)
      → net.read_dir control_dir a.world ≡ (ok entries, v)
      → All (λ r. is_panic r ≡ false) (answers net parse_status control_dir entries v)
      → last_status cvd (answers net parse_status control_dir entries v) none ≡ some s
      → ((find_or_connect net parse_status os control_dir cvd a).0
          ≡ ok (record {
            status = s;
            controller = none;
            errors = failures (answers net parse_status control_dir entries v);
          }))
        × ((find_or_connect net parse_status os control_dir cvd a).1.forwarder ≡ a.forwarder)
        × ((find_or_connect net parse_status os control_dir cvd a).1.control_open ≡ a.control_open)
  unfolding find_or_connect
  find_or_connect_found control_dir cvd entries a v s readable calm last =
      let (found, listed, status) =
        list_cvd_connections_by_host_lem net parse_status control_dir cvd.host entries a.world v
          readable calm in
      let same = (str_eq_iff cvd.host cvd.host).1 refl in
      let known : status_of cvd found ≡ some s = (rw (same, last) at (status cvd)) in
      rw (listed, known) (refl, refl, refl)

-- What is relied on of the calls that set a controller up: to a forwarder they do what its callbacks
-- and goroutines can do, and when it is ready its data channel is known.
pub record SetupLaws {W : Type 0} (os : Setup W) : Type 0 where
  pub connects :
      (host name : String) (w : W) (f : Forwarder)
      → Steps f (os.connect_web_rtc host name (w, f)).1.1
  pub awaits : (w : W) (f : Forwarder) → Steps f (os.await_ready (w, f)).1
  pub closes_conn : (w : W) (f : Forwarder) → Steps f (os.close_web_rtc (w, f)).1
  pub is_attached : (w : W) (f : Forwarder) → (os.await_ready (w, f)).1.has_dc ≡ true

Steps-Reachable : {f g : Forwarder} → Reachable f → Steps f g → Reachable g
Steps-Reachable r none_more = r
Steps-Reachable r (more t u) = after (Steps-Reachable r t) u

module _ {W : Type 0} (os : Setup W) (laws : SetupLaws os) where
  -- An agent whose control socket cannot be created, after it was connected and its forwarder got
  -- ready, fails with that error and leaves a forwarder that has failed or is stopped, with its
  -- listener closed and no open connection, and no control socket.
  pub new_conn_controller_refused :
      (control_dir : String) (cvd : RemoteCvdLocator) (a : Agent W) (u v x z : W) (port : ℕ)
      (f : Forwarder) (e : GoError)
      → a.control_open ≡ false
      → create_logger os control_dir cvd a.world ≡ (ok tt, u)
      → os.listen_tcp "127.0.0.1:" u ≡ (ok port, v)
      → os.connect_web_rtc cvd.host cvd.name (v, new_forwarder) ≡ (ok tt, (x, f))
      → os.listen_unix (control_dir <> "/" <> itoa port <> ".sock") (os.await_ready (x, f)).0
        ≡ (err e, z)
      → (g : Forwarder) × ((new_conn_controller os control_dir cvd a).0
          ≡ err (
              wrap
                ("Control socket creation failed for \"" <> cvd.name <> "\"")
                (wrap "Failed to create control socket" e)))
        × ((new_conn_controller os control_dir cvd a).1.forwarder ≡ some g)
        × ((new_conn_controller os control_dir cvd a).1.control_open ≡ false)
        × (is_final g.state ≡ true)
        × (g.listener_open ≡ false)
        × (is_open g.conn ≡ false)
  unfolding new_conn_controller make_forwarder create_control_socket status_of_controller
      control_socket_name
  new_conn_controller_refused control_dir cvd a u v x z port f e shut log tcp conn_made denied =
      let at_ready = (os.await_ready (x, f)).1 in
      let (failed_f, ended, state) =
        stop_forwarding-final_state at_ready failed (laws.is_attached x f) in
      let g = (os.close_web_rtc (z, failed_f)).1 in
      let reach : Reachable failed_f =
        after
          (Steps-Reachable
            (Steps-Reachable begin
              (rw conn_made at (laws.connects cvd.host cvd.name v new_forwarder)))
            (laws.awaits x f))
          (fails ended) in
      let final =
        Steps-final failed_f g (ground (arith, FwdState-cases failed_f.state))
          (laws.closes_conn z failed_f) in
      let (safe, _, _, _) =
        Reachable-safe g (Steps-Reachable reach (laws.closes_conn z failed_f)) in
      (
        g,
        rw (log, tcp, conn_made, denied, ended) refl,
        rw (log, tcp, conn_made, denied, ended) refl,
        rw (log, tcp, conn_made, denied, ended) shut,
        final,
        (safe final).0,
        (safe final).1,
      )
