-- ===== src/Cli/Agent/Commands.antt =====
-- What the commands of a control socket do.
use cloud_android_orchestrat.Cli.Locators.{StatusCmdRes}
use cloud_android_orchestrat.Cli.Connections.{Sockets, stop_cmd}
use cloud_android_orchestrat.Cli.Forwarder.Reachability.{FwdState-cases}
use cloud_android_orchestrat.Exec.{Result-cases, Result, ok, panic}
use cloud_android_orchestrat.Cli.Forwarder.{
  FwdState, close_conn, Forwarder, same_state, stop_forwarding, stopped,
}
use cloud_android_orchestrat.Cli.Agent.{
  Agent, ConnController, handle_control_command, obey, run, stop,
}
use cloud_android_orchestrat.Prelude.{
  [], Bool-cases, List, Option, String, arith, false, inl, inr, refl, some, true, ◌∷◌, ◌≡◌, ◌≢◌,
}

pub stop_forwarding-final_state :
    (f : Forwarder) (state : FwdState)
    → f.has_dc ≡ true
    → (g : Forwarder) × (stop_forwarding state f ≡ ok g) × (same_state g.state state ≡ true)
unfolding stop_forwarding
stop_forwarding-final_state f state dc = elim (Bool-cases (same_state f.state state)) [
  | inl same ↦ (f, rw same refl, same)
  | inr other ↦ (
    record f { state = state; listener_open = false; conn = close_conn f.conn },
    rw (other, dc) refl,
    ground (arith, FwdState-cases state),
  )
]

module _ {W C : Type 0} (net : Sockets W C) (marshal_status : StatusCmdRes → Result String) where
  run_closed :
      (tc : ConnController) (more : List (Option C)) (a : Agent W)
      → a.control_open ≡ false
      → run net marshal_status tc more a ≡ (ok tt, a)
  unfolding run
  run_closed tc [] a closed = refl
  run_closed tc (accepted ∷ more) a closed = rw closed refl

  -- What a stop command leaves.
  abbrev pub after_stop : Forwarder → W → Agent W
  after_stop g w = record { world = w; forwarder = some g; control_open = false }

  handle_control_command-stop :
      (tc : ConnController) (conn : C) (a : Agent W) (f g : Forwarder) (w : W)
      → a.forwarder ≡ some f
      → stop_forwarding stopped f ≡ ok g
      → net.read conn 100 a.world ≡ (ok stop_cmd, w)
      → handle_control_command net marshal_status tc conn a ≡ (ok tt, after_stop g w)
  unfolding handle_control_command obey stop
  handle_control_command-stop tc conn a f g w has e read = rw (read, has, e) refl

  -- A stop command that is read on the control socket of an agent whose data channel is known ends
  -- its loop: the forwarder is stopped, the socket closed, and nothing that would be accepted behind
  -- it is served.
  pub run_stops :
      (tc : ConnController) (conn : C) (more : List (Option C)) (a : Agent W) (f : Forwarder)
      (w : W)
      → a.control_open ≡ true
      → a.forwarder ≡ some f
      → f.has_dc ≡ true
      → net.read conn 100 a.world ≡ (ok stop_cmd, w)
      → ((p : String) → (net.close conn w).0 ≢ panic p)
      → (g : Forwarder) × (same_state g.state stopped ≡ true)
        × (run net marshal_status tc (some conn ∷ more) a
            ≡ (ok tt, after_stop g (net.close conn w).1))
  unfolding run
  run_stops tc conn more a f w listens has dc read calm =
      let (g, e, s) = stop_forwarding-final_state f stopped dc in
      let handled = handle_control_command-stop tc conn a f g w has e read in
      let ended = run_closed tc more (after_stop g (net.close conn w).1) refl in
      elim (Result-cases (net.close conn w).0) [
        | inl (u, c) ↦ (g, s, rw (handled, listens, c) ended)
        | inr (inl (x, c)) ↦ (g, s, rw (handled, listens, c) ended)
        | inr (inr (p, c)) ↦ absurd (calm p c)
      ]
