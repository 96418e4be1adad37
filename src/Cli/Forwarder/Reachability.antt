-- ===== src/Cli/Forwarder/Reachability.antt =====
-- What holds of a forwarder however its goroutines and callbacks are interleaved.
use cloud_android_orchestrat.Exec.{ok}
use cloud_android_orchestrat.Cli.Forwarder.{
  Reachable, after, begin, not_started, receiving, returning, same_state, failed,
}
use cloud_android_orchestrat.Cli.Forwarder.{
  closes, Conn, Forwarder, FwdState, Step, accept_fails, accepts, close_ready_ch, closed_conn,
  compare_and_swap_state, connected, data_channel, end_receiving, ends, fails, goes_on,
  initializing, next_connection, no_conn, on_open, open_conn, opens, ready, set_connection, signals,
  start_loop, starts, stop_forwarding, stopped, stops, take_connection, takes,
}
use cloud_android_orchestrat.Prelude.{
  Bool-cases, ◌≤◌, Bool, arith, false, if◌then◌else◌, inl, inr, refl, true, ◌≡◌, ◌⊎◌,
}

abbrev pub is_final : FwdState → Bool
is_final stopped = true
is_final failed = true
is_final _ = false

unfoldable pub is_open : Conn → Bool
is_open no_conn = false
is_open open_conn = true
is_open closed_conn = false

pub FwdState-cases :
    (s : FwdState)
    → (s ≡ initializing) ⊎ (s ≡ ready) ⊎ (s ≡ connected) ⊎ (s ≡ stopped) ⊎ (s ≡ failed)
FwdState-cases initializing = inl refl
FwdState-cases ready = inr (inl refl)
FwdState-cases connected = inr (inr (inl refl))
FwdState-cases stopped = inr (inr (inr (inl refl)))
FwdState-cases failed = inr (inr (inr (inr refl)))

Conn-cases : (c : Conn) → (c ≡ no_conn) ⊎ (c ≡ open_conn) ⊎ (c ≡ closed_conn)
Conn-cases no_conn = inl refl
Conn-cases open_conn = inr (inl refl)
Conn-cases closed_conn = inr (inr refl)

-- The channel that tells of the end of the preparation is closed at most once.
IsSignalled : Forwarder → Type 0
IsSignalled f = f.ready_closes ≡ (if f.ready_ch_closed then 1 else 0)

Step-IsSignalled : {f g : Forwarder} → IsSignalled f → Step f g → IsSignalled g
unfolding IsSignalled on_open stop_forwarding close_ready_ch start_loop take_connection
    end_receiving next_connection compare_and_swap_state set_connection
Step-IsSignalled s (data_channel e) = s
Step-IsSignalled {f} s (opens e) = ground (arith, FwdState-cases f.state)
Step-IsSignalled {f} s (closes d e) = ground arith
Step-IsSignalled {f} s (stops e) = ground arith
Step-IsSignalled {f} s (fails e) = ground arith
Step-IsSignalled {f} s (signals e) = ground arith
Step-IsSignalled {f} s (starts e) = ground arith
Step-IsSignalled {f} s (accepts e) = s
Step-IsSignalled {f} s (accept_fails e) = s
Step-IsSignalled {f} s (takes e) = ground arith
Step-IsSignalled {f} s (ends e) = s
Step-IsSignalled {f} s (goes_on e) = ground arith

-- What relates the state, the accept loop and the stored connection.
IsSafe : Forwarder → Type 0
IsSafe f =
    (is_final f.state ≡ true → f.listener_open ≡ false)
    × (is_open f.conn ≡ true → (f.state ≡ connected) × (f.loop ≡ receiving))
    × (f.state ≡ connected → (f.loop ≡ receiving) ⊎ (f.loop ≡ returning))
    × (f.state ≡ initializing → (f.loop ≡ not_started) × (f.loops ≡ 0))
    × (f.loops ≤ 1)

stop_forwarding-IsSafe :
    (f g : Forwarder) (s : FwdState)
    → is_final s ≡ true
    → IsSafe f
    → stop_forwarding s f ≡ ok g
    → IsSafe g
unfolding IsSafe stop_forwarding is_open
stop_forwarding-IsSafe f g s final (l, o, c, i, n) e = elim (Bool-cases (same_state f.state s)) [
  | inl same ↦ ground (arith)
  | inr other ↦ ground (arith, Conn-cases f.conn, FwdState-cases s)
]

Step-IsSafe : {f g : Forwarder} → IsSafe f → Step f g → IsSafe g
unfolding IsSafe is_open on_open start_loop take_connection end_receiving next_connection
    close_ready_ch compare_and_swap_state set_connection
Step-IsSafe s (data_channel e) = s
Step-IsSafe {f} (l, o, c, i, n) (opens e) = ground (arith, FwdState-cases f.state)
Step-IsSafe {f} s (closes {g = g} d e) = stop_forwarding-IsSafe f g failed refl s e
Step-IsSafe {f} s (stops {g = g} e) = stop_forwarding-IsSafe f g stopped refl s e
Step-IsSafe {f} s (fails {g = g} e) = stop_forwarding-IsSafe f g failed refl s e
Step-IsSafe {f} s (signals e) = elim (Bool-cases f.ready_ch_closed) [
  | inl closed ↦ rw closed s
  | inr first ↦ rw first s
]
Step-IsSafe {f} (l, o, c, i, n) (starts e) = ground (arith, FwdState-cases f.state)
Step-IsSafe {f} (l, o, c, i, n) (accepts e) = ground (arith, FwdState-cases f.state)
Step-IsSafe {f} (l, o, c, i, n) (accept_fails e) = ground (arith, FwdState-cases f.state)
Step-IsSafe {f} (l, o, c, i, n) (takes e) = ground (arith, FwdState-cases f.state)
Step-IsSafe {f} (l, o, c, i, n) (ends e) = ground (arith, FwdState-cases f.state, Conn-cases f.conn)
Step-IsSafe {f} (l, o, c, i, n) (goes_on e) = ground (arith, FwdState-cases f.state)

Reachable-IsSafe : {f : Forwarder} → Reachable f → IsSafe f
unfolding IsSafe is_open
Reachable-IsSafe begin = ground arith
Reachable-IsSafe (after r s) = Step-IsSafe (Reachable-IsSafe r) s

Reachable-IsSignalled : {f : Forwarder} → Reachable f → IsSignalled f
unfolding IsSignalled
Reachable-IsSignalled begin = refl
Reachable-IsSignalled (after r s) = Step-IsSignalled (Reachable-IsSignalled r) s

-- However the accept loop, the callbacks of the data channel and the calls that stop the forwarder
-- are interleaved: once it is stopped or has failed, its listener is closed and it keeps no open
-- connection; a connection is kept open only while it is connected; and the accept loop is started
-- at most once, and the channel that tells that it is ready closed at most once.
pub Reachable-safe :
    (f : Forwarder)
    → Reachable f
    → (is_final f.state ≡ true → (f.listener_open ≡ false) × (is_open f.conn ≡ false))
      × (is_open f.conn ≡ true → f.state ≡ connected)
      × (f.loops ≤ 1)
      × (f.ready_closes ≤ 1)
unfolding IsSafe IsSignalled
Reachable-safe f r =
    let (l, o, c, i, n) = Reachable-IsSafe r in
    let m = Reachable-IsSignalled r in
    (
      λ final. (
        l final,
        elim (Bool-cases (is_open f.conn)) [
          | inl open_still ↦ let (k, _) = o open_still in absurd (ground (arith))
          | inr shut ↦ shut
        ],
      ),
      λ q. (o q).0,
      n,
      ground arith,
    )

-- Any number of steps.
pub data Steps (f : Forwarder) : Forwarder → Type 0 where
  none_more : Steps f f
  more : {g h : Forwarder} → Steps f g → Step g h → Steps f h

stop_forwarding-final :
    (f g : Forwarder) (s : FwdState)
    → is_final s ≡ true
    → stop_forwarding s f ≡ ok g
    → is_final g.state ≡ true
unfolding stop_forwarding
stop_forwarding-final f g s final e = ground (arith, FwdState-cases f.state, FwdState-cases s)

Step-final : {f g : Forwarder} → is_final f.state ≡ true → Step f g → is_final g.state ≡ true
unfolding on_open start_loop take_connection end_receiving next_connection close_ready_ch
    compare_and_swap_state set_connection
Step-final s (data_channel e) = s
Step-final {f} s (opens e) = ground (arith, FwdState-cases f.state)
Step-final {f} s (closes {g = g} d e) = stop_forwarding-final f g failed refl e
Step-final {f} s (stops {g = g} e) = stop_forwarding-final f g stopped refl e
Step-final {f} s (fails {g = g} e) = stop_forwarding-final f g failed refl e
Step-final {f} s (signals e) = ground arith
Step-final {f} s (starts e) = ground (arith, FwdState-cases f.state)
Step-final {f} s (accepts e) = s
Step-final {f} s (accept_fails e) = s
Step-final {f} s (takes e) = ground (arith, FwdState-cases f.state)
Step-final {f} s (ends e) = s
Step-final {f} s (goes_on e) = ground (arith, FwdState-cases f.state)

-- A forwarder that was stopped or has failed is never ready or connected again, whatever follows.
pub Steps-final : (f g : Forwarder) → is_final f.state ≡ true → Steps f g → is_final g.state ≡ true
Steps-final f g s none_more = s
Steps-final f g s (more t u) = Step-final (Steps-final f _ s t) u
