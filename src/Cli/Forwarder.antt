-- ===== src/Cli/Forwarder.antt =====
-- pkg/cli/conn.go: the forwarder between a local TCP server and a WebRTC data channel, as the steps
-- of its goroutines and callbacks. Each step is what runs under the state's mutex, or between two
-- calls of the network.
pub mod Reachability
use cloud_android_orchestrat.Exec.{Result, ok, panic}
use cloud_android_orchestrat.Prelude.{
  Bool, List, Option, String, [], false, if◌then◌else◌, none, some, suc, true, zero, ℕ, ◌+◌, ◌-◌,
  ◌<◌, ◌∷◌, ◌≡◌,
}

-- `FwdInitializing` and so on
pub data FwdState : Type 0 where
  initializing : FwdState
  ready : FwdState
  connected : FwdState
  stopped : FwdState
  failed : FwdState

-- `StateAsStr`
unfoldable pub state_as_str : FwdState → String
state_as_str initializing = "initializing"
state_as_str ready = "ready"
state_as_str connected = "connected"
state_as_str stopped = "stopped"
state_as_str failed = "failed"

-- `f.conn`: nil, open or closed
pub data Conn : Type 0 where
  no_conn : Conn
  open_conn : Conn
  closed_conn : Conn

-- Where `acceptLoop` stands: not started, before its first test, in `Accept`, before
-- `setConnection` with a connection that is not yet stored, in `recvLoop`, behind it, returned.
pub data Loop : Type 0 where
  not_started : Loop
  starting : Loop
  accepting : Loop
  received : Loop
  receiving : Loop
  returning : Loop
  returned : Loop

-- `pending_ready` counts the callbacks that have yet to close `readyCh`, if it is not closed.
pub record Forwarder : Type 0 where
  pub has_dc : Bool
  pub state : FwdState
  pub listener_open : Bool
  pub conn : Conn
  pub loop : Loop
  pub loops : ℕ
  pub pending_ready : ℕ
  pub ready_ch_closed : Bool
  pub ready_closes : ℕ

-- `NewForwarder`, when a socket could be bound
abbrev pub new_forwarder : Forwarder
new_forwarder = record {
  has_dc = false;
  state = initializing;
  listener_open = true;
  conn = no_conn;
  loop = not_started;
  loops = 0;
  pending_ready = 0;
  ready_ch_closed = false;
  ready_closes = 0;
}

abbrev pub same_state : FwdState → FwdState → Bool
same_state initializing initializing = true
same_state ready ready = true
same_state connected connected = true
same_state stopped stopped = true
same_state failed failed = true
same_state _ _ = false

-- `compareAndSwapState`
unfoldable pub compare_and_swap_state :
    FwdState → FwdState → Forwarder → (Bool × FwdState) × Forwarder
compare_and_swap_state old new f =
    if same_state f.state old
    then ((true, old), record f { state = new })
    else ((false, f.state), f)

abbrev pub close_conn : Conn → Conn
close_conn no_conn = no_conn
close_conn open_conn = closed_conn
close_conn closed_conn = closed_conn

-- `setConnection`
unfoldable pub set_connection : Forwarder → Bool × Forwarder
set_connection f =
    if same_state f.state ready
    then (true, record f { conn = open_conn; state = connected })
    else (false, f)

-- `StopForwarding`; `f.dc.Close()` without a data channel reads a nil pointer
unfoldable pub stop_forwarding : FwdState → Forwarder → Result Forwarder
stop_forwarding state f =
    if same_state f.state state
    then ok f
    else if f.has_dc
    then ok (record f { state = state; listener_open = false; conn = close_conn f.conn })
    else panic "nil pointer dereference"

-- The callback of the data channel's opening.
unfoldable pub on_open : Forwarder → Forwarder
on_open f =
    let (set, f') = compare_and_swap_state initializing ready f in
    if set.0
    then record f' { loop = starting; loops = f.loops + 1; pending_ready = f.pending_ready + 1 }
    else f

-- `if f.readyChClosed.CompareAndSwap(false, true) { close(f.readyCh) }`
unfoldable pub close_ready_ch : Forwarder → Forwarder
close_ready_ch f =
    if f.ready_ch_closed then record f { pending_ready = f.pending_ready - 1 } else record f {
      pending_ready = f.pending_ready - 1;
      ready_ch_closed = true;
      ready_closes = f.ready_closes + 1;
    }

-- `return` of `acceptLoop`, behind its `defer`
abbrev leave_loop : Forwarder → Forwarder
leave_loop f = record f { loop = returned; listener_open = false }

-- The first test of `acceptLoop`, which stands before the `defer`.
unfoldable pub start_loop : Forwarder → Forwarder
start_loop f =
    let (set, f') = compare_and_swap_state ready ready f in
    if set.0 then record f' { loop = accepting } else record f { loop = returned }

-- A connection that was accepted is stored, or closed when forwarding was stopped.
unfoldable pub take_connection : Forwarder → Forwarder
take_connection f =
    let (set, f') = set_connection f in if set then record f' { loop = receiving } else leave_loop f

-- `recvLoop` returns: its `defer` closes the connection.
unfoldable pub end_receiving : Forwarder → Forwarder
end_receiving f = record f { loop = returning; conn = close_conn f.conn }

-- The loop goes on unless the state was changed.
unfoldable pub next_connection : Forwarder → Forwarder
next_connection f =
    let (set, f') = compare_and_swap_state connected ready f in
    if set.0 then record f' { loop = accepting } else leave_loop f

-- One step of a goroutine or a callback.
pub data Step (f : Forwarder) : Forwarder → Type 0 where
  data_channel : f.has_dc ≡ false → Step f (record f { has_dc = true })
  opens : f.has_dc ≡ true → Step f (on_open f)
  closes :
      {g : Forwarder}
      → f.has_dc ≡ true
      → stop_forwarding failed f ≡ ok g
      → Step f (record g { pending_ready = g.pending_ready + 1 })
  stops : {g : Forwarder} → stop_forwarding stopped f ≡ ok g → Step f g
  fails : {g : Forwarder} → stop_forwarding failed f ≡ ok g → Step f g
  signals : 0 < f.pending_ready → Step f (close_ready_ch f)
  starts : f.loop ≡ starting → Step f (start_loop f)
  accepts : f.loop ≡ accepting → Step f (record f { loop = received })
  accept_fails : f.loop ≡ accepting → Step f (leave_loop f)
  takes : f.loop ≡ received → Step f (take_connection f)
  ends : f.loop ≡ receiving → Step f (end_receiving f)
  goes_on : f.loop ≡ returning → Step f (next_connection f)

pub data Reachable : Forwarder → Type 0 where
  begin : Reachable new_forwarder
  after : {f g : Forwarder} → Reachable f → Step f g → Reachable g
