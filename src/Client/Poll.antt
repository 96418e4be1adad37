-- ===== src/Client/Poll.antt =====
-- pkg/client/client.go: the polling and the forwarding of a WebRTC connection's signaling messages.
pub mod Delivery
pub mod Bounds
pub mod Forwarding
pub mod Handling
pub mod Shutdown
use cloud_android_orchestrat.Prelude.{if◌then◌else◌}
use cloud_android_orchestrat.Text.{itoa}
use cloud_android_orchestrat.Prelude.{
  Bool, List, Option, String, [], false, length, leb, ltb, none, some, str_eq, suc, true, zero, ℕ,
  ◌*◌, ◌++◌, ◌+◌, ◌<>◌, ◌∷◌,
}
use cloud_android_orchestrat.Exec.{Exec, Result, crash, err, ok, panic, pure, zoom, ◌>>=◌, ◌>>◌}

-- A message of a poll: its type, and its payload where that is a map.
pub record Message (P : Type 0) : Type 0 where
  pub message_type : String
  pub payload : Option P

pub data PollStatus : Type 0 where
  polling : PollStatus
  sink_closed : PollStatus
  panicked : PollStatus
  blocked : PollStatus

-- The variables of `webRTCPoll`, what its sink's receiver has received, and whether it still runs.
-- The sink has no buffer: a message is sent when it is received, and `receives n` says whether the
-- receiver ever receives its message number `n` (from 0); where it does not, the poll is blocked for
-- ever. Intervals are in milliseconds.
pub record Poll (P : Type 0) : Type 0 where
  pub start : ℕ
  pub poll_interval : ℕ
  pub err_count : ℕ
  pub sink : List P
  pub receives : ℕ → Bool
  pub status : PollStatus

abbrev pub initial_poll_interval : ℕ
initial_poll_interval = 100

abbrev pub max_poll_interval : ℕ
max_poll_interval = 2000

abbrev pub max_consecutive_errors : ℕ
max_consecutive_errors = 10

unfoldable poll_path : String → String → ℕ → String
poll_path host conn_id start =
    "/hosts/" <> host <> "/polled_connections/" <> conn_id <> "/messages?start=" <> itoa start

module _ {P : Type 0} where
  abbrev pub initial_poll : (ℕ → Bool) → Poll P
  initial_poll receives = record {
    start = 0;
    poll_interval = initial_poll_interval;
    err_count = 0;
    sink = [];
    receives = receives;
    status = polling;
  }

  unfoldable pub next_interval : List (Message P) → ℕ → ℕ
  next_interval [] interval =
      if ltb max_poll_interval (2 * interval) then max_poll_interval else 2 * interval
  next_interval (m ∷ messages) interval = initial_poll_interval

  -- `sinkCh <- message["payload"].(map[string]any)` and `start++`
  abbrev pub sent_to_sink : Option P → Poll P → Poll P
  sent_to_sink none s = record s { status = panicked }
  sent_to_sink (some p) s =
      if s.receives (length s.sink)
      then record s { start = s.start + 1; sink = s.sink ++ p ∷ [] }
      else record s { status = blocked }

  abbrev pub go_on : PollStatus → Poll P → Poll P → Poll P
  go_on panicked s continued = s
  go_on blocked s continued = s
  go_on _ s continued = continued

  -- The messages of a poll, one after the other.
  unfoldable pub deliver : List (Message P) → Poll P → Poll P
  deliver [] s = s
  deliver (m ∷ messages) s =
      let s' = sent_to_sink m.payload s in
      if str_eq m.message_type "device_msg"
      then go_on s'.status s' (deliver messages s')
      else deliver messages s

  -- What follows the request: the next interval, the messages, and the wait.
  abbrev pub after_reply : List (Message P) → Bool → Poll P → Poll P
  after_reply messages stop s =
      let s' =
        deliver messages (record s { poll_interval = next_interval messages s.poll_interval }) in
      if stop then go_on s'.status s' (record s' { status = sink_closed }) else s'

  -- A round of the loop: a reply, where a failed one has left no messages, and whether the forwarding goroutine asks for a stop after it.
  unfoldable pub poll_round : Result (List (Message P)) → Bool → Poll P → Poll P
  poll_round (err e) stop s =
      if leb max_consecutive_errors (s.err_count + 1)
      then record s { err_count = s.err_count + 1; status = sink_closed }
      else after_reply [] stop (record s { err_count = s.err_count + 1 })
  poll_round (ok messages) stop s = after_reply messages stop (record s { err_count = 0 })
  poll_round (panic p) stop s = record s { status = panicked }

module _ {W M : Type 0} (post : M → Exec W (Unit {0})) where
  abbrev tried : Result (Unit {0}) → Exec W Bool → Exec W Bool
  tried (ok u) again = pure true
  tried (err e) again = again
  tried (panic p) again = crash p

  -- A message is posted until that succeeds, at most so many times.
  unfoldable pub forward_message : ℕ → M → Exec W Bool
  forward_message zero msg w = (ok false, w)
  forward_message (suc attempts) msg w =
      let (r, w') = post msg w in tried r (forward_message attempts msg) w'

  -- `close(stopPollCh)`, where the state counts how often
  abbrev close_stop_poll : Exec (W × ℕ) (Unit {0})
  close_stop_poll (w, zero) = (ok tt, (w, 1))
  close_stop_poll (w, suc n) = (panic "close of closed channel", (w, suc n))

  abbrev after_message : Bool → Exec (W × ℕ) (Unit {0}) → Exec (W × ℕ) (Unit {0})
  after_message true rest = rest
  after_message false rest = close_stop_poll

  -- `webRTCForward`: the messages are those that the source gives before it is closed.
  unfoldable pub web_rtc_forward : List M → Exec (W × ℕ) (Unit {0})
  web_rtc_forward [] = close_stop_poll
  web_rtc_forward (msg ∷ msgs) = do
    sent ← zoom (λ s. s.0) (λ s w. (w, s.1)) (forward_message max_consecutive_errors msg)
    after_message sent (web_rtc_forward msgs)
