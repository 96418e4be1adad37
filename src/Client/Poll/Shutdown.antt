-- ===== src/Client/Poll/Shutdown.antt =====
-- The end of a connection's signaling (pkg/client/client.go): the forwarding, and the polling
-- behind it.
use cloud_android_orchestrat.Prelude.{
  All, Bool, Bool-cases, Option-cases, List, String, [], arith, false, inl, inr, leb, length, none,
  not, refl, str_eq, true, ℕ, ◌++◌, ◌+◌, ◌∷◌, ◌≡◌, ◌≢◌, ◌⊎◌,
}
use cloud_android_orchestrat.Exec.{Exec, Result, err, ok, panic}
use cloud_android_orchestrat.Client.Poll.{
  Message, Poll, PollStatus, after_reply, blocked, deliver, next_interval, initial_poll,
  max_consecutive_errors, panicked, poll_round, polling, sink_closed,
}
use cloud_android_orchestrat.Client.Poll.Handling.{
  init_handling, poll_loop, rounds_of, while_polling,
}
use cloud_android_orchestrat.Client.Poll.Delivery.{device, go_on_polling}
use cloud_android_orchestrat.Client.Poll.Forwarding.{web_rtc_forward_stops}

module _ {P : Type 0} where
  -- Every message of the device carries a payload.
  unfoldable pub IsDelivered : Message P → Type 0
  IsDelivered m = (str_eq m.message_type "device_msg" ≡ true) → m.payload ≢ none

  -- A reply that makes no poll panic.
  unfoldable pub IsCalm : Result (List (Message P)) → Type 0
  IsCalm (ok messages) = All IsDelivered messages
  IsCalm (err e) = Unit
  IsCalm (panic p) = ⊥

  -- The sink's receiver receives all messages that are sent.
  unfoldable pub TakesAll : Poll P → Type 0
  TakesAll s = (n : ℕ) → s.receives n ≡ true

  deliver-polling :
      (messages : List (Message P)) (s : Poll P)
      → All IsDelivered messages
      → TakesAll s
      → s.status ≡ polling
      → ((deliver messages s).status ≡ polling) × TakesAll (deliver messages s)
  unfolding deliver IsDelivered TakesAll
  deliver-polling [] s h t e = (e, t)
  deliver-polling (m ∷ messages) s (d, h) t e =
      elim (Bool-cases (str_eq m.message_type "device_msg")) [
        | inr other ↦ rw other (deliver-polling messages s h t e)
        | inl of_device ↦ elim (Option-cases m.payload) [
          | inl missing ↦ absurd (d of_device missing)
          | inr (p, f) ↦
              let s' = record s { start = s.start + 1; sink = s.sink ++ p ∷ [] } in
              rw
                (of_device, f, t (length s.sink), go_on_polling s.status s' (deliver messages s') e)
                (deliver-polling messages s' h t e)
        ]
      ]

  after_reply-calm :
      (messages : List (Message P)) (stop : Bool) (s : Poll P)
      → All IsDelivered messages
      → TakesAll s
      → s.status ≡ polling
      → ((after_reply messages stop s).status ≡ sink_closed)
        ⊎ (((after_reply messages stop s).status ≡ polling)
            × TakesAll (after_reply messages stop s)
            × (stop ≡ false))
  unfolding TakesAll
  after_reply-calm messages stop s h t e =
      let s1 = record s { poll_interval = next_interval messages s.poll_interval } in
      let (k, l) = deliver-polling messages s1 h t e in
      elim (Bool-cases stop) [
        | inl stops ↦ rw (stops, k) (inl refl)
        | inr goes ↦ rw goes (inr (k, l, refl))
      ]

  -- A calm reply leaves the poll running or closes the sink, and closes it where a stop is asked for.
  poll_round-calm :
      (reply : Result (List (Message P))) (stop : Bool) (s : Poll P)
      → IsCalm reply
      → TakesAll s
      → s.status ≡ polling
      → ((poll_round reply stop s).status ≡ sink_closed)
        ⊎ (((poll_round reply stop s).status ≡ polling)
            × TakesAll (poll_round reply stop s)
            × (stop ≡ false))
  unfolding poll_round IsCalm TakesAll
  poll_round-calm (ok messages) stop s h t e =
      after_reply-calm messages stop (record s { err_count = 0 }) h t e
  poll_round-calm (err x) stop s h t e =
      elim (Bool-cases (leb max_consecutive_errors (s.err_count + 1))) [
        | inl many ↦ rw many (inl refl)
        | inr few ↦
            rw few (after_reply-calm [] stop (record s { err_count = s.err_count + 1 }) tt t e)
      ]
  poll_round-calm (panic p) stop s h t e = absurd h

  while_polling-running :
      (status : PollStatus) (s continued : Poll P)
      → status ≡ polling
      → while_polling status s continued ≡ continued
  while_polling-running polling s continued e = refl
  while_polling-running sink_closed s continued e = absurd (ground arith)
  while_polling-running panicked s continued e = absurd (ground arith)
  while_polling-running blocked s continued e = absurd (ground arith)

  -- A loop that gets calm replies, and behind some one after which a stop is asked for, ends with
  -- its sink closed, if all that is sent is received.
  poll_loop-stops :
      (before behind : List (Result (List (Message P)))) (s : Poll P)
      → All IsCalm before
      → All IsCalm behind
      → behind ≢ []
      → TakesAll s
      → s.status ≡ polling
      → (poll_loop (rounds_of before behind true) s).status ≡ sink_closed
  unfolding poll_loop
  poll_loop-stops [] [] s c d some_left t e = absurd (some_left refl)
  poll_loop-stops [] (r ∷ behind) s c (d, ds) some_left t e =
      elim (poll_round-calm r true s d t e) [
        | inl closed ↦ rw closed refl
        | inr (goes, t', q) ↦ absurd (ground arith)
      ]
  poll_loop-stops (r ∷ before) behind s (c, cs) ds some_left t e =
      elim (poll_round-calm r false s c t e) [
        | inl closed ↦ rw closed refl
        | inr (goes, t', q) ↦
            let s' = poll_round r false s in
            let rest = poll_loop (rounds_of before behind true) s' in
            rw (while_polling-running s'.status s' rest goes)
              (poll_loop-stops before behind s' cs ds some_left t' goes)
      ]

  -- A message of another type.
  abbrev pub is_other : Message P → Bool
  is_other m = not (str_eq m.message_type "device_msg")

  deliver-blocked :
      (skipped rest : List (Message P)) (p : P) (s : Poll P)
      → All (λ m. is_other m ≡ true) skipped
      → s.receives (length s.sink) ≡ false
      → deliver (skipped ++ device p ∷ rest) s ≡ record s { status = blocked }
  unfolding deliver
  deliver-blocked [] rest p s h waits = rw waits refl
  deliver-blocked (m ∷ skipped) rest p s (o, h) waits =
      let other : str_eq m.message_type "device_msg" ≡ false = ground arith in
      rw other (deliver-blocked skipped rest p s h waits)

  -- Where the receiver receives no more, a reply with a message of the device that has a payload,
  -- alone or behind messages of other types, blocks the polling for good: whatever replies and
  -- requests to stop would follow, it stays blocked, delivers nothing more, and never closes the
  -- channel.
  pub poll_loop_blocks :
      (skipped rest : List (Message P)) (p : P) (stop : Bool)
      (rounds : List (Result (List (Message P)) × Bool)) (s : Poll P)
      → All (λ m. is_other m ≡ true) skipped
      → s.receives (length s.sink) ≡ false
      → let after = poll_loop ((ok (skipped ++ device p ∷ rest), stop) ∷ rounds) s in
        (after.status ≡ blocked) × (after.sink ≡ s.sink)
  unfolding poll_loop poll_round
  poll_loop_blocks skipped rest p stop rounds s h waits =
      let s1 = record s {
        err_count = 0;
        poll_interval = next_interval (skipped ++ device p ∷ rest) s.poll_interval;
      } in
      let e = deliver-blocked skipped rest p s1 h waits in
      elim (Bool-cases stop) [
        | inl stops ↦ rw (stops, e) (refl, refl)
        | inr goes ↦ rw (goes, e) (refl, refl)
      ]

-- When the requests and replies make nothing panic, the WebRTC client receives all that is sent to
-- it, and a reply comes after the forwarding has ended: the forwarding has closed the channel that
-- stops the polling, once, and the polling has closed the channel that the WebRTC client receives
-- from.
pub init_handling_ends :
    {W M P : Type 0} (post : M → Exec W (Unit {0})) (msgs : List M)
    (before behind : List (Result (List (Message P)))) (receives : ℕ → Bool) (w : W)
    → ((m : M) (v : W) (p : String) → (post m v).0 ≢ panic p)
    → ((n : ℕ) → receives n ≡ true)
    → All IsCalm before
    → All IsCalm behind
    → behind ≢ []
    → ((init_handling post msgs before behind receives w).forwarded.0 ≡ ok tt)
      × ((init_handling post msgs before behind receives w).forwarded.1.1 ≡ 1)
      × ((init_handling post msgs before behind receives w).polled.status ≡ sink_closed)
unfolding init_handling TakesAll
init_handling_ends post msgs before behind receives w calm all c d some_left =
    let (ended, once) = web_rtc_forward_stops post msgs w calm in
    (
      ended,
      once,
      rw once (poll_loop-stops before behind (initial_poll receives) c d some_left all refl),
    )
