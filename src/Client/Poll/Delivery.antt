-- ===== src/Client/Poll/Delivery.antt =====
-- The messages of the device reach the sink in order, each once.
use mathlib.Core.List.{append_assoc}
use mathlib.Core.List.{append-nil}
use cloud_android_orchestrat.Errors.{GoError}
use cloud_android_orchestrat.Exec.{err, ok}
use cloud_android_orchestrat.Client.Poll.{
  PollStatus, blocked, go_on, sink_closed, max_consecutive_errors, next_interval, Message, Poll,
  after_reply, deliver, initial_poll, panicked, poll_round, polling,
}
use cloud_android_orchestrat.Prelude.{
  Bool-cases, ap, inl, inr, leb, Bool, List, [], arith, drop, length, map, refl, some, suc, sym,
  take, zero, ℕ, ◌++◌, ◌+◌, ◌∙◌, ◌∷◌, ◌≡◌, ◌≢◌, ◌≤◌, ◌⊎◌,
}

-- A message of the device.
abbrev pub device : {P : Type 0} → P → Message P
device p = record { message_type = "device_msg"; payload = some p }

-- What a server does that keeps a log of messages of the device and answers a poll with some that
-- start where the poll asks, and what then becomes of the poll.
pub data Polled {P : Type 0} (log : List P) : Poll P → Type 0 where
  begun : (receives : ℕ → Bool) → Polled log (initial_poll receives)
  replied :
      (s : Poll P) (n : ℕ) (stop : Bool)
      → s.status ≡ polling
      → Polled log s
      → Polled log (poll_round (ok (map device (take n (drop s.start log)))) stop s)
  failed :
      (s : Poll P) (e : GoError) (stop : Bool)
      → s.status ≡ polling
      → Polled log s
      → Polled log (poll_round (err e) stop s)

module _ {P : Type 0} where
  pub go_on_polling : (status : PollStatus) (x y : Poll P) → status ≡ polling → go_on status x y ≡ y
  go_on_polling polling x y e = refl
  go_on_polling sink_closed x y e = refl
  go_on_polling panicked x y e = absurd (ground arith)
  go_on_polling blocked x y e = absurd (ground arith)

  -- Messages of the device are delivered in order, up to one that is not received.
  deliver-device :
      (ps : List P) (s : Poll P)
      → s.status ≡ polling
      → (k : ℕ) × ((deliver (map device ps) s).start ≡ s.start + length (take k ps))
        × ((deliver (map device ps) s).sink ≡ s.sink ++ take k ps)
        × (((deliver (map device ps) s).status ≡ polling)
            ⊎ ((deliver (map device ps) s).status ≡ blocked))
  unfolding deliver
  deliver-device [] s e = (0, omega arith, sym (append-nil s.sink), inl e)
  deliver-device (p ∷ ps) s e = elim (Bool-cases (s.receives (length s.sink))) [
    | inr waits ↦ rw waits (0, omega arith, sym (append-nil s.sink), inr refl)
    | inl taken ↦
        let s' = record s { start = s.start + 1; sink = s.sink ++ p ∷ [] } in
        let (k, i, j, l) = deliver-device ps s' e in
        rw (taken, go_on_polling s.status s' (deliver (map device ps) s') e)
          (suc k, omega (arith, i), j ∙ append_assoc s.sink (p ∷ []) (take k ps), l)
  ]

  take_of_take : (k n : ℕ) (xs : List P) → (m : ℕ) × (take k (take n xs) ≡ take m xs)
  take_of_take zero n xs = (0, refl)
  take_of_take (suc k) zero xs = (0, refl)
  take_of_take (suc k) (suc n) [] = (0, refl)
  take_of_take (suc k) (suc n) (x ∷ xs) =
      let (m, e) = take_of_take k n xs in (suc m, ap (λ ys. x ∷ ys) e)

  -- The sink has the log up to the next start.
  IsInOrder : List P → Poll P → Type 0
  IsInOrder log s = (s.start ≤ length log) × (s.sink ≡ take s.start log) × (s.status ≢ panicked)

  take-length-take :
      (n : ℕ) (xs : List P)
      → (take (length (take n xs)) xs ≡ take n xs) × (length (take n xs) ≤ length xs)
  take-length-take zero xs = (refl, omega arith)
  take-length-take (suc n) [] = (refl, omega arith)
  take-length-take (suc n) (x ∷ xs) =
      let (e, le) = take-length-take n xs in (ap (λ ys. x ∷ ys) e, omega arith)

  take-take :
      (k n : ℕ) (xs : List P)
      → k ≤ length xs
      → (take k xs ++ take n (drop k xs) ≡ take (k + length (take n (drop k xs))) xs)
        × (k + length (take n (drop k xs)) ≤ length xs)
  take-take zero n xs h =
      let (e, le) = take-length-take n xs in
      let z : 0 + length (take n xs) ≡ length (take n xs) = omega arith in rw z (sym e, le)
  take-take (suc k) n [] h = absurd (omega arith)
  take-take (suc k) n (x ∷ xs) h =
      let (e, le) = take-take k n xs (omega arith) in
      let z : suc k + length (take n (drop k xs)) ≡ suc (k + length (take n (drop k xs))) =
        omega arith in
      rw z (ap (λ ys. x ∷ ys) e, omega arith)

  after_reply-IsInOrder :
      (log : List P) (n : ℕ) (stop : Bool) (s : Poll P)
      → s.status ≡ polling
      → IsInOrder log s
      → IsInOrder log (after_reply (map device (take n (drop s.start log))) stop s)
  unfolding IsInOrder
  after_reply-IsInOrder log n stop s e (le, sink, _) =
      let page = take n (drop s.start log) in
      let s1 = record s { poll_interval = next_interval (map device page) s.poll_interval } in
      let d = deliver (map device page) s1 in
      let (k, i, j, l) = deliver-device page s1 e in
      let (m, short) = take_of_take k n (drop s.start log) in
      let (t, b) = take-take s.start m log le in
      let i' : d.start ≡ s.start + length (take m (drop s.start log)) = rw (← short) i in
      let start_ok : d.start ≤ length log = omega arith in
      let sink_ok : d.sink ≡ take d.start log =
        j
        ∙ ap (λ ys. s.sink ++ ys) short
        ∙ ap (λ ys. ys ++ take m (drop s.start log)) sink
        ∙ t
        ∙ ap (λ m. take m log) (sym i') in
      let fine : d.status ≢ panicked =
        (λ q. elim l [ inl running ↦ absurd (ground arith) | inr waits ↦ absurd (ground arith) ]) in
      elim (Bool-cases stop) [
        | inl stops ↦ elim l [
          | inl running ↦ rw (stops, running) (start_ok, sink_ok, λ q. absurd (ground arith))
          | inr waits ↦ rw (stops, waits) (start_ok, sink_ok, λ q. absurd (ground arith))
        ]
        | inr goes ↦ rw goes (start_ok, sink_ok, fine)
      ]

  -- Polling a server that keeps a log of messages of the device, each with a payload, whatever errors
  -- occur, however many of them a reply holds, and wherever the receiver stops receiving: the poll
  -- does not panic, and its sink's receiver has received the messages of the log, in order and each
  -- once, up to the one that the next request would ask for.
  pub Polled-in_order :
      (log : List P) (s : Poll P)
      → Polled log s
      → (s.start ≤ length log) × (s.sink ≡ take s.start log) × (s.status ≢ panicked)
  unfolding IsInOrder poll_round
  Polled-in_order log s (begun receives) = (omega arith, refl, λ q. absurd (ground arith))
  Polled-in_order log s (replied s0 n stop e p) =
      after_reply-IsInOrder log n stop (record s0 { err_count = 0 }) e (Polled-in_order log s0 p)
  Polled-in_order log s (failed s0 x stop e p) =
      let (le, sink, fine) = Polled-in_order log s0 p in
      elim (Bool-cases (leb max_consecutive_errors (s0.err_count + 1))) [
        | inl many ↦ rw many (le, sink, λ q. absurd (ground arith))
        | inr few ↦ rw few (
            after_reply-IsInOrder log 0 stop (record s0 { err_count = s0.err_count + 1 }) e
              (Polled-in_order log s0 p))
      ]
