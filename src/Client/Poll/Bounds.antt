-- ===== src/Client/Poll/Bounds.antt =====
-- Limits of the polling and of the forwarding.
use cloud_android_orchestrat.Exec.{Result, err, ok, panic}
use cloud_android_orchestrat.Prelude.{
  if◌then◌else◌, Bool-cases, inl, inr, leb, length, ℕ, ◌+◌, Bool, Option, arith, false, none, some,
  str_eq, true, ◌<◌, ◌∙◌, List, [], refl, ◌∷◌, ◌≡◌, ◌≤◌,
}
use cloud_android_orchestrat.Client.Poll.{
  next_interval, PollStatus, blocked, after_reply, go_on, max_consecutive_errors, panicked,
  poll_round, polling, sent_to_sink, sink_closed, Message, Poll, deliver, initial_poll_interval,
  max_poll_interval,
}

module _ {P : Type 0} where
  if_either : (Q : Poll P → Type 0) (b : Bool) (x y : Poll P) → Q x → Q y → Q (if b then x else y)
  if_either Q true x y p q = p
  if_either Q false x y p q = q

  go_on_either :
      (Q : Poll P → Type 0) (status : PollStatus) (x y : Poll P) → Q x → Q y → Q (go_on status x y)
  go_on_either Q polling x y p q = q
  go_on_either Q sink_closed x y p q = q
  go_on_either Q panicked x y p q = p
  go_on_either Q blocked x y p q = p

  -- The pace and the count of errors are no matter of the messages.
  Keeps : Poll P → Poll P → Type 0
  Keeps s t = (t.poll_interval ≡ s.poll_interval) × (t.err_count ≡ s.err_count)

  sent-Keeps : (p : Option P) (s : Poll P) → Keeps s (sent_to_sink p s)
  unfolding Keeps
  sent-Keeps none s = (refl, refl)
  sent-Keeps (some p) s =
      if_either (Keeps s) (s.receives (length s.sink)) _ _ (refl, refl) (refl, refl)

  Keeps-trans : (s t u : Poll P) → Keeps s t → Keeps t u → Keeps s u
  unfolding Keeps
  Keeps-trans s t u (a, b) (c, d) = (c ∙ a, d ∙ b)

  deliver-Keeps : (messages : List (Message P)) (s : Poll P) → Keeps s (deliver messages s)
  unfolding deliver Keeps
  deliver-Keeps [] s = (refl, refl)
  deliver-Keeps (m ∷ messages) s =
      let s' = sent_to_sink m.payload s in
      let k = sent-Keeps m.payload s in
      if_either (Keeps s) (str_eq m.message_type "device_msg") _ _
        (go_on_either (Keeps s) s'.status _ _ k
          (Keeps-trans s s' (deliver messages s') k (deliver-Keeps messages s')))
        (deliver-Keeps messages s)

  -- What holds of every poll that runs: the pace is between a tenth of a second and two seconds, and
  -- fewer than ten errors came in a row.
  unfoldable pub IsPaced : Poll P → Type 0
  IsPaced s =
      (initial_poll_interval ≤ s.poll_interval)
      × (s.poll_interval ≤ max_poll_interval)
      × (s.status ≡ polling → s.err_count < max_consecutive_errors)

  Limits : Poll P → Type 0
  Limits s =
      (initial_poll_interval ≤ s.poll_interval)
      × (s.poll_interval ≤ max_poll_interval)
      × (s.err_count < max_consecutive_errors)

  Limits-IsPaced : (s : Poll P) → Limits s → IsPaced s
  unfolding Limits IsPaced
  Limits-IsPaced s (lo, hi, few) = (lo, hi, λ e. few)

  next_interval-bounds :
      (messages : List (Message P)) (i : ℕ)
      → initial_poll_interval ≤ i
      → (initial_poll_interval ≤ next_interval messages i)
        × (next_interval messages i ≤ max_poll_interval)
  unfolding next_interval
  next_interval-bounds [] i h = ground arith
  next_interval-bounds (m ∷ messages) i h = (omega arith, omega arith)

  after_reply-Limits :
      (messages : List (Message P)) (stop : Bool) (s : Poll P)
      → initial_poll_interval ≤ s.poll_interval
      → s.err_count < max_consecutive_errors
      → Limits (after_reply messages stop s)
  unfolding Limits Keeps
  after_reply-Limits messages stop s lo few =
      let s1 = record s { poll_interval = next_interval messages s.poll_interval } in
      let d = deliver messages s1 in
      let (i, c) = deliver-Keeps messages s1 in
      let (lo', hi') = next_interval-bounds messages s.poll_interval lo in
      let l : Limits d = (rw i lo', rw i hi', rw c few) in
      if_either Limits stop _ _ (go_on_either Limits d.status _ _ l l) l

  -- Every round keeps the limits.
  pub poll_round-IsPaced :
      (reply : Result (List (Message P))) (stop : Bool) (s : Poll P)
      → s.status ≡ polling
      → IsPaced s
      → IsPaced (poll_round reply stop s)
  unfolding poll_round IsPaced
  poll_round-IsPaced (ok messages) stop s running (lo, hi, few) =
      Limits-IsPaced _
        (after_reply-Limits messages stop (record s { err_count = 0 }) lo (omega arith))
  poll_round-IsPaced (err e) stop s running (lo, hi, few) =
      elim (Bool-cases (leb max_consecutive_errors (s.err_count + 1))) [
        | inl many ↦ rw many (lo, hi, λ e. absurd (ground arith))
        | inr fine ↦ rw fine (
            Limits-IsPaced _ (
              after_reply-Limits [] stop (record s { err_count = s.err_count + 1 }) lo
                (ground arith)))
      ]
  poll_round-IsPaced (panic p) stop s running (lo, hi, few) = (lo, hi, λ e. absurd (ground arith))
