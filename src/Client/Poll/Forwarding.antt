-- ===== src/Client/Poll/Forwarding.antt =====
-- Forwarding stops the polling once; and what an unexpected message does to the polling.
use cloud_android_orchestrat.Client.Poll.Delivery.{device}
use cloud_android_orchestrat.Client.Poll.{
  Message, Poll, forward_message, initial_poll, max_consecutive_errors, poll_round, web_rtc_forward,
}
use cloud_android_orchestrat.Prelude.{
  Bool-cases, Bool, List, String, [], arith, false, inl, inr, refl, suc, true, zero, ℕ, ◌+◌, ◌∷◌,
  ◌≡◌, ◌≢◌, ◌≤◌,
}
use cloud_android_orchestrat.Exec.{Exec, Result-cases, ok, panic}

module _ {P : Type 0} where
  abbrev pub log_of_two : Message P → P → List (Message P)
  log_of_two m p = m ∷ device p ∷ []

  abbrev pub first_poll : Message P → P → (ℕ → Bool) → Poll P
  first_poll m p receives = poll_round (ok (log_of_two m p)) false (initial_poll receives)

module _ {W M : Type 0} (post : M → Exec W (Unit {0})) where
  -- A message is posted at most as often as there are attempts, and it counts as not sent only after
  -- all of them.
  forward_message-count :
      (count : W → ℕ) (attempts : ℕ) (msg : M) (w : W)
      → ((m : M) (v : W) → count (post m v).1 ≡ suc (count v))
      → (count (forward_message post attempts msg w).1 ≤ count w + attempts)
        × ((forward_message post attempts msg w).0 ≡ ok false
            → count (forward_message post attempts msg w).1 ≡ count w + attempts)
  unfolding forward_message
  forward_message-count count zero msg w c = (omega arith, λ e. omega arith)
  forward_message-count count (suc n) msg w c =
      let one_more = c msg w in
      let (le, all) = forward_message-count count n msg (post msg w).1 c in
      elim (Result-cases (post msg w).0) [
        | inl (u, e) ↦ rw e (omega arith, λ f. absurd (ground arith))
        | inr (inl (x, e)) ↦ rw e (omega arith, λ f. omega (arith, all f))
        | inr (inr (x, e)) ↦ rw e (omega arith, λ f. absurd (ground arith))
      ]

  forward_message-returns :
      (attempts : ℕ) (msg : M) (w : W)
      → ((m : M) (v : W) (p : String) → (post m v).0 ≢ panic p)
      → (sent : Bool) × ((forward_message post attempts msg w).0 ≡ ok sent)
  unfolding forward_message
  forward_message-returns zero msg w h = (false, refl)
  forward_message-returns (suc n) msg w h =
      let rest = forward_message-returns n msg (post msg w).1 h in
      elim (Result-cases (post msg w).0) [
        | inl (u, e) ↦ rw e (true, refl)
        | inr (inl (x, e)) ↦ rw e rest
        | inr (inr (p, e)) ↦ absurd (h msg w p e)
      ]

  -- However the requests end, short of a panic: forwarding ends without a panic of its own and has
  -- closed the channel that stops the polling, once.
  pub web_rtc_forward_stops :
      (msgs : List M) (w : W)
      → ((m : M) (v : W) (p : String) → (post m v).0 ≢ panic p)
      → ((web_rtc_forward post msgs (w, 0)).0 ≡ ok tt)
        × ((web_rtc_forward post msgs (w, 0)).1.1 ≡ 1)
  unfolding web_rtc_forward
  web_rtc_forward_stops [] w h = (refl, refl)
  web_rtc_forward_stops (msg ∷ msgs) w h =
      let rest =
        web_rtc_forward_stops msgs (forward_message post max_consecutive_errors msg w).1 h in
      let (sent, e) = forward_message-returns max_consecutive_errors msg w h in
      elim (Bool-cases sent) [
        | inl all_sent ↦ rw (e, all_sent) rest
        | inr gave_up ↦ rw (e, gave_up) (refl, refl)
      ]
