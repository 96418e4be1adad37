-- ===== src/Client/Poll/Handling.antt =====
-- pkg/client/client.go: the loop of the polling, and the two goroutines that `initHandling` starts.
use cloud_android_orchestrat.Prelude.{Bool, List, [], false, map, suc, true, zero, ℕ, ◌++◌, ◌∷◌}
use cloud_android_orchestrat.Exec.{Exec, Result}
use cloud_android_orchestrat.Client.Poll.{
  Message, Poll, PollStatus, blocked, initial_poll, panicked, poll_round, polling, sink_closed,
  web_rtc_forward,
}

module _ {P : Type 0} where
  abbrev pub while_polling : PollStatus → Poll P → Poll P → Poll P
  while_polling polling s continued = continued
  while_polling sink_closed s continued = s
  while_polling panicked s continued = s
  while_polling blocked s continued = s

  -- `webRTCPoll` on the replies that it gets, each with whether the channel that stops it is closed
  -- after it
  unfoldable pub poll_loop : List (Result (List (Message P)) × Bool) → Poll P → Poll P
  poll_loop [] s = s
  poll_loop ((reply, stop) ∷ rounds) s =
      let s' = poll_round reply stop s in while_polling s'.status s' (poll_loop rounds s')

-- The replies before and behind the end of the forwarding, with what the polling sees of the channel
abbrev pub rounds_of :
    {P : Type 0}
    → List (Result (List (Message P)))
    → List (Result (List (Message P)))
    → Bool
    → List (Result (List (Message P)) × Bool)
rounds_of before behind closed = map (λ r. (r, false)) before ++ map (λ r. (r, closed)) behind

-- Whether a channel that was closed so often is closed
abbrev pub is_closed : ℕ → Bool
is_closed zero = false
is_closed (suc n) = true

-- What became of the two goroutines: the forwarding with the number of times that it closed the
-- channel that stops the polling, and the polling.
pub record Handling (W P : Type 0) : Type 0 where
  pub forwarded : Result (Unit {0}) × (W × ℕ)
  pub polled : Poll P

-- `initHandling`: the goroutines run beside each other, and the polling gets `before` of its replies
-- before the forwarding has ended, and `behind` after that; `receives` is the WebRTC client's side of
-- the polling's channel.
unfoldable pub init_handling :
    {W M P : Type 0}
    → (M → Exec W (Unit {0}))
    → List M
    → List (Result (List (Message P)))
    → List (Result (List (Message P)))
    → (ℕ → Bool)
    → W
    → Handling W P
init_handling post msgs before behind receives w =
    let forwarded = web_rtc_forward post msgs (w, 0) in
    record {
      forwarded = forwarded;
      polled =
          poll_loop (rounds_of before behind (is_closed forwarded.1.1)) (initial_poll receives);
    }
