-- ===== src/Webrtc/Outcome.antt =====
-- What the loop does with messages, and that what it changes are steps of the controller.
use cloud_android_orchestrat.Webrtc.Safety.{Steps-trans, reports, stops_receiving, none_more}
use cloud_android_orchestrat.Prelude.{List, [], ◌∷◌, Bool-cases, Option-cases}
use cloud_android_orchestrat.Webrtc.Safety.{more}
use cloud_android_orchestrat.Webrtc.Safety.{Steps}
use cloud_android_orchestrat.Webrtc.Safety.{answers}
use cloud_android_orchestrat.Exec.{Result, Result-cases, ok}
use cloud_android_orchestrat.Webrtc.Signaling.{
  recv_loop, recv_routine, value_text, PeerConnection, handle_message, on_answer, on_ice_candidate,
  on_offer,
}
use cloud_android_orchestrat.Webrtc.{Controller, Incoming, send_sig_msg, session_answer}
use cloud_android_orchestrat.Prelude.{
  Bool, String, arith, inl, inr, lookup, refl, str_eq, subst, sym, ◌||◌, ◌≡◌, ◌≢◌,
}

module _ {P : Type 0} (peer : PeerConnection P)
    (reshape_description reshape_candidate : Incoming → Result String) where
  -- The answer of the peer connection, after it has taken the offer.
  abbrev created_answer : String → P → Result String
  created_answer offer p = (peer.create_answer (peer.set_remote_description offer p).1).0

  -- An offer whose handling ends without an error has the answer written that the peer connection
  -- made after it took the offer; one whose handling fails leaves the controller as it was.
  on_offer_lem :
      (offer : String) (s : P × Controller)
      → ((on_offer peer offer s).0 ≢ ok tt → (on_offer peer offer s).1.1 ≡ s.1)
        × ((on_offer peer offer s).0 ≡ ok tt
            → (answer : String) × (created_answer offer s.0 ≡ ok answer)
              × ((on_offer peer offer s).1.1 ≡ send_sig_msg (session_answer answer) s.1))
  unfolding on_offer
  on_offer_lem offer (p, c) = elim (Result-cases (peer.set_remote_description offer p).0) [
    | inr (inl (x, e)) ↦ rw e (λ no. refl, λ yes. absurd (ground arith))
    | inr (inr (x, e)) ↦ rw e (λ no. refl, λ yes. absurd (ground arith))
    | inl (u, e) ↦ elim (Result-cases (created_answer offer p)) [
      | inr (inl (x, f)) ↦ rw (e, f) (λ no. refl, λ yes. absurd (ground arith))
      | inr (inr (x, f)) ↦ rw (e, f) (λ no. refl, λ yes. absurd (ground arith))
      | inl (answer, f) ↦
          elim (Result-cases
            (peer.set_local_description answer
              (peer.create_answer (peer.set_remote_description offer p).1).1).0) [
                | inr (inl (x, g)) ↦ rw (e, f, g) (λ no. refl, λ yes. absurd (ground arith))
                | inr (inr (x, g)) ↦ rw (e, f, g) (λ no. refl, λ yes. absurd (ground arith))
                | inl (v, g) ↦ rw (e, f, g) (λ no. absurd (no refl), λ yes. (answer, refl, refl))
              ]
    ]
  ]

  on_offer-Steps : (offer : String) (s : P × Controller) → Steps s.1 (on_offer peer offer s).1.1
  on_offer-Steps offer s = elim (Result-cases (on_offer peer offer s).0) [
    | inl (u, e) ↦
        let (answer, f, g) = (on_offer_lem offer s).1 e in
        subst (Steps s.1) (sym g) (more none_more (answers answer))
    | inr (inl (x, e)) ↦
        subst (Steps s.1) (sym ((on_offer_lem offer s).0 (λ f. absurd (ground arith)))) none_more
    | inr (inr (x, e)) ↦
        subst (Steps s.1) (sym ((on_offer_lem offer s).0 (λ f. absurd (ground arith)))) none_more
  ]

  -- The types that the loop handles.
  abbrev is_signaling : Incoming → Bool
  is_signaling msg =
      let type = value_text (lookup "type" msg) in
      str_eq type "offer" || str_eq type "ice-candidate" || str_eq type "answer"

  abbrev handled : Incoming → P × Controller → Result (Unit {0}) × (P × Controller)
  handled msg s = handle_message peer reshape_description reshape_candidate msg s

  handle_message-Steps : (msg : Incoming) (s : P × Controller) → Steps s.1 (handled msg s).1.1
  unfolding handle_message on_ice_candidate on_answer
  handle_message-Steps msg s =
      let type = value_text (lookup "type" msg) in
      elim (Bool-cases (str_eq type "request-offer")) [
        | inl a ↦ rw a none_more
        | inr a ↦ elim (Bool-cases (str_eq type "offer")) [
          | inl b ↦ elim (Result-cases (reshape_description msg)) [
            | inl (offer, e) ↦ rw (a, b, e) (on_offer-Steps offer s)
            | inr (inl (x, e)) ↦ rw (a, b, e) none_more
            | inr (inr (x, e)) ↦ rw (a, b, e) none_more
          ]
          | inr b ↦ elim (Bool-cases (str_eq type "ice-candidate")) [
            | inl c ↦ elim (Result-cases (reshape_candidate msg)) [
              | inl (candidate, e) ↦ rw (a, b, c, e) none_more
              | inr (inl (x, e)) ↦ rw (a, b, c, e) none_more
              | inr (inr (x, e)) ↦ rw (a, b, c, e) none_more
            ]
            | inr c ↦ elim (Bool-cases (str_eq type "answer")) [
              | inl d ↦ elim (Result-cases (reshape_description msg)) [
                | inl (answer, e) ↦ rw (a, b, c, d, e) none_more
                | inr (inl (x, e)) ↦ rw (a, b, c, d, e) none_more
                | inr (inr (x, e)) ↦ rw (a, b, c, d, e) none_more
              ]
              | inr d ↦ elim (Option-cases (lookup "error" msg)) [
                | inl e ↦ rw (a, b, c, d, e) none_more
                | inr (x, e) ↦ rw (a, b, c, d, e) none_more
              ]
            ]
          ]
        ]
      ]

  abbrev looped : List Incoming → P × Controller → Result (Unit {0}) × (P × Controller)
  looped msgs s = recv_loop peer reshape_description reshape_candidate msgs s

  abbrev ran : List Incoming → P × Controller → Result (Unit {0}) × (P × Controller)
  ran msgs s = recv_routine peer reshape_description reshape_candidate msgs s

  recv_loop-Steps : (msgs : List Incoming) (s : P × Controller) → Steps s.1 (looped msgs s).1.1
  unfolding recv_loop
  recv_loop-Steps [] s = more none_more stops_receiving
  recv_loop-Steps (msg ∷ msgs) s =
      let first = handle_message-Steps msg s in
      elim (Result-cases (handled msg s).0) [
        | inl (u, e) ↦ rw e (Steps-trans first (recv_loop-Steps msgs (handled msg s).1))
        | inr (inl (x, e)) ↦ rw e first
        | inr (inr (x, e)) ↦ rw e first
      ]

  -- Whatever arrives, what the goroutine that handles the messages does to the controller is a
  -- sequence of its steps, so that what holds of every sequence of steps holds of its run.
  pub recv_routine-Steps : (msgs : List Incoming) (s : P × Controller) → Steps s.1 (ran msgs s).1.1
  unfolding recv_routine
  recv_routine-Steps msgs s =
      let run = recv_loop-Steps msgs s in
      elim (Result-cases (looped msgs s).0) [
        | inl (u, e) ↦ rw e run
        | inr (inl (x, e)) ↦ rw e (more run (reports x))
        | inr (inr (x, e)) ↦ rw e run
      ]
