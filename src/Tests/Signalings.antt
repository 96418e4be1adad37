-- ===== src/Tests/Signalings.antt =====
-- A WebRTC connection that is offered, answered, connected and then closed.
use cloud_android_orchestrat.Webrtc.Safety.{none_more}
use cloud_android_orchestrat.Webrtc.Safety.{more}
use cloud_android_orchestrat.Webrtc.Signaling.{connect}
use cloud_android_orchestrat.Webrtc.Safety.{Steps}
use cloud_android_orchestrat.Exec.{Result, ok}
use cloud_android_orchestrat.Webrtc.Signaling.{PeerConnection, recv_routine}
use cloud_android_orchestrat.Prelude.{
  List, String, [], lookup, none, refl, some, suc, true, ℕ, ◌↔◌, ◌∷◌, ◌≡◌, ◌≤◌,
}
use cloud_android_orchestrat.Webrtc.{
  Controller, Incoming, close_send_ch, new_controller, on_complete, on_connection_state_change,
  on_local_candidate, peer_closed, peer_connected, peer_failed, send_sig_msg,
}
use cloud_android_orchestrat.Webrtc.Safety.{
  Steps-closed_once, Steps-decided, Steps-shut, changes_state, finds_candidate, requests,
}

abbrev started : Controller
started = connect [] new_controller

abbrev closed_controller : Controller
closed_controller = on_connection_state_change peer_closed started

to_closed : Steps new_controller closed_controller
to_closed = more (more none_more (requests [])) (changes_state peer_closed)

Steps-closed_once_example :
    (closed_controller.closes ≤ 1)
    × ((closed_controller.closes ≡ 1) ↔ (closed_controller.send_ch_closed ≡ true))
unfolding connect send_sig_msg on_connection_state_change close_send_ch on_complete
Steps-closed_once_example = Steps-closed_once closed_controller to_closed

-- A candidate that is found after the closing.
abbrev after_candidate : Controller
after_candidate = on_local_candidate (some "candidate:1") closed_controller

Steps-shut_example :
    (after_candidate.send_ch_closed ≡ true)
    × (after_candidate.sent ≡ closed_controller.sent)
    × (after_candidate.closes ≡ closed_controller.closes)
unfolding connect send_sig_msg on_connection_state_change close_send_ch on_complete
Steps-shut_example =
    Steps-shut closed_controller after_candidate refl
      (more none_more (finds_candidate (some "candidate:1")))

-- Connected first, and failed later.
abbrev connected_controller : Controller
connected_controller = on_connection_state_change peer_connected started

Steps-decided_example :
    (on_connection_state_change peer_failed connected_controller).completed ≡ some none
unfolding connect send_sig_msg
Steps-decided_example =
    Steps-decided started (on_connection_state_change peer_failed connected_controller)
      peer_connected none refl refl (more none_more (changes_state peer_failed))

-- A peer connection that counts the descriptions and candidates it was given.
abbrev counting_peer : PeerConnection ℕ
counting_peer = record {
  set_remote_description = λ d n. (ok tt, suc n);
  create_answer = λ n. (ok "v=0", n);
  set_local_description = λ d n. (ok tt, suc n);
  add_ice_candidate = λ c n. (ok tt, suc n);
}

abbrev body_of : Incoming → Result String
body_of msg = elim (lookup "sdp" msg) [ none ↦ ok "" | some v ↦ ok v ]

abbrev offer_then_error : List Incoming
offer_then_error = (("type", "offer") ∷ ("sdp", "v=0") ∷ []) ∷ (("error", "device gone") ∷ []) ∷ []

abbrev ran : Result (Unit {0}) × (ℕ × Controller)
ran = recv_routine counting_peer body_of body_of offer_then_error (0, started)
