-- ===== src/Webrtc/Signaling.antt =====
-- pkg/webrtcclient/client.go: the loop that handles signaling messages, and a connection's start.
use cloud_android_orchestrat.Exec.{on_error}
use cloud_android_orchestrat.Errors.{error_text, plain}
use cloud_android_orchestrat.Webrtc.{
  Controller, Incoming, Notice, close_send_ch, new_controller, notify, request_offer, send_sig_msg,
  session_answer,
}
use cloud_android_orchestrat.Exec.{
  Exec, Result, crash, err, ok, panic, pure, raise, wrap_result, wrapped, zoom, ◌>>=◌, ◌>>◌,
}
use cloud_android_orchestrat.Prelude.{
  List, Option, String, [], if◌then◌else◌, lookup, none, some, str_eq, ◌<>◌, ◌∷◌,
}

-- The methods of `webrtc.PeerConnection` that the controller calls, on its unknown state.
pub record PeerConnection (P : Type 0) : Type 0 where
  pub set_remote_description : String → Exec P (Unit {0})
  pub create_answer : Exec P String
  pub set_local_description : String → Exec P (Unit {0})
  pub add_ice_candidate : String → Exec P (Unit {0})

-- The text of a value that may be missing from a map, as `%v` prints it.
abbrev pub value_text : Option String → String
value_text (some v) = v
value_text none = "<nil>"

-- `Reshape`: the message is marshalled and read as another type, a parameter for each.
abbrev or_panic : {S A : Type 0} → Result A → Exec S A
or_panic (ok a) = pure a
or_panic (err e) = crash ("Failed to reshape json: " <> error_text e)
or_panic (panic p) = crash p

module _ {P : Type 0} (peer : PeerConnection P) where
  abbrev on_peer : {A : Type 0} → Exec P A → Exec (P × Controller) A
  on_peer m = zoom (λ s. s.0) (λ s p. (p, s.1)) m

  abbrev on_controller : (Controller → Controller) → Exec (P × Controller) (Unit {0})
  on_controller f s = (ok tt, (s.0, f s.1))

  -- `onOffer`
  unfoldable pub on_offer : String → Exec (P × Controller) (Unit {0})
  on_offer offer = do
    wrapped "Failed to set remote description" (on_peer (peer.set_remote_description offer))
    answer ← wrapped "Failed to create answer" (on_peer peer.create_answer)
    wrapped "Failed to set local description" (on_peer (peer.set_local_description answer))
    on_controller (send_sig_msg (session_answer answer))

  -- `onAnswer`
  unfoldable pub on_answer : String → Exec (P × Controller) (Unit {0})
  on_answer answer =
      wrapped "Failed to set remote description" (on_peer (peer.set_remote_description answer))

  -- `onICECandidate`
  unfoldable pub on_ice_candidate : String → Exec (P × Controller) (Unit {0})
  on_ice_candidate candidate =
      wrapped "Failed to add ICE candidate" (on_peer (peer.add_ice_candidate candidate))

  module _ (reshape_description reshape_candidate : Incoming → Result String) where
    -- The `switch` of `recvLoop`
    unfoldable pub handle_message : Incoming → Exec (P × Controller) (Unit {0})
    handle_message msg =
        let type = value_text (lookup "type" msg) in
        if str_eq type "request-offer"
        then crash "Device requested an offer. This violates the signaling protocol"
        else if str_eq type "offer"
        then (or_panic (reshape_description msg) >>= λ offer.
            wrapped "Error handling offer" (on_offer offer))
        else if str_eq type "ice-candidate"
        then (or_panic (reshape_candidate msg) >>= λ candidate.
            wrapped "Error handling ICE candidate" (on_ice_candidate candidate))
        else if str_eq type "answer"
        then (or_panic (reshape_description msg) >>= λ answer.
            wrapped "Error handling answer" (on_answer answer))
        else elim (lookup "error" msg) [
          | some e ↦ raise (plain ("Received error from signaling server: " <> e))
          | none ↦ raise (plain ("Unknown message type: " <> type))
        ]

    -- `recvLoop`, on the messages that `RecvCh` gives before it is closed
    unfoldable pub recv_loop : List Incoming → Exec (P × Controller) (Unit {0})
    recv_loop [] = on_controller close_send_ch
    recv_loop (msg ∷ msgs) = handle_message msg >> recv_loop msgs

    -- The goroutine of `connect` around the loop
    unfoldable pub recv_routine : List Incoming → Exec (P × Controller) (Unit {0})
    recv_routine msgs = on_error (recv_loop msgs) (λ e. on_controller (notify (Notice.on_error e)))

-- `connect` behind the registration of its callbacks: the first message.
unfoldable pub connect : List (List String) → Controller → Controller
connect client_ice_servers c = send_sig_msg (request_offer client_ice_servers) c

-- `NewConnectionWithLogger` up to `connect`
unfoldable new_connection :
    {P : Type 0} → Result P → (P → Result (Unit {0})) → List (List String) → Result (P × Controller)
new_connection peer create_data_channel client_ice_servers =
    elim (wrap_result "Failed to create peer connection" peer) [
      | err e ↦ err e
      | panic p ↦ panic p
      | ok pc ↦ elim (wrap_result "Failed to create adb data channel" (create_data_channel pc)) [
        | err e ↦ err e
        | panic p ↦ panic p
        | ok u ↦ ok (pc, connect client_ice_servers new_controller)
      ]
    ]
