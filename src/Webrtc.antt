-- ===== src/Webrtc.antt =====
-- pkg/webrtcclient/client.go and types.go: the controller of a WebRTC connection. The peer
-- connection of the WebRTC library is a parameter; a description and a candidate are its JSON texts.
pub mod Signaling
pub mod Safety
pub mod Outcome
use cloud_android_orchestrat.Prelude.{Map}
use cloud_android_orchestrat.Errors.{GoError, plain}
use cloud_android_orchestrat.Prelude.{
  Bool, List, Option, String, [], false, if◌then◌else◌, none, some, suc, true, ℕ, ◌++◌, ◌∷◌,
}

-- A message that arrives (`map[string]any`): its values as `%v` prints them.
abbrev pub Incoming : Type 0
Incoming = Map String

-- What is written to `SendCh`: `RequestOfferMsg` with the URLs of its servers, `ICECandidateMsg`, or an answer.
pub data SigMsg : Type 0 where
  request_offer : List (List String) → SigMsg
  ice_candidate : String → SigMsg
  session_answer : String → SigMsg

-- `webrtc.PeerConnectionState`
pub data PeerState : Type 0 where
  peer_unknown : PeerState
  peer_new : PeerState
  peer_connecting : PeerState
  peer_connected : PeerState
  peer_disconnected : PeerState
  peer_failed : PeerState
  peer_closed : PeerState

-- The calls of the `Observer`.
pub data Notice : Type 0 where
  on_adb_data_channel : Notice
  on_error : GoError → Notice
  on_failure : Notice
  on_close : Notice

-- `Controller`: beside its flag what was written to `SendCh` and how often that was closed, the
-- calls of the observer, and what `NewConnection` has been told, which a `sync.Once` guards.
pub record Controller : Type 0 where
  pub send_ch_closed : Bool
  pub sent : List SigMsg
  pub closes : ℕ
  notices : List Notice
  pub completed : Option (Option GoError)

abbrev pub new_controller : Controller
new_controller = record {
  send_ch_closed = false;
  sent = [];
  closes = 0;
  notices = on_adb_data_channel ∷ [];
  completed = none;
}

-- `closeSendCh`, and `stopGoRoutines`
unfoldable pub close_send_ch : Controller → Controller
close_send_ch c =
    if c.send_ch_closed then c else record c { closes = suc c.closes; send_ch_closed = true }

-- `sendSigMsg`
unfoldable pub send_sig_msg : SigMsg → Controller → Controller
send_sig_msg msg c = if c.send_ch_closed then c else record c { sent = c.sent ++ msg ∷ [] }

abbrev pub notify : Notice → Controller → Controller
notify n c = record c { notices = c.notices ++ n ∷ [] }

-- `once.Do(func() { ch <- err })`
unfoldable pub on_complete : Option GoError → Controller → Controller
on_complete e c = elim c.completed [ none ↦ record c { completed = some e } | some earlier ↦ c ]

abbrev pub peer_failed_error : GoError
peer_failed_error = plain "Peer Connection failed"

abbrev pub peer_closed_error : GoError
peer_closed_error = plain "Peer Connection closed unexpectedly"

-- The callback of `OnConnectionStateChange`
unfoldable pub on_connection_state_change : PeerState → Controller → Controller
on_connection_state_change peer_connected c = on_complete none c
on_connection_state_change peer_failed c =
    close_send_ch (notify on_failure (on_complete (some peer_failed_error) c))
on_connection_state_change peer_closed c =
    close_send_ch (notify on_close (on_complete (some peer_closed_error) c))
on_connection_state_change peer_unknown c = c
on_connection_state_change peer_new c = c
on_connection_state_change peer_connecting c = c
on_connection_state_change peer_disconnected c = c

-- The callback of `OnICECandidate`, with `none` for nil
unfoldable pub on_local_candidate : Option String → Controller → Controller
on_local_candidate none c = c
on_local_candidate (some candidate) c = send_sig_msg (ice_candidate candidate) c
