-- ===== src/Webrtc/Safety.antt =====
-- What holds of a controller however its callbacks and its loop are interleaved.
use cloud_android_orchestrat.Webrtc.{on_error}
use cloud_android_orchestrat.Prelude.{Option-cases}
use cloud_android_orchestrat.Webrtc.Signaling.{connect}
use cloud_android_orchestrat.Errors.{GoError}
use cloud_android_orchestrat.Webrtc.{
  Controller, PeerState, close_send_ch, new_controller, notify, on_complete,
  on_connection_state_change, on_local_candidate, peer_closed, peer_closed_error, peer_connected,
  peer_connecting, peer_disconnected, peer_failed, peer_failed_error, peer_new, peer_unknown,
  send_sig_msg, session_answer,
}
use cloud_android_orchestrat.Prelude.{
  List, Option, String, arith, if◌then◌else◌, inl, inr, none, refl, some, true, ◌↔◌, ◌∙◌, ◌≡◌, ◌≤◌,
  ◌⊎◌,
}

-- What runs under the mutex, or in a callback of the peer connection, or between two calls of it.
pub data Step (c : Controller) : Controller → Type 0 where
  requests : (servers : List (List String)) → Step c (connect servers c)
  changes_state : (s : PeerState) → Step c (on_connection_state_change s c)
  finds_candidate : (candidate : Option String) → Step c (on_local_candidate candidate c)
  answers : (answer : String) → Step c (send_sig_msg (session_answer answer) c)
  stops_receiving : Step c (close_send_ch c)
  reports : (e : GoError) → Step c (notify (on_error e) c)

pub data Steps (c : Controller) : Controller → Type 0 where
  none_more : Steps c c
  more : {d e : Controller} → Steps c d → Step d e → Steps c e

pub Steps-trans : {c d e : Controller} → Steps c d → Steps d e → Steps c e
Steps-trans t none_more = t
Steps-trans t (more u v) = more (Steps-trans t u) v

-- The channel is closed as often as its flag says.
IsCounted : Controller → Type 0
IsCounted c = c.closes ≡ (if c.send_ch_closed then 1 else 0)

Step-IsCounted : {c d : Controller} → IsCounted c → Step c d → IsCounted d
unfolding IsCounted connect on_connection_state_change on_local_candidate send_sig_msg close_send_ch
    on_complete
Step-IsCounted {c} h (requests servers) = ground (arith, Option-cases c.completed)
Step-IsCounted {c} h (changes_state peer_unknown) = h
Step-IsCounted {c} h (changes_state peer_new) = h
Step-IsCounted {c} h (changes_state peer_connecting) = h
Step-IsCounted {c} h (changes_state peer_connected) = ground (arith, Option-cases c.completed)
Step-IsCounted {c} h (changes_state peer_disconnected) = h
Step-IsCounted {c} h (changes_state peer_failed) = ground (arith, Option-cases c.completed)
Step-IsCounted {c} h (changes_state peer_closed) = ground (arith, Option-cases c.completed)
Step-IsCounted {c} h (finds_candidate none) = h
Step-IsCounted {c} h (finds_candidate (some candidate)) = ground arith
Step-IsCounted {c} h (answers answer) = ground arith
Step-IsCounted {c} h stops_receiving = ground arith
Step-IsCounted {c} h (reports e) = h

Steps-IsCounted : {c d : Controller} → IsCounted c → Steps c d → IsCounted d
Steps-IsCounted h none_more = h
Steps-IsCounted h (more t u) = Step-IsCounted (Steps-IsCounted h t) u

-- However the callbacks of the peer connection, the candidates it finds, the loop that handles
-- messages and the first request are interleaved, the send channel of a new connection is closed at
-- most once, and once exactly where its flag says that it is closed.
pub Steps-closed_once :
    (c : Controller)
    → Steps new_controller c
    → (c.closes ≤ 1) × ((c.closes ≡ 1) ↔ (c.send_ch_closed ≡ true))
unfolding IsCounted
Steps-closed_once c t =
    let counted = Steps-IsCounted refl t in (ground arith, (λ e. ground arith, λ e. ground arith))

-- What a step keeps of a closed channel.
Step-shut :
    {c d : Controller}
    → c.send_ch_closed ≡ true
    → Step c d
    → (d.send_ch_closed ≡ true) × (d.sent ≡ c.sent) × (d.closes ≡ c.closes)
unfolding connect on_connection_state_change on_local_candidate send_sig_msg close_send_ch
    on_complete
Step-shut {c} h (requests servers) = rw h (refl, refl, refl)
Step-shut {c} h (changes_state peer_unknown) = (h, refl, refl)
Step-shut {c} h (changes_state peer_new) = (h, refl, refl)
Step-shut {c} h (changes_state peer_connecting) = (h, refl, refl)
Step-shut {c} h (changes_state peer_connected) = ground (arith, Option-cases c.completed)
Step-shut {c} h (changes_state peer_disconnected) = (h, refl, refl)
Step-shut {c} h (changes_state peer_failed) = ground (arith, Option-cases c.completed)
Step-shut {c} h (changes_state peer_closed) = ground (arith, Option-cases c.completed)
Step-shut {c} h (finds_candidate none) = (h, refl, refl)
Step-shut {c} h (finds_candidate (some candidate)) = ground arith
Step-shut {c} h (answers answer) = ground arith
Step-shut {c} h stops_receiving = ground arith
Step-shut {c} h (reports e) = (h, refl, refl)

-- Once the send channel is closed it stays closed, is not closed again, and nothing more is written
-- to it, whatever steps follow.
pub Steps-shut :
    (c d : Controller)
    → c.send_ch_closed ≡ true
    → Steps c d
    → (d.send_ch_closed ≡ true) × (d.sent ≡ c.sent) × (d.closes ≡ c.closes)
Steps-shut c d h none_more = (h, refl, refl)
Steps-shut c d h (more {d = b} t u) =
    let (shut, s, n) = Steps-shut c b h t in
    let (shut', s', n') = Step-shut shut u in (shut', s' ∙ s, n' ∙ n)

on_connection_state_change-final :
    (c : Controller) (s : PeerState)
    → (s ≡ peer_failed) ⊎ (s ≡ peer_closed)
    → (on_connection_state_change s c).send_ch_closed ≡ true
unfolding on_connection_state_change close_send_ch on_complete
on_connection_state_change-final c s (inl e) = ground (arith, Option-cases c.completed)
on_connection_state_change-final c s (inr e) = ground (arith, Option-cases c.completed)

-- Once the peer connection has reported that it failed or closed, the send channel is closed, and
-- still is after whatever steps follow, which write nothing more to it.
final_state-stops :
    (c d : Controller) (s : PeerState)
    → (s ≡ peer_failed) ⊎ (s ≡ peer_closed)
    → Steps (on_connection_state_change s c) d
    → (d.send_ch_closed ≡ true) × (d.sent ≡ (on_connection_state_change s c).sent)
final_state-stops c d s final t =
    let (shut, sent, n) =
      Steps-shut (on_connection_state_change s c) d (on_connection_state_change-final c s final)
        t in
    (shut, sent)

Step-completed :
    {c d : Controller} (e : Option GoError) → c.completed ≡ some e → Step c d → d.completed ≡ some e
unfolding connect on_connection_state_change on_local_candidate send_sig_msg close_send_ch
    on_complete
Step-completed {c} e h (requests servers) = ground arith
Step-completed {c} e h (changes_state peer_unknown) = h
Step-completed {c} e h (changes_state peer_new) = h
Step-completed {c} e h (changes_state peer_connecting) = h
Step-completed {c} e h (changes_state peer_connected) = ground arith
Step-completed {c} e h (changes_state peer_disconnected) = h
Step-completed {c} e h (changes_state peer_failed) = ground arith
Step-completed {c} e h (changes_state peer_closed) = ground arith
Step-completed {c} e h (finds_candidate none) = h
Step-completed {c} e h (finds_candidate (some candidate)) = ground arith
Step-completed {c} e h (answers answer) = ground arith
Step-completed {c} e h stops_receiving = ground arith
Step-completed {c} e h (reports x) = h

Steps-completed :
    {c d : Controller} (e : Option GoError)
    → c.completed ≡ some e
    → Steps c d
    → d.completed ≡ some e
Steps-completed e h none_more = h
Steps-completed e h (more t u) = Step-completed e (Steps-completed e h t) u

-- What the caller of `NewConnection` is told of a state that ends the waiting.
abbrev told_of : PeerState → Option (Option GoError)
told_of peer_connected = some none
told_of peer_failed = some (some peer_failed_error)
told_of peer_closed = some (some peer_closed_error)
told_of _ = none

on_connection_state_change-told :
    (c : Controller) (s : PeerState) (e : Option GoError)
    → c.completed ≡ none
    → told_of s ≡ some e
    → (on_connection_state_change s c).completed ≡ some e
unfolding on_connection_state_change close_send_ch on_complete
on_connection_state_change-told c peer_unknown e h t = absurd (ground arith)
on_connection_state_change-told c peer_new e h t = absurd (ground arith)
on_connection_state_change-told c peer_connecting e h t = absurd (ground arith)
on_connection_state_change-told c peer_connected e h t = ground arith
on_connection_state_change-told c peer_disconnected e h t = absurd (ground arith)
on_connection_state_change-told c peer_failed e h t = ground arith
on_connection_state_change-told c peer_closed e h t = ground arith

-- While a connection is waited for, the first of the states connected, failed and closed decides
-- what the caller is told, no error or that state's, and no step that follows changes it.
pub Steps-decided :
    (c d : Controller) (s : PeerState) (e : Option GoError)
    → c.completed ≡ none
    → told_of s ≡ some e
    → Steps (on_connection_state_change s c) d
    → d.completed ≡ some e
Steps-decided c d s e h t u = Steps-completed e (on_connection_state_change-told c s e h t) u
