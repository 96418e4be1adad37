-- ===== src/Tests/Clients.antt =====
-- Runs of the client: a retried request, an upload, and polls.
use cloud_android_orchestrat.Client.Requests.Wire.{settled}
use cloud_android_orchestrat.Client.Requests.Wire.{retried}
use cloud_android_orchestrat.Client.Poll.{blocked, sink_closed}
use cloud_android_orchestrat.Client.Poll.Handling.{init_handling, poll_loop}
use cloud_android_orchestrat.Client.Poll.Shutdown.{
  IsCalm, IsDelivered, init_handling_ends, poll_loop_blocks,
}
use cloud_android_orchestrat.Client.Poll.Bounds.{IsPaced, poll_round-IsPaced}
use cloud_android_orchestrat.Client.Poll.Delivery.{Polled-in_order, begun, device}
use cloud_android_orchestrat.Client.Requests.Laws.{
  do_request_refused, do_request_settled, do_request_sound, first_request, wire_service,
}
use cloud_android_orchestrat.Client.Requests.Wire.{Settles, Wire, length_mismatch}
use cloud_android_orchestrat.Client.Upload.{FileInfo, get_files_infos, send_jobs}
use cloud_android_orchestrat.Client.Requests.{
  is_retryable_error_code, is_success, Response, ServiceOptions, do_request, do_request_with_opts,
  exchange, read_response, retry,
}
use cloud_android_orchestrat.Client.Poll.{Message, Poll, initial_poll, panicked, poll_round}
use cloud_android_orchestrat.Client.Poll.Delivery.{replied}
use cloud_android_orchestrat.Text.{text_length}
use cloud_android_orchestrat.Errors.{GoError, api_call, plain, wrap}
use cloud_android_orchestrat.Exec.{Exec, Result, err, ok}
use cloud_android_orchestrat.Client.Upload.Chunks.{
  joined, open_content, send_jobs-joined, stat_content,
}
use cloud_android_orchestrat.Prelude.{
  ◌==◌, true, Bool, inl, ap, List, String, [], arith, drop, false, map, none, refl, some, take, ℕ,
  ◌+◌, ◌∷◌, ◌≡◌, ◌≢◌, ◌≤◌,
}

abbrev busy : Response
busy = record { status_code = 503; status = "503 Service Unavailable"; body = "" }

abbrev fine : Response
fine = record { status_code = 200; status = "200 OK"; body = "b" }

abbrev options : ServiceOptions
options = record { root_endpoint = "https://o/v1"; retry_attempts = 2 }

abbrev no_details : String → Result GoError
no_details body = ok (api_call 500 "failed" "")

abbrev as_text : String → Result String
as_text body = ok body

abbrev one_retry : Wire
one_retry = record { replays = true; outcomes = ok busy ∷ ok fine ∷ []; sent = [] }

do_request_settled_example :
    ((do_request
        (wire_service options no_details)
        "POST"
        "/hosts"
        (some (ok "{}"))
        as_text
        one_retry).0
      ≡ ok "b")
    × ((do_request
          (wire_service options no_details)
          "POST"
          "/hosts"
          (some (ok "{}"))
          as_text
          one_retry).1.sent
        ≡ first_request options "POST" "/hosts" "{}"
          ∷ first_request options "POST" "/hosts" "{}"
          ∷ [])
    × (1 ≤ 2)
unfolding read_response is_retryable_error_code is_success
do_request_settled_example =
    do_request_settled options no_details "POST" "/hosts" "{}" (some (ok "{}")) as_text one_retry
      busy fine (ok fine ∷ []) 1 refl (inl refl) refl (retried refl (settled refl))

abbrev without_replay : Wire
without_replay = record { replays = false; outcomes = ok busy ∷ ok fine ∷ []; sent = [] }

do_request_refused_example :
    ((do_request
        (wire_service options no_details)
        "POST"
        "/hosts"
        (some (ok "{}"))
        as_text
        without_replay).0
      ≡ err (wrap "Error sending request" length_mismatch))
    × ((do_request
          (wire_service options no_details)
          "POST"
          "/hosts"
          (some (ok "{}"))
          as_text
          without_replay).1.sent
        ≡ first_request options "POST" "/hosts" "{}" ∷ [])
unfolding is_retryable_error_code
do_request_refused_example =
    do_request_refused options no_details "POST" "/hosts" "{}" (some (ok "{}")) as_text
      without_replay busy (ok fine ∷ []) refl refl
      (λ e. let no_length = ap text_length e in absurd (omega (arith, no_length))) refl refl
      (omega arith)

do_request_sound_example :
    (res : Response) × (rs : List (Result Response)) × (last : Response) × (k : ℕ)
    × (one_retry.outcomes ≡ ok res ∷ rs)
    × Settles 2 res rs k last
    × (200 ≤ last.status_code)
    × (last.status_code ≤ 299)
    × (as_text last.body ≡ ok "b")
unfolding do_request do_request_with_opts exchange retry read_response is_retryable_error_code
    is_success
do_request_sound_example =
    do_request_sound options no_details "POST" "/hosts" (some (ok "{}")) as_text one_retry "b" refl

abbrev content : String → List ℕ
content name = 1 ∷ 2 ∷ 3 ∷ []

send_jobs-joined_example :
    (infos : List FileInfo) × (get_files_infos (stat_content content) 2 ("a" ∷ "b" ∷ []) ≡ ok infos)
    × (joined (open_content content) (send_jobs 2 infos) ≡ 1 ∷ 2 ∷ 3 ∷ 1 ∷ 2 ∷ 3 ∷ [])
send_jobs-joined_example = send_jobs-joined content 2 ("a" ∷ "b" ∷ []) (omega arith)

-- A client that receives all that is sent to it.
abbrev always : ℕ → Bool
always n = true

abbrev two_polled : Poll ℕ
two_polled =
    poll_round (ok (map device (take 2 (drop 0 (5 ∷ 6 ∷ 7 ∷ []))))) false (initial_poll always)

Polled-in_order_example :
    (two_polled.start ≤ 3)
    × (two_polled.sink ≡ take two_polled.start (5 ∷ 6 ∷ 7 ∷ []))
    × (two_polled.status ≢ panicked)
Polled-in_order_example =
    Polled-in_order (5 ∷ 6 ∷ 7 ∷ []) two_polled
      (replied (initial_poll always) 2 false refl (begun always))

poll_round-IsPaced_example :
    IsPaced (poll_round (err (plain "refused")) false (initial_poll {P = ℕ} always))
unfolding IsPaced
poll_round-IsPaced_example =
    poll_round-IsPaced (err (plain "refused")) false (initial_poll {P = ℕ} always) refl
      (omega arith, omega arith, λ e. omega arith)

abbrev hello : Message ℕ
hello = record { message_type = "hello"; payload = none }

-- A client that has ended after the first message.
abbrev one_received : ℕ → Bool
one_received n = n == 0

abbrev stuck : Poll ℕ
stuck =
    poll_loop ((ok (hello ∷ device 6 ∷ device 7 ∷ []), false) ∷ (ok [], true) ∷ [])
      (record (initial_poll one_received) { sink = 5 ∷ [] })

poll_loop_blocks_example : (stuck.status ≡ blocked) × (stuck.sink ≡ 5 ∷ [])
poll_loop_blocks_example =
    poll_loop_blocks (hello ∷ []) (device 7 ∷ []) 6 false ((ok [], true) ∷ [])
      (record (initial_poll one_received) { sink = 5 ∷ [] }) (refl, tt) refl

abbrev refusing : String → Exec ℕ (Unit {0})
refusing msg w = (err (plain "refused"), w + 1)

abbrev polled_replies : List (Result (List (Message ℕ)))
polled_replies = ok (device 5 ∷ device 6 ∷ []) ∷ err (plain "refused") ∷ []

init_handling_ends_example :
    let ran =
      init_handling refusing
        ("offer" ∷ "candidate" ∷ [])
        polled_replies
        (ok (hello ∷ device 7 ∷ []) ∷ [])
        always
        0 in
    (ran.forwarded.0 ≡ ok tt) × (ran.forwarded.1.1 ≡ 1) × (ran.polled.status ≡ sink_closed)
unfolding IsCalm IsDelivered
init_handling_ends_example =
    init_handling_ends refusing ("offer" ∷ "candidate" ∷ []) polled_replies
      (ok (hello ∷ device 7 ∷ []) ∷ []) always 0 (λ m v p e. cc) (λ n. refl)
      (((λ e q. cc), ((λ e q. cc), tt)), (tt, tt)) (((λ e q. cc), ((λ e q. cc), tt)), tt) (λ e. cc)
