-- ===== src/Client/Requests/Laws.antt =====
-- How often a request is sent, with which body, and which response decides.
use cloud_android_orchestrat.Client.Requests.Retrying.{
  Settles-bound, Settles-exchange, exchange-Settles,
}
use cloud_android_orchestrat.Client.Requests.Wire.{Settles, Wire, is_whole, length_mismatch, wire}
use cloud_android_orchestrat.Client.Requests.Resending.{IsResent}
use cloud_android_orchestrat.Text.{text_length_zero}
use cloud_android_orchestrat.Client.Requests.{lift}
use cloud_android_orchestrat.Prelude.{
  ◌<◌, ◌⊎◌, true, ◌||◌, ltb, str_eq, Option, ◌<>◌, ◌↔◌, String, ◌≢◌,
}
use cloud_android_orchestrat.Errors.{GoError, wrap}
use cloud_android_orchestrat.Client.Requests.{
  ServiceImpl, ServiceOptions, do_request, do_request_with_opts, exchange, is_success, marshaled,
  new_request, read_response, HttpRequest, Response, drained, is_retryable_error_code, retry,
}
use cloud_android_orchestrat.Exec.{Exec, ◌>>=◌, Result-cases, Result, err, ok}
use cloud_android_orchestrat.Prelude.{
  Bool-cases, inl, inr, List, [], arith, false, refl, replicate, suc, zero, ℕ, ◌++◌, ◌∷◌, ◌≡◌, ◌≤◌,
}

-- A reply yields a value exactly when its status is 200 to 299 and its body decodes to the value.
read_response_ok_iff :
    {A : Type 0} (decode_error : String → Result GoError) (decode : String → Result A)
    (method : String) (res : Response) (a : A)
    → (read_response decode_error decode method res ≡ ok a)
      ↔ ((200 ≤ res.status_code) × (res.status_code ≤ 299) × (decode res.body ≡ ok a))
unfolding read_response is_success
read_response_ok_iff decode_error decode method res a =
    elim (Bool-cases (ltb res.status_code 200 || ltb 299 res.status_code)) [
      | inl bad ↦
          ground (arith, Result-cases (decode_error res.body), Bool-cases (str_eq method "DELETE"))
      | inr good ↦ ground (arith, Result-cases (decode res.body))
    ]

abbrev pub wire_service : ServiceOptions → (String → Result GoError) → ServiceImpl Wire
wire_service options decode_error = record {
  client = wire;
  options = options;
  decode_error = decode_error;
}

abbrev pub first_request : ServiceOptions → String → String → String → HttpRequest
first_request options method path json = new_request method (options.root_endpoint <> path) [] json

attempts-positive : (n : ℕ) → 0 < n → (m : ℕ) × (n ≡ suc m)
attempts-positive zero h = absurd (omega arith)
attempts-positive (suc n) h = (n, refl)

module _ {A : Type 0} (options : ServiceOptions) (decode_error : String → Result GoError) where
  -- A request whose outcomes settle on a response answers what that response says, where the library
  -- replays the body of a request that is sent again or the request has none. It was sent once, and
  -- then, the same, once for every retry, at most as often as the options allow.
  pub do_request_settled :
      (method path json : String) (reqpl : Option (Result String)) (decode : String → Result A)
      (w : Wire) (res last : Response) (rs : List (Result Response)) (k : ℕ)
      → marshaled reqpl ≡ ok json
      → (w.replays ≡ true) ⊎ (json ≡ "")
      → w.outcomes ≡ ok res ∷ rs
      → Settles options.retry_attempts res rs k last
      → ((do_request (wire_service options decode_error) method path reqpl decode w).0
          ≡ read_response decode_error decode method last)
        × ((do_request (wire_service options decode_error) method path reqpl decode w).1.sent
            ≡ replicate k (first_request options method path json)
              ++ first_request options method path json ∷ w.sent)
        × (k ≤ options.retry_attempts)
  unfolding do_request do_request_with_opts IsResent
  do_request_settled method path json reqpl decode w res last rs k m again o s =
      let whole : is_whole (first_request options method path json) ≡ true = ground arith in
      let (answer, sent) =
        Settles-exchange (first_request options method path json) w (whole, refl, again) o s in
      rw (m, answer) (refl, sent, Settles-bound s)

  -- Where the library does not replay the body, a request that has one and is to be retried fails
  -- with the library's error, and was sent once.
  pub do_request_refused :
      (method path json : String) (reqpl : Option (Result String)) (decode : String → Result A)
      (w : Wire) (res : Response) (rs : List (Result Response))
      → marshaled reqpl ≡ ok json
      → w.replays ≡ false
      → json ≢ ""
      → w.outcomes ≡ ok res ∷ rs
      → is_retryable_error_code res.status_code ≡ true
      → 0 < options.retry_attempts
      → ((do_request (wire_service options decode_error) method path reqpl decode w).0
          ≡ err (wrap "Error sending request" length_mismatch))
        × ((do_request (wire_service options decode_error) method path reqpl decode w).1.sent
            ≡ first_request options method path json ∷ w.sent)
  unfolding do_request do_request_with_opts exchange retry
  do_request_refused method path json reqpl decode w res rs m never some_body o again some_retries =
      let first = first_request options method path json in
      let whole : is_whole first ≡ true = ground arith in
      let lacking : is_whole (drained first) ≡ false =
        elim (Bool-cases (is_whole (drained first))) [
          | inr lacking ↦ lacking
          | inl empty ↦ absurd (some_body (text_length_zero json (ground arith)))
        ] in
      let (n, attempts) = attempts-positive options.retry_attempts some_retries in
      rw (m, o, attempts, whole, again, lacking, never) (refl, refl)

  abbrev rest_of_request : String → String → String → (String → Result A) → Exec Wire A
  rest_of_request method path json decode = do
    res ← exchange wire options.retry_attempts (first_request options method path json)
    lift (read_response decode_error decode method res)

  answered :
      (method path json : String) (decode : String → Result A) (w : Wire) (a : A)
      → (rest_of_request method path json decode w).0 ≡ ok a
      → (res : Response) × (rs : List (Result Response)) × (last : Response) × (k : ℕ) × (w.outcomes
          ≡ ok res ∷ rs)
        × Settles options.retry_attempts res rs k last
        × (200 ≤ last.status_code)
        × (last.status_code ≤ 299)
        × (decode last.body ≡ ok a)
  answered method path json decode w a e =
      let x = exchange wire options.retry_attempts (first_request options method path json) w in
      elim (Result-cases x.0) [
        | inl (last, q) ↦
            let (res, rs, k, o, s) =
              exchange-Settles options.retry_attempts (first_request options method path json)
                w.replays w.outcomes w.sent last q in
            let (lo, hi, d) =
              (read_response_ok_iff decode_error decode method last a).0 (rw q at e) in
            (res, rs, last, k, o, s, lo, hi, d)
        | inr (inl (x, q)) ↦ absurd (ground (arith, rw q at e))
        | inr (inr (x, q)) ↦ absurd (ground (arith, rw q at e))
      ]

  -- What a request yields was in a reply with a status of 200 to 299, on which the outcomes settled.
  pub do_request_sound :
      (method path : String) (reqpl : Option (Result String)) (decode : String → Result A)
      (w : Wire) (a : A)
      → (do_request (wire_service options decode_error) method path reqpl decode w).0 ≡ ok a
      → (res : Response) × (rs : List (Result Response)) × (last : Response) × (k : ℕ) × (w.outcomes
          ≡ ok res ∷ rs)
        × Settles options.retry_attempts res rs k last
        × (200 ≤ last.status_code)
        × (last.status_code ≤ 299)
        × (decode last.body ≡ ok a)
  unfolding do_request do_request_with_opts
  do_request_sound method path reqpl decode w a e = elim (Result-cases (marshaled reqpl)) [
    | inl (json, m) ↦ answered method path json decode w a (rw m at e)
    | inr (inl (x, m)) ↦ absurd (ground (arith, rw m at e))
    | inr (inr (x, m)) ↦ absurd (ground (arith, rw m at e))
  ]
