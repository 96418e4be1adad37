-- ===== src/Client/Service/Creation.antt =====
-- Creating a host: the operation that the first reply names is waited for.
use cloud_android_orchestrat.Client.Service.{create_host}
use cloud_android_orchestrat.Client.Service.{Readers}
use cloud_android_orchestrat.Instances.{Operation}
use cloud_android_orchestrat.Errors.{GoError}
use cloud_android_orchestrat.Client.Requests.Laws.{first_request, wire_service}
use cloud_android_orchestrat.Client.Requests.Wire.{Wire, is_whole, wire}
use cloud_android_orchestrat.Exec.{Result, Result-cases, err, ok, panic}
use cloud_android_orchestrat.Prelude.{
  Bool, true, arith, inl, List, Option, String, false, inr, none, refl, some, suc, zero, ℕ, ◌<>◌,
  ◌∷◌, ◌≡◌, ◌⊎◌,
}
use cloud_android_orchestrat.Client.Requests.{
  HttpRequest, Response, ServiceOptions, do_request, do_request_with_opts, drained, exchange,
  is_retryable_error_code, marshaled, read_response, retry,
}

once :
    (n : ℕ) (req : HttpRequest) (res : Response) (w : Wire)
    → is_retryable_error_code res.status_code ≡ false
    → retry wire n req res w ≡ (ok res, w)
unfolding retry
once zero req res w e = refl
once (suc n) req res w e = rw e refl

module _ {A : Type 0} (options : ServiceOptions) (decode_error : String → Result GoError) where
  do_request_once :
      (method path json : String) (reqpl : Option (Result String)) (decode : String → Result A)
      (res : Response) (rs : List (Result Response)) (replays : Bool) (sent : List HttpRequest)
      → marshaled reqpl ≡ ok json
      → is_retryable_error_code res.status_code ≡ false
      → do_request
          (wire_service options decode_error)
          method
          path
          reqpl
          decode
          (record { replays = replays; outcomes = ok res ∷ rs; sent = sent })
        ≡ (
          read_response decode_error decode method res,
          record {
            replays = replays;
            outcomes = rs;
            sent = first_request options method path json ∷ sent;
          },
        )
  unfolding do_request do_request_with_opts exchange
  do_request_once method path json reqpl decode res rs replays sent m e =
      let whole : is_whole (first_request options method path json) ≡ true = ground arith in
      rw
        (
          m,
          whole,
          once options.retry_attempts (drained (first_request options method path json)) res _ e,
        )
        refl

module _ (options : ServiceOptions) (json : Readers) (decode_error : String → Result GoError) where
  -- Where neither reply is one to retry: the host comes from the reply to the wait for the operation
  -- that the first reply names, and if the first is an error nothing is waited for.
  create_host_waits :
      (req : String) (first second : Response) (rs : List (Result Response)) (replays : Bool)
      (sent : List HttpRequest)
      → is_retryable_error_code first.status_code ≡ false
      → is_retryable_error_code second.status_code ≡ false
      → ((op : Operation) × (read_response decode_error json.operation "POST" first ≡ ok op)
          × (create_host
                (wire_service options decode_error)
                json
                (ok req)
                (record { replays = replays; outcomes = ok first ∷ ok second ∷ rs; sent = sent })
              ≡ (
                read_response decode_error json.host_instance "POST" second,
                record {
                  replays = replays;
                  outcomes = rs;
                  sent =
                      first_request options "POST" ("/operations/" <> op.name <> "/:wait") ""
                      ∷ first_request options "POST" "/hosts" req
                      ∷ sent;
                },
              )))
        ⊎ ((e : GoError) × (read_response decode_error json.operation "POST" first ≡ err e)
            × (create_host
                  (wire_service options decode_error)
                  json
                  (ok req)
                  (record { replays = replays; outcomes = ok first ∷ ok second ∷ rs; sent = sent })
                ≡ (
                  err e,
                  record {
                    replays = replays;
                    outcomes = ok second ∷ rs;
                    sent = first_request options "POST" "/hosts" req ∷ sent;
                  },
                )))
        ⊎ ((p : String) × (read_response decode_error json.operation "POST" first ≡ panic p))
  unfolding create_host
  create_host_waits req first second rs replays sent e1 e2 =
      let posted =
        do_request_once options decode_error "POST" "/hosts" req (some (ok req)) json.operation
          first (ok second ∷ rs) replays sent refl e1 in
      elim (Result-cases (read_response decode_error json.operation "POST" first)) [
        | inl (op, r) ↦
            let waited =
              do_request_once options decode_error "POST" ("/operations/" <> op.name <> "/:wait") ""
                none json.host_instance second rs replays
                (first_request options "POST" "/hosts" req ∷ sent) refl e2 in
            inl (op, r, rw (posted, r, waited) refl)
        | inr (inl (e, r)) ↦ inr (inl (e, r, rw (posted, r) refl))
        | inr (inr (p, r)) ↦ inr (inr (p, r))
      ]
