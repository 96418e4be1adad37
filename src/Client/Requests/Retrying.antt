-- ===== src/Client/Requests/Retrying.antt =====
-- What sending a request again and again comes to (pkg/client/client.go).
use cloud_android_orchestrat.Client.Requests.Wire.{settled}
use cloud_android_orchestrat.Client.Requests.Wire.{retried}
use cloud_android_orchestrat.Client.Requests.Wire.{Settles, Wire, exhausted, wire}
use cloud_android_orchestrat.Client.Requests.Resending.{IsResent, no_route, resent, sent-cases}
use cloud_android_orchestrat.Prelude.{Bool, String, ◌∙◌, ◌≢◌, subst}
use cloud_android_orchestrat.Errors.{GoError}
use cloud_android_orchestrat.Client.Requests.{
  exchange, HttpRequest, Response, drained, is_retryable_error_code, retry,
}
use cloud_android_orchestrat.Exec.{Result-cases, panic, Result, err, ok}
use cloud_android_orchestrat.Prelude.{
  Bool-cases, inl, inr, List, [], ap, arith, false, refl, replicate, suc, zero, ℕ, ◌++◌, ◌∷◌, ◌≡◌,
  ◌≤◌,
}

pub Settles-bound :
    {n k : ℕ} {res last : Response} {rs : List (Result Response)} → Settles n res rs k last → k ≤ n
Settles-bound (settled e) = omega arith
Settles-bound exhausted = omega arith
Settles-bound (retried e s) = omega (arith, Settles-bound s)

replicate_snoc :
    {A : Type 0} (k : ℕ) (x : A) (xs : List A) → replicate k x ++ x ∷ xs ≡ x ∷ replicate k x ++ xs
replicate_snoc zero x xs = refl
replicate_snoc (suc k) x xs = ap (λ ys. x ∷ ys) (replicate_snoc k x xs)

-- What retrying leads to, by the outcomes that are left.
Settles-retry :
    {n k : ℕ} {res last : Response} {rs : List (Result Response)} (replays : Bool)
    (req : HttpRequest) (sent : List HttpRequest)
    → IsResent replays req
    → Settles n res rs k last
    → ((retry wire n (drained req) res (record { replays = replays; outcomes = rs; sent = sent })).0
        ≡ ok last)
      × ((retry wire n
            (drained req)
            res
            (record { replays = replays; outcomes = rs; sent = sent })).1.sent
          ≡ replicate k req ++ sent)
unfolding retry
Settles-retry {n = zero} replays req sent h (settled e) = (refl, refl)
Settles-retry {n = suc n} replays req sent h (settled e) = rw e (refl, refl)
Settles-retry replays req sent h exhausted = (refl, refl)
Settles-retry {k = suc k} replays req sent h (retried {next = next} {rs = rs} e s) =
    let (r, t) = Settles-retry replays req (req ∷ sent) h s in
    rw (e, resent replays req (ok next) rs sent h) (r, t ∙ replicate_snoc k req sent)

abbrev result_or : Response → Result Response → Response
result_or d (ok res) = res
result_or d _ = d

failed : {x : GoError} {r : Response} → err x ≢ ok r
failed e = cc

crashed : {x : String} {r : Response} → panic x ≢ ok r
crashed e = cc

stopped :
    (n : ℕ) (req : HttpRequest) (res last : Response) (w : Wire)
    → is_retryable_error_code res.status_code ≡ false
    → (retry wire (suc n) (drained req) res w).0 ≡ ok last
    → (k : ℕ) × Settles (suc n) res w.outcomes k last
unfolding retry
stopped n req res last w final e =
    let e' = rw final at e in
    (0, subst (λ x. Settles (suc n) res w.outcomes 0 x) (ap (result_or res) e') (settled final))

retry-Settles :
    (n : ℕ) (req : HttpRequest) (res last : Response) (replays : Bool) (rs : List (Result Response))
    (sent : List HttpRequest)
    → (retry wire n (drained req) res (record { replays = replays; outcomes = rs; sent = sent })).0
      ≡ ok last
    → (k : ℕ) × Settles n res rs k last
unfolding retry
retry-Settles zero req res last replays rs sent e =
    (0, subst (λ x. Settles 0 res rs 0 x) (ap (result_or res) e) exhausted)
retry-Settles (suc n) req res last replays [] sent e =
    elim (Bool-cases (is_retryable_error_code res.status_code)) [
      | inr final ↦ stopped n req res last _ final e
      | inl again ↦
          let (x, f) = no_route (drained req) replays sent in absurd (failed (rw (again, f) at e))
    ]
retry-Settles (suc n) req res last replays (r ∷ rs) sent e =
    elim (Bool-cases (is_retryable_error_code res.status_code)) [
      | inr final ↦ stopped n req res last _ final e
      | inl again ↦ elim (sent-cases (drained req) replays r rs sent) [
        | inr f ↦ absurd (failed (rw (again, f) at e))
        | inl (q, f) ↦ elim (Result-cases r) [
          | inr (inl (x, g)) ↦ absurd (failed (rw (again, f, g) at e))
          | inr (inr (x, g)) ↦ absurd (crashed (rw (again, f, g) at e))
          | inl (next, g) ↦
              let (k, s) =
                retry-Settles n req next last replays rs (q ∷ sent) (rw (again, f, g) at e) in
              (suc k, rw g (retried again s))
        ]
      ]
    ]

pub Settles-exchange :
    {n k : ℕ} {res last : Response} {rs : List (Result Response)} (req : HttpRequest) (w : Wire)
    → IsResent w.replays req
    → w.outcomes ≡ ok res ∷ rs
    → Settles n res rs k last
    → ((exchange wire n req w).0 ≡ ok last)
      × ((exchange wire n req w).1.sent ≡ replicate k req ++ req ∷ w.sent)
unfolding exchange IsResent
Settles-exchange req w (whole, same, again) o s =
    rw (o, whole) (Settles-retry w.replays req (req ∷ w.sent) (whole, same, again) s)

pub exchange-Settles :
    (n : ℕ) (req : HttpRequest) (replays : Bool) (outcomes : List (Result Response))
    (sent : List HttpRequest) (last : Response)
    → (exchange wire n req (record { replays = replays; outcomes = outcomes; sent = sent })).0
      ≡ ok last
    → (res : Response) × (rs : List (Result Response)) × (k : ℕ) × (outcomes ≡ ok res ∷ rs)
      × Settles n res rs k last
unfolding exchange
exchange-Settles n req replays [] sent last e =
    let (x, f) = no_route req replays sent in absurd (failed (rw f at e))
exchange-Settles n req replays (r ∷ rs) sent last e = elim (sent-cases req replays r rs sent) [
  | inr f ↦ absurd (failed (rw f at e))
  | inl (q, f) ↦ elim (Result-cases r) [
    | inr (inl (x, g)) ↦ absurd (failed (rw (f, g) at e))
    | inr (inr (x, g)) ↦ absurd (crashed (rw (f, g) at e))
    | inl (res, g) ↦
        let (k, s) = retry-Settles n req res last replays rs (q ∷ sent) (rw (f, g) at e) in
        (res, rs, k, ap (λ x. x ∷ rs) g, s)
  ]
]
