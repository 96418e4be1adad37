-- ===== src/Client/Requests/Resending.antt =====
-- A request that is sent again (pkg/client/client.go): its buffer has been read.
use cloud_android_orchestrat.Text.{text_length, text_length_zero}
use cloud_android_orchestrat.Errors.{GoError, plain}
use cloud_android_orchestrat.Exec.{Result, err}
use cloud_android_orchestrat.Client.Requests.{HttpRequest, Response, drained}
use cloud_android_orchestrat.Client.Requests.Wire.{is_whole, length_mismatch, replayed, wire}
use cloud_android_orchestrat.Prelude.{
  Bool, Bool-cases, List, [], ap, arith, inl, inr, refl, sym, true, ◌∷◌, ◌≡◌, ◌∙◌, ◌⊎◌,
}

-- A request that is sent again with the body it was built with.
unfoldable pub IsResent : Bool → HttpRequest → Type 0
IsResent replays req =
    (is_whole req ≡ true) × (req.get_body ≡ req.body) × ((replays ≡ true) ⊎ (req.body ≡ ""))

-- What sending such a request again comes to.
pub resent :
    (replays : Bool) (req : HttpRequest) (r : Result Response) (rs : List (Result Response))
    (sent : List HttpRequest)
    → IsResent replays req
    → wire.send (drained req) (record { replays = replays; outcomes = r ∷ rs; sent = sent })
      ≡ (r, record { replays = replays; outcomes = rs; sent = req ∷ sent })
unfolding IsResent
resent replays req r rs sent (whole, same, inr empty) =
    let d : drained req ≡ req = ap (λ b. record req { body = b }) (sym empty) in
    rw (ap is_whole d ∙ whole, d) refl
resent replays req r rs sent (whole, same, inl again) = elim (Bool-cases (is_whole (drained req))) [
  | inl short ↦
      let none_left : text_length req.body ≡ 0 = ground arith in
      let d : drained req ≡ req =
        ap (λ b. record req { body = b }) (sym (text_length_zero req.body none_left)) in
      rw (ap is_whole d ∙ whole, d) refl
  | inr lacking ↦
      let d : replayed (drained req) ≡ req = ap (λ b. record req { body = b }) same in
      rw (lacking, again, d) refl
]

-- Whatever is sent, it meets the next outcome or is refused.
pub sent-cases :
    (req : HttpRequest) (replays : Bool) (r : Result Response) (rs : List (Result Response))
    (sent : List HttpRequest)
    → ((q : HttpRequest) × (wire.send req
            (record { replays = replays; outcomes = r ∷ rs; sent = sent })
          ≡ (r, record { replays = replays; outcomes = rs; sent = q ∷ sent })))
      ⊎ (wire.send req (record { replays = replays; outcomes = r ∷ rs; sent = sent })
          ≡ (err length_mismatch, record { replays = replays; outcomes = r ∷ rs; sent = sent }))
sent-cases req replays r rs sent = elim (Bool-cases (is_whole req)) [
  | inl whole ↦ rw whole (inl (req, refl))
  | inr lacking ↦ elim (Bool-cases replays) [
    | inl again ↦ rw (lacking, again) (inl (replayed req, refl))
    | inr never ↦ rw (lacking, never) (inr refl)
  ]
]

pub no_route :
    (req : HttpRequest) (replays : Bool) (sent : List HttpRequest)
    → (x : GoError) × ((wire.send req (record { replays = replays; outcomes = []; sent = sent })).0
        ≡ err x)
no_route req replays sent = elim (Bool-cases (is_whole req)) [
  | inl whole ↦ rw whole (plain "no route", refl)
  | inr lacking ↦ elim (Bool-cases replays) [
    | inl again ↦ rw (lacking, again) (plain "no route", refl)
    | inr never ↦ rw (lacking, never) (length_mismatch, refl)
  ]
]
