-- ===== src/Client/Requests/Wire.antt =====
-- A network that replays outcomes, and the response on which they settle.
use cloud_android_orchestrat.Errors.{GoError, plain}
use cloud_android_orchestrat.Client.Requests.{
  HttpRequest, Response, Transport, is_retryable_error_code,
}
use cloud_android_orchestrat.Prelude.{
  Bool, if◌then◌else◌, List, [], false, suc, true, ℕ, ◌==◌, ◌∷◌, ◌≡◌,
}
use cloud_android_orchestrat.Text.{text_length}
use cloud_android_orchestrat.Exec.{Result, err, ok, pure}

-- A library over a network that gives a list of outcomes in order, and records what is sent over it,
-- newest first. A request whose buffer does not have the declared length is sent with the body that
-- `GetBody` gives where the library replays it, and is refused otherwise.
pub record Wire : Type 0 where
  pub replays : Bool
  pub outcomes : List (Result Response)
  pub sent : List HttpRequest

abbrev sent_on :
    HttpRequest → Bool → List (Result Response) → List HttpRequest → Result Response × Wire
sent_on req replays [] sent =
    (err (plain "no route"), record { replays = replays; outcomes = []; sent = req ∷ sent })
sent_on req replays (r ∷ rs) sent =
    (r, record { replays = replays; outcomes = rs; sent = req ∷ sent })

abbrev pub length_mismatch : GoError
length_mismatch = plain "http: ContentLength with Body length 0"

abbrev pub is_whole : HttpRequest → Bool
is_whole req = text_length req.body == req.content_length

abbrev pub replayed : HttpRequest → HttpRequest
replayed req = record req { body = req.get_body }

abbrev carried : HttpRequest → Wire → Result Response × Wire
carried req w =
    if is_whole req
    then sent_on req w.replays w.outcomes w.sent
    else if w.replays
    then sent_on (replayed req) w.replays w.outcomes w.sent
    else (err length_mismatch, w)

abbrev pub wire : Transport Wire
wire = record {
  send = λ req w. carried req w;
  dump_request = λ req. pure tt;
  dump_response = λ res. pure tt;
}

-- The response that a first one, what would follow it and a number of attempts lead to: the first
-- that needs no retry, or the one that uses up the attempts; and the number of retries before it.
pub data Settles : ℕ → Response → List (Result Response) → ℕ → Response → Type 0 where
  settled :
      {n : ℕ} {res : Response} {rs : List (Result Response)}
      → is_retryable_error_code res.status_code ≡ false
      → Settles n res rs 0 res
  exhausted : {res : Response} {rs : List (Result Response)} → Settles 0 res rs 0 res
  retried :
      {n k : ℕ} {res next last : Response} {rs : List (Result Response)}
      → is_retryable_error_code res.status_code ≡ true
      → Settles n next rs k last
      → Settles (suc n) res (ok next ∷ rs) (suc k) last
