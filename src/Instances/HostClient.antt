-- ===== src/Instances/HostClient.antt =====
-- pkg/app/instances/hostclient.go: requests to a host, over the parameters `get` and `post` of the
-- HTTP client, with the URL.
use cloud_android_orchestrat.Errors.{ApiError, wrap}
use cloud_android_orchestrat.Instances.Defs.{NetHostClient}
use cloud_android_orchestrat.Exec.{Exec, Result, err, lift, ok, panic, pure, wrapped, ◌>>=◌}
use cloud_android_orchestrat.Prelude.{String, if◌then◌else◌, ltb, str_eq, ℕ, ◌<>◌, ◌||◌}

-- A response, with its body.
pub record HostReply : Type 0 where
  pub status_code : ℕ
  pub body : String

-- What is put into a `HostResponse`.
pub data Parsed (A : Type 0) : Type 0 where
  result : A → Parsed A
  error : ApiError → Parsed A

-- `url.Path = path`, `url.RawQuery = query` on a copy of the host's URL
abbrev url_of : String → String → String → String
url_of base path query = if str_eq query "" then base <> path else (base <> path) <> "?" <> query

module _ {A : Type 0} (decode_error : String → Result ApiError) (decode : String → Result A) where
  abbrev parsed_as : {X : Type 0} → (X → Parsed A) → Result X → Result (Parsed A)
  parsed_as f (ok x) = ok (f x)
  parsed_as f (err e) = err (wrap "Failed to parse device response" e)
  parsed_as f (panic p) = panic p

  -- `parseReply`
  unfoldable pub parse_reply : HostReply → Result (Parsed A)
  parse_reply res =
      if ltb res.status_code 200 || ltb 299 res.status_code
      then parsed_as error (decode_error res.body)
      else parsed_as result (decode res.body)

  module _ {W : Type 0} (client : NetHostClient) where
    -- `Get` with an `out` that is not nil: the status, and what the reply parses to
    unfoldable pub get :
        (String → Exec W HostReply) → String → String → Exec W (ℕ × Result (Parsed A))
    get fetch path query = do
      res ← wrapped "Failed to connect to device host" (fetch (url_of client.url path query))
      pure (res.status_code, parse_reply res)

    -- `Post`; `json` is what `json.Marshal` gives
    unfoldable pub post :
        (String → String → Exec W HostReply)
        → String
        → String
        → Result String
        → Exec W (ℕ × Result (Parsed A))
    post send path query json = do
      body ← wrapped "Failed to parse JSON request" (lift json)
      res ← wrapped "Failed to connecto to device host" (send (url_of client.url path query) body)
      pure (res.status_code, parse_reply res)
