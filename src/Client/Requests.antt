-- ===== src/Client/Requests.antt =====
-- pkg/client/client.go: one request of the client, its retries and its replies.
pub mod Wire
pub mod Resending
pub mod Retrying
pub mod Laws
use cloud_android_orchestrat.Exec.{wrapped}
use cloud_android_orchestrat.Exec.{lift}
use cloud_android_orchestrat.Prelude.{if◌then◌else◌}
use cloud_android_orchestrat.Prelude.{◌||◌}
use cloud_android_orchestrat.Text.{text_length}
use cloud_android_orchestrat.Errors.{GoError, api_call, wrap}
use cloud_android_orchestrat.Prelude.{
  Bool, List, Option, String, [], ltb, none, not, some, str_eq, suc, zero, ℕ, ◌++◌, ◌<>◌, ◌==◌, ◌∷◌,
}
use cloud_android_orchestrat.Exec.{◌>>=◌, ◌>>◌, Exec, Result, err, ok, panic, pure, wrap_result}

-- `*http.Request`. `http.NewRequest` sets the declared length and `GetBody`, which gives the whole
-- body anew, from the buffer of the JSON text; `body` is what is left to read of that buffer.
pub record HttpRequest : Type 0 where
  pub method : String
  pub url : String
  pub headers : List (String × String)
  pub content_length : ℕ
  pub body : String
  pub get_body : String

pub record Response : Type 0 where
  pub status_code : ℕ
  pub status : String
  pub body : String

-- `net/http` and `httputil`, over a state of theirs.
pub record Transport (W : Type 0) : Type 0 where
  pub send : HttpRequest → Exec W Response
  pub dump_request : HttpRequest → Exec W (Unit {0})
  pub dump_response : Response → Exec W (Unit {0})

-- `ServiceOptions`
pub record ServiceOptions : Type 0 where
  pub root_endpoint : String
  pub retry_attempts : ℕ

-- The payload of a request: `nil`, or what `json.Marshal` returns for it.
abbrev pub marshaled : Option (Result String) → Result String
marshaled none = ok ""
marshaled (some r) = wrap_result "Error marshaling request" r

abbrev pub new_request : String → String → List (String × String) → String → HttpRequest
new_request method url headers json = record {
  method = method;
  url = url;
  headers = headers ++ ("Content-Type", "application/json") ∷ [];
  content_length = text_length json;
  body = json;
  get_body = json;
}

-- A request that was sent, and is sent again as it is: its buffer has been read, and whether the
-- library asks `GetBody` for another is the transport's matter.
abbrev pub drained : HttpRequest → HttpRequest
drained req = record req { body = "" }

-- `isRetryableErrorCode`
unfoldable pub is_retryable_error_code : ℕ → Bool
is_retryable_error_code code = code == 503 || code == 502

unfoldable pub is_success : ℕ → Bool
is_success code = not (ltb code 200 || ltb 299 code)

module _ {W : Type 0} (client : Transport W) where
  -- The retries, which follow a first response.
  unfoldable pub retry : ℕ → HttpRequest → Response → Exec W Response
  retry zero req res = pure res
  retry (suc attempts) req res =
      let again : Exec W Response = (do
        wrapped "Error dumping response" (client.dump_response res)
        next ← wrapped "Error sending request" (client.send req)
        retry attempts (drained req) next) in
      if is_retryable_error_code res.status_code then again else pure res

  -- A request is sent and retried.
  unfoldable pub exchange : ℕ → HttpRequest → Exec W Response
  exchange attempts req = do
    res ← wrapped "Error sending request" (client.send req)
    retry attempts (drained req) res

module _ {A : Type 0} where
  abbrev decoded_error : Result GoError → Result A
  decoded_error (ok e) = err e
  decoded_error (err e) = err (wrap "Error decoding response" e)
  decoded_error (panic p) = panic p

  -- What a response says. A response to a DELETE has no body to decode.
  unfoldable pub read_response :
      (String → Result GoError) → (String → Result A) → String → Response → Result A
  read_response decode_error decode method res =
      if is_success res.status_code
      then wrap_result "Error decoding response" (decode res.body)
      else if str_eq method "DELETE"
      then err (api_call 0 res.status "")
      else decoded_error (decode_error res.body)

-- A service: its transport, its options, and how the JSON of an `ApiCallError` is read.
pub record ServiceImpl (W : Type 0) : Type 0 where
  pub client : Transport W
  pub options : ServiceOptions
  pub decode_error : String → Result GoError

-- `respl` is nil: the body is not read.
abbrev pub no_response : String → Result (Unit {0})
no_response body = ok tt

module _ {W A : Type 0} (c : ServiceImpl W) where
  -- `doRequestWithOpts`
  unfoldable pub do_request_with_opts :
      String
      → String
      → Option (Result String)
      → (String → Result A)
      → List (String × String)
      → Exec W A
  do_request_with_opts method path reqpl decode headers = do
    json ← lift (marshaled reqpl)
    let req = new_request method (c.options.root_endpoint <> path) headers json
    wrapped "Error dumping request" (c.client.dump_request req)
    res ← exchange c.client c.options.retry_attempts req
    wrapped "Error dumping response" (c.client.dump_response res)
    lift (read_response c.decode_error decode method res)

  -- `doRequest`
  unfoldable pub do_request :
      String → String → Option (Result String) → (String → Result A) → Exec W A
  do_request method path reqpl decode = do_request_with_opts method path reqpl decode []
