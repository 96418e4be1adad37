-- ===== src/Errors.antt =====
-- pkg/app/errors/errors.go: the application's error type, and the other errors that reach it.
pub mod Laws
use cloud_android_orchestrat.Prelude.{ℕ, String, Option, none, some, ◌<>◌}

-- A Go `error`. `app` is an `*AppError` whose `Err` is nil and `app_caused` one with a cause,
-- `google` is a `*googleapi.Error`, `api_call` the client's
-- `*ApiCallError`, `plain` an opaque error and `wrap` one made by `%w`.
pub data GoError : Type 0 where
  plain : String → GoError
  wrap : String → GoError → GoError
  google : String → ℕ → GoError
  api_call : ℕ → String → String → GoError
  app : String → ℕ → GoError
  app_caused : String → ℕ → GoError → GoError

-- The fields that a client of the API sees (`apiv1.Error`).
pub record ApiError : Type 0 where
  pub code : ℕ
  pub error_msg : String

-- `Error()`
unfoldable pub error_text : GoError → String
error_text (plain msg) = msg
error_text (wrap msg e) = msg <> ": " <> error_text e
error_text (google msg code) = msg
error_text (api_call code msg details) = msg
error_text (app msg code) = msg
error_text (app_caused msg code e) = msg <> ": " <> error_text e

-- `Unwrap()`
unfoldable unwrap : GoError → Option GoError
unwrap (wrap msg e) = some e
unwrap (app_caused msg code e) = some e
unwrap (plain msg) = none
unwrap (google msg code) = none
unwrap (api_call code msg details) = none
unwrap (app msg code) = none

abbrev app_error : String → ℕ → Option GoError → GoError
app_error msg code none = app msg code
app_error msg code (some e) = app_caused msg code e

-- `errors.As(err, &e)` with `e` an `*AppError`: the first one of the chain, by its response.
unfoldable pub as_app_error : GoError → Option ApiError
as_app_error (plain msg) = none
as_app_error (wrap msg e) = as_app_error e
as_app_error (google msg code) = none
as_app_error (api_call code msg details) = none
as_app_error (app msg code) = some (record { code = code; error_msg = msg })
as_app_error (app_caused msg code e) = some (record { code = code; error_msg = msg })

abbrev pub new_not_found_error : String → Option GoError → GoError
new_not_found_error msg e = app_error msg 404 e

abbrev pub new_bad_request_error : String → Option GoError → GoError
new_bad_request_error msg e = app_error msg 400 e

abbrev new_method_not_allowed_error : String → Option GoError → GoError
new_method_not_allowed_error msg e = app_error msg 405 e

abbrev pub new_internal_error : String → Option GoError → GoError
new_internal_error msg e = app_error msg 500 e

abbrev pub new_unauthenticated_error : String → Option GoError → GoError
new_unauthenticated_error msg e = app_error msg 401 e

abbrev pub new_service_unavailable_error : String → Option GoError → GoError
new_service_unavailable_error msg e = app_error msg 503 e
