-- ===== src/App/Sessions.antt =====
-- pkg/app/app.go: sessions, and the OAuth2 state and CSRF tokens that they hold.
pub mod Laws
use cloud_android_orchestrat.Prelude.{
  String, Option, none, some, List, [], ◌∷◌, Map, lookup, str_eq, if◌then◌else◌,
}
use cloud_android_orchestrat.Errors.{plain, new_bad_request_error}
use cloud_android_orchestrat.Exec.{Exec, pure, raise, crash, wrapped, deferring, ◌>>=◌, ◌>>◌}
use cloud_android_orchestrat.Database.{Session}
use cloud_android_orchestrat.App.Defs.{
  App, Request, World, set_cookie, print, redirect, on_db, emit, random_hex_string,
}

-- `query["error"]` of an authorization response: the texts are not printed.
abbrev authentication_error : String
authentication_error = "Authentication error"

module _ {D C : Type 0} (app : App D C) where
  abbrev with_key : Session → Exec (World D C) Session
  with_key s =
      if str_eq s.key ""
      then (do k ← random_hex_string app; pure (record { key = k; oauth2_state = s.oauth2_state }))
      else pure s

  unfoldable pub set_or_update_session : Session → Exec (World D C) (Unit {0})
  set_or_update_session s = do
    s' ← with_key s
    on_db (app.database_service.create_or_update_session s')
    emit (set_cookie s'.key)

  abbrev or_not_found : Option Session → Exec (World D C) Session
  or_not_found none = raise (new_bad_request_error "Session not found" none)
  or_not_found (some s) = pure s

  abbrev fetch_by_cookie : Option String → Exec (World D C) Session
  fetch_by_cookie none = raise (plain "Error reading cookie from request")
  fetch_by_cookie (some key) = do s ← on_db (app.database_service.fetch_session key); or_not_found s

  unfoldable pub fetch_session : Request → Exec (World D C) Session
  fetch_session r = fetch_by_cookie r.session_cookie

  -- `AuthHandler`
  unfoldable pub auth_handler : Request → Exec (World D C) (Unit {0})
  auth_handler r = do
    state ← random_hex_string app
    set_or_update_session (record { key = ""; oauth2_state = state })
    emit (redirect (app.oauth2.auth_code_url state) 303)
    where
      open app.oauth2 use {auth_code_url}

  abbrev first_value : List String → Exec (World D C) String
  first_value [] = crash "index out of range"
  first_value (v ∷ _) = pure v

  abbrev no_error : Option (List String) → Exec (World D C) (Unit {0})
  no_error none = pure tt
  no_error (some _) = raise (plain authentication_error)

  abbrev present : String → Option (List String) → Exec (World D C) String
  present msg none = raise (plain msg)
  present msg (some vs) = first_value vs

  -- The rest of a response whose state is the session's: the session goes in any case.
  abbrev use_session : Session → Option (List String) → Exec (World D C) String
  use_session s code =
      deferring (on_db (app.database_service.delete_session s.key))
        (present "Authorization response does not include an authorization code" code)

  -- `parseAuthorizationResponse`, of the three query parameters and the cookie
  abbrev parse_values :
      Option (List String)
      → Option (List String)
      → Option (List String)
      → Option String
      → Exec (World D C) String
  parse_values query_error query_state query_code cookie = do
    no_error query_error
    state ← present "No OAuth2 State present" query_state
    session ← wrapped "Error fetching session from db" (fetch_by_cookie cookie)
    if str_eq state session.oauth2_state
        then use_session session query_code
        else raise (new_bad_request_error "OAuth2 State doesn't match session" none)

  unfoldable pub parse_authorization_response : Request → Exec (World D C) String
  parse_authorization_response r =
      parse_values (lookup "error" r.query) (lookup "state" r.query) (lookup "code" r.query)
        r.session_cookie
