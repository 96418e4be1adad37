-- ===== src/App/Oauth.antt =====
-- pkg/app/app.go and pkg/app/oauth2/oauth2.go: the OAuth2 callback, and the withdrawal of an
-- authorization.
pub mod Laws
use cloud_android_orchestrat.Prelude.{
  String, true, false, Bool, Option, none, some, List, [], ◌∷◌, Map, lookup, str_eq, if◌then◌else◌,
}
use cloud_android_orchestrat.Errors.{GoError, plain, wrap, new_bad_request_error}
use cloud_android_orchestrat.Exec.{
  Exec, Result, ok, err, pure, raise, crash, lift, wrapped, on_error, logged, deferring, ◌>>=◌,
  ◌>>◌,
}
use cloud_android_orchestrat.Accounts.{User, username, Claim}
use cloud_android_orchestrat.App.Defs.{
  OAuth2Api, App, Extra, absent, text, other, Token, IdToken, Parsed, Request, World, print, on_db,
  on_cloud, emit, random_hex_string,
}
use cloud_android_orchestrat.App.Sessions.{
  set_or_update_session, fetch_session, parse_authorization_response,
}
use cloud_android_orchestrat.App.Credentials.{store_user_credentials, fetch_user_credentials}

abbrev id_token_of : Option (GoError × Bool) → Option IdToken → Result (Option IdToken)
id_token_of (some (e, true)) t = err e
id_token_of _ t = ok t

-- `extractIDToken`: only an error that is `ErrInvalidKeyType` is returned.
unfoldable extract_id_token : {C : Type 0} → OAuth2Api C → Token → Result (Option IdToken)
extract_id_token api tk = elim tk.id_token [
  | absent ↦ err (plain "No id token in oauth2 server response")
  | other ↦ err (plain "Unexpected id token in oauth2 response")
  | text s ↦ id_token_of (api.jwt_parse s).error (api.jwt_parse s).token
]

module _ {D C : Type 0} (app : App D C) where
  -- `idToken.Claims.(jwt.MapClaims)`, of a pointer that may be nil
  abbrev claims_of : Option IdToken → Exec (World D C) (Map Claim)
  claims_of none = crash "nil pointer dereference"
  claims_of (some t) = elim t.claims [
    | none ↦ raise (plain "Id token in unexpected format")
    | some cs ↦ pure cs
  ]

  -- A nil `User` panics when its name is asked for.
  abbrev some_user : Option User → Exec (World D C) User
  some_user none = crash "nil pointer dereference"
  some_user (some u) = pure u

  -- Behind a valid response: exchange the code, take the user of the id token, store the token.
  unfoldable pub exchange_code : Request → String → Exec (World D C) (Unit {0})
  unfolding extract_id_token
  exchange_code r auth_code = do
    tk ← wrapped "Error exchanging token" (on_cloud (app.oauth2.exchange auth_code))
    id_token ← wrapped "Error extracting id token" (lift (extract_id_token app.oauth2 tk))
    claims ← claims_of id_token
    user ← lift (app.account_manager.on_oauth2_exchange r.headers claims)
    u ← some_user user
    store_user_credentials app u tk
    emit (print "Authorization successful, you may close this window now")

  -- `OAuth2Callback`
  unfoldable pub oauth2_callback : Request → Exec (World D C) (Unit {0})
  oauth2_callback r = do auth_code ← parse_authorization_response app r; exchange_code r auth_code

  abbrev confirm_page : Option Token → Exec (World D C) (Unit {0})
  confirm_page none = emit (print "No credentials found")
  confirm_page (some _) = do
    state ← random_hex_string app
    set_or_update_session app (record { key = ""; oauth2_state = state })
    emit (print state)

  -- `DeAuthHandler`: the page's form holds the state as its CSRF token.
  unfoldable pub de_auth_handler : Request → User → Exec (World D C) (Unit {0})
  de_auth_handler r user = do
    tk ←
        on_error (fetch_user_credentials app user)
          (λ e. do emit (print "No credentials found"); raise e)
    confirm_page tk

  -- `RevokeGoogleOAuth2Token`; its argument is never nil here
  unfoldable pub revoke_google_oauth2_token : Token → Exec (World D C) (Unit {0})
  revoke_google_oauth2_token tk = on_cloud (app.oauth2.post_revoke tk.access_token)

  abbrev csrf_token : Option (List String) → Exec (World D C) String
  csrf_token (some (state ∷ _)) = pure state
  csrf_token _ = raise (new_bad_request_error "Missing CSRF token" none)

  abbrev delete_credentials : User → Exec (World D C) (Unit {0})
  delete_credentials user = do
    name ← lift (username user)
    logged (on_db (app.database_service.delete_build_api_credentials name))

  -- The credentials go whether or not the provider accepts the revocation.
  abbrev revoke_found : User → Option Token → Exec (World D C) (Unit {0})
  revoke_found user none = emit (print "No credentials found")
  revoke_found user (some tk) =
      deferring (delete_credentials user)
        (do revoke_google_oauth2_token tk; emit (print "Authorization rescinded"))

  unfoldable pub revoke_credentials : User → Exec (World D C) (Unit {0})
  unfolding revoke_google_oauth2_token
  revoke_credentials user = do tk ← fetch_user_credentials app user; revoke_found user tk

  -- `RescindAuthorizationHandler`
  unfoldable pub rescind_authorization_handler : Request → User → Exec (World D C) (Unit {0})
  rescind_authorization_handler r user = do
    state ← csrf_token (lookup "csrf_token" r.post_form)
    session ← fetch_session app r
    if str_eq state session.oauth2_state
        then deferring (on_db (app.database_service.delete_session session.key))
            (revoke_credentials user)
        else raise (new_bad_request_error "CSRF token doesn't match session" none)
