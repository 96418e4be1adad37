-- ===== src/App/Oauth/Laws.antt =====
-- The withdrawal of an authorization, and what a refused callback leaves alone.
use cloud_android_orchestrat.Prelude.{
  if◌then◌else◌, String, ◌≡◌, ◌≢◌, none, some, List, ◌∷◌, arith, lookup, erase, lookup-erase,
  str_eq, str_eq_iff, inl, inr,
}
use cloud_android_orchestrat.Exec.{ok, err, Result-cases}
use cloud_android_orchestrat.Errors.{new_bad_request_error}
use cloud_android_orchestrat.Accounts.{User, username}
use cloud_android_orchestrat.Database.Memory
use cloud_android_orchestrat.Database.Memory.{InMemoryDbService, in_memory_db, zero_session}
use cloud_android_orchestrat.App.Defs.{App, Request, World, Token}
use cloud_android_orchestrat.App.Sessions.{fetch_session, parse_authorization_response}
use cloud_android_orchestrat.App.Credentials.{fetch_user_credentials}
use cloud_android_orchestrat.App.Credentials.Laws.{in_memory}
use cloud_android_orchestrat.App.Oauth.{
  oauth2_callback, revoke_credentials, rescind_authorization_handler,
}

module _ {D C : Type 0} (app : App D C) where
  -- The outside world changes and credentials are stored only behind an accepted response: where
  -- the response is refused, the callback has its outcome, and leaves what it left.
  oauth2_callback_refused :
      (r : Request) (w : World D C)
      → ((auth_code : String) → (parse_authorization_response app r w).0 ≢ ok auth_code)
      → ((oauth2_callback app r w).1 ≡ (parse_authorization_response app r w).1)
        × ((oauth2_callback app r w).0 ≢ ok tt)
  unfolding oauth2_callback
  oauth2_callback_refused r w h = elim (Result-cases (parse_authorization_response app r w).0) [
    | inl (a, e) ↦ absurd (h a e)
    | inr (inl (x, e)) ↦ ground arith
    | inr (inr (x, e)) ↦ ground arith
  ]

module _ {C : Type 0} (app : App InMemoryDbService C) where
  revoked :
      (user : User) (name : String) (tk : Token) (w : World InMemoryDbService C)
      → username user ≡ ok name
      → fetch_user_credentials (in_memory app) user w ≡ (ok (some tk), w)
      → (revoke_credentials (in_memory app) user w).1.db
        ≡ record w.db { credentials = erase name w.db.credentials }
  unfolding revoke_credentials in_memory_db
  revoked user name tk w named f = ground arith

  rescinded :
      (r : Request) (user : User) (w : World InMemoryDbService C) (later : List String)
      → lookup "csrf_token" r.post_form ≡ some (w.db.session.oauth2_state ∷ later)
      → r.session_cookie ≡ some w.db.session.key
      → (rescind_authorization_handler (in_memory app) r user w).1.db
        ≡ (Memory.delete_session w.db.session.key
            (revoke_credentials (in_memory app) user w).1.db).1
  unfolding rescind_authorization_handler fetch_session in_memory_db
  rescinded r user w later csrf cookie =
      rw (csrf, cookie)
        (ground (
          arith,
          str_eq_iff w.db.session.key w.db.session.key,
          str_eq_iff w.db.session.oauth2_state w.db.session.oauth2_state,
        ))

  -- Over the in-memory database, and where fetching the user's credentials gives a token and changes
  -- nothing, so that none has to be refreshed, a confirmed withdrawal removes the user's credentials,
  -- whether or not the provider accepts the revocation, uses the session up, and leaves the
  -- credentials of every other user.
  pub rescind_authorization_handler_removes :
      (r : Request) (user : User) (name other : String) (tk : Token) (w : World InMemoryDbService C)
      (later : List String)
      → username user ≡ ok name
      → lookup "csrf_token" r.post_form ≡ some (w.db.session.oauth2_state ∷ later)
      → r.session_cookie ≡ some w.db.session.key
      → fetch_user_credentials (in_memory app) user w ≡ (ok (some tk), w)
      → let after = (rescind_authorization_handler (in_memory app) r user w).1.db in
        (after.session ≡ zero_session)
        × (lookup other after.credentials
            ≡ (if str_eq name other then none else lookup other w.db.credentials))
  unfolding Memory.delete_session
  rescind_authorization_handler_removes r user name other tk w later named csrf cookie f =
      let e = rescinded r user w later csrf cookie in
      let e' = revoked user name tk w named f in
      rw (e, e')
        (ground (
          arith,
          str_eq_iff w.db.session.key w.db.session.key,
          lookup-erase name other w.db.credentials,
        ))

  -- Over the in-memory database, a withdrawal whose CSRF token is not that of the cookie's session
  -- is refused with 400 and changes nothing.
  rescind_authorization_handler_mismatch :
      (r : Request) (user : User) (w : World InMemoryDbService C) (token : String)
      (later : List String)
      → lookup "csrf_token" r.post_form ≡ some (token ∷ later)
      → r.session_cookie ≡ some w.db.session.key
      → token ≢ w.db.session.oauth2_state
      → rescind_authorization_handler (in_memory app) r user w
        ≡ (err (new_bad_request_error "CSRF token doesn't match session" none), w)
  unfolding rescind_authorization_handler fetch_session in_memory_db
  rescind_authorization_handler_mismatch r user w token later csrf cookie ne =
      rw (csrf, cookie)
        (ground (
          arith,
          str_eq_iff w.db.session.key w.db.session.key,
          str_eq_iff token w.db.session.oauth2_state,
        ))
