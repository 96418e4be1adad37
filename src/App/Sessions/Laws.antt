-- ===== src/App/Sessions/Laws.antt =====
-- What an authorization response must show, and that a session serves once.
use cloud_android_orchestrat.Prelude.{
  ◌++◌, ◌+◌, true, ◌≢◌, String, ◌≡◌, refl, Option, none, some, List, [], ◌∷◌, arith, str_eq_iff,
}
use cloud_android_orchestrat.Prelude.{inl, inr}
use cloud_android_orchestrat.Exec.{err, Result-cases, ok}
use cloud_android_orchestrat.Errors.{new_bad_request_error}
use mathlib.Core.List.{append_assoc}
use cloud_android_orchestrat.Prelude.{◌++◌, ◌+◌}
use cloud_android_orchestrat.App.Defs.{hex_string_at}
use cloud_android_orchestrat.Database.{Session}
use cloud_android_orchestrat.Database.Memory
use cloud_android_orchestrat.Database.Memory.{InMemoryDbService, in_memory_db}
use cloud_android_orchestrat.App.Defs.{redirect, set_cookie, random_hex_string, Request, App, World}
use cloud_android_orchestrat.App.Sessions.{
  set_or_update_session, auth_handler, str_eq, lookup, parse_authorization_response, parse_values,
}

module _ {D C : Type 0} (app : App D C) where
  -- What an accepted response shows of the request's values and of the database.
  pub record IsAccepted (query_error query_state query_code : Option (List String))
      (cookie : Option String) (w w' : World D C) (auth_code : String) : Type 0 where
    pub key : String
    pub session : Session
    later_codes : List String
    later_states : List String
    cookie_key : cookie ≡ some key
    pub stored : (app.database_service.fetch_session key w.db).0 ≡ ok (some session)
    pub no_error : query_error ≡ none
    pub state : query_state ≡ some (session.oauth2_state ∷ later_states)
    pub auth : query_code ≡ some (auth_code ∷ later_codes)
    pub used :
        w'.db
        ≡ (app.database_service.delete_session session.key
            (app.database_service.fetch_session key w.db).1).1
    pub cloud : w'.cloud ≡ w.cloud

  parse_values_sound :
      (query_error query_state query_code : Option (List String)) (cookie : Option String)
      (w w' : World D C) (auth_code : String)
      → parse_values app query_error query_state query_code cookie w ≡ (ok auth_code, w')
      → IsAccepted query_error query_state query_code cookie w w' auth_code
  parse_values_sound (some _) qs qc ck w w' a h = cc
  parse_values_sound none none qc ck w w' a h = cc
  parse_values_sound none (some []) qc ck w w' a h = cc
  parse_values_sound none (some (st ∷ sts)) qc none w w' a h = cc
  parse_values_sound none (some (st ∷ sts)) none (some key) w w' a h = ground arith
  parse_values_sound none (some (st ∷ sts)) (some []) (some key) w w' a h = ground arith
  parse_values_sound none (some (st ∷ sts)) (some (c ∷ cs)) (some key) w w' a h =
      elim (Result-cases (app.database_service.fetch_session key w.db).0) [
        | inl (none, e) ↦ ground arith
        | inl (some s, e) ↦ record {
          key = key;
          session = s;
          later_codes = cs;
          later_states = sts;
          cookie_key = refl;
          stored = e;
          no_error = refl;
          state = ground (arith, str_eq_iff st s.oauth2_state);
          auth = ground arith;
          used = ground arith;
          cloud = ground arith;
        }
        | inr (inl (x, e)) ↦ ground arith
        | inr (inr (x, e)) ↦ ground arith
      ]

  -- A response is accepted only if it shows no error, the cookie's session is stored and its
  -- OAuth2 state is the response's, and there is a code; that session is then deleted, and the
  -- outside world is as it was.
  pub parse_authorization_response_sound :
      (r : Request) (w w' : World D C) (auth_code : String)
      → parse_authorization_response app r w ≡ (ok auth_code, w')
      → IsAccepted
          (lookup "error" r.query)
          (lookup "state" r.query)
          (lookup "code" r.query)
          r.session_cookie
          w
          w'
          auth_code
  unfolding parse_authorization_response
  parse_authorization_response_sound r w w' auth_code h =
      parse_values_sound _ _ _ r.session_cookie w w' auth_code h

module _ {C : Type 0} (app : App InMemoryDbService C) where
  -- The application over the in-memory database.
  abbrev pub in_memory : App InMemoryDbService C
  in_memory = record app { database_service = in_memory_db }

  str_eq_refl : (s : String) → str_eq s s ≡ true
  str_eq_refl s = (str_eq_iff s s).1 refl

  spent :
      (key : String) (s : Session) (d d' : InMemoryDbService)
      → key ≢ ""
      → (Memory.fetch_session key d).0 ≡ ok (some s)
      → d' ≡ (Memory.delete_session s.key (Memory.fetch_session key d).1).1
      → (Memory.fetch_session key d').0 ≡ ok none
  unfolding Memory.in_memory_db
  spent key s d d' h f e = rw e (ground (arith, str_eq_iff d.session.key key, str_eq_iff "" key))

  -- Over the in-memory database, an accepted response with a session key that is not empty uses
  -- the session up: no later response that carries the same cookie is accepted before the
  -- database changes again.
  pub parse_authorization_response_once :
      (r r' : Request) (w w' v v' : World InMemoryDbService C) (auth_code again key : String)
      → key ≢ ""
      → r.session_cookie ≡ some key
      → r'.session_cookie ≡ some key
      → v.db ≡ w'.db
      → parse_authorization_response in_memory r w ≡ (ok auth_code, w')
      → parse_authorization_response in_memory r' v ≢ (ok again, v')
  unfolding Memory.in_memory_db
  parse_authorization_response_once r r' w w' v v' auth_code again key nonempty ck ck' same h h' =
      let a = parse_authorization_response_sound in_memory r w w' auth_code h in
      let b = parse_authorization_response_sound in_memory r' v v' again h' in
      let ka : a.key ≡ key = cc (a.cookie_key) in
      let kb : b.key ≡ key = cc (b.cookie_key) in
      let gone = spent a.key a.session w.db w'.db (rw ka nonempty) a.stored a.used in
      cc (gone, b.stored)

  accept_current :
      (r : Request) (w : World InMemoryDbService C) (auth_code : String)
      (later_states later_codes : List String)
      → lookup "error" r.query ≡ none
      → lookup "state" r.query ≡ some (w.db.session.oauth2_state ∷ later_states)
      → lookup "code" r.query ≡ some (auth_code ∷ later_codes)
      → r.session_cookie ≡ some w.db.session.key
      → (parse_authorization_response in_memory r w).0 ≡ ok auth_code
  unfolding parse_authorization_response Memory.in_memory_db
  accept_current r w auth_code ls lc e q c ck =
      rw (e, q, c, ck)
        (ground (arith, str_eq_refl w.db.session.key, str_eq_refl w.db.session.oauth2_state))

  -- Over the in-memory database, a login sets the cookie to a new key and redirects with the
  -- session's state; and a response to the database that it leaves, which shows both, no error and a
  -- code, is accepted and gives that code.
  pub parse_authorization_response-auth_handler :
      (r r' : Request) (w : World InMemoryDbService C) (auth_code : String)
      (later_states later_codes : List String)
      → lookup "error" r'.query ≡ none
      → lookup "state" r'.query ≡ some (hex_string_at app w.drawn ∷ later_states)
      → lookup "code" r'.query ≡ some (auth_code ∷ later_codes)
      → r'.session_cookie ≡ some (hex_string_at app (w.drawn + 4))
      → ((auth_handler in_memory r w).1.out
          ≡ w.out
            ++ set_cookie (hex_string_at app (w.drawn + 4))
              ∷ redirect (app.oauth2.auth_code_url (hex_string_at app w.drawn)) 303
              ∷ [])
        × ((parse_authorization_response in_memory r' (auth_handler in_memory r w).1).0
            ≡ ok auth_code)
  unfolding auth_handler set_or_update_session random_hex_string hex_string_at Memory.in_memory_db
  parse_authorization_response-auth_handler r r' w auth_code ls lc e q c ck = (
    append_assoc w.out _ _,
    accept_current r' (auth_handler in_memory r w).1 auth_code ls lc e q c ck,
  )

  -- A response whose state is not that of the cookie's session is refused with 400 and changes
  -- nothing: the session stays, and no code is exchanged.
  pub oauth_state_mismatch :
      (r : Request) (w : World InMemoryDbService C) (st : String) (later_states : List String)
      → lookup "error" r.query ≡ none
      → lookup "state" r.query ≡ some (st ∷ later_states)
      → r.session_cookie ≡ some w.db.session.key
      → st ≢ w.db.session.oauth2_state
      → parse_authorization_response in_memory r w
        ≡ (err (new_bad_request_error "OAuth2 State doesn't match session" none), w)
  unfolding parse_authorization_response Memory.in_memory_db
  oauth_state_mismatch r w st ls e q ck ne =
      rw (e, q, ck)
        (ground (arith, str_eq_refl w.db.session.key, str_eq_iff st w.db.session.oauth2_state))
