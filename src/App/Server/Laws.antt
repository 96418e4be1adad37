-- ===== src/App/Server/Laws.antt =====
-- Error replies, authentication, cross-origin headers and the order of the routes.
use mathlib.Core.List.{append_assoc}
use cloud_android_orchestrat.Prelude.{
  ℕ, String, ◌≡◌, ◌≢◌, refl, Bool, true, false, ◌&&◌, Option, none, some, List, [], ◌∷◌, ◌++◌,
  arith, str_eq, ◌==◌, not, inl, inr, Bool-cases,
}
use mathlib.Core.List.{append-nil}
use cloud_android_orchestrat.Prelude.{◌||◌, if◌then◌else◌}
use cloud_android_orchestrat.App.Server.{allowed_methods, add_cors_header_if_needed, error_reply}
use cloud_android_orchestrat.Errors.{
  ApiError, GoError, api_call, app_caused, as_app_error, google, plain, wrap,
}
use cloud_android_orchestrat.Exec.{ok, err, Result-cases}
use cloud_android_orchestrat.Accounts.{gae, header_get, email_header_key, gae_account_manager}
use cloud_android_orchestrat.App.Defs.{
  App, Request, World, Event, header, write_header, json, error, set_cookie, reply_json,
}
use cloud_android_orchestrat.App.Server.{
  HttpHandler, AuthHttpHandler, serve_http, authenticate, cors_headers, select, routes, infra,
  infra_template, forward_template,
}

-- What the client of a failed request is told, with the status: the message and code of the first
-- application error in the chain, without what it wraps; or that there was an error, and no more.
pub data Told : GoError → ApiError × ℕ → Type 0 where
  of_app :
      {msg : String} {code : ℕ}
      → Told (GoError.app msg code) (record { code = code; error_msg = msg }, code)
  of_app_caused :
      {msg : String} {code : ℕ} {e : GoError}
      → Told (app_caused msg code e) (record { code = code; error_msg = msg }, code)
  behind : {msg : String} {e : GoError} {t : ApiError × ℕ} → Told e t → Told (wrap msg e) t
  of_plain :
      {msg : String}
      → Told (plain msg) (record { code = 0; error_msg = "Internal Server Error" }, 500)
  of_google :
      {msg : String} {code : ℕ}
      → Told (google msg code) (record { code = 0; error_msg = "Internal Server Error" }, 500)
  of_api_call :
      {msg details : String} {code : ℕ}
      → Told
          (api_call code msg details)
          (record { code = 0; error_msg = "Internal Server Error" }, 500)

abbrev pub replied : ApiError × ℕ → List Event
replied (e, status) =
    if not (status == 200)
    then write_header status ∷ header "Content-Type" "application/json" ∷ json (error e) ∷ []
    else header "Content-Type" "application/json" ∷ json (error e) ∷ []

-- What a chain without or with an application error comes to.
abbrev answer_to : Option ApiError → ApiError × ℕ
answer_to (some e) = (e, e.code)
answer_to none = (record { code = 0; error_msg = "Internal Server Error" }, 500)

Told-as_app_error : (e : GoError) → Told e (answer_to (as_app_error e))
unfolding as_app_error
Told-as_app_error (GoError.app msg code) = of_app
Told-as_app_error (app_caused msg code e) = of_app_caused
Told-as_app_error (wrap msg e) = behind (Told-as_app_error e)
Told-as_app_error (plain msg) = of_plain
Told-as_app_error (google msg code) = of_google
Told-as_app_error (api_call code msg details) = of_api_call

module _ {D C : Type 0} where
  reply_json_lem :
      (e : ApiError) (status : ℕ) (w : World D C)
      → reply_json (error e) status w ≡ (ok tt, record w { out = w.out ++ replied (e, status) })
  unfolding reply_json
  reply_json_lem e status w = elim (Bool-cases (not (status == 200))) [
    | inl other_status ↦ rw other_status (simp append_assoc)
    | inr is_ok ↦ rw is_ok (simp append_assoc)
  ]

  error_reply_lem :
      (o : Option ApiError) (w : World D C)
      → error_reply o w ≡ (ok tt, record w { out = w.out ++ replied (answer_to o) })
  error_reply_lem none w = reply_json_lem _ 500 w
  error_reply_lem (some e) w = reply_json_lem e e.code w

  -- A handler's success or panic is served as it is. Its error is served as one JSON reply behind
  -- what the handler had written: the message and code of the first application error of the chain,
  -- without the text of what that wraps or is wrapped in, and "Internal Server Error" with status
  -- 500 if there is none.
  pub serve_http-served :
      (h : HttpHandler D C) (r : Request) (w : World D C)
      → ((e : GoError) (w' : World D C)
          → h r w ≡ (err e, w')
          → (t : ApiError × ℕ) × Told e t
            × (serve_http h r w ≡ (ok tt, record w' { out = w'.out ++ replied t })))
        × (((e : GoError) → (h r w).0 ≢ err e) → serve_http h r w ≡ h r w)
  unfolding serve_http
  serve_http-served h r w = (
    λ e w' failed. (
      answer_to (as_app_error e),
      Told-as_app_error e,
      rw failed (error_reply_lem (as_app_error e) w'),
    ),
    λ fine. elim (Result-cases (h r w).0) [
      | inl (a, e) ↦ rw e refl
      | inr (inl (x, e)) ↦ absurd (fine x e)
      | inr (inr (p, e)) ↦ rw e refl
    ],
  )

-- The value of a header as it is sent: what is set behind the status or the body comes too late.
sent_header : String → List Event → Option String
sent_header name [] = none
sent_header name (header n v ∷ es) = if str_eq n name then some v else sent_header name es
sent_header name (set_cookie k ∷ es) = sent_header name es
sent_header name (_ ∷ es) = none

module _ {D C : Type 0} where
  -- The reply to an error with a status other than 200 is sent without a content type, if the
  -- handler wrote nothing: the header is set behind the status.
  error_reply_content_type :
      (h : HttpHandler D C) (r : Request) (w w' : World D C) (e : GoError)
      → h r w ≡ (err e, w')
      → w'.out ≡ []
      → (answer_to (as_app_error e)).1 ≢ 200
      → sent_header "Content-Type" (serve_http h r w).1.out ≡ none
  unfolding sent_header serve_http
  error_reply_content_type h r w w' e x empty other_status =
      rw (x, error_reply_lem (as_app_error e) w', empty) (ground arith)

module _ {D C : Type 0} (app : App D C) where
  -- Over the App Engine manager no request is refused for lack of a user: a request without the
  -- address header runs the handler for a user that is a nil pointer.
  pub authenticate_anonymous :
      (fn : AuthHttpHandler D C) (r : Request) (w : World D C)
      → header_get email_header_key r.headers ≡ ""
      → authenticate (record app { account_manager = gae_account_manager }) fn r w
        ≡ fn r (gae none) w
  unfolding authenticate gae_account_manager
  authenticate_anonymous fn r w h = rw h refl

-- Is the origin in the list?
unfoldable contains : String → List String → Bool
contains origin [] = false
contains origin (a ∷ rest) = str_eq origin a || contains origin rest

abbrev cors_of : String → List Event
cors_of origin =
    header "Access-Control-Allow-Origin" origin
    ∷ header "Access-Control-Allow-Methods" allowed_methods
    ∷ header "Access-Control-Allow-Headers" "Content-Type"
    ∷ header "Access-Control-Allow-Credentials" "true"
    ∷ []

module _ {D C : Type 0} (app : App D C) where
  cors_headers_lem :
      (origin : String) (allowed : List String) (w : World D C)
      → cors_headers app origin allowed w ≡ (
        ok tt,
        record w { out = w.out ++ (if contains origin allowed then cors_of origin else []) },
      )
  unfolding cors_headers contains
  cors_headers_lem origin [] w = rw append-nil refl
  cors_headers_lem origin (a ∷ rest) w = elim (Bool-cases (str_eq origin a)) [
    | inl same ↦ rw same (simp append_assoc)
    | inr other ↦ rw other (cors_headers_lem origin rest w)
  ]

  -- The cross-origin headers are written exactly for an origin that is not empty and is allowed,
  -- with that origin, and once even where the list names it twice.
  add_cors_header_if_needed_lem :
      (r : Request) (w : World D C)
      → let origin = header_get "Origin" r.headers in
        add_cors_header_if_needed app r w ≡ (
          ok tt,
          record w {
            out =
                w.out
                ++ (if not (str_eq origin "") && contains origin app.cors_allowed_origins
                    then cors_of origin
                    else []);
          },
        )
  unfolding add_cors_header_if_needed
  add_cors_header_if_needed_lem r w =
      elim (Bool-cases (str_eq (header_get "Origin" r.headers) "")) [
        | inl missing ↦ rw missing (rw append-nil refl)
        | inr there ↦
            rw there (cors_headers_lem (header_get "Origin" r.headers) app.cors_allowed_origins w)
      ]

-- No request reaches the handler of `infra_config`, whatever its method and path, if the template
-- `hosts/{host}/{hostPath:.*}` matches what `hosts/{host}/infra_config` matches: the forwarding
-- route stands before it.
infra_shadowed :
    (matches : String → String → Bool) (method path : String)
    → (matches infra_template path ≡ true → matches forward_template path ≡ true)
    → select matches method path routes ≢ some infra
unfolding select routes
infra_shadowed matches method path h = ground arith
