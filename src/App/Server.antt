-- ===== src/App/Server.antt =====
-- pkg/app/app.go: authentication, error replies, cross-origin headers and the routes.
pub mod Laws
use cloud_android_orchestrat.Prelude.{
  ℕ, String, Bool, true, false, not, ◌&&◌, ◌||◌, Option, none, some, List, [], ◌∷◌, lookup, str_eq,
  if◌then◌else◌,
}
use cloud_android_orchestrat.Errors.{GoError, ApiError, as_app_error, new_unauthenticated_error}
use cloud_android_orchestrat.Exec.{Exec, Result, pure, raise, lift, on_error, ◌>>=◌, ◌>>◌}
use cloud_android_orchestrat.Accounts.{User, header_get}
use cloud_android_orchestrat.App.Defs.{
  App, Request, World, Event, error, header, write_header, emit, reply_json,
}
use cloud_android_orchestrat.App.Sessions.{auth_handler}
use cloud_android_orchestrat.App.Oauth.{
  oauth2_callback, de_auth_handler, rescind_authorization_handler,
}
use cloud_android_orchestrat.App.Hosts.{
  list_zones, create_host, list_hosts, wait_operation, delete_host, forward_to_host,
  infra_config_handler, config_handler, index_handler,
}

abbrev pub HttpHandler : Type 0 → Type 0 → Type 0
HttpHandler D C = Request → Exec (World D C) (Unit {0})

abbrev pub AuthHttpHandler : Type 0 → Type 0 → Type 0
AuthHttpHandler D C = Request → User → Exec (World D C) (Unit {0})

-- The reply that an error turns into.
abbrev error_reply : {D C : Type 0} → Option ApiError → Exec (World D C) (Unit {0})
error_reply (some e) = reply_json (error e) e.code
error_reply none = reply_json (error (record { code = 0; error_msg = "Internal Server Error" })) 500

-- `HTTPHandler.ServeHTTP`
unfoldable pub serve_http : {D C : Type 0} → HttpHandler D C → HttpHandler D C
unfolding reply_json
serve_http h r = on_error (h r) (λ e. error_reply (as_app_error e))

abbrev allowed_methods : String
allowed_methods = "GET, POST, PUT, DELETE, OPTIONS, HEAD"

-- One route of the router: a path template, the methods (none for any), and its handler.
pub data Endpoint : Type 0 where
  zones_list hosts_create hosts_list operation_wait host_delete forward infra : Endpoint
  auth oauth2 deauth_get deauth_post config index : Endpoint

pub record Route : Type 0 where
  pub template : String
  pub methods : Option String
  endpoint : Endpoint

abbrev route : String → Option String → Endpoint → Route
route t m e = record { template = t; methods = m; endpoint = e }

abbrev pub infra_template : String
infra_template = "/v1/zones/{zone}/hosts/{host}/infra_config"

abbrev pub forward_template : String
forward_template = "/v1/zones/{zone}/hosts/{host}/{hostPath:.*}"

-- The routes in the order in which `Handler` adds them.
unfoldable pub routes : List Route
routes =
    route "/v1/zones" (some "GET") zones_list
    ∷ route "/v1/zones/{zone}/hosts" (some "POST") hosts_create
    ∷ route "/v1/zones/{zone}/hosts" (some "GET") hosts_list
    ∷ route "/v1/zones/{zone}/operations/{operation}/:wait" (some "POST") operation_wait
    ∷ route "/v1/zones/{zone}/hosts/{host}" (some "DELETE") host_delete
    ∷ route forward_template none forward
    ∷ route infra_template (some "GET") infra
    ∷ route "/auth" (some "GET") auth
    ∷ route "/oauth2callback" none oauth2
    ∷ route "/deauth" (some "GET") deauth_get
    ∷ route "/deauth" (some "POST") deauth_post
    ∷ route "/v1/config" (some "GET") config
    ∷ route "/" none index
    ∷ []

abbrev allows : Option String → String → Bool
allows none m = true
allows (some m) m' = str_eq m m'

-- The router library tests the routes in the order in which they were added, and takes the first
-- whose template and method match. Which paths a template matches is the parameter `matches`.
unfoldable pub select : (String → String → Bool) → String → String → List Route → Option Endpoint
select matches method path [] = none
select matches method path (r ∷ rs) =
    if matches r.template path && allows r.methods method
    then some r.endpoint
    else select matches method path rs

-- Whether some template matches: the router then answers 405, and 404 if none does.
abbrev any_template : (String → Bool) → List Route → Bool
any_template known [] = false
any_template known (r ∷ rs) = known r.template || any_template known rs

module _ {D C : Type 0} (app : App D C) where
  abbrev require_user : Option User → Exec (World D C) User
  require_user none = raise (new_unauthenticated_error "Authentication required" none)
  require_user (some u) = pure u

  unfoldable pub authenticate : AuthHttpHandler D C → HttpHandler D C
  authenticate fn r = do
    user ← lift (app.account_manager.user_from_request r.headers)
    u ← require_user user
    fn r u

  -- The handler of an endpoint, before its errors are turned into replies.
  unfoldable handler_of : Endpoint → HttpHandler D C
  unfolding authenticate
  handler_of zones_list = authenticate (list_zones app)
  handler_of hosts_create = authenticate (create_host app)
  handler_of hosts_list = authenticate (list_hosts app)
  handler_of operation_wait = authenticate (wait_operation app)
  handler_of host_delete = authenticate (delete_host app)
  handler_of forward = authenticate (forward_to_host app)
  handler_of infra = infra_config_handler app
  handler_of auth = auth_handler app
  handler_of oauth2 = oauth2_callback app
  handler_of deauth_get = authenticate (de_auth_handler app)
  handler_of deauth_post = authenticate (rescind_authorization_handler app)
  handler_of config = authenticate (config_handler app)
  handler_of index = authenticate (index_handler app)

  -- The loop over the allowed origins, with its `break`.
  unfoldable pub cors_headers : String → List String → Exec (World D C) (Unit {0})
  cors_headers origin [] = pure tt
  cors_headers origin (allowed ∷ rest) =
      let later = cors_headers origin rest in
      if str_eq origin allowed
      then (do
        emit (header "Access-Control-Allow-Origin" origin)
        emit (header "Access-Control-Allow-Methods" allowed_methods)
        emit (header "Access-Control-Allow-Headers" "Content-Type")
        emit (header "Access-Control-Allow-Credentials" "true"))
      else later

  -- `AddCorsHeaderIfNeeded`
  unfoldable pub add_cors_header_if_needed : Request → Exec (World D C) (Unit {0})
  unfolding cors_headers
  add_cors_header_if_needed r =
      if str_eq (header_get "Origin" r.headers) ""
      then pure tt
      else cors_headers (header_get "Origin" r.headers) app.cors_allowed_origins

  -- The router's own replies where no route is taken.
  abbrev run_endpoint : (String → Bool) → Option Endpoint → HttpHandler D C
  run_endpoint known none r = emit (write_header (if any_template known routes then 405 else 404))
  run_endpoint known (some e) r = serve_http (handler_of e) r

  -- The root handler: cross-origin headers, then the preflight reply or the router.
  unfoldable root_handler : (String → String → Bool) → String → HttpHandler D C
  unfolding add_cors_header_if_needed serve_http select routes handler_of
  root_handler matches path r = do
    add_cors_header_if_needed r
    if str_eq r.method "OPTIONS"
        then (do emit (header "Allow" allowed_methods); emit (write_header 204))
        else run_endpoint (λ t. matches t path) (select matches r.method path routes) r
