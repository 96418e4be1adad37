-- ===== src/App/Hosts.antt =====
-- pkg/app/app.go: the handlers of hosts, and the forwarding of requests to a host.
pub mod Laws
use Prim.Native.Char.{code}
use Prim.Native.String
use cloud_android_orchestrat.Prelude.{
  ℕ, String, Bool, true, false, ◌||◌, not, Option, none, some, List, [], ◌∷◌, Map, lookup, str_eq,
  ◌==◌, ◌<>◌, if◌then◌else◌,
}
use cloud_android_orchestrat.Errors.{
  GoError, plain, new_bad_request_error, new_unauthenticated_error,
}
use cloud_android_orchestrat.Exec.{Exec, Result, ok, err, panic, pure, raise, lift, ◌>>=◌, ◌>>◌}
use cloud_android_orchestrat.Text.{parse_uint}
use cloud_android_orchestrat.Accounts.{User}
use cloud_android_orchestrat.Instances.{CreateHostRequest, ListHostsRequest}
use cloud_android_orchestrat.Instances.TargetLink.{strip_prefix}
use cloud_android_orchestrat.App.Defs.{
  App, Token, Request, World, zones, hosts, operation, result, infra_config, config, print,
  serve_file, proxy, on_cloud, emit, reply_json, build_infra_cfg,
}
use cloud_android_orchestrat.App.Credentials.{fetch_user_credentials}

-- `url.Values.Get`
abbrev pub query_get : String → Map (List String) → String
query_get name query = elim (lookup name query) [ some (v ∷ vs) ↦ v | some [] ↦ "" | none ↦ "" ]

-- `uint32Value`
unfoldable pub uint32_value : String → Option ℕ
uint32_value value = if str_eq value "" then some 0 else parse_uint 32 value

-- `BuildListHostsRequest`; the cause of the error is only logged
unfoldable pub build_list_hosts_request : Request → Result ListHostsRequest
build_list_hosts_request r = elim (uint32_value (query_get "maxResults" r.query)) [
  | none ↦ err (
      new_bad_request_error
        ("Invalid query parameter \"maxResults\" value: \""
          <> query_get "maxResults" r.query
          <> "\"")
        (some (plain "strconv.ParseUint")))
  | some n ↦ ok (record { max_results = n; page_token = query_get "pageToken" r.query })
]

-- `server_connector.js` where the dot is any character
abbrev is_connector_tail : Option String → Bool
is_connector_tail none = false
is_connector_tail (some String.[]) = false
is_connector_tail (some (String.◌∷◌ c s)) = elim (strip_prefix "js" s) [
  | none ↦ false
  | some _ ↦ not (code c == 10)
]

-- `[^/]+` and what follows it, which begins with a slash; `seen` once a character was taken
unfoldable device_then_file : Bool → String → Bool
unfolding strip_prefix
device_then_file seen String.[] = false
device_then_file seen (String.◌∷◌ c s) =
    let rest = device_then_file true s in
    if code c == b'/'
    then elim seen [
      | true ↦ is_connector_tail (strip_prefix "/files/js/server_connector" (String.◌∷◌ c s))
      | false ↦ false
    ]
    else rest

abbrev device_at : Option String → Bool
device_at none = false
device_at (some s) = device_then_file false s

-- `regexp.MatchString("/devices/[^/]+/files/js/server_connector.js", hostPath)`
unfoldable pub is_intercepted : String → Bool
unfolding device_then_file
is_intercepted String.[] = false
is_intercepted (String.◌∷◌ c s) =
    device_at (strip_prefix "/devices/" (String.◌∷◌ c s)) || is_intercepted s

-- `headerNameCOInjectBuildAPICreds`
abbrev pub inject_build_api_creds : String
inject_build_api_creds = "X-Cutf-Cloud-Orchestrator-Inject-BuildAPI-Creds"

module _ {D C : Type 0} (app : App D C) where
  unfoldable pub list_zones : Request → User → Exec (World D C) (Unit {0})
  list_zones r user = do res ← on_cloud app.instance_manager.list_zones; reply_json (zones res) 200

  abbrev decoded : Result CreateHostRequest → Exec (World D C) CreateHostRequest
  decoded (err e) = raise (new_bad_request_error "Malformed JSON in request" (some e))
  decoded r = lift r

  unfoldable pub create_host : Request → User → Exec (World D C) (Unit {0})
  create_host r user = do
    msg ← decoded r.body
    op ← on_cloud (app.instance_manager.create_host r.zone msg user)
    reply_json (operation op) 200

  unfoldable pub list_hosts : Request → User → Exec (World D C) (Unit {0})
  unfolding build_list_hosts_request
  list_hosts r user = do
    list_req ← lift (build_list_hosts_request r)
    res ← on_cloud (app.instance_manager.list_hosts r.zone user list_req)
    reply_json (hosts res) 200

  unfoldable pub delete_host : Request → User → Exec (World D C) (Unit {0})
  delete_host r user = do
    res ← on_cloud (app.instance_manager.delete_host r.zone user r.host)
    reply_json (operation res) 200

  unfoldable pub wait_operation : Request → User → Exec (World D C) (Unit {0})
  wait_operation r user = do
    op ← on_cloud (app.instance_manager.wait_operation r.zone user r.operation)
    reply_json (result op) 200

  unfoldable pub config_handler : Request → User → Exec (World D C) (Unit {0})
  config_handler r user = reply_json (config app.instance_manager_type) 200

  unfoldable pub index_handler : Request → User → Exec (World D C) (Unit {0})
  index_handler r user = emit (print "Home page")

  unfoldable pub infra_config_handler : Request → Exec (World D C) (Unit {0})
  unfolding build_infra_cfg
  infra_config_handler r = reply_json (infra_config (build_infra_cfg app.ice_servers)) 200

  -- `findInterceptFile`
  unfoldable pub find_intercept_file : String → Option String
  find_intercept_file host_path =
      if is_intercepted host_path
      then some (app.connector_static_files_path <> "/intercept/js/server_connector.js")
      else none

  abbrev access_token : Option Token → Exec (World D C) (Option String)
  access_token none = raise (
      new_unauthenticated_error
        "The user must authorize the system to access the Build API on their behalf" none)
  access_token (some tk) = pure (some tk.access_token)

  -- `injectBuildAPICredsIntoRequest`: the header that is set on the forwarded request
  unfoldable pub inject_build_api_creds_into_request : User → Exec (World D C) (Option String)
  inject_build_api_creds_into_request user = do
    tk ← fetch_user_credentials app user
    access_token tk

  abbrev creds_if_wanted : Option String → User → Exec (World D C) (Option String)
  creds_if_wanted none user = pure none
  creds_if_wanted (some _) user = inject_build_api_creds_into_request user

  abbrev forward_unless : Option String → Request → User → Exec (World D C) (Unit {0})
  forward_unless (some file) r user = emit (serve_file file)
  forward_unless none r user = do
    host_client ← on_cloud (app.instance_manager.get_host_client r.zone r.host)
    creds ← creds_if_wanted (lookup inject_build_api_creds r.headers) user
    emit (proxy host_client ("/" <> r.host_path) creds)

  -- `ForwardToHost`
  unfoldable pub forward_to_host : Request → User → Exec (World D C) (Unit {0})
  forward_to_host r user = forward_unless (find_intercept_file ("/" <> r.host_path)) r user
