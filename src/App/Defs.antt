-- ===== src/App/Defs.antt =====
-- pkg/app/app.go: the `App`, a request as the handlers read it, and what they write.
use cloud_android_orchestrat.Prelude.{
  ℕ, ◌+◌, ◌==◌, not, String, Bool, Option, List, [], ◌∷◌, ◌++◌, Map, if◌then◌else◌,
}
use cloud_android_orchestrat.Errors.{GoError, ApiError}
use cloud_android_orchestrat.Exec.{Exec, Result, ok, zoom, pure, ◌>>◌}
use cloud_android_orchestrat.Text.{hex_onto}
use cloud_android_orchestrat.Database.{Bytes, DatabaseService}
use cloud_android_orchestrat.Encryption.{EncryptionService}
use cloud_android_orchestrat.Accounts.{AccountManager, Claim}
use cloud_android_orchestrat.Instances.{
  CreateHostRequest, Operation, OpResult, ListHostsResponse, NetHostClient, InstanceManager,
}

-- The extra field "id_token" of a token: absent, a text, or a value of another type.
pub data Extra : Type 0 where
  absent : Extra
  text : String → Extra
  other : Extra

pub record Token : Type 0 where
  pub access_token : String
  pub refresh_token : String
  pub id_token : Extra

-- A parsed JWT; `claims` is none if they are no `jwt.MapClaims`.
pub record IdToken : Type 0 where
  pub claims : Option (Map Claim)

-- What `jwt.Parse` returns: a pointer that may be nil, and an error that may be nil, with the
-- answer of `errors.Is(err, jwt.ErrInvalidKeyType)`.
pub record Parsed : Type 0 where
  pub token : Option IdToken
  pub error : Option (GoError × Bool)

-- The OAuth2, HTTP and JWT libraries, over the state of the outside world.
pub record OAuth2Api (C : Type 0) : Type 0 where
  pub auth_code_url : String → String
  pub exchange : String → Exec C Token
  pub refresh : Token → Exec C Token
  pub valid : Token → Bool
  -- `http.DefaultClient.PostForm` to the provider's revocation address, with the token
  pub post_revoke : String → Exec C (Unit {0})
  pub jwt_parse : String → Parsed
  -- `json.Marshal` and `json.Unmarshal` of a token
  pub marshal : Token → Result Bytes
  pub unmarshal : Bytes → Result Token

pub record App (D C : Type 0) : Type 0 where
  pub instance_manager : InstanceManager C
  pub account_manager : AccountManager
  pub oauth2 : OAuth2Api C
  pub encryption_service : EncryptionService
  pub database_service : DatabaseService D
  pub connector_static_files_path : String
  pub cors_allowed_origins : List String
  pub ice_servers : List String
  pub instance_manager_type : String
  -- the i-th value of `rand.Uint64()`
  pub rng : ℕ → ℕ

-- `body` is what the JSON decoder makes of the body.
pub record Request : Type 0 where
  pub method : String
  pub headers : Map String
  pub session_cookie : Option String
  pub query : Map (List String)
  pub post_form : Map (List String)
  pub zone : String
  pub host : String
  pub operation : String
  pub host_path : String
  pub body : Result CreateHostRequest

-- A value that is written as JSON.
pub data Payload : Type 0 where
  zones : List String → Payload
  hosts : ListHostsResponse → Payload
  operation : Operation → Payload
  result : OpResult → Payload
  error : ApiError → Payload
  infra_config : List (List String) → Payload
  config : String → Payload

-- One write to the `http.ResponseWriter`, in the order of the calls.
pub data Event : Type 0 where
  header : String → String → Event
  write_header : ℕ → Event
  set_cookie : String → Event
  print : String → Event
  json : Payload → Event
  redirect : String → ℕ → Event
  serve_file : String → Event
  -- the reverse proxy of a host, with the path and the credentials header that it forwards
  proxy : NetHostClient → String → Option String → Event

-- The database, the outside world, the number of random values drawn, and the response.
pub record World (D C : Type 0) : Type 0 where
  pub db : D
  pub cloud : C
  pub drawn : ℕ
  pub out : List Event

-- `buildInfraCfg`: each server on its own.
unfoldable pub build_infra_cfg : List String → List (List String)
build_infra_cfg [] = []
build_infra_cfg (server ∷ servers) = (server ∷ []) ∷ build_infra_cfg servers

module _ {D C A : Type 0} where
  abbrev pub on_db : Exec D A → Exec (World D C) A
  on_db = zoom (λ w. w.db) (λ w d. record w { db = d })

  abbrev pub on_cloud : Exec C A → Exec (World D C) A
  on_cloud = zoom (λ w. w.cloud) (λ w c. record w { cloud = c })

module _ {D C : Type 0} where
  abbrev pub emit : Event → Exec (World D C) (Unit {0})
  emit e w = (ok tt, record w { out = w.out ++ e ∷ [] })

  -- Four values of the generator from the n-th on, 16 digits each.
  unfoldable pub hex_string_at : App D C → ℕ → String
  hex_string_at app n = hex_onto 16 (app.rng n) (
      hex_onto 16 (app.rng (n + 1))
        (hex_onto 16 (app.rng (n + 2)) (hex_onto 16 (app.rng (n + 3)) "")))

  unfoldable pub random_hex_string : App D C → Exec (World D C) String
  random_hex_string app w = (ok (hex_string_at app w.drawn), record w { drawn = w.drawn + 4 })

  -- `replyJSON`: the status is written before the content type is set.
  unfoldable pub reply_json : Payload → ℕ → Exec (World D C) (Unit {0})
  reply_json obj status_code = do
    if not (status_code == 200) then emit (write_header status_code) else pure tt
    emit (header "Content-Type" "application/json")
    emit (json obj)
