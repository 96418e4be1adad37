-- ===== src/Tests/Fixtures.antt =====
-- Data of the tests: an application over a counter as its outside world.
use cloud_android_orchestrat.Prelude.{arith, str_eq_iff, ◌≡◌, ◌≢◌, Map}
use cloud_android_orchestrat.Accounts.{User, gae_account_manager, unix}
use cloud_android_orchestrat.Database.Memory.{InMemoryDbService, in_memory_db}
use cloud_android_orchestrat.Instances.{InstanceManager}
use cloud_android_orchestrat.App.Defs.{App, OAuth2Api, Request, Token, World, absent}
use cloud_android_orchestrat.Database.{Bytes, Session}
use cloud_android_orchestrat.Encryption.{fake_encryption}
use cloud_android_orchestrat.Errors.{plain}
use cloud_android_orchestrat.Exec.{Result, err, ok, pure, raise}
use cloud_android_orchestrat.Prelude.{
  String, [], false, if◌then◌else◌, none, some, str_eq, ℕ, ◌+◌, ◌<>◌, ◌==◌, ◌∷◌,
}

abbrev pub ann : User
ann = unix "ann"

abbrev test_manager : InstanceManager ℕ
test_manager = record {
  list_zones = pure [];
  create_host = λ zone req user. raise (plain "no host");
  list_hosts = λ zone user req. raise (plain "no list");
  delete_host = λ zone user host. raise (plain "no host");
  wait_operation = λ zone user op. raise (plain "no operation");
  get_host_client =
      λ zone host. pure (record { url = "http://" <> host; insecure_skip_verify = false });
}

abbrev pub fresh_token : Token
fresh_token = record { access_token = "a"; refresh_token = "r"; id_token = absent }

abbrev renewed_token : Token
renewed_token = record { access_token = "b"; refresh_token = "r"; id_token = absent }

-- Tokens are written as one byte, 1 or 2; any other text is no token. The first is valid.
abbrev written_token : Token → Result Bytes
written_token t = if str_eq t.access_token "a" then ok (1 ∷ []) else ok (2 ∷ [])

abbrev read_token : Bytes → Result Token
read_token [] = err (plain "unexpected end of JSON input")
read_token (b ∷ bs) = if b == 1 then ok fresh_token else ok renewed_token

abbrev pub test_oauth2 : OAuth2Api ℕ
test_oauth2 = record {
  auth_code_url = λ state. "https://provider?state=" <> state;
  exchange = λ code. pure fresh_token;
  refresh = λ t c. (ok fresh_token, c + 1);
  valid = λ t. str_eq t.access_token "a";
  post_revoke = λ t c. (ok tt, c + 1);
  jwt_parse = λ t. record { token = none; error = none };
  marshal = written_token;
  unmarshal = read_token;
}

abbrev pub test_app : App InMemoryDbService ℕ
test_app = record {
  instance_manager = test_manager;
  account_manager = gae_account_manager;
  oauth2 = test_oauth2;
  encryption_service = fake_encryption;
  database_service = in_memory_db;
  connector_static_files_path = "web";
  cors_allowed_origins = "https://a" ∷ "https://b" ∷ [];
  ice_servers = "stun:s" ∷ [];
  instance_manager_type = "GCP";
  rng = λ i. i;
}

abbrev pub world_with : Map Bytes → Session → World InMemoryDbService ℕ
world_with credentials session = record {
  db = record { credentials = credentials; session = session };
  cloud = 0;
  drawn = 0;
  out = [];
}

abbrev pub request : Request
request = record {
  method = "GET";
  headers = [];
  session_cookie = none;
  query = [];
  post_form = [];
  zone = "z";
  host = "h";
  operation = "o";
  host_path = "devices";
  body = err (plain "EOF");
}

abbrev pub login_session : Session
login_session = record { key = "k"; oauth2_state = "s" }

-- A response of the provider, with a state and a cookie.
abbrev pub response_with : String → String → Request
response_with state cookie = record request {
  session_cookie = some cookie;
  query = ("state", state ∷ []) ∷ ("code", "c" ∷ []) ∷ [];
}

-- Two texts that the test of equality keeps apart.
pub apart : (a b : String) → str_eq a b ≡ false → a ≢ b
apart a b f e = ground (arith, str_eq_iff a b)
