-- ===== src/Tests/Credentials.antt =====
-- Stored credentials: their fetch, refresh and withdrawal.
use cloud_android_orchestrat.App.Defs.{Request, World}
use cloud_android_orchestrat.Accounts.{username}
use cloud_android_orchestrat.Encryption.{fake_encryption}
use cloud_android_orchestrat.App.Hosts.Laws.{forward_to_host_unauthorized}
use cloud_android_orchestrat.Errors.{GoError, new_unauthenticated_error, plain}
use cloud_android_orchestrat.App.Oauth.{rescind_authorization_handler}
use cloud_android_orchestrat.Exec.{err, ok}
use cloud_android_orchestrat.App.Credentials.{fetch_user_credentials, store_user_credentials}
use cloud_android_orchestrat.App.Hosts.{forward_to_host, is_intercepted}
use cloud_android_orchestrat.Database.Memory.{InMemoryDbService, in_memory_db, zero_session}
use cloud_android_orchestrat.Prelude.{String, [], false, inr, lookup, none, refl, some, ℕ, ◌∷◌, ◌≡◌}
use cloud_android_orchestrat.App.Oauth.Laws.{rescind_authorization_handler_removes}
use cloud_android_orchestrat.Tests.Fixtures.{
  ann, fresh_token, login_session, request, test_app, world_with,
}
use cloud_android_orchestrat.App.Credentials.Laws.{
  fetch_user_credentials-store, fetch_user_credentials_unreadable, in_memory,
}

abbrev empty_world : World InMemoryDbService ℕ
empty_world = world_with [] login_session

fetch_user_credentials-store_example :
    fetch_user_credentials
      (in_memory test_app)
      ann
      (store_user_credentials (in_memory test_app) ann fresh_token empty_world).1
    ≡ (
      ok (some fresh_token),
      (store_user_credentials (in_memory test_app) ann fresh_token empty_world).1,
    )
unfolding username fake_encryption
fetch_user_credentials-store_example =
    fetch_user_credentials-store test_app ann "ann" refl fresh_token (1 ∷ []) (254 ∷ []) empty_world
      refl refl refl refl refl

abbrev unreadable_world : World InMemoryDbService ℕ
unreadable_world = world_with (("ann", []) ∷ ("bob", 7 ∷ []) ∷ []) login_session

fetch_user_credentials_unreadable_example :
    ((x : GoError) × ((fetch_user_credentials (in_memory test_app) ann unreadable_world).0 ≡ err x))
    × (lookup "bob"
          (fetch_user_credentials (in_memory test_app) ann unreadable_world).1.db.credentials
        ≡ some (7 ∷ []))
unfolding username lookup fake_encryption
fetch_user_credentials_unreadable_example =
    fetch_user_credentials_unreadable test_app ann "ann" refl unreadable_world []
      (plain "unexpected end of JSON input") "bob" refl (inr ([], refl, refl))

abbrev stored_world : World InMemoryDbService ℕ
stored_world = world_with (("ann", 254 ∷ []) ∷ ("bob", 7 ∷ []) ∷ []) login_session

abbrev withdrawal : String → Request
withdrawal token = record request {
  session_cookie = some "k";
  post_form = ("csrf_token", token ∷ []) ∷ [];
}

rescind_authorization_handler_removes_example :
    let after =
      (rescind_authorization_handler (in_memory test_app) (withdrawal "s") ann stored_world).1.db in
    (after.session ≡ zero_session) × (lookup "bob" after.credentials ≡ some (7 ∷ []))
unfolding username lookup fetch_user_credentials fake_encryption in_memory_db
rescind_authorization_handler_removes_example =
    rescind_authorization_handler_removes test_app (withdrawal "s") ann "ann" "bob" fresh_token
      stored_world [] refl refl refl refl

abbrev wanting : Request
wanting = record request { headers = ("X-Cutf-Cloud-Orchestrator-Inject-BuildAPI-Creds", "") ∷ [] }

forward_to_host_unauthorized_example :
    ((forward_to_host (in_memory test_app) wanting ann empty_world).0
      ≡ err (
          new_unauthenticated_error
            "The user must authorize the system to access the Build API on their behalf" none))
    × ((forward_to_host (in_memory test_app) wanting ann empty_world).1.out ≡ [])
unfolding username lookup is_intercepted
forward_to_host_unauthorized_example =
    forward_to_host_unauthorized test_app wanting ann "ann" "" empty_world
      (record { url = "http://h"; insecure_skip_verify = false }) refl refl refl refl refl
