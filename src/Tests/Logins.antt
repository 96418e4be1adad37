-- ===== src/Tests/Logins.antt =====
-- A login and its response.
use cloud_android_orchestrat.Tests.Fixtures.{
  login_session, request, response_with, test_app, test_oauth2, world_with,
}
use cloud_android_orchestrat.App.Sessions.Laws.{in_memory}
use cloud_android_orchestrat.Exec.{ok}
use cloud_android_orchestrat.Database.Memory.{InMemoryDbService, in_memory_db, zero_session}
use cloud_android_orchestrat.Prelude.{String, [], lookup, none, refl, some, ℕ, ◌∷◌, ◌≡◌, ◌≢◌}
use cloud_android_orchestrat.App.Sessions.Laws.{
  oauth_state_mismatch, parse_authorization_response-auth_handler,
  parse_authorization_response_once, parse_authorization_response_sound,
}
use cloud_android_orchestrat.App.Sessions.{auth_handler, parse_authorization_response}
use cloud_android_orchestrat.App.Defs.{World, hex_string_at, redirect, set_cookie}
use cloud_android_orchestrat.App.Sessions.Laws.{in_memory}
use cloud_android_orchestrat.App.Sessions.Laws

abbrev logged_in : World InMemoryDbService ℕ
logged_in = world_with [] login_session

abbrev spent_world : World InMemoryDbService ℕ
spent_world = world_with [] zero_session

parse_authorization_response_sound_example :
    Laws.IsAccepted test_app none
      (some ("s" ∷ []))
      (some ("c" ∷ []))
      (some "k")
      logged_in
      spent_world
      "c"
unfolding parse_authorization_response lookup in_memory_db
parse_authorization_response_sound_example =
    parse_authorization_response_sound test_app (response_with "s" "k") logged_in spent_world "c"
      refl

parse_authorization_response_once_example :
    parse_authorization_response (in_memory test_app) (response_with "" "k") spent_world
    ≢ (ok "again", spent_world)
unfolding parse_authorization_response lookup in_memory_db
parse_authorization_response_once_example =
    parse_authorization_response_once test_app (response_with "s" "k") (response_with "" "k")
      logged_in spent_world spent_world spent_world "c" "again" "k" (λ e. cc) refl refl refl refl

abbrev blank : World InMemoryDbService ℕ
blank = world_with [] zero_session

abbrev first_state : String
first_state = hex_string_at test_app 0

abbrev first_key : String
first_key = hex_string_at test_app 4

parse_authorization_response-auth_handler_example :
    ((auth_handler (in_memory test_app) request blank).1.out
      ≡ set_cookie first_key ∷ redirect (test_oauth2.auth_code_url first_state) 303 ∷ [])
    × ((parse_authorization_response
          (in_memory test_app)
          (response_with first_state first_key)
          (auth_handler (in_memory test_app) request blank).1).0
        ≡ ok "c")
unfolding lookup
parse_authorization_response-auth_handler_example =
    parse_authorization_response-auth_handler test_app request (response_with first_state first_key)
      blank "c" [] [] refl refl refl refl
