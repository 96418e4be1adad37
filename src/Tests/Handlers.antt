-- ===== src/Tests/Handlers.antt =====
-- Errors, users, cross-origin headers and page sizes.
use cloud_android_orchestrat.App.Defs.{print}
use cloud_android_orchestrat.Exec.{Exec, err, ok, raise}
use cloud_android_orchestrat.Database.Memory.{InMemoryDbService}
use cloud_android_orchestrat.Tests.Fixtures.{login_session, request, test_app, world_with}
use cloud_android_orchestrat.Prelude.{[], lookup, none, refl, ℕ, ◌++◌, ◌≡◌, ◌≢◌}
use cloud_android_orchestrat.Errors.{ApiError, GoError, new_not_found_error, wrap}
use cloud_android_orchestrat.App.Defs.{Request, World, emit}
use cloud_android_orchestrat.App.Server.Laws.{
  Told, authenticate_anonymous, replied, serve_http-served,
}
use cloud_android_orchestrat.App.Server.{authenticate, serve_http}
use cloud_android_orchestrat.Accounts.{User, gae, gae_account_manager}

abbrev quiet : World InMemoryDbService ℕ
quiet = world_with [] login_session

abbrev failing : Request → Exec (World InMemoryDbService ℕ) (Unit {0})
failing r = raise (wrap "secret" (new_not_found_error "no host" none))

serve_http-served_example :
    ((e : GoError) (w' : World InMemoryDbService ℕ)
      → failing request quiet ≡ (err e, w')
      → (t : ApiError × ℕ) × Told e t
        × (serve_http failing request quiet ≡ (ok tt, record w' { out = w'.out ++ replied t })))
    × (((e : GoError) → (failing request quiet).0 ≢ err e)
        → serve_http failing request quiet ≡ failing request quiet)
serve_http-served_example = serve_http-served failing request quiet

abbrev greeting : Request → User → Exec (World InMemoryDbService ℕ) (Unit {0})
greeting r user = emit (print "hello")

authenticate_anonymous_example :
    authenticate (record test_app { account_manager = gae_account_manager }) greeting request quiet
    ≡ greeting request (gae none) quiet
unfolding lookup
authenticate_anonymous_example = authenticate_anonymous test_app greeting request quiet refl
