-- ===== src/Errors/Laws.antt =====
-- How errors look through wrapping.
use cloud_android_orchestrat.Prelude.{String, ◌≡◌, refl}
use cloud_android_orchestrat.Errors.{GoError, wrap, as_app_error}

-- An application error stays visible through any `%w`.
as_app_error-wrap : (msg : String) (e : GoError) → as_app_error (wrap msg e) ≡ as_app_error e
unfolding as_app_error
as_app_error-wrap msg e = refl
