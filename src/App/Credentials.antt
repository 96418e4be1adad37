-- ===== src/App/Credentials.antt =====
-- pkg/app/app.go: a user's credentials for the build API, encrypted in the database.
pub mod Laws
use cloud_android_orchestrat.Prelude.{String, Option, none, some, if◌then◌else◌}
use cloud_android_orchestrat.Exec.{
  Exec, Result, pure, raise, lift, wrapped, on_error, logged, ◌>>=◌, ◌>>◌,
}
use cloud_android_orchestrat.Database.{Bytes}
use cloud_android_orchestrat.Accounts.{User, username}
use cloud_android_orchestrat.App.Defs.{App, Token, World, on_db, on_cloud}

module _ {D C : Type 0} (app : App D C) where
  unfoldable pub store_user_credentials : User → Token → Exec (World D C) (Unit {0})
  store_user_credentials user tk = do
    creds ← wrapped "Failed to serialize credentials" (lift (app.oauth2.marshal tk))
    encrypted ←
        wrapped "Failed to encrypt credentials" (lift (app.encryption_service.encrypt creds))
    name ← lift (username user)
    wrapped "Failed to store credentials"
        (on_db (app.database_service.store_build_api_credentials name encrypted))

  -- Credentials that cannot be read are deleted; a failure to do so is logged.
  abbrev or_delete : {A : Type 0} → String → Result A → Exec (World D C) A
  or_delete name r =
      on_error (lift r)
        (λ e. do logged (on_db (app.database_service.delete_build_api_credentials name)); raise e)

  -- A token that is no longer valid is refreshed and stored; a failure to store it is logged.
  abbrev refreshed : User → Token → Exec (World D C) Token
  refreshed user tk = if app.oauth2.valid tk then pure tk else (do
    tk' ← wrapped "Error refreshing token" (on_cloud (app.oauth2.refresh tk))
    logged (store_user_credentials user tk')
    pure tk')

  abbrev opened : User → String → Option Bytes → Exec (World D C) (Option Token)
  opened user name none = pure none
  opened user name (some encrypted) = do
    creds ← or_delete name (app.encryption_service.decrypt encrypted)
    tk ← wrapped "Error deserializing token" (or_delete name (app.oauth2.unmarshal creds))
    tk' ← refreshed user tk
    pure (some tk')

  unfoldable pub fetch_user_credentials : User → Exec (World D C) (Option Token)
  unfolding store_user_credentials
  fetch_user_credentials user = do
    name ← lift (username user)
    encrypted ←
        wrapped "Error getting user credentials"
          (on_db (app.database_service.fetch_build_api_credentials name))
    opened user name encrypted
