-- ===== src/Startup/Secrets.antt =====
-- pkg/app/secrets: where the OAuth2 client's id and secret come from; and pkg/app/oauth2's helper.
use cloud_android_orchestrat.Errors.{plain}
use cloud_android_orchestrat.Exec.{then_value, Exec, Result, raise, wrap_result}
use cloud_android_orchestrat.Prelude.{List, Option, String, [], none, some, ◌∷◌}

-- `ClientSecrets`, and `FromFileSecretManager`: what both managers give
pub record ClientSecrets : Type 0 where
  pub client_id : String
  pub client_secret : String

-- The client of the secret manager library: its creation, and the payload of a secret.
pub record SecretClient : Type 0 where
  pub new_client : Result (Unit {0})
  pub access_secret_version : String → Result String

-- `NewGCPSecretManager`
unfoldable pub new_gcp_secret_manager :
    SecretClient → (String → Result ClientSecrets) → String → Result ClientSecrets
new_gcp_secret_manager client decode resource_id =
    then_value (wrap_result "Failed to create secret manager client" client.new_client) (λ u.
      then_value (wrap_result "Failed to access secret" (client.access_secret_version resource_id))
        (λ payload. wrap_result "Failed to decode secrets" (decode payload)))

-- `NewFromFileSecretManager`
unfoldable pub new_from_file_secret_manager :
    (String → Result String) → (String → Result ClientSecrets) → String → Result ClientSecrets
new_from_file_secret_manager read_file decode path = then_value (read_file path) decode

-- `Helper`, which revokes tokens at Google
pub record OAuth2Helper : Type 0 where
  pub client_id : String
  pub client_secret : String
  scopes : List String
  redirect_url : String

-- `NewGoogleOAuth2Helper`
unfoldable pub new_google_oauth2_helper : String → ClientSecrets → OAuth2Helper
new_google_oauth2_helper redirect_url sm = record {
  client_id = sm.client_id;
  client_secret = sm.client_secret;
  scopes = "https://www.googleapis.com/auth/androidbuild.internal" ∷ "openid" ∷ "email" ∷ [];
  redirect_url = redirect_url;
}

-- `RevokeGoogleOAuth2Token`: the form's post is a parameter, and its reply is not looked at.
unfoldable pub revoke_google_oauth2_token :
    {W : Type 0} → (String → String → Exec W (Unit {0})) → Option String → Exec W (Unit {0})
revoke_google_oauth2_token post_form none = raise (plain "Nil Token")
revoke_google_oauth2_token post_form (some access_token) =
    post_form "https://oauth2.googleapis.com/revoke" access_token
