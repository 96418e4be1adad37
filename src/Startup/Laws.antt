-- ===== src/Startup/Laws.antt =====
-- When the server starts, and where it listens.
use cloud_android_orchestrat.Startup.{Config}
use cloud_android_orchestrat.Startup.Secrets.{ClientSecrets}
use cloud_android_orchestrat.Startup.Loading.{
  choose_network_interface, Server, server_port, Outside, load_account_manager,
  load_database_service, load_encryption_service, load_instance_manager, load_oauth2_config,
  load_secret_manager, start,
}
use cloud_android_orchestrat.Exec.{Result, Result-cases, err, ok, panic, then_value}
use cloud_android_orchestrat.Prelude.{
  ◌<>◌, ◌∙◌, Bool, String, arith, false, if◌then◌else◌, refl, str_eq, true, ◌&&◌, ◌||◌, ◌≡◌,
}

abbrev is_known : String → String → String → Bool
is_known a b type = str_eq type a || str_eq type b

abbrev pub is_ok : {A : Type 0} → Result A → Bool
is_ok (ok a) = true
is_ok (err e) = false
is_ok (panic p) = false

is_ok-then_value :
    {A B : Type 0} (r : Result A) (f : A → Result B) (a b : Bool)
    → is_ok r ≡ a
    → ((x : A) → is_ok (f x) ≡ b)
    → is_ok (then_value r f) ≡ (a && b)
is_ok-then_value (ok x) f a b e h = rw⁻¹ e (h x)
is_ok-then_value (err e) f a b q h = rw⁻¹ q refl
is_ok-then_value (panic p) f a b q h = rw⁻¹ q refl

is_ok_last :
    {A B : Type 0} (r : Result A) (f : A → Result B) (a : Bool)
    → is_ok r ≡ a
    → ((x : A) → is_ok (f x) ≡ true)
    → is_ok (then_value r f) ≡ a
is_ok_last (ok x) f a e h = h x ∙ e
is_ok_last (err e) f a q h = q
is_ok_last (panic p) f a q h = q

holds-then_value :
    {A B : Type 0} (P : B → Type 0) (r : Result A) (f : A → Result B) (b : B)
    → ((a : A) → f a ≡ ok b → P b)
    → then_value r f ≡ ok b
    → P b
holds-then_value P (ok a) f b h e = h a e
holds-then_value P (err x) f b h e = absurd (ground arith)
holds-then_value P (panic p) f b h e = absurd (ground arith)

module _ {C T : Type 0} (out : Outside C T) where
  load_instance_manager-ok :
      (config : Config)
      → is_ok (load_instance_manager out config) ≡ (
          if str_eq config.instance_manager_type "GCP"
          then is_ok out.new_compute_service
          else str_eq config.instance_manager_type "unix")
  unfolding load_instance_manager
  load_instance_manager-ok config = ground (arith, Result-cases out.new_compute_service)

  load_account_manager-ok :
      (config : Config)
      → is_ok (load_account_manager out config) ≡ is_known "GCP" "unix" config.account_manager_type
  unfolding load_account_manager
  load_account_manager-ok config = ground arith

  load_encryption_service-ok :
      (config : Config)
      → is_ok (load_encryption_service out config)
        ≡ is_known "Fake" "GCP_KMS" config.encryption_service_type
  unfolding load_encryption_service
  load_encryption_service-ok config = ground arith

  load_database_service-ok :
      (config : Config)
      → is_ok (load_database_service out config)
        ≡ is_known "InMemory" "Spanner" config.database_service_type
  unfolding load_database_service
  load_database_service-ok config = ground arith

  load_oauth2_config-ok :
      (config : Config) (sm : ClientSecrets)
      → is_ok (load_oauth2_config out config sm) ≡ str_eq config.oauth2_provider "Google"
  unfolding load_oauth2_config
  load_oauth2_config-ok config sm = ground arith

  -- The server starts exactly when the instance manager and the secrets can be loaded and the
  -- provider of OAuth2, the account manager, the encryption service and the database are of the
  -- types that there are.
  start-ok :
      (config : Config)
      → is_ok (start out config) ≡ (
          is_ok (load_instance_manager out config)
          && (is_ok (load_secret_manager out config)
              && (str_eq config.oauth2_provider "Google"
                  && (is_known "GCP" "unix" config.account_manager_type
                      && (is_known "Fake" "GCP_KMS" config.encryption_service_type
                          && is_known "InMemory" "Spanner" config.database_service_type)))))
  unfolding start
  start-ok config = is_ok-then_value (load_instance_manager out config) _ _ _ refl (λ im.
      is_ok-then_value (load_secret_manager out config) _ _ _ refl (λ sm.
        is_ok-then_value (load_oauth2_config out config sm) _ _ _ (load_oauth2_config-ok config sm)
          (λ helper.
            is_ok-then_value (load_account_manager out config) _ _ _
              (load_account_manager-ok config)
              (λ am.
                is_ok-then_value (load_encryption_service out config) _ _ _
                  (load_encryption_service-ok config)
                  (λ es.
                    is_ok_last (load_database_service out config) _ _
                      (load_database_service-ok config) (λ dbs. refl))))))

  -- The loopback interface alone is what a server listens on that takes its user from the
  -- environment; every other one that starts listens on all interfaces.
  pub start-address :
      (config : Config) (server : Server C T)
      → start out config ≡ ok server
      → server.address
        ≡ (if str_eq config.account_manager_type "unix" then "localhost" else "")
          <> ":"
          <> server_port out
  unfolding start choose_network_interface
  start-address config server e =
      let Listens = λ (s : Server C T).
        s.address
        ≡ (if str_eq config.account_manager_type "unix" then "localhost" else "")
          <> ":"
          <> server_port out in
      holds-then_value Listens (load_instance_manager out config) _ server
        (λ im. holds-then_value Listens (load_secret_manager out config) _ server (λ sm.
          holds-then_value Listens (load_oauth2_config out config sm) _ server (λ helper.
            holds-then_value Listens (load_account_manager out config) _ server (λ am.
              holds-then_value Listens (load_encryption_service out config) _ server (λ es.
                holds-then_value Listens (load_database_service out config) _ server
                  (λ dbs f. ground arith))))))
        e
