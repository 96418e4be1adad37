-- ===== src/Startup/Loading.antt =====
-- cmd/cloud_orchestrator/main.go: the parts of the server, and where it listens.
use cloud_android_orchestrat.Instances.Gce.Defs.{ComputeApi}
use cloud_android_orchestrat.Instances.Local.{local_instance_manager}
use cloud_android_orchestrat.Instances.Gce.Hosts.{gce_instance_manager}
use cloud_android_orchestrat.Instances.{InstanceManager}
use cloud_android_orchestrat.Encryption.{EncryptionService, fake_encryption}
use cloud_android_orchestrat.Startup.{Config, getenv, or_fatal}
use cloud_android_orchestrat.Database.Spanner.{SpannerApi, spanner_db}
use cloud_android_orchestrat.Startup.Kms.{KmsClient, gcp_kms_encryption_service}
use cloud_android_orchestrat.Errors.{plain}
use cloud_android_orchestrat.Exec.{then_value, Result, err, ok}
use cloud_android_orchestrat.Database.{DatabaseService}
use cloud_android_orchestrat.Database.Memory.{InMemoryDbService, in_memory_db}
use cloud_android_orchestrat.Accounts.{AccountManager, gae_account_manager, unix_account_manager}
use cloud_android_orchestrat.Startup.Secrets.{
  ClientSecrets, OAuth2Helper, SecretClient, new_from_file_secret_manager, new_gcp_secret_manager,
  new_google_oauth2_helper,
}
use cloud_android_orchestrat.Prelude.{Option, String, if◌then◌else◌, str_eq, ◌<>◌}

-- The two kinds of database, each over its own state
pub data Database (T : Type 0) : Type 0 where
  in_memory : DatabaseService InMemoryDbService → Database T
  spanner : DatabaseService T → Database T

-- What `main` builds before it serves
pub record Server (C T : Type 0) : Type 0 where
  pub instance_manager : InstanceManager C
  pub oauth2_helper : OAuth2Helper
  pub account_manager : AccountManager
  pub encryption_service : EncryptionService
  pub database_service : Database T
  pub address : String

-- The cloud libraries, files and the environment
pub record Outside (C T : Type 0) : Type 0 where
  pub new_compute_service : Result (ComputeApi C)
  pub url_parse : String → Result String
  pub secret_client : SecretClient
  pub decode_secrets : String → Result ClientSecrets
  pub read_file : String → Result String
  pub kms : KmsClient
  pub spanner_api : SpannerApi T
  pub env : String → Option String

module _ {C T : Type 0} (out : Outside C T) where
  -- `LoadInstanceManager`
  unfoldable pub load_instance_manager : Config → Result (InstanceManager C)
  load_instance_manager config =
      if str_eq config.instance_manager_type "GCP"
      then then_value (or_fatal "" out.new_compute_service)
          (λ api. ok (gce_instance_manager config.gce api))
      else if str_eq config.instance_manager_type "unix"
      then ok (local_instance_manager config.local out.url_parse)
      else err (plain ("Unknown Instance Manager type: " <> config.instance_manager_type))

  -- `LoadSecretManager`
  unfoldable pub load_secret_manager : Config → Result ClientSecrets
  load_secret_manager config =
      if str_eq config.secret_manager_type "GCP"
      then or_fatal "Failed to build Secret Manager: " (
          new_gcp_secret_manager out.secret_client out.decode_secrets
            config.oauth2_client_resource_id)
      else if str_eq config.secret_manager_type "unix"
      then or_fatal ""
          (new_from_file_secret_manager out.read_file out.decode_secrets config.secret_file_path)
      else err (plain ("Unknown Secret Manager type: " <> config.secret_manager_type))

  -- `LoadOAuth2Config`
  unfoldable pub load_oauth2_config : Config → ClientSecrets → Result OAuth2Helper
  load_oauth2_config config sm =
      if str_eq config.oauth2_provider "Google"
      then ok (new_google_oauth2_helper config.oauth2_redirect_url sm)
      else err (plain ("Unknown oauth2 provider: " <> config.oauth2_provider))

  -- `LoadAccountManager`
  unfoldable pub load_account_manager : Config → Result AccountManager
  load_account_manager config =
      if str_eq config.account_manager_type "GCP"
      then ok gae_account_manager
      else if str_eq config.account_manager_type "unix"
      then ok (unix_account_manager (getenv out.env "USER"))
      else err (plain ("Unknown Account Manager type: " <> config.account_manager_type))

  -- `LoadEncryptionService`
  unfoldable pub load_encryption_service : Config → Result EncryptionService
  load_encryption_service config =
      if str_eq config.encryption_service_type "Fake"
      then ok fake_encryption
      else if str_eq config.encryption_service_type "GCP_KMS"
      then ok (gcp_kms_encryption_service out.kms config.kms_key_name)
      else err (plain ("Unknown encryption service type: " <> config.encryption_service_type))

  -- `LoadDatabaseService`
  unfoldable pub load_database_service : Config → Result (Database T)
  load_database_service config =
      if str_eq config.database_service_type "InMemory"
      then ok (in_memory in_memory_db)
      else if str_eq config.database_service_type "Spanner"
      then ok (spanner (spanner_db out.spanner_api config.spanner_database_name))
      else err (plain ("Unknown database service type: " <> config.database_service_type))

  -- `ChooseNetworkInterface`
  unfoldable pub choose_network_interface : Config → String
  choose_network_interface config =
      if str_eq config.account_manager_type "unix" then "localhost" else ""

  -- `ServerPort`
  unfoldable pub server_port : String
  server_port = let port = getenv out.env "PORT" in if str_eq port "" then "8080" else port

  -- `main` up to `ListenAndServe`; an error ends the process
  unfoldable pub start : Config → Result (Server C T)
  start config = then_value (load_instance_manager config) (λ im.
      then_value (load_secret_manager config) (λ sm.
        then_value (load_oauth2_config config sm) (λ helper.
          then_value (load_account_manager config) (λ am.
            then_value (load_encryption_service config) (λ es.
              then_value (load_database_service config) (λ dbs. ok (record {
                instance_manager = im;
                oauth2_helper = helper;
                account_manager = am;
                encryption_service = es;
                database_service = dbs;
                address = choose_network_interface config <> ":" <> server_port;
              })))))))
