-- ===== src/Instances/Local.antt =====
-- pkg/app/instances/local.go: the manager that stands for one host orchestrator on this machine.
use cloud_android_orchestrat.Prelude.{ℕ, String, Bool, true, none, List, [], ◌∷◌, ◌<>◌}
use cloud_android_orchestrat.Errors.{plain}
use cloud_android_orchestrat.Exec.{Exec, Result, pure, raise, lift, ◌>>=◌}
use cloud_android_orchestrat.Accounts.{User}
use cloud_android_orchestrat.Text.{itoa}
use cloud_android_orchestrat.Instances.Defs.{
  CreateHostRequest, Operation, OpResult, ListHostsRequest, ListHostsResponse, NetHostClient,
  InstanceManager,
}

-- The fields of `Config` and of its `UNIXIMConfig`.
pub record LocalConfig : Type 0 where
  pub host_orchestrator_protocol : String
  pub allow_self_signed_host_ssl_certificate : Bool
  pub host_orchestrator_port : ℕ

-- `url.Parse` is the parameter `url_parse`.
module _ {C : Type 0} (config : LocalConfig) (url_parse : String → Result String) where
  unfoldable pub get_host_addr : String → String → Exec C String
  get_host_addr _ _ = pure "127.0.0.1"

  unfoldable pub get_host_url : String → String → Exec C String
  unfolding get_host_addr
  get_host_url zone host = do
    addr ← get_host_addr zone host
    lift (
        url_parse (
          config.host_orchestrator_protocol
          <> "://"
          <> addr
          <> ":"
          <> itoa config.host_orchestrator_port))

  abbrev list_zones : Exec C (List String)
  list_zones = pure ("local" ∷ [])

  abbrev create_host : String → CreateHostRequest → User → Exec C Operation
  create_host _ _ _ = pure (record { name = "Create Host"; done = true })

  abbrev list_hosts : String → User → ListHostsRequest → Exec C ListHostsResponse
  list_hosts zone user req = pure (record {
    items = record { name = "local"; boot_disk_size_gb = 0; gcp = none } ∷ [];
    next_page_token = "";
  })

  abbrev delete_host : String → User → String → Exec C Operation
  delete_host zone user name =
      raise (plain "instances.LocalInstanceManager#DeleteHost is not implemented")

  abbrev wait_operation : String → User → String → Exec C OpResult
  wait_operation zone user name =
      raise (plain "instances.LocalInstanceManager#WaitOperation is not implemented")

  unfoldable pub get_host_client : String → String → Exec C NetHostClient
  unfolding get_host_url
  get_host_client zone host = do
    url ← get_host_url zone host
    pure
        (record { url = url; insecure_skip_verify = config.allow_self_signed_host_ssl_certificate })

  unfoldable pub local_instance_manager : InstanceManager C
  unfolding get_host_client
  local_instance_manager = record {
    list_zones = list_zones;
    create_host = create_host;
    list_hosts = list_hosts;
    delete_host = delete_host;
    wait_operation = wait_operation;
    get_host_client = get_host_client;
  }
