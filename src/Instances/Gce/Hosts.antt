-- ===== src/Instances/Gce/Hosts.antt =====
-- pkg/app/instances/gce.go: the methods of `GCEInstanceManager`.
use cloud_android_orchestrat.Prelude.{
  ℕ, String, Bool, true, not, ◌||◌, Option, none, some, List, [], ◌∷◌, leb, ◌==◌, ◌<>◌, str_eq,
  insert, if◌then◌else◌,
}
use cloud_android_orchestrat.Errors.{
  new_bad_request_error, new_internal_error, new_service_unavailable_error,
}
use cloud_android_orchestrat.Exec.{Exec, Result, ok, err, pure, raise, lift, ◌>>=◌, ◌>>◌}
use cloud_android_orchestrat.Accounts.{User, username}
use cloud_android_orchestrat.Text.{itoa}
use cloud_android_orchestrat.Instances.Defs.{
  GcpInstance, HostInstance, CreateHostRequest, Operation, OpResult, ListHostsRequest,
  ListHostsResponse, NetHostClient, InstanceManager,
}
use cloud_android_orchestrat.Instances.Gce.Defs.{
  InstanceQuery, GceConfig, ComputeInstance, InsertPayload, ComputeOperation, ComputeApi, converted,
}
use cloud_android_orchestrat.Instances.Gce.Results.{
  operation_status_done, build_host_instance, op_result,
}

abbrev pub label_created_by : String
label_created_by = "cf-created_by"

abbrev pub label_acloud_created_by : String
label_acloud_created_by = "created_by"

-- The text of the script is not modelled.
abbrev acloud_setup_script : String
acloud_setup_script = "#!/bin/bash"

abbrev list_hosts_request_max_results_limit : ℕ
list_hosts_request_max_results_limit = 500

abbrev invalid_gcp : Option GcpInstance → Bool
invalid_gcp none = true
invalid_gcp (some g) = str_eq g.machine_type ""

abbrev pub invalid_host : Option HostInstance → Bool
invalid_host none = true
invalid_host (some h) =
    not (str_eq h.name "") || not (h.boot_disk_size_gb == 0) || invalid_gcp h.gcp

unfoldable pub validate_request : CreateHostRequest → Result (Unit {0})
validate_request r =
    if invalid_host r.host_instance
    then err (new_bad_request_error "invalid CreateHostRequest" none)
    else ok tt

unfoldable build_default_network_name : String → String
build_default_network_name project_id = "projects/" <> project_id <> "/global/networks/default"

-- `InstanceNameGenerator.NewName`
unfoldable new_name : {C : Type 0} → ComputeApi C → Exec C String
new_name api = do u ← api.new_uuid; pure ("cf-" <> u)

abbrev operation_of : ComputeOperation → Operation
operation_of op = record { name = op.name; done = str_eq op.status operation_status_done }

-- `req.HostInstance.GCP`, read after the validation; a nil would panic, and cannot be there.
abbrev gcp_of_host : Option HostInstance → GcpInstance
gcp_of_host none = record { machine_type = ""; min_cpu_platform = "" }
gcp_of_host (some h) = elim h.gcp [
  | none ↦ record { machine_type = ""; min_cpu_platform = "" }
  | some g ↦ g
]

unfoldable pub owner_filter_expr : String → String
owner_filter_expr user_name = "labels." <> label_created_by <> ":" <> user_name

-- The instances of a name and a creator.
unfoldable pub named_query : String → String → InstanceQuery
unfolding owner_filter_expr
named_query name user_name = record {
  max_results = none;
  page_token = "";
  filter = ("name=" <> name) <> " AND " <> owner_filter_expr user_name;
}

-- The instance that a valid request asks for.
unfoldable pub payload_of : GceConfig → String → CreateHostRequest → String → String → InsertPayload
unfolding build_default_network_name
payload_of config zone req name user_name = record {
  name = name;
  machine_type =
      "zones/" <> zone <> "/machineTypes/" <> (gcp_of_host req.host_instance).machine_type;
  min_cpu_platform = (gcp_of_host req.host_instance).min_cpu_platform;
  source_image = config.host_image_family;
  boot = true;
  network_name = build_default_network_name config.project_id;
  access_config_name = "External NAT";
  access_config_type = "ONE_TO_ONE_NAT";
  labels =
      if config.acloud_compatible
      then insert label_acloud_created_by user_name ((label_created_by, user_name) ∷ [])
      else (label_created_by, user_name) ∷ [];
  startup_script = if config.acloud_compatible then some acloud_setup_script else none;
}

-- The loop over the items; an instance that cannot be built ends it.
unfoldable pub build_host_instances : List ComputeInstance → Result (List HostInstance)
build_host_instances [] = ok []
build_host_instances (i ∷ is) = elim (build_host_instance i) [
  | ok h ↦ elim (build_host_instances is) [
    | ok hs ↦ ok (h ∷ hs)
    | err e ↦ err e
    | Result.panic p ↦ Result.panic p
  ]
  | err e ↦ err e
  | Result.panic p ↦ Result.panic p
]

module _ {C : Type 0} (config : GceConfig) (api : ComputeApi C) where
  unfoldable pub list_zones : Exec C (List String)
  list_zones = converted (api.zones_list config.project_id)

  abbrev first_ip : List String → Exec C String
  first_ip [] = raise (new_internal_error "host instance missing a network interface" none)
  first_ip (ip ∷ _) = pure ip

  unfoldable pub get_host_addr : String → String → Exec C String
  get_host_addr zone host = do
    ins ← api.instances_get config.project_id zone host
    first_ip ins.network_ips

  unfoldable pub get_host_url : String → String → Exec C String
  unfolding get_host_addr
  get_host_url zone host = do
    addr ← get_host_addr zone host
    lift (
        api.url_parse (
          config.host_orchestrator_protocol
          <> "://"
          <> addr
          <> ":"
          <> itoa config.host_orchestrator_port))

  unfoldable pub create_host : String → CreateHostRequest → User → Exec C Operation
  unfolding validate_request new_name payload_of
  create_host zone req user = do
    lift (validate_request req)
    name ← new_name api
    user_name ← lift (username user)
    op ←
        converted
          (api.instances_insert config.project_id zone (payload_of config zone req name user_name))
    pure (operation_of op)

  unfoldable pub list_hosts : String → User → ListHostsRequest → Exec C ListHostsResponse
  unfolding owner_filter_expr build_host_instances
  list_hosts zone user req = do
    user_name ← lift (username user)
    res ← converted (
        api.instances_list config.project_id zone (record {
          max_results = some (
              if leb req.max_results list_hosts_request_max_results_limit
              then req.max_results
              else list_hosts_request_max_results_limit);
          page_token = req.page_token;
          filter = owner_filter_expr user_name <> " AND status=RUNNING";
        }))
    items ← lift (build_host_instances res.items)
    pure (record { items = items; next_page_token = res.next_page_token })

  abbrev pub delete_found : String → String → List ComputeInstance → Exec C Operation
  delete_found zone name [] =
      raise (new_bad_request_error ("Host instance \"" <> name <> "\" not found.") none)
  delete_found zone name (_ ∷ _) = do
    op ← converted (api.instances_delete config.project_id zone name)
    pure (operation_of op)

  unfoldable pub delete_host : String → User → String → Exec C Operation
  delete_host zone user name = do
    user_name ← lift (username user)
    res ← converted (api.instances_list config.project_id zone (named_query name user_name))
    delete_found zone name res.items

  unfoldable pub wait_operation : String → User → String → Exec C OpResult
  unfolding op_result
  wait_operation zone user name = do
    op ← converted (api.zone_operations_wait config.project_id zone name)
    if not (str_eq op.status operation_status_done)
        then raise (new_service_unavailable_error "Wait for operation timed out" none)
        else op_result api op

  unfoldable pub get_host_client : String → String → Exec C NetHostClient
  unfolding get_host_url
  get_host_client zone host = do
    url ← get_host_url zone host
    pure
        (record { url = url; insecure_skip_verify = config.allow_self_signed_host_ssl_certificate })

  unfoldable pub gce_instance_manager : InstanceManager C
  unfolding list_zones create_host list_hosts delete_host wait_operation get_host_client
  gce_instance_manager = record {
    list_zones = list_zones;
    create_host = create_host;
    list_hosts = list_hosts;
    delete_host = delete_host;
    wait_operation = wait_operation;
    get_host_client = get_host_client;
  }
