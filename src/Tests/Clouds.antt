-- ===== src/Tests/Clouds.antt =====
-- The in-memory database and the Compute Engine manager.
use cloud_android_orchestrat.Text.{path_base}
use cloud_android_orchestrat.Instances.{empty}
use cloud_android_orchestrat.Instances.{created}
use cloud_android_orchestrat.Instances.Gce.Defs.{
  ComputeApi, ComputeInstance, ComputeOperation, GceConfig,
}
use cloud_android_orchestrat.Instances.Gce.Waiting.{IsCreated, IsDone, wait_operation_sound}
use cloud_android_orchestrat.Instances.Gce.Hosts.{wait_operation}
use cloud_android_orchestrat.Exec.{ok, pure}
use cloud_android_orchestrat.Instances.TargetLink.{find_submatch}
use cloud_android_orchestrat.Tests.Fixtures.{ann, apart, login_session}
use cloud_android_orchestrat.Instances.{HostInstance}
use cloud_android_orchestrat.Database.Memory.{new_in_memory_db_service}
use cloud_android_orchestrat.Instances.Gce.Results.{
  build_create_instance_result, build_host_instance, op_result,
}
use cloud_android_orchestrat.Prelude.{
  if◌then◌else◌, str_eq, ◌<>◌, List, String, [], false, refl, some, true, ℕ, ◌+◌, ◌∷◌, ◌≡◌, ◌⊎◌,
}
use cloud_android_orchestrat.Database.Refinement.{
  Call, create_session, serve_all, serve_all-step_all, step_all, view, fetch_session,
  delete_session,
}

abbrev calls : List Call
calls =
    create_session login_session ∷ fetch_session "k" ∷ delete_session "k" ∷ fetch_session "k" ∷ []

serve_all-step_all_example :
    serve_all calls new_in_memory_db_service ≡ step_all calls (view new_in_memory_db_service)
serve_all-step_all_example =
    serve_all-step_all calls new_in_memory_db_service
      (apart "k" "" refl, (apart "k" "" refl, (apart "k" "" refl, (apart "k" "" refl, tt))))

abbrev gce_config : GceConfig
gce_config = record {
  host_image_family = "image";
  host_orchestrator_protocol = "https";
  allow_self_signed_host_ssl_certificate = true;
  project_id = "p";
  host_orchestrator_port = 443;
  acloud_compatible = true;
}

abbrev an_instance : ComputeInstance
an_instance = record {
  name = "i";
  self_link = "";
  machine_type = "m";
  min_cpu_platform = "c";
  disk_sizes = 10 ∷ [];
  network_ips = [];
}

abbrev link : String
link = "https://www.googleapis.com/compute/v1/projects/p/zones/z/instances/i"

abbrev insertion : ComputeOperation
insertion = record {
  name = "op";
  status = "DONE";
  operation_type = "insert";
  target_link = link;
  has_error = false;
  http_error_message = "";
  http_error_status_code = 0;
}

abbrev api : ComputeApi ℕ
api = record {
  zones_list = λ project. pure [];
  instances_insert = λ project zone payload. pure insertion;
  instances_list = λ project zone query. pure (record { items = []; next_page_token = "" });
  instances_get = λ project zone name. pure an_instance;
  instances_delete = λ project zone name c. (ok insertion, c + 1);
  zone_operations_wait = λ project zone name. pure insertion;
  new_uuid = pure "u";
  url_parse = λ url. ok url;
}

abbrev the_host : HostInstance
the_host = record {
  name = "i";
  boot_disk_size_gb = 10;
  gcp = some (record { machine_type = "m"; min_cpu_platform = "c" });
}

wait_operation_sound_example :
    (op : ComputeOperation) × (d : ℕ) × (api.zone_operations_wait "p" "z" "op" 0 ≡ (ok op, d))
    × IsDone gce_config api op
    × (((op.operation_type ≡ "delete") × (created the_host ≡ empty))
        ⊎ ((op.operation_type ≡ "insert") × IsCreated gce_config api op (created the_host) d 0))
unfolding wait_operation op_result build_create_instance_result build_host_instance find_submatch
    path_base
wait_operation_sound_example =
    wait_operation_sound gce_config api "z" "op" ann (created the_host) 0 0 refl

-- The labels of a host of "al", whose name is a part of longer ones.
abbrev labels_of_al : List (String × String)
labels_of_al = ("cf-created_by", "al") ∷ []

abbrev filter_of : String → String
filter_of text = ("name=" <> "i") <> " AND " <> "labels." <> "cf-created_by" <> ":" <> text

-- A service with that host, which it lists when it is asked for by its user's name.
abbrev keeping : ComputeApi ℕ
keeping = record api {
  instances_list = λ project zone query. pure (
      if str_eq query.filter (filter_of "al")
      then record { items = an_instance ∷ []; next_page_token = "" }
      else record { items = []; next_page_token = "" });
}
