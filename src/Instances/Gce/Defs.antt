-- ===== src/Instances/Gce/Defs.antt =====
-- pkg/app/instances/gce.go: the configuration, and the messages and calls of the Compute library.
use cloud_android_orchestrat.Prelude.{ℕ, String, Bool, Option, List, Map}
use cloud_android_orchestrat.Errors.{GoError, google, api_call, plain, wrap, app, app_caused}
use cloud_android_orchestrat.Exec.{Exec, Result, ok, err, panic}

-- The fields of `Config` and of its `GCPIMConfig`.
pub record GceConfig : Type 0 where
  pub host_orchestrator_protocol : String
  pub allow_self_signed_host_ssl_certificate : Bool
  pub project_id : String
  pub host_image_family : String
  pub host_orchestrator_port : ℕ
  pub acloud_compatible : Bool

-- What the program reads of a `compute.Instance`: each disk by its size, each interface by its IP.
pub record ComputeInstance : Type 0 where
  pub name : String
  pub self_link : String
  pub machine_type : String
  pub min_cpu_platform : String
  pub disk_sizes : List ℕ
  pub network_ips : List String

-- What the program writes of a `compute.Instance`.
pub record InsertPayload : Type 0 where
  pub name : String
  pub machine_type : String
  pub min_cpu_platform : String
  pub source_image : String
  pub boot : Bool
  pub network_name : String
  pub access_config_name : String
  pub access_config_type : String
  pub labels : Map String
  pub startup_script : Option String

pub record ComputeOperation : Type 0 where
  pub name : String
  pub status : String
  pub operation_type : String
  pub target_link : String
  pub has_error : Bool
  pub http_error_message : String
  pub http_error_status_code : ℕ

pub record InstanceQuery : Type 0 where
  pub max_results : Option ℕ
  pub page_token : String
  pub filter : String

pub record InstanceList : Type 0 where
  pub items : List ComputeInstance
  pub next_page_token : String

-- The calls, each with the project first, then the zone. `new_uuid` is the name generator's
-- `UUIDFactory`, and `url_parse` stands for `url.Parse`.
pub record ComputeApi (C : Type 0) : Type 0 where
  pub zones_list : String → Exec C (List String)
  pub instances_insert : String → String → InsertPayload → Exec C ComputeOperation
  pub instances_list : String → String → InstanceQuery → Exec C InstanceList
  pub instances_get : String → String → String → Exec C ComputeInstance
  pub instances_delete : String → String → String → Exec C ComputeOperation
  pub zone_operations_wait : String → String → String → Exec C ComputeOperation
  pub new_uuid : Exec C String
  pub url_parse : String → Result String

-- A Compute error becomes an `AppError` with its message and code; others stay as they are.
unfoldable pub to_app_error : GoError → GoError
to_app_error (google msg code) = app_caused msg code (google msg code)
to_app_error (plain msg) = plain msg
to_app_error (wrap msg e) = wrap msg e
to_app_error (api_call code msg details) = api_call code msg details
to_app_error (app msg code) = app msg code
to_app_error (app_caused msg code e) = app_caused msg code e

abbrev pub converted_result : {A : Type 0} → Result A → Result A
converted_result (ok a) = ok a
converted_result (err e) = err (to_app_error e)
converted_result (panic p) = panic p

-- `if err != nil { return nil, toAppError(err) }`
abbrev pub converted : {C A : Type 0} → Exec C A → Exec C A
converted m c = let (r, c') = m c in (converted_result r, c')
