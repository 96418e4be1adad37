-- ===== src/Instances/Defs.antt =====
-- api/v1/instancemanager.go and pkg/app/instances/instances.go: the messages and the interface.
use cloud_android_orchestrat.Prelude.{ℕ, String, Bool, Option, List}
use cloud_android_orchestrat.Exec.{Exec}
use cloud_android_orchestrat.Accounts.{User}

pub record GcpInstance : Type 0 where
  pub machine_type : String
  pub min_cpu_platform : String

pub record HostInstance : Type 0 where
  pub name : String
  pub boot_disk_size_gb : ℕ
  pub gcp : Option GcpInstance

pub record CreateHostRequest : Type 0 where
  pub host_instance : Option HostInstance

pub record Operation : Type 0 where
  pub name : String
  pub done : Bool

-- What `WaitOperation` returns as `any`: `struct{}{}` or a host instance.
pub data OpResult : Type 0 where
  empty : OpResult
  created : HostInstance → OpResult

-- `MaxResults` is a `uint32`.
pub record ListHostsRequest : Type 0 where
  pub max_results : ℕ
  pub page_token : String

pub record ListHostsResponse : Type 0 where
  pub items : List HostInstance
  pub next_page_token : String

-- The connector to a host: its address, and whether its certificate may be self-signed.
pub record NetHostClient : Type 0 where
  pub url : String
  pub insecure_skip_verify : Bool

-- `instances.Manager`, over an unknown state of the cloud.
pub record InstanceManager (C : Type 0) : Type 0 where
  pub list_zones : Exec C (List String)
  pub create_host : String → CreateHostRequest → User → Exec C Operation
  pub list_hosts : String → User → ListHostsRequest → Exec C ListHostsResponse
  pub delete_host : String → User → String → Exec C Operation
  pub wait_operation : String → User → String → Exec C OpResult
  pub get_host_client : String → String → Exec C NetHostClient
