-- ===== src/Cli/Service.antt =====
-- pkg/client/client.go: the interface `Service` that the command line uses, and that the client
-- fills. A build is named by its branch, its id and its target.
use cloud_android_orchestrat.Client.Requests.{ServiceImpl}
use cloud_android_orchestrat.Errors.{GoError}
use cloud_android_orchestrat.Instances.{CreateHostRequest, HostInstance, ListHostsResponse}
use cloud_android_orchestrat.Cli.Locators.{Cvd}
use cloud_android_orchestrat.Client.Service.{Readers}
use cloud_android_orchestrat.Prelude.{List, Option, String, ℕ}
use cloud_android_orchestrat.Exec.{Exec, Result}
use cloud_android_orchestrat.Client.Service as Client

-- `hoapi.AndroidCIBuild`
pub record AndroidCiBuild : Type 0 where
  pub branch : String
  pub build_id : String
  pub target : String

-- `hoapi.BuildSource`: a directory of uploaded artifacts, or the builds of Android CI
pub data BuildSource : Type 0 where
  user_build_source : String → BuildSource
  android_ci_build_source :
      AndroidCiBuild
      → Option AndroidCiBuild
      → Option AndroidCiBuild
      → Option AndroidCiBuild
      → BuildSource

-- `hoapi.CreateCVDRequest`; the configuration of an environment is its JSON text
pub record CreateCvdRequest : Type 0 where
  pub build_source : Option BuildSource
  pub env_config : Option String
  pub additional_instances_num : ℕ

-- `client.Service`, over a state of the network
pub record Service (W : Type 0) : Type 0 where
  pub root_uri : String
  pub create_host : CreateHostRequest → Exec W HostInstance
  pub list_hosts : Exec W ListHostsResponse
  pub delete_hosts : List String → Exec W (List GoError)
  pub list_cvds : String → Exec W (List Cvd)
  pub fetch_artifacts : String → AndroidCiBuild → Exec W AndroidCiBuild
  pub create_cvd : String → CreateCvdRequest → Exec W (List Cvd)
  pub create_upload : String → Exec W String
  pub upload_files : String → String → List String → Exec W (Unit {0})
  pub download_runtime_artifacts : String → Exec W (Unit {0})

-- The JSON of the messages to the service and of its replies.
pub record Messages : Type 0 where
  create_host_request : CreateHostRequest → Result String
  fetch_request : AndroidCiBuild → Result String
  create_cvd_request : CreateCvdRequest → Result String
  fetched_build : String → Result AndroidCiBuild
  created_cvds : String → Result (List Cvd)
  listed_cvds : String → Result (List Cvd)

-- The methods of `serviceImpl`; those that read or write local files are parameters.
unfoldable service_of :
    {W : Type 0}
    → ServiceImpl W
    → Readers
    → Messages
    → (String → String → List String → Exec W (Unit {0}))
    → (String → Exec W (Unit {0}))
    → Service W
service_of c json messages uploading download = record {
  root_uri = Client.root_uri c json;
  create_host = λ req. Client.create_host c json (messages.create_host_request req);
  list_hosts = Client.list_hosts c json;
  delete_hosts = Client.delete_hosts c json;
  list_cvds = λ host. Client.list_cvds c json host messages.listed_cvds;
  fetch_artifacts = λ host build.
      Client.fetch_artifacts c json host (messages.fetch_request build) messages.fetched_build;
  create_cvd = λ host req.
      Client.create_cvd c json host (messages.create_cvd_request req) messages.created_cvds;
  create_upload = Client.create_upload c json;
  upload_files = uploading;
  download_runtime_artifacts = download;
}
