-- ===== src/Client/Service.antt =====
-- pkg/client/client.go: the methods of the client's service, and the URLs it builds.
pub mod Deletion
pub mod Creation
use cloud_android_orchestrat.Prelude.{if◌then◌else◌}
use cloud_android_orchestrat.Exec.{zoom}
use cloud_android_orchestrat.Exec.{pure}
use cloud_android_orchestrat.Client.Requests.{
  ServiceImpl, do_request, do_request_with_opts, is_success, no_response,
}
use cloud_android_orchestrat.Instances.{HostInstance, ListHostsResponse, Operation}
use cloud_android_orchestrat.Errors.{GoError, api_call, wrap}
use cloud_android_orchestrat.Prelude.{List, Option, String, [], none, some, str_eq, ◌++◌, ◌<>◌, ◌∷◌}
use cloud_android_orchestrat.Exec.{Exec, Result, err, ok, panic, raise, wrapped, ◌>>=◌, ◌>>◌}

-- How the JSON of the replies is read. The messages of the host orchestrator (`hoapi`) are of
-- unknown types; of its operations and upload directories the client uses the name.
pub record Readers : Type 0 where
  pub operation : String → Result Operation
  pub host_instance : String → Result HostInstance
  pub hosts : String → Result ListHostsResponse
  pub infra_config : String → Result (List (List String))
  pub new_conn_reply : String → Result String
  pub ho_operation : String → Result String
  pub upload_directory : String → Result String

-- `headerNameCOInjectBuildAPICreds` with an empty value: only its presence matters.
abbrev inject_creds_header : List (String × String)
inject_creds_header = ("X-Cutf-Cloud-Orchestrator-Inject-BuildAPI-Creds", "") ∷ []

abbrev wait_path : String → String → String
wait_path host op = "/hosts/" <> host <> "/operations/" <> op <> "/:wait"

-- A call that another goroutine makes: its error is handed over, and a panic ends the program.
abbrev handed_over : {S A : Type 0} → Result A × S → Result (Option GoError) × S
handed_over (ok a, s) = (ok none, s)
handed_over (err e, s) = (ok (some e), s)
handed_over (panic p, s) = (panic p, s)

-- `multierror.Append` when the call has failed
abbrev pub append_error : String → Option GoError → List GoError → List GoError
append_error name none errors = errors
append_error name (some e) errors = wrap ("Delete host \"" <> name <> "\" failed") e ∷ errors

module _ {W : Type 0} (c : ServiceImpl W) (json : Readers) where
  -- `CreateHost`
  unfoldable pub create_host : Result String → Exec W HostInstance
  create_host req = do
    op ← do_request c "POST" "/hosts" (some req) json.operation
    do_request c "POST" ("/operations/" <> op.name <> "/:wait") none json.host_instance

  -- `ListHosts`
  unfoldable pub list_hosts : Exec W ListHostsResponse
  list_hosts = do_request c "GET" "/hosts" none json.hosts

  unfoldable pub delete_host : String → Exec W (Option GoError)
  delete_host name w = handed_over (do_request c "DELETE" ("/hosts/" <> name) none no_response w)

  -- `DeleteHosts`: the names in the order in which their calls return, and the errors collected.
  unfoldable pub delete_hosts : List String → Exec W (List GoError)
  delete_hosts [] = pure []
  delete_hosts (name ∷ names) = do
    failure ← delete_host name
    errors ← delete_hosts names
    pure (append_error name failure errors)

  -- `GetInfraConfig`
  unfoldable pub get_infra_config : String → Exec W (List (List String))
  get_infra_config host =
      do_request c "GET" ("/hosts/" <> host <> "/infra_config") none json.infra_config

  -- `createPolledConnection`; the argument is the JSON of the message that names the device
  unfoldable pub create_polled_connection : String → Result String → Exec W String
  create_polled_connection host msg =
      do_request c "POST" ("/hosts/" <> host <> "/polled_connections") (some msg)
        json.new_conn_reply

  -- `ConnectWebRTC` up to the WebRTC connection itself: the id of the polled connection, and the
  -- ICE servers, by their URLs, the local ones first.
  unfoldable pub connect_web_rtc :
      String → Result String → Option (List (List String)) → Exec W (String × List (List String))
  connect_web_rtc host msg local_ice = do
    conn_id ← wrapped "Failed to create polled connection" (create_polled_connection host msg)
    infra ← wrapped "Failed to obtain infra config" (get_infra_config host)
    pure (conn_id, elim local_ice [ none ↦ [] | some servers ↦ servers ] ++ infra)

  -- `FetchArtifacts`
  unfoldable pub fetch_artifacts :
      {A : Type 0} → String → Result String → (String → Result A) → Exec W A
  fetch_artifacts host req decode = do
    op ←
        do_request_with_opts c "POST" ("/hosts/" <> host <> "/artifacts") (some req)
          json.ho_operation inject_creds_header
    do_request c "POST" (wait_path host op) none decode

  -- `CreateCVD`
  unfoldable pub create_cvd : {A : Type 0} → String → Result String → (String → Result A) → Exec W A
  create_cvd host req decode = do
    op ←
        do_request_with_opts c "POST" ("/hosts/" <> host <> "/cvds") (some req) json.ho_operation
          inject_creds_header
    do_request c "POST" (wait_path host op) none decode

  -- `ListCVDs`
  unfoldable pub list_cvds : {A : Type 0} → String → (String → Result A) → Exec W A
  list_cvds host decode = do_request c "GET" ("/hosts/" <> host <> "/cvds") none decode

  -- `DownloadRuntimeArtifacts`: the request has no content type, is neither dumped nor retried, and
  -- the body is copied to the destination whatever the status is.
  unfoldable pub download_runtime_artifacts : String → Exec (W × String) (Unit {0})
  download_runtime_artifacts host = do
    res ←
        zoom (λ s. s.0) (λ s w. (w, s.1))
          (c.client.send (record {
            method = "POST";
            url = c.options.root_endpoint <> "/hosts/" <> host <> "/runtimeartifacts/:pull";
            headers = [];
            content_length = 0;
            body = "";
            get_body = "";
          }))
    (λ s. (ok tt, (s.0, s.1 <> res.body)))
    if is_success res.status_code then pure tt else raise (api_call 0 res.status "")

  -- `CreateUpload`
  unfoldable pub create_upload : String → Exec W String
  create_upload host =
      do_request c "POST" ("/hosts/" <> host <> "/userartifacts") none json.upload_directory

  -- `RootURI`
  unfoldable pub root_uri : String
  root_uri = c.options.root_endpoint

-- `BuildRootEndpoint`
unfoldable pub build_root_endpoint : String → String → String → String
build_root_endpoint service_url version zone =
    if str_eq zone ""
    then service_url <> "/" <> version
    else (service_url <> "/" <> version) <> "/zones/" <> zone

-- `BuildWebRTCStreamURL`
unfoldable pub build_web_rtc_stream_url : String → String → String → String
build_web_rtc_stream_url root_endpoint host cvd =
    root_endpoint <> "/hosts/" <> host <> "/devices/" <> cvd <> "/files/client.html"

-- `BuildCVDLogsURL`
unfoldable pub build_cvd_logs_url : String → String → String → String
build_cvd_logs_url root_endpoint host cvd =
    root_endpoint <> "/hosts/" <> host <> "/cvds/" <> cvd <> "/logs/"
