-- ===== src/Cli/Creation.antt =====
-- pkg/cli/cvd.go and host.go: the creation of hosts and virtual devices.
pub mod Laws
use cloud_android_orchestrat.Cli.Service.{android_ci_build_source}
use cloud_android_orchestrat.Cli.LocalBuild.{Local, local_build_files}
use cloud_android_orchestrat.Cli.Locators.{Cvd, RemoteCvd, new_remote_cvd}
use cloud_android_orchestrat.Cli.Console.{Console, outside, with_state}
use cloud_android_orchestrat.Cli.Service.{
  AndroidCiBuild, CreateCvdRequest, Service, user_build_source,
}
use cloud_android_orchestrat.Instances.{HostInstance}
use cloud_android_orchestrat.Exec.{Exec, lift, pure, wrapped, ◌>>=◌, ◌>>◌}
use cloud_android_orchestrat.Prelude.{
  Bool, List, Option, String, if◌then◌else◌, map, none, some, str_eq, ℕ, ◌%◌, ◌&&◌, ◌-◌, ◌==◌, ◌^◌,
}

-- `CreateCVDOpts`; a number of instances that is not positive counts as 0
pub record CreateCvdOpts : Type 0 where
  pub host : String
  pub main_build : AndroidCiBuild
  pub kernel_build : AndroidCiBuild
  pub bootloader_build : AndroidCiBuild
  pub system_img_build : AndroidCiBuild
  pub local_image : Bool
  pub num_instances : ℕ
  pub env_config : Option String

-- `AdditionalInstancesNum`, a `uint32`
unfoldable pub additional_instances_num : CreateCvdOpts → ℕ
additional_instances_num o = if o.num_instances == 0 then 0 else (o.num_instances - 1) % 2 ^ 32

-- `nil` for a build without any value, which is the one that no flag was given for
unfoldable pub given_build : AndroidCiBuild → Option AndroidCiBuild
given_build b =
    if str_eq b.branch "" && str_eq b.build_id "" && str_eq b.target "" then none else some b

abbrev pub state_msg_fetch_main_bundle : String
state_msg_fetch_main_bundle = "Fetching main bundle artifacts"

abbrev state_msg_start_cvd : String
state_msg_start_cvd = "Starting and waiting for boot complete"

abbrev state_msg_fetch_and_start : String
state_msg_fetch_and_start = "Fetching, starting and waiting for boot complete"

-- `createHost`, with the machine type and the minimum CPU platform
unfoldable pub create_host : {W : Type 0} → Service W → String → String → Exec W HostInstance
create_host service machine_type min_cpu_platform = service.create_host (record {
  host_instance = some (record {
    name = "";
    boot_disk_size_gb = 0;
    gcp = some (record { machine_type = machine_type; min_cpu_platform = min_cpu_platform });
  });
})

-- `hostnames`
unfoldable pub hostnames : {W : Type 0} → Service W → Exec W (List String)
hostnames service = do hosts ← service.list_hosts; pure (map (λ h. h.name) hosts.items)

-- The requests of the three ways to create devices.
abbrev user_request : CreateCvdOpts → String → CreateCvdRequest
user_request opts upload_dir = record {
  build_source = some (user_build_source upload_dir);
  env_config = none;
  additional_instances_num = additional_instances_num opts;
}

abbrev pub android_ci_request : CreateCvdOpts → AndroidCiBuild → CreateCvdRequest
android_ci_request opts main = record {
  build_source = some (
      android_ci_build_source main (given_build opts.kernel_build)
        (given_build opts.bootloader_build) (given_build opts.system_img_build));
  env_config = none;
  additional_instances_num = additional_instances_num opts;
}

abbrev canonical_request : Option String → CreateCvdRequest
canonical_request env_config = record {
  build_source = none;
  env_config = env_config;
  additional_instances_num = 0;
}

module _ {W : Type 0} (service : Service W) (visuals_on : Bool) (files : Local) where
  -- `createCVDFromLocalBuild`
  unfoldable pub create_cvd_from_local_build : CreateCvdOpts → Exec (Console W) (List Cvd)
  create_cvd_from_local_build opts = do
    names ← lift (local_build_files files)
    upload_dir ← outside (service.create_upload opts.host)
    outside (service.upload_files opts.host upload_dir names)
    outside (service.create_cvd opts.host (user_request opts upload_dir))

  -- `createWithCanonicalConfig`
  unfoldable pub create_with_canonical_config : CreateCvdOpts → Exec (Console W) (List Cvd)
  create_with_canonical_config opts =
      with_state visuals_on state_msg_fetch_and_start
        (outside (service.create_cvd opts.host (canonical_request opts.env_config)))

  -- `createWithOpts`
  unfoldable pub create_with_opts : CreateCvdOpts → Exec (Console W) (List Cvd)
  create_with_opts opts = do
    main ←
        with_state visuals_on state_msg_fetch_main_bundle
          (outside (service.fetch_artifacts opts.host opts.main_build))
    with_state visuals_on state_msg_start_cvd
        (outside (service.create_cvd opts.host (android_ci_request opts main)))

  -- `Create`, with `createCVDFromAndroidCI`
  unfoldable pub create : CreateCvdOpts → Exec (Console W) (List Cvd)
  create opts =
      if opts.local_image then create_cvd_from_local_build opts else elim opts.env_config [
        | some config ↦ create_with_canonical_config opts
        | none ↦ create_with_opts opts
      ]

  -- `createCVD`
  unfoldable pub create_cvd : CreateCvdOpts → Exec (Console W) (List RemoteCvd)
  create_cvd opts = do
    cvds ← wrapped "Failed to create cvd" (create opts)
    pure (map (new_remote_cvd service.root_uri opts.host) cvds)
