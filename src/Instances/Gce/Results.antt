-- ===== src/Instances/Gce/Results.antt =====
-- pkg/app/instances/gce.go: what the manager makes of the Compute library's answers.
use cloud_android_orchestrat.Prelude.{
  ℕ, String, Bool, true, false, ◌&&◌, not, Option, none, some, List, [], ◌∷◌, ◌<>◌, str_eq,
  if◌then◌else◌,
}
use cloud_android_orchestrat.Errors.{plain, app_caused, new_internal_error, new_not_found_error}
use cloud_android_orchestrat.Exec.{Exec, Result, ok, err, pure, raise, lift, ◌>>=◌}
use cloud_android_orchestrat.Text.{path_base}
use cloud_android_orchestrat.Instances.Defs.{HostInstance, OpResult, empty, created}
use cloud_android_orchestrat.Instances.TargetLink.{find_submatch}
use cloud_android_orchestrat.Instances.Gce.Defs.{ComputeInstance, ComputeOperation, ComputeApi}

abbrev pub operation_status_done : String
operation_status_done = "DONE"

abbrev host_of : ComputeInstance → List ℕ → Result HostInstance
host_of ins [] = err (new_internal_error "invalid host instance: has 0 disks" none)
host_of ins (size ∷ _) = ok (record {
  name = ins.name;
  boot_disk_size_gb = size;
  gcp = some (record {
    machine_type = path_base ins.machine_type;
    min_cpu_platform = ins.min_cpu_platform;
  });
})

-- More than one disk is only logged.
unfoldable pub build_host_instance : ComputeInstance → Result HostInstance
build_host_instance ins = host_of ins ins.disk_sizes

abbrev is_some {ℓ} : {A : Type ℓ} → Option A → Bool
is_some none = false
is_some (some _) = true

module _ {C : Type 0} (api : ComputeApi C) where
  abbrev created_from : String → Option (List String) → Exec C HostInstance
  created_from link (some (project ∷ zone ∷ name ∷ [])) = do
    ins ← api.instances_get project zone name
    lift (build_host_instance ins)
  created_from link _ =
      raise (plain ("invalid target link for instance insert operation: " <> link))

  unfoldable pub build_create_instance_result : ComputeOperation → Exec C HostInstance
  build_create_instance_result op = created_from op.target_link (find_submatch op.target_link)

  -- `opResultGetter.Get`
  unfoldable pub op_result : ComputeOperation → Exec C OpResult
  unfolding build_create_instance_result
  op_result op =
      if not (str_eq op.status operation_status_done)
      then raise
          (new_internal_error "cannot get the result of an operation that is not done yet" none)
      else if op.has_error
      then raise (
          app_caused op.http_error_message op.http_error_status_code
            (plain ("gcp operation failed: " <> op.name)))
      else if str_eq op.operation_type "delete" && is_some (find_submatch op.target_link)
      then pure empty
      else if str_eq op.operation_type "insert" && is_some (find_submatch op.target_link)
      then (do h ← build_create_instance_result op; pure (created h))
      else raise (new_not_found_error "operation result not found" none)
