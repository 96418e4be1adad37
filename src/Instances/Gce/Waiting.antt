-- ===== src/Instances/Gce/Waiting.antt =====
-- What the result of a waited operation shows of the operation.
use cloud_android_orchestrat.Prelude.{
  ◌∙◌, String, ◌≡◌, ap, false, some, List, [], ◌∷◌, arith, str_eq, str_eq_iff, inl, inr, Bool-cases,
  Option-cases,
}
use cloud_android_orchestrat.Prelude.{◌⊎◌}
use cloud_android_orchestrat.Exec.{ok, Result-cases}
use cloud_android_orchestrat.Accounts.{User}
use cloud_android_orchestrat.Instances.Defs.{HostInstance, OpResult, empty, created}
use cloud_android_orchestrat.Instances.TargetLink.{instance_target_link, find_submatch}
use cloud_android_orchestrat.Instances.TargetLink.Laws.{Renders, find_submatch_sound}
use cloud_android_orchestrat.Instances.Gce.Defs.{
  GceConfig, ComputeInstance, ComputeOperation, ComputeApi,
}
use cloud_android_orchestrat.Instances.Gce.Results.{
  operation_status_done, build_host_instance, build_create_instance_result, op_result,
}
use cloud_android_orchestrat.Instances.Gce.Hosts.{wait_operation}

module _ {C : Type 0} (config : GceConfig) (api : ComputeApi C) where
  -- What a waited operation's result shows.
  pub record IsDone (op : ComputeOperation) : Type 0 where
    finished : op.status ≡ operation_status_done
    pub no_error : op.has_error ≡ false

  -- The host of an insertion: the instance that the link names, as it is at the end.
  pub record IsCreated (op : ComputeOperation) (res : OpResult) (d c' : C) : Type 0 where
    pub project : String
    in_zone : String
    instance_name : String
    pub instance : ComputeInstance
    pub host : HostInstance
    pub link : Renders instance_target_link op.target_link (project ∷ in_zone ∷ instance_name ∷ [])
    pub fetched : api.instances_get project in_zone instance_name d ≡ (ok instance, c')
    pub built : build_host_instance instance ≡ ok host
    pub given : res ≡ created host

  three_groups :
      (link : String) (gs : List String)
      → Renders instance_target_link link gs
      → (p : String) × (z : String) × (n : String) × (gs ≡ p ∷ z ∷ n ∷ [])
  three_groups link gs m =
      let p = m.2.4.2 in
      let z = p.6.2 in let n = z.6.2 in (p.0, z.0, n.0, cc (p.5, z.5, n.5, n.6.1))

  abbrev Outcome : ComputeOperation → OpResult → C → C → Type 0
  Outcome op res d c' =
      ((op.operation_type ≡ "delete") × (res ≡ empty))
      ⊎ ((op.operation_type ≡ "insert") × IsCreated op res d c')

  created_sound :
      (op : ComputeOperation) (p z n : String) (res : OpResult) (d c' : C)
      → find_submatch op.target_link ≡ some (p ∷ z ∷ n ∷ [])
      → (h : HostInstance) → build_create_instance_result api op d ≡ (ok h, c')
      → res ≡ created h
      → IsCreated op res d c'
  unfolding build_create_instance_result
  created_sound op p z n res d c' found h e g = elim (Result-cases (api.instances_get p z n d).0) [
    | inl (ins, got) ↦ elim (Result-cases (build_host_instance ins)) [
      | inl (h', built) ↦ record {
        project = p;
        in_zone = z;
        instance_name = n;
        instance = ins;
        host = h;
        link = find_submatch_sound op.target_link _ found;
        fetched = ground arith;
        built = ground arith;
        given = g;
      }
      | inr (inl (x, b)) ↦ absurd (ground arith)
      | inr (inr (x, b)) ↦ absurd (ground arith)
    ]
    | inr (inl (x, got)) ↦ absurd (ground arith)
    | inr (inr (x, got)) ↦ absurd (ground arith)
  ]

  op_result_sound :
      (op : ComputeOperation) (res : OpResult) (d c' : C)
      → op_result api op d ≡ (ok res, c')
      → IsDone op × Outcome op res d c'
  unfolding op_result
  op_result_sound op res d c' e = elim (Option-cases (find_submatch op.target_link)) [
    | inl missed ↦ absurd (
        ground (
          arith,
          str_eq_iff op.status "DONE",
          str_eq_iff op.operation_type "delete",
          str_eq_iff op.operation_type "insert",
        ))
    | inr (gs, found) ↦
        let (p, z, n, three) =
          three_groups op.target_link gs (find_submatch_sound op.target_link gs found) in
        let done : IsDone op = ground (arith, str_eq_iff op.status "DONE") in
        elim (Bool-cases (str_eq op.operation_type "delete")) [
          | inl deletion ↦ (
            done,
            inl (
              (str_eq_iff op.operation_type "delete").0 deletion,
              ground (arith, str_eq_iff op.status "DONE"),
            ),
          )
          | inr other ↦ elim (Result-cases (build_create_instance_result api op d).0) [
            | inl (h, made) ↦ (
              done,
              inr (
                ground (arith, str_eq_iff op.operation_type "insert"),
                created_sound op p z n res d c' (found ∙ ap some three) h (ground arith)
                    (ground arith),
              ),
            )
            | inr (inl (x, made)) ↦ absurd (ground arith)
            | inr (inr (x, made)) ↦ absurd (ground arith)
          ]
        ]
  ]

  -- A result comes only of an operation that is done and has no error. It is empty for a deletion,
  -- and for an insertion the host is built from the instance that the operation's link names.
  pub wait_operation_sound :
      (zone name : String) (user : User) (res : OpResult) (c c' : C)
      → wait_operation config api zone user name c ≡ (ok res, c')
      → (op : ComputeOperation) × (d : C) × (api.zone_operations_wait config.project_id zone name c
          ≡ (ok op, d))
        × IsDone op
        × (((op.operation_type ≡ "delete") × (res ≡ empty))
            ⊎ ((op.operation_type ≡ "insert") × IsCreated op res d c'))
  unfolding wait_operation
  wait_operation_sound zone name user res c c' e =
      elim (Result-cases (api.zone_operations_wait config.project_id zone name c).0) [
        | inl (op, waited) ↦
            let rest : op_result api op (api.zone_operations_wait config.project_id zone name c).1
                ≡ (ok res, c') =
              ground (arith) in
            let (finished, outcome) = op_result_sound op res _ c' rest in
            (
              op,
              (api.zone_operations_wait config.project_id zone name c).1,
              ground arith,
              finished,
              outcome,
            )
        | inr (inl (x, failed)) ↦ absurd (ground arith)
        | inr (inr (x, failed)) ↦ absurd (ground arith)
      ]
