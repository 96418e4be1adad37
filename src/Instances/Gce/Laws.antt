-- ===== src/Instances/Gce/Laws.antt =====
-- What the manager asks of the Compute service, and what it makes of the answers.
use cloud_android_orchestrat.Prelude.{
  String, ◌≡◌, ◌≢◌, refl, ◌↔◌, false, Option, none, some, List, [], ◌∷◌, arith, lookup, insert,
  str_eq_iff, inl, inr, Bool-cases, Option-cases, map, if◌then◌else◌,
}
use mathlib.Core.Bool.{false≢true}
use cloud_android_orchestrat.Prelude.{sym, Bool, Map, str_eq, ◌||◌, ◌<>◌}
use cloud_android_orchestrat.Prelude.{List-cases}
use cloud_android_orchestrat.Errors.{new_bad_request_error}
use cloud_android_orchestrat.Exec.{ok, err, Result-cases}
use cloud_android_orchestrat.Accounts.{User}
use cloud_android_orchestrat.Instances.Defs.{GcpInstance, HostInstance, CreateHostRequest}
use cloud_android_orchestrat.Instances.Gce.Defs.{GceConfig, ComputeInstance, ComputeApi}
use cloud_android_orchestrat.Instances.Gce.Results.{build_host_instance}
use cloud_android_orchestrat.Instances.Gce.Hosts.{
  invalid_host, label_created_by, label_acloud_created_by, validate_request, payload_of,
  create_host, build_host_instances,
}

-- The requests that ask for a host: a machine type, and none of what the service decides.
record IsValid (r : CreateHostRequest) : Type 0 where
  pub host : HostInstance
  pub gcp : GcpInstance
  has_host : r.host_instance ≡ some host
  unnamed : host.name ≡ ""
  unsized : host.boot_disk_size_gb ≡ 0
  has_gcp : host.gcp ≡ some gcp
  pub typed : gcp.machine_type ≢ ""

invalid_host_sound :
    (o : Option HostInstance) → invalid_host o ≡ false → IsValid (record { host_instance = o })
invalid_host_sound none e = absurd (false≢true (sym e))
invalid_host_sound (some h) e = elim (Option-cases h.gcp) [
  | inl missing ↦ absurd (ground (arith, str_eq_iff h.name ""))
  | inr (g, there) ↦ record {
    host = h;
    gcp = g;
    has_host = refl;
    unnamed = ground (arith, str_eq_iff h.name "");
    unsized = ground (arith, str_eq_iff h.name "");
    has_gcp = there;
    typed = ground (arith, str_eq_iff h.name "", str_eq_iff g.machine_type "");
  }
]

-- The validation accepts a request exactly if it names a machine type, and neither a host name nor
-- a disk size.
validate_request_iff : (r : CreateHostRequest) → (validate_request r ≡ ok tt) ↔ IsValid r
unfolding validate_request
validate_request_iff r = (
  λ e. invalid_host_sound r.host_instance (ground arith),
  λ v. rw (v.has_host) (
      ground (
        arith,
        v.unnamed,
        v.unsized,
        v.has_gcp,
        str_eq_iff v.host.name "",
        str_eq_iff v.gcp.machine_type "",
      )),
)

-- The instance that is asked for carries its creator's name under the label that the listings and
-- deletions filter by, in both modes; the label and the start-up script of `acloud` are there
-- exactly in the compatible mode.
payload_of_labels :
    (config : GceConfig) (zone name user_name : String) (req : CreateHostRequest)
    → let p = payload_of config zone req name user_name in
      (lookup label_created_by p.labels ≡ some user_name)
      × (lookup label_acloud_created_by p.labels
          ≡ (if config.acloud_compatible then some user_name else none))
      × ((p.startup_script ≡ none) ↔ (config.acloud_compatible ≡ false))
unfolding payload_of lookup insert
payload_of_labels config zone name user_name req = elim (Bool-cases config.acloud_compatible) [
  | inl compatible ↦ rw compatible (refl, refl, ground arith)
  | inr plain_mode ↦ rw plain_mode (refl, refl, ground arith)
]

build_host_instance-name :
    (i : ComputeInstance) (h : HostInstance) → build_host_instance i ≡ ok h → h.name ≡ i.name
unfolding build_host_instance
build_host_instance-name i h e = elim (List-cases i.disk_sizes) [
  | inl none_there ↦ ground arith
  | inr (size, rest, there) ↦ ground arith
]

-- The hosts of a page are those that the service listed, in its order; a page with an instance
-- that has no disk fails as a whole.
build_host_instances_names :
    (is : List ComputeInstance) (hs : List HostInstance)
    → build_host_instances is ≡ ok hs
    → map (λ (h : HostInstance). h.name) hs ≡ map (λ (i : ComputeInstance). i.name) is
unfolding build_host_instances
build_host_instances_names [] hs e = ground arith
build_host_instances_names (i ∷ is) hs e = elim (Result-cases (build_host_instance i)) [
  | inl (h, one) ↦ elim (Result-cases (build_host_instances is)) [
    | inl (hs', rest) ↦
        let ih = build_host_instances_names is hs' rest in
        let e' : hs ≡ h ∷ hs' = ground arith in cc (e', ih, build_host_instance-name i h one)
    | inr (inl (x, rest)) ↦ ground arith
    | inr (inr (x, rest)) ↦ ground arith
  ]
  | inr (inl (x, one)) ↦ ground arith
  | inr (inr (x, one)) ↦ ground arith
]

unfoldable pub has_space : String → Bool
has_space String.[] = false
has_space (String.◌∷◌ c s) = str_eq (String.◌∷◌ c "") " " || has_space s

-- The label of that key contains the text.
unfoldable pub Carries : String → String → Map String → Type 0
Carries key text labels =
    (label : String) × (before : String) × (after : String) × (lookup key labels ≡ some label)
    × (label ≡ before <> text <> after)

module _ {C : Type 0} (config : GceConfig) (api : ComputeApi C) where
  -- An invalid request is answered with 400, and the service is not asked for anything.
  create_host_invalid :
      (zone : String) (req : CreateHostRequest) (user : User) (c : C)
      → ¬ IsValid req
      → create_host config api zone req user c
        ≡ (err (new_bad_request_error "invalid CreateHostRequest" none), c)
  unfolding create_host validate_request
  create_host_invalid zone req user c h = elim (Bool-cases (invalid_host req.host_instance)) [
    | inl invalid ↦ rw invalid refl
    | inr valid ↦ absurd (h (invalid_host_sound req.host_instance valid))
  ]
