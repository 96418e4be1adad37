-- ===== src/Cli/Commands/Outcomes.antt =====
-- What the connecting of devices comes to.
use cloud_android_orchestrat.Cli.Commands.{connect_device, returned}
use cloud_android_orchestrat.Exec.{continue}
use cloud_android_orchestrat.Cli.Args.{ConnectFlags, CvdRemoteFlags}
use cloud_android_orchestrat.Cli.Commands.Creating.{connect_each}
use cloud_android_orchestrat.Cli.Selection.{filter_slice}
use cloud_android_orchestrat.Cli.Console.{with_state, Console}
use cloud_android_orchestrat.Cli.Commands.Connecting.{
  devices_to_connect, is_unconnected, run_connect_command, select_list, confirmed,
}
use cloud_android_orchestrat.Errors.{wrap, GoError}
use cloud_android_orchestrat.Cli.Commands.{service_builder, verify_ice_config_flag, CommandEnv}
use cloud_android_orchestrat.Cli.Service.{Service}
use cloud_android_orchestrat.Cli.Listings.{list_host_cvds, list_host_cvds_inner}
use cloud_android_orchestrat.Cli.Locators.{ConnStatus, RemoteCvdLocator, RemoteCvd}
use cloud_android_orchestrat.Prelude.{
  ap, ◌<>◌, All, Bool, false, map, none, refl, some, str_eq, true, ◌∷◌, List, String, [], arith,
  inl, inr, ◌≡◌, ◌≢◌,
}
use cloud_android_orchestrat.Cli.Connections.{
  list_cvd_connections, list_cvd_connections_by_host, of_host,
}
use cloud_android_orchestrat.Exec.{Exec, pure, ◌>>=◌, ◌>>◌, Result, Result-cases, err, ok, panic}

module _ {W C : Type 0} (env : CommandEnv W C) where
  -- A listing with at least one error, or a panic.
  abbrev HasErrors : Result (List RemoteCvd × List GoError) → Type 0
  HasErrors (ok (cvds, errs)) = errs ≢ []
  HasErrors (err e) = Unit
  HasErrors (panic p) = Unit

  list_host_cvds-unreadable :
      (service : Service W) (dir host : String) (w v : W) (e : GoError)
      → env.net.read_dir dir w ≡ (err e, v)
      → HasErrors (list_host_cvds service env.net env.parse_status dir host w).0
  unfolding list_host_cvds list_cvd_connections_by_host list_cvd_connections of_host
  list_host_cvds-unreadable service dir host w v e unreadable =
      elim (Result-cases (list_host_cvds_inner service env.net env.parse_status host [] v).0) [
        | inl (cvds, f) ↦ rw (unreadable, f) (λ bad. absurd (ground arith))
        | inr (inl (x, f)) ↦ rw (unreadable, f) (λ bad. absurd (ground arith))
        | inr (inr (p, f)) ↦ rw (unreadable, f) tt
      ]

  returned-nonempty :
      {A : Type 0} (errs : List GoError) (c : Console W) (m : Exec (Console W) A) (a : A)
      → errs ≢ []
      → ((returned env errs >> m) c).0 ≢ ok a
  returned-nonempty [] c m a h e = h refl
  returned-nonempty (x ∷ errs) c m a h e = absurd (ground arith)

  after_listing :
      (r : Result (List RemoteCvd × List GoError)) (c : Console W) (flags : ConnectFlags)
      (cvds : List RemoteCvdLocator)
      → HasErrors r
      → (continue r
          (λ l.
            returned env l.1
            >> (confirmed env flags.skip_confirmation (filter_slice l.0 is_unconnected) >>= λ sel.
                pure (map (λ cvd. cvd.locator) sel)))
          c).0
        ≢ ok cvds
  after_listing (err e) c flags cvds h bad = absurd (ground arith)
  after_listing (panic p) c flags cvds h bad = absurd (ground arith)
  after_listing (ok (found, errs)) c flags cvds h bad =
      let chosen = confirmed env flags.skip_confirmation (filter_slice found is_unconnected) in
      returned-nonempty errs c (chosen >>= λ sel. pure (map (λ cvd. cvd.locator) sel)) cvds h bad

  devices_to_connect-unreadable :
      (service : Service W) (flags : ConnectFlags) (c : Console W) (v : W) (e : GoError)
      (cvds : List RemoteCvdLocator)
      → str_eq flags.host "" ≡ false
      → env.net.read_dir flags.host c.world ≡ (err e, v)
      → (devices_to_connect env service flags [] c).0 ≢ ok cvds
  unfolding devices_to_connect select_list
  devices_to_connect-unreadable service flags c v e cvds given unreadable = rw given (
      after_listing
        (list_host_cvds service env.net env.parse_status flags.host env.control_dir c.world).0
        (record c {
          world =
              (list_host_cvds service env.net env.parse_status flags.host env.control_dir
                c.world).1;
        })
        flags cvds
        (list_host_cvds-unreadable service flags.host env.control_dir c.world v e unreadable))

  -- Connecting to the devices of a given host without naming one fails unless there is a directory
  -- with the host's name: the host is read as the directory of the control sockets.
  pub run_connect_command_of_host :
      (service : Service W) (flags : ConnectFlags) (c : Console W) (v : W) (e : GoError)
      → str_eq flags.host "" ≡ false
      → str_eq flags.ice_config "" ≡ true
      → service_builder env flags.root ≡ ok service
      → env.net.read_dir flags.host c.world ≡ (err e, v)
      → (run_connect_command env flags [] c).0 ≢ ok tt
  unfolding run_connect_command verify_ice_config_flag
  run_connect_command_of_host service flags c v e given no_ice built unreadable =
      elim (Result-cases (devices_to_connect env service flags [] c).0) [
        | inl (cvds, f) ↦
            absurd (devices_to_connect-unreadable service flags c v e cvds given unreadable f)
        | inr (inl (x, f)) ↦ rw (no_ice, built, f) (λ bad. absurd (ground arith))
        | inr (inr (p, f)) ↦ rw (no_ice, built, f) (λ bad. absurd (ground arith))
      ]

module _ {W C : Type 0} (env : CommandEnv W C) (visuals_on : Bool) where
  abbrev is_connected : RemoteCvd → Bool
  is_connected cvd = elim cvd.conn_status [ none ↦ false | some s ↦ true ]

  -- What is said of the loop's result: the devices in their order, each with the state of its
  -- connection unless there are errors; and never an error instead.
  IsLinked : List RemoteCvd → Result (List RemoteCvd × List GoError) → Type 0
  IsLinked cvds (ok (found, errs)) =
      (map (λ cvd. cvd.locator) found ≡ map (λ cvd. cvd.locator) cvds)
      × (errs ≡ [] → All (λ cvd. is_connected cvd ≡ true) found)
  IsLinked cvds (err e) = ⊥
  IsLinked cvds (panic p) = Unit

  abbrev one_connected :
      CvdRemoteFlags → String → RemoteCvd → Console W → Result ConnStatus × Console W
  one_connected root host cvd c =
      with_state visuals_on ("Connecting to " <> cvd.locator.name)
        (connect_device env root host cvd.locator.name "") c

  link_one :
      (cvd : RemoteCvd) (cvds : List RemoteCvd) (s : ConnStatus)
      (r : Result (List RemoteCvd × List GoError)) (c : Console W)
      → IsLinked cvds r
      → IsLinked
          (cvd ∷ cvds)
          (continue r
            (λ rest. pure {S = Console W} (record cvd { conn_status = some s } ∷ rest.0, rest.1))
            c).0
  unfolding IsLinked
  link_one cvd cvds s (ok (found, errs)) c (same, all) =
      (ap (λ ls. cvd.locator ∷ ls) same, λ e. (refl, all e))
  link_one cvd cvds s (err e) c h = h
  link_one cvd cvds s (panic p) c h = tt

  miss_one :
      (cvd : RemoteCvd) (cvds : List RemoteCvd) (x : GoError)
      (r : Result (List RemoteCvd × List GoError)) (c : Console W)
      → IsLinked cvds r
      → IsLinked
          (cvd ∷ cvds)
          (continue r
            (λ rest. pure {S = Console W} (record cvd { conn_status = none } ∷ rest.0, x ∷ rest.1))
            c).0
  unfolding IsLinked
  miss_one cvd cvds x (ok (found, errs)) c (same, all) =
      (ap (λ ls. cvd.locator ∷ ls) same, λ e. absurd (ground arith))
  miss_one cvd cvds x (err e) c h = h
  miss_one cvd cvds x (panic p) c h = tt

  IsLinked-nil : IsLinked [] (ok ([], []))
  unfolding IsLinked
  IsLinked-nil = (refl, λ e. tt)

  IsLinked-panic : (cvds : List RemoteCvd) (p : String) → IsLinked cvds (panic p)
  unfolding IsLinked
  IsLinked-panic cvds p = tt

  -- Connecting to the new devices keeps them in their order and never fails as a whole: where no
  -- error is collected every device has the state of its connection.
  connect_each_lem :
      (root : CvdRemoteFlags) (host : String) (cvds : List RemoteCvd) (c : Console W)
      → IsLinked cvds (connect_each env visuals_on root host cvds c).0
  unfolding connect_each
  connect_each_lem root host [] c = IsLinked-nil
  connect_each_lem root host (cvd ∷ cvds) c =
      let d = (one_connected root host cvd c).1 in
      let ih = connect_each_lem root host cvds d in
      let rest = connect_each env visuals_on root host cvds d in
      elim (Result-cases (one_connected root host cvd c).0) [
        | inl (s, e) ↦ rw e (link_one cvd cvds s rest.0 rest.1 ih)
        | inr (inl (x, e)) ↦
            rw e (miss_one cvd cvds (wrap "Failed to connect to device" x) rest.0 rest.1 ih)
        | inr (inr (p, e)) ↦ rw e (IsLinked-panic (cvd ∷ cvds) p)
      ]
