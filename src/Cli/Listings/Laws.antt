-- ===== src/Cli/Listings/Laws.antt =====
-- What the listings of virtual devices give.
use cloud_android_orchestrat.Cli.Connections.Listing.{answers}
use cloud_android_orchestrat.Instances.{ListHostsResponse}
use cloud_android_orchestrat.Errors.{GoError}
use cloud_android_orchestrat.Cli.Service.{Service}
use cloud_android_orchestrat.Cli.Connections.{DirEntry, list_cvd_connections, Sockets}
use cloud_android_orchestrat.Prelude.{
  none, All, List, String, [], ap, arith, false, inl, inr, map, refl, ◌++◌, ◌∷◌, ◌≡◌,
}
use cloud_android_orchestrat.Exec.{Result, Result-cases, err, ok, panic}
use cloud_android_orchestrat.Cli.Connections.Listing.{
  failures, last_status, list_cvd_connections_lem, append-cons, append-nil, is_panic,
}
use cloud_android_orchestrat.Cli.Locators.{
  RemoteCvdLocator, status_of, Cvd, RemoteCvd, StatusCmdRes, Statuses, new_remote_cvd,
}
use cloud_android_orchestrat.Cli.Listings.{
  list_all_cvds, host_failed, list_host_cvds_inner, list_hosts_cvds, with_status,
}

module _ {W C : Type 0} (service : Service W) (net : Sockets W C)
    (parse_status : String → Result StatusCmdRes) where
  -- What the service answers for the hosts, one after the other.
  abbrev pub host_answers : List String → W → List (String × Result (List Cvd))
  host_answers [] w = []
  host_answers (host ∷ hosts) w =
      let (r, w') = service.list_cvds host w in (host, r) ∷ host_answers hosts w'

  -- The devices of the hosts that answered, without the states of their connections.
  abbrev pub devices : List (String × Result (List Cvd)) → List RemoteCvd
  devices [] = []
  devices ((host, ok cvds) ∷ rest) = map (new_remote_cvd service.root_uri host) cvds ++ devices rest
  devices ((host, err e) ∷ rest) = devices rest
  devices ((host, panic p) ∷ rest) = devices rest

  -- An error for each host that did not.
  abbrev pub host_failures : List (String × Result (List Cvd)) → List GoError
  host_failures [] = []
  host_failures ((host, ok cvds) ∷ rest) = host_failures rest
  host_failures ((host, err e) ∷ rest) = host_failed host ∷ host_failures rest
  host_failures ((host, panic p) ∷ rest) = host_failures rest

  map-with_status :
      (host : String) (statuses : Statuses) (cvds : List Cvd) (more : List RemoteCvd)
      → map (λ cvd. with_status statuses (new_remote_cvd service.root_uri host cvd)) cvds
          ++ map (with_status statuses) more
        ≡ map (with_status statuses) (map (new_remote_cvd service.root_uri host) cvds ++ more)
  map-with_status host statuses [] more = refl
  map-with_status host statuses (cvd ∷ cvds) more =
      ap (λ rest. with_status statuses (new_remote_cvd service.root_uri host cvd) ∷ rest)
        (map-with_status host statuses cvds more)

  list_hosts_cvds_lem :
      (statuses : Statuses) (hosts : List String) (merr : List GoError) (w : W)
      → All (λ a. is_panic a.1 ≡ false) (host_answers hosts w)
      → (list_hosts_cvds service net parse_status statuses hosts merr w).0
        ≡ ok (
          map (with_status statuses) (devices (host_answers hosts w)),
          merr ++ host_failures (host_answers hosts w),
        )
  unfolding list_hosts_cvds list_host_cvds_inner
  list_hosts_cvds_lem statuses [] merr w calm = rw (append-nil merr) refl
  list_hosts_cvds_lem statuses (host ∷ hosts) merr w calm =
      elim (Result-cases (service.list_cvds host w).0) [
        | inl (cvds, e) ↦
            let ih = list_hosts_cvds_lem statuses hosts merr (service.list_cvds host w).1 calm.1 in
            rw (e, ih)
              (ap
                (λ all.
                  ok (all, merr ++ host_failures (host_answers hosts (service.list_cvds host w).1)))
                (map-with_status host statuses cvds
                  (devices (host_answers hosts (service.list_cvds host w).1))))
        | inr (inl (x, e)) ↦
            let ih =
              list_hosts_cvds_lem statuses hosts (merr ++ host_failed host ∷ [])
                (service.list_cvds host w).1 calm.1 in
            rw (e, ih)
              (ap
                (λ errs. ok (
                  map (with_status statuses)
                      (devices (host_answers hosts (service.list_cvds host w).1)),
                  errs,
                ))
                (append-cons merr (host_failed host)
                  (host_failures (host_answers hosts (service.list_cvds host w).1))))
        | inr (inr (p, e)) ↦ let bad = rw e at (calm.0) in absurd (ground arith)
      ]

  -- A device, with the state of its connection as the last agent that names it answered it.
  abbrev pub with_last : List (Result StatusCmdRes) → RemoteCvd → RemoteCvd
  with_last agents cvd = record cvd { conn_status = last_status cvd.locator agents none }

  map-with_last :
      (found : Statuses) (agents : List (Result StatusCmdRes)) (cvds : List RemoteCvd)
      → ((cvd : RemoteCvdLocator) → status_of cvd found ≡ last_status cvd agents none)
      → map (with_status found) cvds ≡ map (with_last agents) cvds
  map-with_last found agents [] h = refl
  map-with_last found agents (cvd ∷ cvds) h =
      rw (h cvd.locator, map-with_last found agents cvds h) refl

  -- Where the hosts can be listed, the control directory can be read, and nothing panics, a listing
  -- of all devices gives those of every host that answers, in the hosts' order, each with the state
  -- that the last agent naming it answered, or none. The errors are those of the agents that could
  -- not be asked and then one for each host that did not answer, which does not say why.
  pub list_all_cvds_lem :
      (control_dir : String) (hosts : ListHostsResponse) (entries : List DirEntry) (u v w : W)
      → service.list_hosts u ≡ (ok hosts, v)
      → net.read_dir control_dir v ≡ (ok entries, w)
      → All (λ r. is_panic r ≡ false) (answers net parse_status control_dir entries w)
      → let after_agents = (list_cvd_connections net parse_status control_dir v).1 in
        let hosts_said = host_answers (map (λ h. h.name) hosts.items) after_agents in
        let agents_said = answers net parse_status control_dir entries w in
        All (λ a. is_panic a.1 ≡ false) hosts_said
        → (list_all_cvds service net parse_status control_dir u).0
          ≡ ok (
            map (with_last agents_said) (devices hosts_said),
            failures agents_said ++ host_failures hosts_said,
          )
  unfolding list_all_cvds
  list_all_cvds_lem control_dir hosts entries u v w listed readable calm hosts_calm =
      let agents_said = answers net parse_status control_dir entries w in
      let after_agents = (list_cvd_connections net parse_status control_dir v).1 in
      let names = map (λ h. h.name) hosts.items in
      let (found, e, last) =
        list_cvd_connections_lem net parse_status control_dir entries v w readable calm in
      let all = list_hosts_cvds_lem found names (failures agents_said) after_agents hosts_calm in
      rw
        (
          listed,
          e,
          ← map-with_last found agents_said (devices (host_answers names after_agents)) last,
        )
        all
