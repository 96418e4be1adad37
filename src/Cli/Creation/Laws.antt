-- ===== src/Cli/Creation/Laws.antt =====
-- What is asked of the service when devices are created.
use cloud_android_orchestrat.Cli.Creation.{create_cvd}
use cloud_android_orchestrat.Cli.Locators.{Cvd, new_remote_cvd}
use cloud_android_orchestrat.Exec.{err, ok}
use cloud_android_orchestrat.Errors.{GoError, wrap}
use cloud_android_orchestrat.Cli.Service.{AndroidCiBuild, Service}
use cloud_android_orchestrat.Cli.Creation.{
  CreateCvdOpts, additional_instances_num, android_ci_request, create, create_cvd_from_local_build,
  create_with_opts, state_msg_fetch_main_bundle,
}
use cloud_android_orchestrat.Cli.Console.{Console, is_done, state_text, under_way, with_state}
use cloud_android_orchestrat.Cli.LocalBuild.{Local, local_build_files}
use cloud_android_orchestrat.Prelude.{
  All, Bool, List, String, [], arith, false, if◌then◌else◌, map, none, refl, some, suc, true, ◌<>◌,
  ◌<◌, ◌==◌, ◌^◌, ◌∷◌, ◌≡◌, ◌≤◌,
}

module _ {W : Type 0} (service : Service W) (visuals_on : Bool) (files : Local) where
  -- A creation from a local build whose environment, list of files or package is refused fails and
  -- asks nothing of the service.
  create_cvd_local_refused :
      (opts : CreateCvdOpts) (c : Console W) (e : GoError)
      → opts.local_image ≡ true
      → local_build_files files ≡ err e
      → create_cvd service visuals_on files opts c ≡ (err (wrap "Failed to create cvd" e), c)
  unfolding create_cvd create create_cvd_from_local_build
  create_cvd_local_refused opts c e locally refused = rw (locally, refused) refl

  -- A creation from Android CI whose artifacts cannot be fetched fails with that error, asks nothing
  -- more of the service, and has printed that the fetching failed.
  create_cvd_unfetched :
      (opts : CreateCvdOpts) (c : Console W) (w : W) (e : GoError)
      → opts.local_image ≡ false
      → opts.env_config ≡ none
      → service.fetch_artifacts opts.host opts.main_build c.world ≡ (err e, w)
      → create_cvd service visuals_on files opts c ≡ (
        err (wrap "Failed to create cvd" e),
        record c {
          world = w;
          err_out =
              (c.err_out <> state_text visuals_on state_msg_fetch_main_bundle under_way)
              <> state_text visuals_on state_msg_fetch_main_bundle (is_done (some e));
        },
      )
  unfolding create_cvd create create_with_opts with_state
  create_cvd_unfetched opts c w e remote plain_opts fetch = rw (remote, plain_opts, fetch) refl

  located :
      (host : String) (cvds : List Cvd)
      → All
          (λ c.
            (c.locator.host ≡ host)
            × (c.locator.service_root_endpoint ≡ service.root_uri)
            × (c.conn_status ≡ none))
          (map (new_remote_cvd service.root_uri host) cvds)
  unfolding new_remote_cvd
  located host [] = tt
  located host (cvd ∷ cvds) = ((refl, refl, refl), located host cvds)

  -- The build that each creation names: the one whose artifacts were fetched, with the other builds
  -- exactly where a flag gives one.
  create_cvd_fetched :
      (opts : CreateCvdOpts) (c : Console W) (w v : W) (main : AndroidCiBuild) (cvds : List Cvd)
      → opts.local_image ≡ false
      → opts.env_config ≡ none
      → service.fetch_artifacts opts.host opts.main_build c.world ≡ (ok main, w)
      → service.create_cvd opts.host (android_ci_request opts main) w ≡ (ok cvds, v)
      → ((create_cvd service visuals_on files opts c).0
          ≡ ok (map (new_remote_cvd service.root_uri opts.host) cvds))
        × ((create_cvd service visuals_on files opts c).1.world ≡ v)
        × All
            (λ r.
              (r.locator.host ≡ opts.host)
              × (r.locator.service_root_endpoint ≡ service.root_uri)
              × (r.conn_status ≡ none))
            (map (new_remote_cvd service.root_uri opts.host) cvds)
  unfolding create_cvd create create_with_opts with_state
  create_cvd_fetched opts c w v main cvds remote plain_opts fetch created = (
    rw (remote, plain_opts, fetch, created) refl,
    rw (remote, plain_opts, fetch, created) refl,
    located opts.host cvds,
  )

-- Below 2^32 additional instances, the devices that are asked for are as many as the option says,
-- and one where it says none.
additional_instances_num_lem :
    (o : CreateCvdOpts)
    → o.num_instances ≤ 2 ^ 32
    → (additional_instances_num o < 2 ^ 32)
      × (suc (additional_instances_num o) ≡ (if o.num_instances == 0 then 1 else o.num_instances))
unfolding additional_instances_num
additional_instances_num_lem o h = ground arith
