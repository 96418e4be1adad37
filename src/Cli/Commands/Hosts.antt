-- ===== src/Cli/Commands/Hosts.antt =====
-- pkg/cli/cli.go: the commands for hosts, and the pulling of a host's artifacts.
use cloud_android_orchestrat.Cli.Creation.{create_host}
use cloud_android_orchestrat.Cli.Commands.{returned}
use cloud_android_orchestrat.Exec.{on_error}
use cloud_android_orchestrat.Cli.Commands.Prompts.{prompt_host_name_selection}
use cloud_android_orchestrat.Cli.Args.{CvdRemoteFlags}
use cloud_android_orchestrat.Cli.Locators.{Statuses}
use cloud_android_orchestrat.Cli.Connections.{disconnect_cvd, list_cvd_connections_by_host}
use cloud_android_orchestrat.Errors.{GoError, error_text, plain, wrap}
use cloud_android_orchestrat.Cli.Service.{Service}
use cloud_android_orchestrat.Cli.Console.{Console, outside, print_err, print_out}
use cloud_android_orchestrat.Cli.Commands.{CommandEnv, lines_of, service_builder}
use cloud_android_orchestrat.Exec.{Exec, lift, pure, raise, wrapped, ◌>>=◌, ◌>>◌}
use cloud_android_orchestrat.Prelude.{List, String, [], if◌then◌else◌, map, str_eq, ◌<>◌, ◌∷◌}

module _ {W C : Type 0} (env : CommandEnv W C) where
  -- `runCreateHostCommand`
  unfoldable run_create_host_command :
      CvdRemoteFlags → String → String → Exec (Console W) (Unit {0})
  run_create_host_command flags machine_type min_cpu_platform = do
    service ← wrapped "Failed to build service instance" (lift (service_builder env flags))
    ins ←
        wrapped "Failed to create host"
          (outside (create_host service machine_type min_cpu_platform))
    print_out (ins.name <> "\n")

  -- `runListHostCommand`
  unfoldable run_list_host_command : CvdRemoteFlags → Exec (Console W) (Unit {0})
  run_list_host_command flags = do
    service ← lift (service_builder env flags)
    hosts ← wrapped "Error listing hosts" (outside service.list_hosts)
    print_out (lines_of (map (λ h. h.name) hosts.items))

  -- The loop of `disconnectDevicesByHost`, which ends with the first error
  unfoldable disconnect_each : Statuses → Exec W (Unit {0})
  disconnect_each [] = pure tt
  disconnect_each ((cvd, status) ∷ rest) = do
    wrapped ("Errors closing connection to " <> cvd.name)
        (disconnect_cvd env.net env.parse_status env.control_dir cvd status)
    disconnect_each rest

  abbrev or_listing_failed : List GoError → Exec W (Unit {0}) → Exec W (Unit {0})
  or_listing_failed [] m = m
  or_listing_failed (e ∷ errs) m =
      raise (wrap "Errors listing connections" (plain (env.multierror_text (e ∷ errs))))

  -- `disconnectDevicesByHost`
  unfoldable disconnect_devices_by_host : String → Exec W (Unit {0})
  disconnect_devices_by_host host = do
    l ← list_cvd_connections_by_host env.net env.parse_status env.control_dir host
    or_listing_failed l.1 (disconnect_each l.0)

  -- The connections of every host are closed first; an error is printed.
  unfoldable disconnect_hosts : List String → Exec (Console W) (Unit {0})
  disconnect_hosts [] = pure tt
  disconnect_hosts (host ∷ hosts) = do
    on_error (outside (disconnect_devices_by_host host)) (λ e.
        print_err ("Error disconecting devices for host " <> host <> ": " <> error_text e <> "\n"))
    disconnect_hosts hosts

  -- `runDeleteHostsCommand`
  unfoldable run_delete_hosts_command : List String → CvdRemoteFlags → Exec (Console W) (Unit {0})
  run_delete_hosts_command args flags = do
    service ← lift (service_builder env flags)
    disconnect_hosts args
    errs ← outside (service.delete_hosts args)
    returned env errs

  abbrev pull_from : Service W → String → Exec (Console W) (Unit {0})
  pull_from service host = do
    name ← outside env.create_temp
    outside (service.download_runtime_artifacts host)
    outside env.close_temp
    print_out ("See logs: " <> name <> "\n")

  abbrev pull_chosen : Service W → String → Exec (Console W) (Unit {0})
  pull_chosen service sel = if str_eq sel "" then print_err "No hosts\n" else pull_from service sel

  abbrev pull_args : Service W → List String → Exec (Console W) (Unit {0})
  pull_args service [] = prompt_host_name_selection env service >>= pull_chosen service
  pull_args service (host ∷ []) = pull_from service host
  pull_args service (host ∷ other ∷ args) = raise (plain "Invalid number of args")

  -- `runPullCommand`
  unfoldable run_pull_command : List String → CvdRemoteFlags → Exec (Console W) (Unit {0})
  run_pull_command args flags = do
    service ← lift (service_builder env flags)
    pull_args service args
