-- ===== src/Cli/Commands/Listing.antt =====
-- pkg/cli/cli.go: the command that lists virtual devices.
use cloud_android_orchestrat.Cli.Commands.{returned}
use cloud_android_orchestrat.Cli.Args.{CvdRemoteFlags}
use cloud_android_orchestrat.Cli.Commands.{CommandEnv, lines_of, service_builder}
use cloud_android_orchestrat.Cli.Console.{Console, outside, print_out, to_printable_str}
use cloud_android_orchestrat.Cli.Listings.{list_all_cvds, list_host_cvds}
use cloud_android_orchestrat.Exec.{Exec, lift, ◌>>=◌, ◌>>◌}
use cloud_android_orchestrat.Prelude.{String, if◌then◌else◌, map, str_eq}

module _ {W C : Type 0} (env : CommandEnv W C) where
  -- `runListCVDsCommand`: what could be listed is printed, beside an error.
  unfoldable run_list_cvds_command : CvdRemoteFlags → String → Exec (Console W) (Unit {0})
  run_list_cvds_command flags host = do
    service ← lift (service_builder env flags)
    l ← outside (
        if str_eq host ""
        then list_all_cvds service env.net env.parse_status env.control_dir
        else list_host_cvds service env.net env.parse_status env.control_dir host)
    print_out (lines_of (map to_printable_str l.0))
    returned env l.1
