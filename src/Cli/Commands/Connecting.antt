-- ===== src/Cli/Commands/Connecting.antt =====
-- pkg/cli/cli.go: the command that connects to virtual devices.
use cloud_android_orchestrat.Exec.{on_error}
use cloud_android_orchestrat.Cli.Commands.{has_args, returned}
use cloud_android_orchestrat.Cli.Locators.{ConnStatus, RemoteCvd, RemoteCvdLocator}
use cloud_android_orchestrat.Cli.Commands.Prompts.{prompt}
use cloud_android_orchestrat.Cli.Args.{ConnectFlags}
use cloud_android_orchestrat.Cli.Selection.{filter_slice}
use cloud_android_orchestrat.Errors.{GoError, plain, wrap}
use cloud_android_orchestrat.Cli.Listings.{list_all_cvds, list_host_cvds}
use cloud_android_orchestrat.Cli.Service.{Service}
use cloud_android_orchestrat.Cli.Console.{Console, connection_text, outside, print_out, spaced}
use cloud_android_orchestrat.Cli.Commands.{
  CommandEnv, connect_device, service_builder, verify_ice_config_flag,
}
use cloud_android_orchestrat.Exec.{raise_if, Exec, lift, pure, ◌>>=◌, ◌>>◌}
use cloud_android_orchestrat.Prelude.{
  Bool, List, String, [], false, if◌then◌else◌, length, ltb, map, none, not, some, str_eq, true,
  ◌&&◌, ◌++◌, ◌<>◌, ◌∷◌,
}

abbrev pub is_unconnected : RemoteCvd → Bool
is_unconnected cvd = elim cvd.conn_status [ none ↦ true | some s ↦ false ]

module _ {W C : Type 0} (env : CommandEnv W C) where
  abbrev located : Service W → String → String → RemoteCvdLocator
  located service host name = record {
    service_root_endpoint = service.root_uri;
    host = host;
    name = name;
  }

  -- Confirmation is asked for where there are several.
  unfoldable pub confirmed : Bool → List RemoteCvd → Exec (Console W) (List RemoteCvd)
  confirmed skip_confirmation cvds =
      if ltb 1 (length cvds) && not skip_confirmation
      then prompt env cvds (λ cvd. cvd.locator.host <> "/" <> cvd.locator.name) true
      else pure cvds

  -- The listing of the devices to choose from; that of one host is called with the host as the
  -- control directory and the control directory as the host.
  unfoldable pub select_list : Service W → ConnectFlags → Exec W (List RemoteCvd × List GoError)
  select_list service flags =
      if str_eq flags.host ""
      then list_all_cvds service env.net env.parse_status env.control_dir
      else list_host_cvds service env.net env.parse_status flags.host env.control_dir

  -- The devices to connect to: those of the arguments, or those that the user chooses.
  unfoldable pub devices_to_connect :
      Service W → ConnectFlags → List String → Exec (Console W) (List RemoteCvdLocator)
  devices_to_connect service flags (arg ∷ args) =
      pure (map (located service flags.host) (arg ∷ args))
  devices_to_connect service flags [] = do
    l ← outside (select_list service flags)
    returned env l.1
    sel ← confirmed flags.skip_confirmation (filter_slice l.0 is_unconnected)
    pure (map (λ cvd. cvd.locator) sel)

  abbrev connected_or_error :
      RemoteCvdLocator → Exec (Console W) ConnStatus → Exec (Console W) (List GoError)
  connected_or_error cvd m =
      on_error (m >>= λ s. print_out (connection_text cvd s) >> pure {A = List GoError} []) (λ e.
        pure {A = List GoError}
          (wrap ("Failed to connect to \"" <> cvd.name <> "\" on \"" <> cvd.host <> "\"") e ∷ []))

  -- Every device is connected to; the goroutines' calls are taken in the devices' order.
  unfoldable pub connect_all :
      ConnectFlags → List RemoteCvdLocator → Exec (Console W) (List GoError)
  connect_all flags [] = pure []
  connect_all flags (cvd ∷ cvds) = do
    first ←
        connected_or_error cvd (connect_device env flags.root cvd.host cvd.name flags.ice_config)
    rest ← connect_all flags cvds
    pure (first ++ rest)

  -- `runConnectCommand`
  unfoldable pub run_connect_command : ConnectFlags → List String → Exec (Console W) (Unit {0})
  run_connect_command flags args = do
    outside (verify_ice_config_flag env flags.ice_config)
    raise_if (has_args args && str_eq flags.host "")
        (plain ("Missing host for devices: [" <> spaced args <> "]"))
    service ← lift (service_builder env flags.root)
    cvds ← devices_to_connect service flags args
    errs ← connect_all flags cvds
    returned env errs
