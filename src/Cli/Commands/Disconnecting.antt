-- ===== src/Cli/Commands/Disconnecting.antt =====
-- pkg/cli/cli.go: the command that closes connections.
use cloud_android_orchestrat.Exec.{then_value, on_error}
use cloud_android_orchestrat.Cli.Commands.{has_args, returned}
use cloud_android_orchestrat.Cli.Locators.{RemoteCvdLocator, Statuses}
use cloud_android_orchestrat.Cli.Selection.{filter_map}
use cloud_android_orchestrat.Cli.Args.{ConnectFlags}
use cloud_android_orchestrat.Errors.{GoError, plain}
use cloud_android_orchestrat.Cli.Console.{Console, outside, print_out, spaced}
use cloud_android_orchestrat.Cli.Connections.{
  disconnect_cvd, list_cvd_connections, list_cvd_connections_by_host,
}
use cloud_android_orchestrat.Cli.Commands.{CommandEnv}
use cloud_android_orchestrat.Cli.Commands.Prompts.{prompt_connection_selection}
use cloud_android_orchestrat.Exec.{raise_if, Exec, Result, lift, ok, pure, raise, ◌>>=◌, ◌>>◌}
use cloud_android_orchestrat.Prelude.{
  Bool, List, String, [], false, if◌then◌else◌, length, ltb, map, not, str_eq, ◌&&◌, ◌++◌, ◌<>◌,
  ◌||◌, ◌∷◌,
}

-- The keys of the map of the arguments, each once
unfoldable pub mentions : String → List String → Bool
mentions name [] = false
mentions name (arg ∷ args) = str_eq arg name || mentions name args

unfoldable pub distinct : List String → List String
distinct [] = []
distinct (arg ∷ args) = let rest = distinct args in if mentions arg args then rest else arg ∷ rest

abbrev pub not_found : String → GoError
not_found device = plain ("Connection not found for \"" <> device <> "\"\n")

module _ {W C : Type 0} (env : CommandEnv W C) where
  -- The restriction to the arguments; the filter deletes a device that it lets pass, but the first
  -- such device ends the program.
  unfoldable pub restrict : List String → Statuses × List GoError → Result (Statuses × List GoError)
  restrict [] l = ok l
  restrict (arg ∷ args) (statuses, merr) =
      then_value (filter_map statuses (λ cvd s. mentions cvd.name (arg ∷ args)))
        (λ found. ok (found, merr ++ map not_found (distinct (arg ∷ args))))

  abbrev confirmed_closing : Bool → Statuses → Exec (Console W) Statuses
  confirmed_closing skip_confirmation statuses =
      if ltb 1 (length statuses) && not skip_confirmation
      then prompt_connection_selection env statuses
      else pure statuses

  -- `multierror.Append(merr, err)` whose result is dropped: an error is kept only behind others.
  abbrev appended_in_place : GoError → List GoError → List GoError
  appended_in_place e [] = []
  appended_in_place e (first ∷ merr) = first ∷ merr ++ e ∷ []

  abbrev disconnected :
      RemoteCvdLocator
      → List GoError
      → Exec (Console W) (Unit {0})
      → Exec (Console W) (List GoError)
  disconnected cvd merr m =
      on_error
        (m
          >> print_out (cvd.host <> "/" <> cvd.name <> ": disconnected\n")
          >> pure {A = List GoError} merr)
        (λ e. pure {A = List GoError} (appended_in_place e merr))

  -- The loop over the connections
  unfoldable pub disconnect_all : Statuses → List GoError → Exec (Console W) (List GoError)
  disconnect_all [] merr = pure merr
  disconnect_all ((cvd, dev) ∷ rest) merr = do
    errs ←
        disconnected cvd merr
          (outside (disconnect_cvd env.net env.parse_status env.control_dir cvd dev))
    disconnect_all rest errs

  unfoldable pub connections : String → Exec W (Statuses × List GoError)
  connections host =
      if str_eq host ""
      then list_cvd_connections env.net env.parse_status env.control_dir
      else list_cvd_connections_by_host env.net env.parse_status env.control_dir host

  abbrev pub found_any : Statuses → Exec (Console W) (Unit {0})
  found_any [] = raise (plain "No connections found")
  found_any (s ∷ statuses) = pure tt

  -- What follows once there are connections
  unfoldable pub disconnect_listed :
      ConnectFlags → List String → Statuses × List GoError → Exec (Console W) (Unit {0})
  disconnect_listed flags args l = do
    left ← lift (restrict args l)
    statuses ← confirmed_closing flags.skip_confirmation left.0
    errs ← disconnect_all statuses left.1
    returned env errs

  -- `runDisconnectCommand`
  unfoldable pub run_disconnect_command : ConnectFlags → List String → Exec (Console W) (Unit {0})
  run_disconnect_command flags args = do
    raise_if (has_args args && str_eq flags.host "")
        (plain ("Missing host for devices: [" <> spaced args <> "]"))
    l ← outside (connections flags.host)
    found_any l.0
    disconnect_listed flags args l
