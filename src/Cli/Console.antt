-- ===== src/Cli/Console.antt =====
-- pkg/cli/cli.go: what commands print, the state printer, and the texts of a device.
use cloud_android_orchestrat.Errors.{GoError}
use cloud_android_orchestrat.Client.Service.{build_cvd_logs_url, build_web_rtc_stream_url}
use cloud_android_orchestrat.Text.{itoa}
use cloud_android_orchestrat.Cli.Selection.{to_fixed_length}
use cloud_android_orchestrat.Cli.Locators.{ConnStatus, RemoteCvd, RemoteCvdLocator}
use cloud_android_orchestrat.Exec.{Exec, Result, err, ok, panic, zoom}
use cloud_android_orchestrat.Prelude.{
  Bool, List, Option, String, [], false, if◌then◌else◌, ltb, none, not, some, true, ◌<>◌, ◌||◌, ◌∷◌,
}

-- The state of a command: beside the rest of the world what was written to its output and to its
-- error stream.
pub record Console (W : Type 0) : Type 0 where
  pub world : W
  pub out : String
  pub err_out : String

module _ {W : Type 0} where
  abbrev pub outside : {A : Type 0} → Exec W A → Exec (Console W) A
  outside m = zoom (λ c. c.world) (λ c w. record c { world = w }) m

  abbrev pub print_out : String → Exec (Console W) (Unit {0})
  print_out text c = (ok tt, record c { out = c.out <> text })

  abbrev pub print_err : String → Exec (Console W) (Unit {0})
  print_err text c = (ok tt, record c { err_out = c.err_out <> text })

-- `statePrinterState`: under way, or done with an error or none
pub data Progress : Type 0 where
  under_way : Progress
  is_done : Option GoError → Progress

abbrev outcome_text : Progress → String
outcome_text under_way = ""
outcome_text (is_done none) = "OK"
outcome_text (is_done (some e)) = "Failed"

abbrev ends_line : Progress → Bool
ends_line under_way = false
ends_line (is_done e) = true

-- The text of `statePrinter.print`
unfoldable pub state_text : Bool → String → Progress → String
state_text visuals_on msg state =
    (if visuals_on then "\r\u{1b}[K" else "")
    <> to_fixed_length msg 50 "."
    <> "..."
    <> " "
    <> outcome_text state
    <> (if not visuals_on || ends_line state then "\n" else "")

module _ {W : Type 0} (visuals_on : Bool) where
  abbrev print_done : {A : Type 0} → String → Result A → Exec (Console W) A
  print_done msg (ok a) c =
      (ok a, record c { err_out = c.err_out <> state_text visuals_on msg (is_done none) })
  print_done msg (err e) c =
      (err e, record c { err_out = c.err_out <> state_text visuals_on msg (is_done (some e)) })
  print_done msg (panic p) c = (panic p, c)

  -- `Print`, the call that a state stands for, and `PrintDone` with its error; a panic ends the
  -- program before that
  unfoldable pub with_state : {A : Type 0} → String → Exec (Console W) A → Exec (Console W) A
  with_state msg m c =
      let started = record c { err_out = c.err_out <> state_text visuals_on msg under_way } in
      let (r, c') = m started in print_done msg r c'

-- `%v` of a list of texts
abbrev pub spaced : List String → String
spaced [] = ""
spaced (x ∷ []) = x
spaced (x ∷ y ∷ xs) = x <> " " <> spaced (y ∷ xs)

unfoldable pub adb_state : Option ConnStatus → String
adb_state none = "not connected"
adb_state (some s) = if ltb 0 s.adb.port then "127.0.0.1:" <> itoa s.adb.port else s.adb.state

-- `ToPrintableStr`
unfoldable pub to_printable_str : RemoteCvd → String
to_printable_str o =
    let l = o.locator in
    l.name
    <> " ("
    <> l.host
    <> ")"
    <> "\n  "
    <> "Status: "
    <> o.status
    <> "\n  "
    <> "ADB: "
    <> adb_state o.conn_status
    <> "\n  "
    <> "Displays: "
    <> "["
    <> spaced o.displays
    <> "]"
    <> "\n  "
    <> "WebRTCStream: "
    <> build_web_rtc_stream_url l.service_root_endpoint l.host l.name
    <> "\n  "
    <> "Logs: "
    <> build_cvd_logs_url l.service_root_endpoint l.host l.name

-- `printConnection`
unfoldable pub connection_text : RemoteCvdLocator → ConnStatus → String
connection_text cvd status =
    let state =
      (if ltb 0 status.adb.port then "127.0.0.1:" <> itoa status.adb.port else status.adb.state) in
    cvd.host <> "/" <> cvd.name <> ": " <> state <> "\n"
