-- ===== src/Tests/Agents.antt =====
-- Agents behind sockets that answer from a table, over a counter of the calls made.
use cloud_android_orchestrat.Cli.Forwarder.Reachability.{more}
use cloud_android_orchestrat.Cli.Forwarder.Reachability.{none_more}
use cloud_android_orchestrat.Cli.Forwarder.Reachability.{Steps}
use cloud_android_orchestrat.Cli.Connections.Listing.{answers}
use cloud_android_orchestrat.Cli.Selection.{take_text}
use cloud_android_orchestrat.Cli.Logs.{LogFile, maybe_clean_old_logs}
use cloud_android_orchestrat.Cli.Logs.Cleaning.{Leaves, maybe_clean_old_logs_lem}
use cloud_android_orchestrat.Cli.Forwarder.Reachability.{is_final, is_open}
use cloud_android_orchestrat.Cli.Listings.{list_all_cvds}
use cloud_android_orchestrat.Cli.Adb.Writing.{IsWriter, write_all_lem}
use cloud_android_orchestrat.Cli.Locators.{ConnStatus, Cvd, RemoteCvdLocator, StatusCmdRes}
use cloud_android_orchestrat.Cli.Service.{Service}
use cloud_android_orchestrat.Cli.Agent.Commands.{after_stop, run_stops}
use cloud_android_orchestrat.Errors.{GoError, plain, wrap}
use cloud_android_orchestrat.Cli.Listings.Laws.{
  devices, host_answers, host_failures, list_all_cvds_lem, with_last,
}
use cloud_android_orchestrat.Cli.Connections.{
  DirEntry, Sockets, ask_agent, list_cvd_connections, send_status_cmd,
}
use cloud_android_orchestrat.Cli.Agent.{
  Agent, Setup, create_logger, find_or_connect, new_conn_controller, run,
}
use cloud_android_orchestrat.Cli.Connections.Listing.{failures}
use cloud_android_orchestrat.Cli.Agent.Starting.{
  SetupLaws, find_or_connect_found, new_conn_controller_refused,
}
use cloud_android_orchestrat.Instances.{ListHostsResponse}
use cloud_android_orchestrat.Cli.Forwarder.{
  Forwarder, data_channel, new_forwarder, same_state, stopped,
}
use cloud_android_orchestrat.Cli.Adb.{write_all}
use cloud_android_orchestrat.Exec.{Exec, Result, err, ok, panic, pure, raise}
use cloud_android_orchestrat.Prelude.{
  ◌<◌, Bool-cases, List, String, [], ap, arith, false, if◌then◌else◌, inl, inr, length, map, none,
  refl, some, str_eq, suc, true, ℕ, ◌++◌, ◌+◌, ◌<>◌, ◌∷◌, ◌≡◌, ◌≢◌,
}

abbrev pub phone : RemoteCvdLocator
phone = record { service_root_endpoint = "https://orchestrator/v1"; host = "cf-1"; name = "cvd-1" }

abbrev pub phone_status : ConnStatus
phone_status = record { adb = record { port = 6520; state = "ready" } }

-- Every agent answers with the status of the phone; "9.sock" cannot be reached.
abbrev pub test_sockets : Sockets ℕ String
test_sockets = record {
  mkdir_all = λ dir n. (ok tt, suc n);
  read_dir = λ dir n. (
    ok (
        record { name = "logs"; is_socket = false }
        ∷ record { name = "9.sock"; is_socket = true }
        ∷ record { name = "6520.sock"; is_socket = true }
        ∷ []),
    n,
  );
  dial = λ path n.
      if str_eq path "/run/9.sock" then (err (plain "refused"), suc n) else (ok path, suc n);
  write = λ conn text n. (ok tt, suc n);
  read = λ conn limit n. (ok "stop", suc n);
  close = λ conn n. (ok tt, suc n);
}

abbrev pub parse_phone : String → Result StatusCmdRes
parse_phone text = ok (record { cvd = phone; status = phone_status })

abbrev entries : List DirEntry
entries =
    record { name = "logs"; is_socket = false }
    ∷ record { name = "9.sock"; is_socket = true }
    ∷ record { name = "6520.sock"; is_socket = true }
    ∷ []

-- The calls that set a forwarder up attach it, and opening the data channel is left to callbacks.
abbrev attach : Forwarder → Forwarder
attach f = if f.has_dc then f else record f { has_dc = true }

abbrev test_setup : Setup ℕ
test_setup = record {
  now = λ n. 1700000000;
  open_log_file = λ path n. (ok tt, suc n);
  listen_tcp = λ addr n. (ok 6521, suc n);
  listen_unix = λ path n. (err (plain "address already in use"), suc n);
  connect_web_rtc = λ host name s. (ok tt, (s.0, attach s.1));
  await_ready = λ s. (s.0, attach s.1);
  close_web_rtc = λ s. s;
}

attach-Steps : (f : Forwarder) → Steps f (attach f)
attach-Steps f = elim (Bool-cases f.has_dc) [
  | inl attached ↦ rw attached none_more
  | inr bare ↦ rw bare (more none_more (data_channel refl))
]

attach-has_dc : (f : Forwarder) → (attach f).has_dc ≡ true
attach-has_dc f = ground arith

test_setup_laws : SetupLaws test_setup
test_setup_laws = record {
  connects = λ host name w f. attach-Steps f;
  awaits = λ w f. attach-Steps f;
  closes_conn = λ w f. none_more;
  is_attached = λ w f. attach-has_dc f;
}

abbrev new_agent : Agent ℕ
new_agent = record { world = 0; forwarder = none; control_open = false }

abbrev attached_forwarder : Forwarder
attached_forwarder = record new_forwarder { has_dc = true }

new_conn_controller_refused_example :
    (g : Forwarder) × ((new_conn_controller test_setup "/run" phone new_agent).0
      ≡ err (
          wrap "Control socket creation failed for \"cvd-1\""
            (wrap "Failed to create control socket" (plain "address already in use"))))
    × ((new_conn_controller test_setup "/run" phone new_agent).1.forwarder ≡ some g)
    × ((new_conn_controller test_setup "/run" phone new_agent).1.control_open ≡ false)
    × (is_final g.state ≡ true)
    × (g.listener_open ≡ false)
    × (is_open g.conn ≡ false)
unfolding create_logger
new_conn_controller_refused_example =
    new_conn_controller_refused test_setup test_setup_laws "/run" phone new_agent 1 2 2 3 6521
      attached_forwarder (plain "address already in use") refl refl refl refl refl

abbrev serving_agent : Agent ℕ
serving_agent = record { world = 0; forwarder = some attached_forwarder; control_open = true }

abbrev any_status : StatusCmdRes → Result String
any_status res = ok "{}"

run_stops_example :
    (g : Forwarder) × (same_state g.state stopped ≡ true)
    × (run test_sockets any_status
          (record { cvd = phone; port = 6521 })
          (some "c" ∷ some "d" ∷ [])
          serving_agent
        ≡ (ok tt, after_stop test_sockets any_status g 2))
run_stops_example =
    run_stops test_sockets any_status (record { cvd = phone; port = 6521 }) "c" (some "d" ∷ [])
      serving_agent attached_forwarder 1 refl refl refl refl (λ p e. absurd (ground arith))

find_or_connect_found_example :
    ((find_or_connect test_sockets parse_phone test_setup "/run" phone new_agent).0
      ≡ ok (record {
        status = phone_status;
        controller = none;
        errors = failures (answers test_sockets parse_phone "/run" entries 0);
      }))
    × ((find_or_connect test_sockets parse_phone test_setup "/run" phone new_agent).1.forwarder
        ≡ none)
    × ((find_or_connect test_sockets parse_phone test_setup "/run" phone new_agent).1.control_open
        ≡ false)
unfolding ask_agent send_status_cmd
find_or_connect_found_example =
    find_or_connect_found test_sockets parse_phone test_setup "/run" phone entries new_agent 0
      phone_status refl (refl, (refl, tt)) refl

-- A service with one host, which has one device.
abbrev pub test_service : Service ℕ
test_service = record {
  root_uri = "https://orchestrator/v1";
  create_host = λ req. raise (plain "quota");
  list_hosts = pure (record {
    items = record { name = "cf-1"; boot_disk_size_gb = 10; gcp = none } ∷ [];
    next_page_token = "";
  });
  delete_hosts = λ names. pure [];
  list_cvds = λ host. pure (record { name = "cvd-1"; status = "Running"; displays = [] } ∷ []);
  fetch_artifacts = λ host build. pure build;
  create_cvd = λ host req. pure [];
  create_upload = λ host. pure "dir";
  upload_files = λ host dir names. pure tt;
  download_runtime_artifacts = λ host. pure tt;
}

abbrev one_host : ListHostsResponse
one_host = record {
  items = record { name = "cf-1"; boot_disk_size_gb = 10; gcp = none } ∷ [];
  next_page_token = "";
}

abbrev agents_said : List (Result StatusCmdRes)
agents_said = answers test_sockets parse_phone "/run" entries 0

abbrev hosts_said : List (String × Result (List Cvd))
hosts_said =
    host_answers test_service test_sockets parse_phone ("cf-1" ∷ [])
      (list_cvd_connections test_sockets parse_phone "/run" 0).1

list_all_cvds_lem_example :
    (list_all_cvds test_service test_sockets parse_phone "/run" 0).0
    ≡ ok (
      map
          (with_last test_service test_sockets parse_phone agents_said)
          (devices test_service test_sockets parse_phone hosts_said),
      failures agents_said ++ host_failures test_service test_sockets parse_phone hosts_said,
    )
unfolding ask_agent send_status_cmd
list_all_cvds_lem_example =
    list_all_cvds_lem test_service test_sockets parse_phone "/run" one_host entries 0 0 0 refl refl
      (refl, (refl, tt)) (refl, tt)

-- A connection that takes one character at a time, and what it has received.
abbrev one_by_one : String → Exec String ℕ
one_by_one s got = (ok 1, got <> take_text 1 s)

one_by_one-IsWriter : IsWriter one_by_one (λ got. got)
one_by_one-IsWriter = record {
  writes = λ s w n h e. (ground arith, ap (λ k. w <> take_text k s) (ground arith));
  returns = λ s w p e. absurd (ground arith);
}

write_all_lem_example :
    ((p : String) → (write_all one_by_one 3 "ab" "").0 ≢ panic p)
    × ((write_all one_by_one 3 "ab" "").0 ≡ ok tt → (write_all one_by_one 3 "ab" "").1 ≡ "" <> "ab")
write_all_lem_example =
    write_all_lem one_by_one (λ got. got) one_by_one-IsWriter 3 "ab" "" (omega arith)

-- One file to delete, one that was changed too late, and one that is no log.
abbrev three_files : List LogFile
three_files =
    record { name = "a.log"; mod_time = ok 5; removal = none }
    ∷ record { name = "b.log"; mod_time = ok 15; removal = none }
    ∷ record { name = "a.txt"; mod_time = ok 5; removal = none }
    ∷ []

abbrev inactive : ℕ
inactive = 10

maybe_clean_old_logs_lem_example :
    (count : ℕ) × (errors : List GoError) × ((maybe_clean_old_logs inactive 20 none three_files).0
      ≡ ok (count, errors))
    × (inactive ≡ 0 → (maybe_clean_old_logs inactive 20 none three_files).1 ≡ three_files)
    × (0 < inactive
        → Leaves 20 inactive three_files (maybe_clean_old_logs inactive 20 none three_files).1)
    × (count + length (maybe_clean_old_logs inactive 20 none three_files).1 ≡ length three_files)
maybe_clean_old_logs_lem_example = maybe_clean_old_logs_lem inactive 20 three_files
