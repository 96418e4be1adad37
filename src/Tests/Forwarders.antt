-- ===== src/Tests/Forwarders.antt =====
-- A forwarder that is connected and then stopped.
use cloud_android_orchestrat.Prelude.{false, refl, true, ◌≡◌, ◌≤◌}
use cloud_android_orchestrat.Cli.Forwarder.{
  Forwarder, Reachable, accepting, accepts, after, begin, closed_conn, compare_and_swap_state,
  connected, data_channel, new_forwarder, on_open, open_conn, opens, ready, received, receiving,
  set_connection, start_loop, starting, starts, stop_forwarding, stopped, stops, take_connection,
  takes, failed, closes,
}
use cloud_android_orchestrat.Cli.Forwarder.Reachability.{
  is_final, is_open, more, none_more, Reachable-safe, Steps-final,
}

abbrev attached : Forwarder
attached = record new_forwarder { has_dc = true }

abbrev opened : Forwarder
opened = record attached { state = ready; loop = starting; loops = 1; pending_ready = 1 }

abbrev in_accept : Forwarder
in_accept = record opened { loop = accepting }

abbrev has_connection : Forwarder
has_connection = record opened { loop = received }

abbrev linked : Forwarder
linked = record opened { state = connected; loop = receiving; conn = open_conn }

abbrev stopped_forwarder : Forwarder
stopped_forwarder = record linked { state = stopped; listener_open = false; conn = closed_conn }

stopped-Reachable : Reachable stopped_forwarder
unfolding on_open start_loop take_connection stop_forwarding compare_and_swap_state set_connection
stopped-Reachable =
    let a : Reachable attached = after begin (data_channel refl) in
    let b : Reachable opened = after a (opens refl) in
    let c : Reachable in_accept = after b (starts refl) in
    let d : Reachable has_connection = after c (accepts refl) in
    let e : Reachable linked = after d (takes refl) in after e (stops refl)

Reachable-safe_example :
    (true ≡ true → (false ≡ false) × (false ≡ false))
    × (false ≡ true → stopped ≡ connected)
    × (1 ≤ 1)
    × (0 ≤ 1)
unfolding is_open
Reachable-safe_example = Reachable-safe stopped_forwarder stopped-Reachable

Steps-final_example :
    is_final (record stopped_forwarder { state = failed; pending_ready = 2 }).state ≡ true
unfolding stop_forwarding
Steps-final_example =
    Steps-final stopped_forwarder (record stopped_forwarder { state = failed; pending_ready = 2 })
      refl (more none_more (closes refl refl))
