-- ===== src/Tests/Deployment.antt =====
-- A node and a registry that live together, with a registry that keeps the node and with one that has
-- lost it.
use d_ro_cm.Base.{◌+◌, String, ◌≡◌, refl, ◌≢◌, true, List, [], ◌∷◌, none, arith, eq_iff}
use d_ro_cm.Grpc.{Status, StatusCode}
use d_ro_cm.Proto.{RegisterResponse}
use d_ro_cm.Registry.NodeTable.{NodeTable, get_node, new_table, register_node}
use d_ro_cm.Registry.NodeTable.History.{Call, apply}
use d_ro_cm.Registry.NodeTable.Invariant.{apply-IsValid, new_table-IsValid}
use d_ro_cm.Registry.Service.{new_service}
use d_ro_cm.Registry.Service.Refinement.{new_service-IsValid}
use d_ro_cm.Registry.HealthChecker.Entry.{IsAlive}
use d_ro_cm.Node.{start, new_node}
use d_ro_cm.Node.Loop.{Exit, initial}
use d_ro_cm.Deployment.{Delivery, Meeting, World, registrations, live}
use d_ro_cm.Node.Sent.{heartbeats}
use d_ro_cm.Deployment.Unknown.{live_unknown}
use d_ro_cm.Deployment.Known.{live_known}
use d_ro_cm.Tests.Node.{transport, running, restarted, info}

abbrev received : Status → RegisterResponse → RegisterResponse
received st resp = resp

abbrev late : Status
late = record { code = StatusCode.deadline_exceeded; error_message = "" }

abbrev quiet_time : Meeting
quiet_time = record {
  others = [];
  timestamp = 0;
  now = 7;
  payload = (1, 2, 3);
  roll = "9";
  heartbeat_delivery = Delivery.delivered;
  register_delivery = Delivery.delivered;
}

-- Two rounds of the checker pass; the answer is lost.
abbrev busy_time : Meeting
busy_time = record quiet_time {
  others = Call.increment ∷ Call.remove_stale 3 ∷ Call.increment ∷ Call.remove_stale 3 ∷ [];
  heartbeat_delivery = Delivery.answer_lost late;
}

abbrev days : List Meeting
days = busy_time ∷ quiet_time ∷ busy_time ∷ []

abbrev forgotten : World
forgotten = record { loop = initial running; service = restarted }

abbrev table : NodeTable
table = apply (new_table 10) (Call.register info "arm_01_7" 5)

abbrev known : World
known = record {
  loop = initial running;
  service = record { node_table = table; is_running = true };
}

named : ◌≢◌ {A = String} "arm_01" ""
named = ground (arith, eq_iff "arm_01" "")

running-named : running.node_id ≢ ""
unfolding start new_node
running-named = named

running-stub : running.registry_stub ≡ true
unfolding start new_node
running-stub = refl

forgotten-none : get_node restarted.node_table running.node_id ≡ none
unfolding new_service new_table get_node start new_node
forgotten-none = refl

known-IsAlive : IsAlive 0 (get_node table running.node_id)
unfolding new_table get_node start new_node apply register_node
known-IsAlive = omega arith

live_unknown_example :
    let (x', exit) = live transport received forgotten days in
    (exit ≡ Exit.next)
    × (get_node x'.service.node_table running.node_id ≡ none)
    × (heartbeats x'.loop.events ≡ 0 + 3)
    × (registrations x'.loop.events ≡ 0)
live_unknown_example =
    live_unknown transport received forgotten days (refl, running-stub) running-named
      ((refl, (tt, (tt, (tt, (tt, tt))))), ((tt, tt), ((refl, (tt, (tt, (tt, (tt, tt))))), tt)))
      (new_service-IsValid 10, forgotten-none)

live_known_example :
    let (x', exit) = live transport received known days in
    (exit ≡ Exit.next)
    × IsAlive 0 (get_node x'.service.node_table running.node_id)
    × (heartbeats x'.loop.events ≡ 0 + 3)
    × (registrations x'.loop.events ≡ 0)
live_known_example =
    live_known transport received 3 known days (refl, running-stub) running-named
      (
        (refl, (tt, (refl, (tt, (refl, tt)))), omega arith),
        ((tt, tt, omega arith), ((refl, (tt, (refl, (tt, (refl, tt)))), omega arith), tt)),
      )
      (
        apply-IsValid (new_table 10) (Call.register info "arm_01_7" 5) (new_table-IsValid 10),
        known-IsAlive,
      )
