-- ===== src/Tests/Restored.antt =====
-- A registry that comes back empty, and the emulator, whose heartbeats it answers NOT_FOUND until the
-- thread registers again.
use Prim.Native.String.{◌++◌}
use mathlib.Core.List
use d_ro_cm.Base.{◌<◌, String, ◌≡◌, refl, ◌≢◌, true, false, List, [], ◌∷◌, length, arith, eq_iff}
use d_ro_cm.Base.Maps.{find, modify_all}
use d_ro_cm.Registry.NodeTable.{
  new_table, get_node, update_heartbeat, remove_stale_nodes, increment_all_missed_heartbeats, sweep,
}
use d_ro_cm.Registry.NodeTable.History.{Call, run, apply}
use d_ro_cm.Registry.Service.{new_service, heartbeat}
use d_ro_cm.Registry.Service.Outcomes.{IsKnown}
use d_ro_cm.Registry.Service.Refinement.{new_service-IsValid}
use d_ro_cm.Lidar.Heartbeat.{initial, turn, send, heartbeat_failed, try_register_node}
use d_ro_cm.Grpc.{Status, StatusCode}
use d_ro_cm.Deployment.{Delivery}
use d_ro_cm.Deployment.Emulator.{Meeting, World, meet, live}
use d_ro_cm.Deployment.Emulator.Vain.{Failing}
use d_ro_cm.Deployment.Emulator.Restored.{restored}

abbrev meeting : Meeting
meeting = record {
  running = true;
  others = Call.increment ∷ Call.remove_stale 3 ∷ [];
  between = Call.increment ∷ [];
  timestamp = 0;
  now = 5;
  later = 6;
  roll = "42";
  register_delivery = Delivery.delivered;
  heartbeat_delivery = Delivery.delivered;
}

-- A heartbeat that the registry does not answer within 500 ms.
abbrev overdue : Status
overdue = record { code = StatusCode.deadline_exceeded; error_message = "Deadline Exceeded" }

abbrev cut_off : Meeting
cut_off = record meeting { heartbeat_delivery = Delivery.request_lost overdue }

abbrev before : List Meeting
before = meeting ∷ cut_off ∷ meeting ∷ []

-- Two heartbeats have failed already.
abbrev empty_again : World
empty_again = record {
  thread = record (initial "lidar_01" 50052 "lidar_01_7") { consecutive_failures = 2 };
  service = new_service 10;
}

named : ◌≢◌ {A = String} "lidar_01" ""
named = ground (arith, eq_iff "lidar_01" "")

empty_again-Failing : Failing "lidar_01" 2 empty_again
unfolding new_service new_table get_node
empty_again-Failing = record {
  wants = refl;
  counted = refl;
  valid = new_service-IsValid 10;
  unknown = refl;
  runs = refl;
}

has_room :
    let t = (live "lidar_01" 50052 empty_again before).service.node_table in
    length (run t meeting.others).nodes < (run t meeting.others).max_nodes
unfolding live meet turn send try_register_node heartbeat_failed heartbeat update_heartbeat
    new_service new_table run apply remove_stale_nodes increment_all_missed_heartbeats find
    modify_all sweep
has_room = omega arith

restored_example :
    let y = live "lidar_01" 50052 empty_again (List.◌++◌ before (meeting ∷ [])) in
    (y.thread.session_id ≡ "lidar_01" ++ "_" ++ "42")
    × (y.thread.needs_reregister ≡ false)
    × (y.thread.consecutive_failures ≡ 0)
    × IsKnown y.service "lidar_01"
restored_example =
    restored "lidar_01" 50052 3 2 empty_again before meeting named (omega arith) refl
      empty_again-Failing
      (
        ((tt, (tt, tt)), (tt, tt), refl, tt),
        (((tt, (tt, tt)), (tt, tt), refl, refl), (((tt, (tt, tt)), (tt, tt), refl, tt), tt)),
      )
      ((tt, (tt, tt)), has_room, (tt, tt), omega arith, refl, refl, refl)
