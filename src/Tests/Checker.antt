-- ===== src/Tests/Checker.antt =====
-- The health checker's theorems at concrete rounds.
use d_ro_cm.Base.{◌+◌, String, ◌≡◌, ◌≢◌, [], ◌∷◌, arith, eq_iff, add32}
use mathlib.Core.Option
use d_ro_cm.Base.Maps.{find, contains, try_emplace, erase, modify, modify_all}
use d_ro_cm.Registry.NodeTable.{
  NodeEntry, get_node, new_table, increment_all_missed_heartbeats, get_nodes_by_service,
  fresh_entry,
}
use d_ro_cm.Registry.NodeTable.History.{register, heartbeat, run, apply}
use d_ro_cm.Registry.HealthChecker.{Round, run_loop, check}
use d_ro_cm.Registry.HealthChecker.Timeout.{increment_exact}
use d_ro_cm.Registry.HealthChecker.Discovery.{quiet, check_undiscovers}
use d_ro_cm.Tests.Table.{node}

-- The other node's heartbeat comes while the checker sleeps.
abbrev busy : Round
busy = record quiet { while_asleep = heartbeat "camera_01" 1 2 3 4 ∷ [] }

program : Unit {0}
unfolding run apply new_table find contains try_emplace erase modify modify_all add32 get_node
    run_loop check
program = tt

others : ◌≢◌ {A = String} "camera_01" "lidar_01"
others = ground (arith, eq_iff "camera_01" "lidar_01")

abbrev lidar : NodeEntry
lidar = fresh_entry (node "lidar_01" ("lidar" ∷ [])) "s1" 0

-- A checker that has run one round while a node registered.
abbrev joined : Round
joined = record quiet { while_asleep = register (node "lidar_01" ("lidar" ∷ [])) "s1" 0 ∷ [] }

check_undiscovers_example :
    get_nodes_by_service (check 3 (run_loop 3 (new_table 9) (joined ∷ [])) []) ("lidar" ∷ []) ≡ []
check_undiscovers_example =
    check_undiscovers 3 9 (joined ∷ []) ("lidar" ∷ []) (omega arith) (omega arith)
      (((tt, tt), tt), tt)

increment_exact_example :
    get_node (increment_all_missed_heartbeats (run_loop 3 (new_table 9) (busy ∷ []))) "lidar_01"
    ≡ Option.map
        (λ (e : NodeEntry). record e { missed_heartbeats = e.missed_heartbeats + 1 })
        (get_node (run_loop 3 (new_table 9) (busy ∷ [])) "lidar_01")
increment_exact_example =
    increment_exact 3 9 "lidar_01" (busy ∷ []) (omega arith) (omega arith) (((tt, tt), tt), tt)
