-- ===== src/Tests/Table.antt =====
-- tests/test_node_table.cpp on the model, and the theorems on the table at its inputs.
use d_ro_cm.Base.{
  String, ◌≡◌, refl, true, false, List, [], ◌∷◌, length, map, add32, contains_string,
}
use d_ro_cm.Base.Maps.{find, contains, try_emplace, erase, modify, modify_all, values}
use d_ro_cm.Proto.{NodeInfo}
use d_ro_cm.Registry.NodeTable.{
  NodeTable, NodeEntry, new_table, register_node, get_node, get_node_count, has_node,
  get_nodes_by_service, get_all_nodes, remove_stale_nodes,
}
use d_ro_cm.Registry.NodeTable.History.{Call, register, heartbeat, increment, apply, run}
use d_ro_cm.Registry.NodeTable.Invariant.{IsValid, new_table-IsValid, run-IsValid}
use mathlib.Core.List.{Permᴰ}
use d_ro_cm.Registry.NodeTable.Order.{SameTable, order_irrelevant}

abbrev pub node : String → List String → NodeInfo
node id services = record {
  node_id = id;
  ip_address = "127.0.0.1";
  port = 50052;
  services = services;
  startup_timestamp = 0;
}

-- DiscoverFiltersByServiceName
abbrev fleet : List Call
fleet =
    register (node "lidar_01" ("lidar" ∷ [])) "s1" 0
    ∷ register (node "camera_01" ("camera" ∷ [])) "s2" 0
    ∷ register (node "fusion_01" ("lidar" ∷ "camera" ∷ [])) "s3" 0
    ∷ []

abbrev pub table : NodeTable
table = run (new_table 100) fleet

unfoldable pub program : Unit {0}
unfolding run apply new_table find contains try_emplace erase modify modify_all values
    contains_string add32 get_node get_node_count has_node get_nodes_by_service get_all_nodes
program = tt

ids : List NodeEntry → List String
ids es = map (λ (e : NodeEntry). e.info.node_id) es

-- Filtered by one service, by another, and by both.
filters_by_service :
    (ids (get_nodes_by_service table ("lidar" ∷ [])) ≡ "fusion_01" ∷ "lidar_01" ∷ [])
    × (ids (get_nodes_by_service table ("camera" ∷ [])) ≡ "fusion_01" ∷ "camera_01" ∷ [])
    × (length (get_nodes_by_service table ("lidar" ∷ "camera" ∷ [])) ≡ 3)
unfolding program ids
filters_by_service = (refl, refl, refl)

-- After three checks and one heartbeat the others are stale.
abbrev aged : NodeTable
aged =
    run table
      (increment ∷ increment ∷ increment ∷ heartbeat "lidar_01" 0x41200000 0x42200000 1 7 ∷ [])

removes_stale :
    ((remove_stale_nodes aged 3).1 ≡ "fusion_01" ∷ "camera_01" ∷ [])
    × (get_node_count (remove_stale_nodes aged 3).0 ≡ 1)
    × (has_node (remove_stale_nodes aged 3).0 "lidar_01" ≡ true)
    × (length (get_nodes_by_service aged []) ≡ 1)
unfolding program
removes_stale = (refl, refl, refl, refl)

rejects_duplicate : (register_node table (node "lidar_01" []) "s9" 1).1 ≡ false
unfolding program
rejects_duplicate = refl

rejects_when_full :
    (register_node
      (run (new_table 1) (register (node "node_01" []) "s1" 0 ∷ []))
      (node "node_02" [])
      "s2"
      0).1
    ≡ false
unfolding program
rejects_when_full = refl

pub table-IsValid : IsValid table
table-IsValid = run-IsValid (new_table 100) fleet (new_table-IsValid 100)

abbrev lidar_entry : NodeEntry
lidar_entry = record {
  info = node "lidar_01" ("lidar" ∷ []);
  session_id = "s1";
  last_heartbeat = 7;
  missed_heartbeats = 0;
  cpu_usage = 0x41200000;
  memory_usage = 0x42200000;
}

-- The same nodes, registered in another order.
abbrev reordered : NodeTable
reordered = run (new_table 100) (
    register (node "lidar_01" ("lidar" ∷ [])) "s1" 0
    ∷ register (node "fusion_01" ("lidar" ∷ "camera" ∷ [])) "s3" 0
    ∷ register (node "camera_01" ("camera" ∷ [])) "s2" 0
    ∷ [])

reordered-SameTable : SameTable table reordered
unfolding program
reordered-SameTable = record { capacity = refl; entries = Permᴰ.swap refl refl }

order_irrelevant_example :
    (get_node (run table (increment ∷ [])) "lidar_01"
      ≡ get_node (run reordered (increment ∷ [])) "lidar_01")
    × (get_node_count (run table (increment ∷ []))
        ≡ get_node_count (run reordered (increment ∷ [])))
    × Permᴰ
        (get_all_nodes (run table (increment ∷ [])))
        (get_all_nodes (run reordered (increment ∷ [])))
    × Permᴰ
        (get_nodes_by_service (run table (increment ∷ [])) [])
        (get_nodes_by_service (run reordered (increment ∷ [])) [])
    × Permᴰ
        (remove_stale_nodes (run table (increment ∷ [])) 1).1
        (remove_stale_nodes (run reordered (increment ∷ [])) 1).1
order_irrelevant_example =
    order_irrelevant table reordered (increment ∷ []) "lidar_01" [] 1 table-IsValid
      reordered-SameTable
