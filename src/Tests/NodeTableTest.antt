-- ===== src/Tests/NodeTableTest.antt =====
-- tests/test_node_table.cpp: the unit tests of the table, run on the model. A test is the list of what
-- it expects, each a Bool; `now` is the clock at every call. The reader of the concurrent test may come
-- after any number of the writer's calls, since each call is one step.
use d_ro_cm.Base.{
  ℕ, String, ◌≡◌, refl, Bool, true, false, not, ◌&&◌, List, [], ◌∷◌, map, Option, none, some,
  length, eqb, leb, ◌==◌, contains_string, add32,
}
use d_ro_cm.Base.Maps.{find, contains, try_emplace, erase, modify, modify_all, values}
use d_ro_cm.Proto.{NodeInfo}
use d_ro_cm.Registry.NodeTable.{
  NodeEntry, NodeTable, new_table, register_node, deregister_node, update_heartbeat,
  increment_all_missed_heartbeats, remove_stale_nodes, get_node, get_node_count, has_node,
  get_nodes_by_service, select, is_selected, provides, sweep,
}
use d_ro_cm.Registry.NodeTable.History.{Call, apply, run}

abbrev make_node_info : String → ℕ → List String → NodeInfo
make_node_info node_id port services = record {
  node_id = node_id;
  ip_address = "127.0.0.1";
  port = port;
  services = services;
  startup_timestamp = 0;
}

abbrev lidar : String → NodeInfo
lidar node_id = make_node_info node_id 50052 ("lidar" ∷ [])

abbrev holds : List Bool → Bool
holds [] = true
holds (b ∷ bs) = b && holds bs

abbrev misses : Option NodeEntry → Option ℕ
misses none = none
misses (some e) = some e.missed_heartbeats

abbrev is_some_of : ℕ → Option ℕ → Bool
is_some_of n none = false
is_some_of n (some m) = eqb n m

abbrev discovered : NodeTable → List String → ℕ
discovered t filter = length (get_nodes_by_service t filter)

module _ (now : ℕ) where
  abbrev join : String → String → Call
  join node_id session = Call.register (lidar node_id) session now

  abbrev pulse : String → Call
  pulse node_id = Call.heartbeat node_id 1 2 1 now

  abbrev register_and_deregister_node : List Bool
  register_and_deregister_node =
      let (t₁, added) = register_node (new_table 100) (lidar "node_01") "session_01" now in
      let (t₂, removed) = deregister_node t₁ "node_01" in
      added
      ∷ has_node t₁ "node_01"
      ∷ eqb (get_node_count t₁) 1
      ∷ removed
      ∷ not (has_node t₂ "node_01")
      ∷ eqb (get_node_count t₂) 0
      ∷ []

  abbrev reject_duplicate_registration : List Bool
  reject_duplicate_registration =
      let (t, added) = register_node (new_table 100) (lidar "node_01") "session_01" now in
      added ∷ not (register_node t (lidar "node_01") "session_02" now).1 ∷ []

  abbrev reject_registration_when_table_full : List Bool
  reject_registration_when_table_full =
      let (t, added) = register_node (new_table 1) (lidar "node_01") "session_01" now in
      added ∷ not (register_node t (lidar "node_02") "session_02" now).1 ∷ []

  abbrev update_heartbeat_resets_missed_counter : List Bool
  update_heartbeat_resets_missed_counter =
      let t₁ = run (new_table 100) (join "node_01" "session_01" ∷ Call.increment ∷ []) in
      let t₂ = apply t₁ (pulse "node_01") in
      is_some_of 1 (misses (get_node t₁ "node_01"))
      ∷ is_some_of 0 (misses (get_node t₂ "node_01"))
      ∷ []

  abbrev discover_returns_only_healthy_nodes : List Bool
  discover_returns_only_healthy_nodes =
      let t = run (new_table 100) (
        join "healthy_lidar" "session_01"
        ∷ join "unhealthy_lidar" "session_02"
        ∷ join "another_healthy_lidar" "session_03"
        ∷ Call.increment
        ∷ pulse "healthy_lidar"
        ∷ pulse "another_healthy_lidar"
        ∷ []) in
      let nodes = get_nodes_by_service t [] in
      eqb (length nodes) 2
      ∷ map (λ (e : NodeEntry). not (e.info.node_id == "unhealthy_lidar")) nodes

  abbrev discover_filters_by_service_name : List Bool
  discover_filters_by_service_name =
      let t = run (new_table 100) (
        Call.register (make_node_info "lidar_01" 50052 ("lidar" ∷ [])) "s1" now
        ∷ Call.register (make_node_info "camera_01" 50053 ("camera" ∷ [])) "s2" now
        ∷ Call.register (make_node_info "fusion_01" 50054 ("lidar" ∷ "camera" ∷ [])) "s3" now
        ∷ []) in
      eqb (discovered t ("lidar" ∷ [])) 2
      ∷ eqb (discovered t ("camera" ∷ [])) 2
      ∷ eqb (discovered t ("lidar" ∷ "camera" ∷ [])) 3
      ∷ []

  abbrev discover_returns_empty_when_no_healthy_nodes : List Bool
  discover_returns_empty_when_no_healthy_nodes =
      let t = run (new_table 100) (
        join "node_01" "s1"
        ∷ join "node_02" "s2"
        ∷ Call.increment
        ∷ Call.increment
        ∷ Call.increment
        ∷ []) in
      eqb (discovered t []) 0 ∷ []

  abbrev discover_with_empty_filter_returns_all_healthy : List Bool
  discover_with_empty_filter_returns_all_healthy =
      let t = run (new_table 100) (
        join "node_01" "s1"
        ∷ Call.register (make_node_info "node_02" 50053 ("camera" ∷ [])) "s2" now
        ∷ []) in
      eqb (discovered t []) 2 ∷ []

  abbrev is_stale_node : List String → Bool
  is_stale_node [] = false
  is_stale_node (id ∷ ids) = id == "stale_node"

  abbrev remove_stale_nodes_removes_unhealthy_nodes : List Bool
  remove_stale_nodes_removes_unhealthy_nodes =
      let t = run (new_table 100) (
        join "healthy_node" "s1"
        ∷ join "stale_node" "s2"
        ∷ Call.increment
        ∷ Call.increment
        ∷ Call.increment
        ∷ pulse "healthy_node"
        ∷ []) in
      let (t', removed) = remove_stale_nodes t 3 in
      eqb (length removed) 1
      ∷ is_stale_node removed
      ∷ eqb (get_node_count t') 1
      ∷ has_node t' "healthy_node"
      ∷ []

  -- What the reader may see: the table before each of the writer's calls, and after the last.
  abbrev seen : NodeTable → List Call → List NodeTable
  seen t [] = t ∷ []
  seen t (c ∷ cs) = t ∷ seen (apply t c) cs

  abbrev registered_before : List Call
  registered_before =
      join "node_0" "s_0"
      ∷ join "node_1" "s_1"
      ∷ join "node_2" "s_2"
      ∷ join "node_3" "s_3"
      ∷ join "node_4" "s_4"
      ∷ join "node_5" "s_5"
      ∷ join "node_6" "s_6"
      ∷ join "node_7" "s_7"
      ∷ join "node_8" "s_8"
      ∷ join "node_9" "s_9"
      ∷ []

  abbrev writer : List Call
  writer =
      join "node_10" "s_10"
      ∷ join "node_11" "s_11"
      ∷ join "node_12" "s_12"
      ∷ join "node_13" "s_13"
      ∷ join "node_14" "s_14"
      ∷ join "node_15" "s_15"
      ∷ join "node_16" "s_16"
      ∷ join "node_17" "s_17"
      ∷ join "node_18" "s_18"
      ∷ join "node_19" "s_19"
      ∷ []

  abbrev concurrent_register_and_discover : List Bool
  concurrent_register_and_discover =
      let t = run (new_table 1000) registered_before in
      eqb (get_node_count (run t writer)) 20 ∷ map (λ t'. leb (discovered t' []) 20) (seen t writer)

  unit_tests_hold :
      (holds register_and_deregister_node ≡ true)
      × (holds reject_duplicate_registration ≡ true)
      × (holds reject_registration_when_table_full ≡ true)
      × (holds update_heartbeat_resets_missed_counter ≡ true)
      × (holds discover_returns_only_healthy_nodes ≡ true)
      × (holds discover_filters_by_service_name ≡ true)
      × (holds discover_returns_empty_when_no_healthy_nodes ≡ true)
      × (holds discover_with_empty_filter_returns_all_healthy ≡ true)
      × (holds remove_stale_nodes_removes_unhealthy_nodes ≡ true)
      × (holds concurrent_register_and_discover ≡ true)
  unfolding new_table register_node deregister_node update_heartbeat increment_all_missed_heartbeats
      remove_stale_nodes get_node get_node_count has_node get_nodes_by_service select is_selected
      provides sweep find contains try_emplace erase modify modify_all values apply run
      contains_string add32
  unit_tests_hold = (refl, refl, refl, refl, refl, refl, refl, refl, refl, refl)
