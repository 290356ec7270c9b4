-- ===== src/Tests/Interface.antt =====
-- The two classes of the table's interface, asked the same.
use d_ro_cm.Base.{String, List, [], ◌∷◌, arith}
use d_ro_cm.Proto.{NodeInfo}
use d_ro_cm.Registry.NodeTable.{new_table}
use d_ro_cm.Registry.NodeTable.History
use d_ro_cm.Registry.NodeTable.Interface.Answers.{
  Question, call, all_nodes, nodes_by_service, node_count, answers, AllSame,
}
use d_ro_cm.Registry.NodeTable.Interface.Implementation.{node_table}
use d_ro_cm.Registry.NodeTable.Interface.Ledger.{ledger}
use d_ro_cm.Registry.NodeTable.Interface.Reference.{node_table-ledger}

abbrev robot : String → NodeInfo
robot id = record {
  node_id = id;
  ip_address = "10.0.0.8";
  port = 50061;
  services = "map" ∷ [];
  startup_timestamp = 0;
}

abbrev asked : List Question
asked =
    call (History.register (robot "a") "a_1" 5)
    ∷ call (History.register (robot "b") "b_1" 6)
    ∷ call (History.register (robot "c") "c_1" 7)
    ∷ call History.increment
    ∷ call (History.heartbeat "b" 0 0 0 8)
    ∷ all_nodes
    ∷ nodes_by_service ("map" ∷ [])
    ∷ call (History.remove_stale 1)
    ∷ node_count
    ∷ []

node_table-ledger_example :
    AllSame (answers node_table (new_table 2) asked) (answers ledger (ledger.make 2) asked)
node_table-ledger_example = node_table-ledger 2 asked (omega arith)
