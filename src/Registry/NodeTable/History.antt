-- ===== src/Registry/NodeTable/History.antt =====
-- Calls of NodeTable as data, and what a sequence of calls does to one node's entry.
use d_ro_cm.Base.{
  ℕ, String, ◌≡◌, Bool, not, ◌&&◌, List, [], ◌∷◌, Option, none, some, if◌then◌else◌, leb, length,
  ◌==◌, eq_iff, arith, add32,
}
use mathlib.Core.Option
use d_ro_cm.Base.Maps.{IsUnique}
use d_ro_cm.Base.Maps.Laws.{contains-find, find-erase, find-modify, find-modify_all}
use d_ro_cm.Proto.{NodeInfo, Float32, zero_float}
use d_ro_cm.Registry.NodeTable.{
  NodeEntry, NodeTable, beat, miss, register_node, deregister_node, update_heartbeat,
  increment_all_missed_heartbeats, remove_stale_nodes, get_node,
}
use d_ro_cm.Registry.NodeTable.Sweep.{drop_stale, find-sweep}

pub data Call : Type 0 where
  register : NodeInfo → String → ℕ → Call
  deregister : String → Call
  heartbeat : String → Float32 → Float32 → ℕ → ℕ → Call
  increment : Call
  remove_stale : ℕ → Call

unfoldable pub apply : NodeTable → Call → NodeTable
unfolding register_node deregister_node update_heartbeat remove_stale_nodes
    increment_all_missed_heartbeats
apply t (register info session_id now) = (register_node t info session_id now).0
apply t (deregister node_id) = (deregister_node t node_id).0
apply t (heartbeat node_id cpu mem connections now) =
    (update_heartbeat t node_id cpu mem connections now).0
apply t increment = increment_all_missed_heartbeats t
apply t (remove_stale max) = (remove_stale_nodes t max).0

unfoldable pub run : NodeTable → List Call → NodeTable
run t [] = t
run t (c ∷ cs) = run (apply t c) cs

abbrev pub is_full : NodeTable → Bool
is_full t = leb t.max_nodes (length t.nodes)

-- The independent description of the entries, field by field: of a node that has just registered, of
-- one that has just been heard, and of one that has missed a check, whose counter has 32 bits.
abbrev pub entry_of : NodeInfo → String → ℕ → ℕ → Float32 → Float32 → NodeEntry
entry_of info session_id last_heartbeat missed cpu mem = record {
  info = info;
  session_id = session_id;
  last_heartbeat = last_heartbeat;
  missed_heartbeats = missed;
  cpu_usage = cpu;
  memory_usage = mem;
}

abbrev pub heard : ℕ → Float32 → Float32 → NodeEntry → NodeEntry
heard now cpu mem e = entry_of e.info e.session_id now 0 cpu mem

abbrev pub unheard : NodeEntry → NodeEntry
unheard e =
    entry_of e.info e.session_id e.last_heartbeat (add32 e.missed_heartbeats 1) e.cpu_usage
      e.memory_usage

-- What a call does to the entry of one node, the others unseen.
-- The first argument is whether the table is full.
abbrev pub next_entry : Bool → String → Option NodeEntry → Call → Option NodeEntry
next_entry full id (some e) (register info session_id now) = some e
next_entry full id none (register info session_id now) =
    if not full && (info.node_id == id)
    then some (entry_of info session_id now 0 zero_float zero_float)
    else none
next_entry full id o (deregister node_id) = if node_id == id then none else o
next_entry full id o (heartbeat node_id cpu mem connections now) =
    if node_id == id then Option.map (heard now cpu mem) o else o
next_entry full id o increment = Option.map unheard o
next_entry full id o (remove_stale max) = drop_stale max o

-- In a table with unique keys, each of the five writing calls does to a node's entry what
-- next_entry says of that one entry: the other nodes matter only by filling the table.
pub get_node-apply :
    (t : NodeTable) (id : String) (c : Call)
    → IsUnique t.nodes
    → get_node (apply t c) id ≡ next_entry (is_full t) id (get_node t id) c
unfolding apply get_node
get_node-apply t id (register info sid now) u =
    ground (arith, contains-find info.node_id t.nodes, eq_iff info.node_id id)
get_node-apply t id (deregister k) u = ground (arith, find-erase k id t.nodes u, eq_iff k id)
get_node-apply t id (heartbeat k cpu mem conn now) u =
    ground (arith, find-modify k id (beat now cpu mem) t.nodes, eq_iff k id)
get_node-apply t id increment u = find-modify_all id miss t.nodes
get_node-apply t id (remove_stale max) u = find-sweep max id t.nodes u
