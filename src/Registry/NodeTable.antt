-- ===== src/Registry/NodeTable.antt =====
-- src/registry/node_table.h and node_table.cpp. Each method runs under the table's lock, so it is
-- one step on the state; `now` is what `steady_clock::now()` returns there.
pub mod Sweep
pub mod History
pub mod Invariant
pub mod Discover
pub mod Order
pub mod Abstract
pub mod Interface
use d_ro_cm.Base.{
  ℕ, ◌+◌, ◌%◌, ◌≤◌, String, ◌≡◌, Bool, true, false, List, [], ◌∷◌, Option, none, some,
  if◌then◌else◌, ltb, leb, length, keep_if, contains_string, add32, u32_mod,
}
use d_ro_cm.Base.Maps.{UnorderedMap, find, contains, try_emplace, erase, modify, modify_all, values}
use d_ro_cm.Proto.{NodeInfo, Float32, zero_float}

pub record NodeEntry : Type 0 where
  pub info : NodeInfo
  pub session_id : String
  pub last_heartbeat : ℕ
  pub missed_heartbeats : ℕ
  pub cpu_usage : Float32
  pub memory_usage : Float32

pub record NodeTable : Type 0 where
  pub nodes : UnorderedMap NodeEntry
  pub max_nodes : ℕ

-- The default argument of the constructor.
abbrev pub default_max_nodes : ℕ
default_max_nodes = 10000

unfoldable pub new_table : ℕ → NodeTable
new_table max_nodes = record { nodes = []; max_nodes = max_nodes }

-- The entry that a registration makes.
abbrev pub fresh_entry : NodeInfo → String → ℕ → NodeEntry
fresh_entry info session_id now = record {
  info = info;
  session_id = session_id;
  last_heartbeat = now;
  missed_heartbeats = 0;
  cpu_usage = zero_float;
  memory_usage = zero_float;
}

-- A call of `register_node`, given what `try_emplace` returns.
abbrev pub emplaced : NodeTable → UnorderedMap NodeEntry × Bool → NodeTable × Bool
emplaced t (nodes, inserted) =
    if inserted then (record t { nodes = nodes }, true) else (record t { nodes = nodes }, false)

unfoldable pub register_node : NodeTable → NodeInfo → String → ℕ → NodeTable × Bool
unfolding try_emplace
register_node t info session_id now =
    if leb t.max_nodes (length t.nodes)
    then (t, false)
    else emplaced t (try_emplace info.node_id (fresh_entry info session_id now) t.nodes)

unfoldable pub deregister_node : NodeTable → String → NodeTable × Bool
deregister_node t node_id = elim (find node_id t.nodes) [
  | none ↦ (t, false)
  | some _ ↦ (record t { nodes = erase node_id t.nodes }, true)
]

-- The writes of `update_heartbeat` to the entry that it found.
abbrev pub beat : ℕ → Float32 → Float32 → NodeEntry → NodeEntry
beat now cpu_usage memory_usage e = record e {
  last_heartbeat = now;
  missed_heartbeats = 0;
  cpu_usage = cpu_usage;
  memory_usage = memory_usage;
}

-- The parameter `active_connections` is unnamed in the source.
unfoldable pub update_heartbeat : NodeTable → String → Float32 → Float32 → ℕ → ℕ → NodeTable × Bool
update_heartbeat t node_id cpu_usage memory_usage _ now = elim (find node_id t.nodes) [
  | none ↦ (t, false)
  | some _ ↦ (record t { nodes = modify node_id (beat now cpu_usage memory_usage) t.nodes }, true)
]

unfoldable pub get_all_nodes : NodeTable → List NodeEntry
unfolding values
get_all_nodes t = values t.nodes

-- The inner loop: is one of the node's services in the filter?
unfoldable pub provides : List String → List String → Bool
unfolding contains_string
provides service_filter [] = false
provides service_filter (svc ∷ services) =
    if contains_string service_filter svc then true else provides service_filter services

abbrev pub is_empty : List String → Bool
is_empty [] = true
is_empty (_ ∷ _) = false

-- The body of the outer loop: is the candidate pushed?
unfoldable pub is_selected : List String → NodeEntry → Bool
unfolding provides
is_selected service_filter e =
    if ltb 0 e.missed_heartbeats
    then false
    else if is_empty service_filter
    then true
    else provides service_filter e.info.services

unfoldable pub select : List String → List NodeEntry → List NodeEntry
unfolding is_selected
select service_filter candidates = keep_if (is_selected service_filter) candidates

unfoldable pub get_nodes_by_service : NodeTable → List String → List NodeEntry
unfolding select values
get_nodes_by_service t service_filter = select service_filter (values t.nodes)

unfoldable pub get_node : NodeTable → String → Option NodeEntry
unfolding find
get_node t node_id = find node_id t.nodes

-- static_cast<uint32_t>(nodes_.size())
unfoldable pub get_node_count : NodeTable → ℕ
get_node_count t = length t.nodes % u32_mod

unfoldable pub has_node : NodeTable → String → Bool
unfolding contains
has_node t node_id = contains node_id t.nodes

-- The loop of `remove_stale_nodes`: what stays, and the keys that `removed` collects, in order.
unfoldable pub sweep : ℕ → UnorderedMap NodeEntry → UnorderedMap NodeEntry × List String
sweep max_missed_heartbeats [] = ([], [])
sweep max_missed_heartbeats ((id, e) ∷ m) =
    let (kept, removed) = sweep max_missed_heartbeats m in
    if leb max_missed_heartbeats e.missed_heartbeats
    then (kept, id ∷ removed)
    else ((id, e) ∷ kept, removed)

unfoldable pub remove_stale_nodes : NodeTable → ℕ → NodeTable × List String
unfolding sweep
remove_stale_nodes t max_missed_heartbeats =
    let (kept, removed) = sweep max_missed_heartbeats t.nodes in
    (record t { nodes = kept }, removed)

-- missed_heartbeats++ on a uint32_t
abbrev pub miss : NodeEntry → NodeEntry
miss e = record e { missed_heartbeats = add32 e.missed_heartbeats 1 }

unfoldable pub increment_all_missed_heartbeats : NodeTable → NodeTable
unfolding add32
increment_all_missed_heartbeats t = record t { nodes = modify_all miss t.nodes }
