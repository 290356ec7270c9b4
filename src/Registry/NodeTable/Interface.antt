-- ===== src/Registry/NodeTable/Interface.antt =====
-- The public part of class NodeTable (node_table.h) as an interface: its methods, and what they do, said
-- of the methods alone. It follows the comments of the header but for two places, where the code does
-- something else: an empty filter is documented to give all nodes (line 68), and nodes that have
-- exceeded the threshold to be removed (line 95). `now` is what the clock gives in a call, as in the
-- implementation.
pub mod Answers
pub mod Implementation
pub mod Ledger
pub mod Listing
pub mod Reference
use d_ro_cm.Base.{
  ℕ, String, ◌≡◌, ◌↔◌, Bool, true, false, ◌&&◌, not, List, Option, none, some, leb, length, Elem,
  u32_mod, ◌<◌, ◌%◌,
}
use d_ro_cm.Proto.{NodeInfo, Float32}
use d_ro_cm.Registry.NodeTable.{NodeEntry}
use d_ro_cm.Registry.NodeTable.Discover.{IsOffered}
use d_ro_cm.Registry.NodeTable.Sweep.{IsStale}
use d_ro_cm.Registry.NodeTable.History
use d_ro_cm.Registry.NodeTable.History.{Call, next_entry}
use d_ro_cm.Base.Keyed.{Apart}

pub record Operations (T : Type 0) : Type 0 where
  pub make : ℕ → T
  pub register_node : T → NodeInfo → String → ℕ → T × Bool
  pub deregister_node : T → String → T × Bool
  pub update_heartbeat : T → String → Float32 → Float32 → ℕ → ℕ → T × Bool
  pub get_all_nodes : T → List NodeEntry
  pub get_nodes_by_service : T → List String → List NodeEntry
  pub get_node : T → String → Option NodeEntry
  pub get_node_count : T → ℕ
  pub has_node : T → String → Bool
  pub remove_stale_nodes : T → ℕ → T × List String
  pub increment_all_missed_heartbeats : T → T

abbrev pub is_some : Option NodeEntry → Bool
is_some none = false
is_some (some e) = true

abbrev pub entry_id : NodeEntry → String
entry_id e = e.info.node_id

module _ {T : Type 0} (c : Operations T) where
  -- What a call that writes leaves.
  abbrev pub after : T → Call → T
  after t (History.register info session_id now) = (c.register_node t info session_id now).0
  after t (History.deregister node_id) = (c.deregister_node t node_id).0
  after t (History.heartbeat node_id cpu mem connections now) =
      (c.update_heartbeat t node_id cpu mem connections now).0
  after t History.increment = c.increment_all_missed_heartbeats t
  after t (History.remove_stale max) = (c.remove_stale_nodes t max).0

-- What the two private members mean to a client: when the table is in order, and its capacity.
pub record Meaning (T : Type 0) : Type 1 where
  pub IsGood : T → Type 0
  pub max_nodes : T → ℕ

-- What a table that is in order promises. The discovery offers only nodes that have missed no
-- heartbeat, whatever the filter, and a node is stale from the threshold on.
pub record Promises {T : Type 0} (c : Operations T) (m : Meaning T) (t : T) : Type 0 where
  pub kept : (k : Call) → m.IsGood (after c t k)
  pub capacity : (k : Call) → m.max_nodes (after c t k) ≡ m.max_nodes t
  pub entries :
      (k : Call) (id : String)
      → c.get_node (after c t k) id
        ≡ next_entry (leb (m.max_nodes t) (c.get_node_count t)) id (c.get_node t id) k
  pub registered :
      (info : NodeInfo) (session_id : String) (now : ℕ)
      → (c.register_node t info session_id now).1 ≡ (
          not (leb (m.max_nodes t) (c.get_node_count t))
          && not (is_some (c.get_node t info.node_id)))
  pub deregistered : (id : String) → (c.deregister_node t id).1 ≡ is_some (c.get_node t id)
  pub beaten :
      (id : String) (cpu mem : Float32) (connections now : ℕ)
      → (c.update_heartbeat t id cpu mem connections now).1 ≡ is_some (c.get_node t id)
  pub removed :
      (max : ℕ) (id : String)
      → Elem id (c.remove_stale_nodes t max).1 ↔ IsStale max (c.get_node t id)
  pub removed_once : (max : ℕ) → Apart (λ (id : String). id) (c.remove_stale_nodes t max).1
  pub has : (id : String) → c.has_node t id ≡ is_some (c.get_node t id)
  pub listed : (e : NodeEntry) → Elem e (c.get_all_nodes t) ↔ (c.get_node t (entry_id e) ≡ some e)
  pub listed_once : Apart entry_id (c.get_all_nodes t)
  pub counted : c.get_node_count t ≡ length (c.get_all_nodes t)
  pub selected :
      (filter : List String) (e : NodeEntry)
      → Elem e (c.get_nodes_by_service t filter)
        ↔ ((c.get_node t (entry_id e) ≡ some e) × IsOffered filter e)
  pub selected_once : (filter : List String) → Apart entry_id (c.get_nodes_by_service t filter)

-- A class that keeps its promises, as long as its capacity is a uint32_t.
pub record Keeps {T : Type 0} (c : Operations T) (m : Meaning T) : Type 0 where
  pub made : (max_nodes : ℕ) → max_nodes < u32_mod → m.IsGood (c.make max_nodes)
  pub made_capacity : (max_nodes : ℕ) → m.max_nodes (c.make max_nodes) ≡ max_nodes
  pub made_empty : (max_nodes : ℕ) (id : String) → c.get_node (c.make max_nodes) id ≡ none
  pub promises : (t : T) → m.IsGood t → Promises c m t
