-- ===== src/Registry/NodeTable/Sweep.antt =====
-- The loop of NodeTable::remove_stale_nodes: what stays and what is reported as removed.
use d_ro_cm.Base.{
  ℕ, ◌+◌, ◌≤◌, String, ◌≡◌, refl, [], ◌∷◌, Option, none, some, if◌then◌else◌, leb, length, Elem,
  eq_iff, arith, ◌↔◌,
}
use d_ro_cm.Base.Maps.{UnorderedMap, find, IsUnique}
use d_ro_cm.Registry.NodeTable.{NodeEntry, NodeTable, sweep, remove_stale_nodes, get_node}

-- What is left of an entry by a removal of those with `max` missed heartbeats.
abbrev pub drop_stale : ℕ → Option NodeEntry → Option NodeEntry
drop_stale max none = none
drop_stale max (some e) = if leb max e.missed_heartbeats then none else some e

pub find-sweep :
    (max : ℕ) (k : String) (m : UnorderedMap NodeEntry)
    → IsUnique m
    → find k (sweep max m).0 ≡ drop_stale max (find k m)
unfolding find sweep
find-sweep max k [] u = refl
find-sweep max k ((j, e) ∷ m) u = ground (arith, eq_iff j k, find-sweep max k m u.1)

pub sweep-IsUnique : (max : ℕ) (m : UnorderedMap NodeEntry) → IsUnique m → IsUnique (sweep max m).0
unfolding sweep
sweep-IsUnique max [] u = tt
sweep-IsUnique max ((j, e) ∷ m) u = ground (arith, sweep-IsUnique max m u.1, find-sweep max j m u.1)

-- Every entry either stays or is reported.
pub length-sweep :
    (max : ℕ) (m : UnorderedMap NodeEntry)
    → length (sweep max m).0 + length (sweep max m).1 ≡ length m
unfolding sweep
length-sweep max [] = refl
length-sweep max ((j, e) ∷ m) = ground (arith, length-sweep max m)

-- The node's entry has missed `max` heartbeats or more.
abbrev pub IsStale : ℕ → Option NodeEntry → Type 0
IsStale max none = ⊥
IsStale max (some e) = max ≤ e.missed_heartbeats

pub Elem-sweep :
    (max : ℕ) (k : String) (m : UnorderedMap NodeEntry)
    → IsUnique m
    → Elem k (sweep max m).1 ↔ IsStale max (find k m)
unfolding find sweep
Elem-sweep max k [] u = (λ h. h, λ h. h)
Elem-sweep max k ((j, e) ∷ m) u =
    let ih = Elem-sweep max k m u.1 in
    ((λ h. ground (arith, eq_iff j k, ih.0)), (λ h. ground (arith, eq_iff j k, ih.1)))

-- In a table with unique keys, the ids that remove_stale_nodes returns are those of the nodes at or
-- over the threshold; exactly their entries leave the table; and as many ids are returned as
-- entries leave.
pub remove_stale_nodes_lem :
    (max : ℕ) (t : NodeTable) (id : String)
    → IsUnique t.nodes
    → let (after, removed) = remove_stale_nodes t max in
      (Elem id removed ↔ IsStale max (get_node t id))
      × (get_node after id ≡ drop_stale max (get_node t id))
      × (length after.nodes + length removed ≡ length t.nodes)
unfolding remove_stale_nodes get_node
remove_stale_nodes_lem max t id u =
    (Elem-sweep max id t.nodes u, find-sweep max id t.nodes u, length-sweep max t.nodes)
