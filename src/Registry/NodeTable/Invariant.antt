-- ===== src/Registry/NodeTable/Invariant.antt =====
-- The class invariant of NodeTable, kept by every call.
use d_ro_cm.Base.{ℕ, ◌≤◌, ◌<◌, String, ◌≡◌, List, [], ◌∷◌, length, arith, u32_mod, add32}
use d_ro_cm.Base.Maps.{UnorderedMap, erase, modify, modify_all, IsUnique}
use d_ro_cm.Base.Maps.Laws.{
  contains-find, erase-IsUnique, modify-IsUnique, modify_all-IsUnique, length-erase, length-modify,
  length-modify_all,
}
use d_ro_cm.Registry.NodeTable.{NodeEntry, NodeTable, new_table, sweep, beat, miss, get_node_count}
use d_ro_cm.Registry.NodeTable.Sweep.{sweep-IsUnique, length-sweep}
use d_ro_cm.Registry.NodeTable.History.{
  Call, register, deregister, heartbeat, increment, remove_stale, apply, run,
}

-- Each entry stands under its own node id, and its counter is a uint32_t.
abbrev pub IsEntry : String → NodeEntry → Type 0
IsEntry id e = (e.info.node_id ≡ id) × (e.missed_heartbeats < u32_mod)

abbrev pub Entries : UnorderedMap NodeEntry → Type 0
Entries [] = Unit
Entries ((id, e) ∷ m) = IsEntry id e × Entries m

pub record IsValid (t : NodeTable) : Type 0 where
  pub unique : IsUnique t.nodes
  pub bounded : length t.nodes ≤ t.max_nodes
  pub entries : Entries t.nodes

pub new_table-IsValid : (max_nodes : ℕ) → IsValid (new_table max_nodes)
unfolding new_table
new_table-IsValid max_nodes = record { unique = tt; bounded = omega arith; entries = tt }

erase-Entries : (k : String) (m : UnorderedMap NodeEntry) → Entries m → Entries (erase k m)
unfolding erase
erase-Entries k [] h = tt
erase-Entries k ((j, e) ∷ m) h = ground (arith, erase-Entries k m h.1)

module _ (f : NodeEntry → NodeEntry)
    (keeps : (id : String) (e : NodeEntry) → IsEntry id e → IsEntry id (f e)) where
  modify-Entries : (k : String) (m : UnorderedMap NodeEntry) → Entries m → Entries (modify k f m)
  unfolding modify
  modify-Entries k [] h = tt
  modify-Entries k ((j, e) ∷ m) h = ground (arith, keeps j e h.0, modify-Entries k m h.1)

  modify_all-Entries : (m : UnorderedMap NodeEntry) → Entries m → Entries (modify_all f m)
  unfolding modify_all
  modify_all-Entries [] h = tt
  modify_all-Entries ((j, e) ∷ m) h = (keeps j e h.0, modify_all-Entries m h.1)

sweep-Entries : (max : ℕ) (m : UnorderedMap NodeEntry) → Entries m → Entries (sweep max m).0
unfolding sweep
sweep-Entries max [] h = tt
sweep-Entries max ((j, e) ∷ m) h = ground (arith, sweep-Entries max m h.1)

miss-IsEntry : (id : String) (e : NodeEntry) → IsEntry id e → IsEntry id (miss e)
unfolding add32
miss-IsEntry id e h = (h.0, omega arith)

-- Every call keeps the invariant.
pub apply-IsValid : (t : NodeTable) (c : Call) → IsValid t → IsValid (apply t c)
unfolding apply
apply-IsValid t (register info sid now) v = record {
  unique = ground (arith, v.unique, contains-find info.node_id t.nodes);
  bounded = ground (arith, v.bounded);
  entries = ground (arith, v.entries);
}
apply-IsValid t (deregister k) v = record {
  unique = ground (arith, v.unique, erase-IsUnique k t.nodes v.unique);
  bounded = ground (arith, length-erase k t.nodes);
  entries = ground (arith, erase-Entries k t.nodes v.entries);
}
apply-IsValid t (heartbeat k cpu mem conn now) v = record {
  unique = ground (arith, modify-IsUnique k (beat now cpu mem) t.nodes v.unique);
  bounded = ground (arith, length-modify k (beat now cpu mem) t.nodes);
  entries =
      ground (
        arith,
        modify-Entries (beat now cpu mem) (λ id e h. (h.0, omega arith)) k t.nodes v.entries,
      );
}
apply-IsValid t increment v = record {
  unique = modify_all-IsUnique miss t.nodes v.unique;
  bounded = omega (arith, length-modify_all miss t.nodes);
  entries = modify_all-Entries miss miss-IsEntry t.nodes v.entries;
}
apply-IsValid t (remove_stale max) v = record {
  unique = sweep-IsUnique max t.nodes v.unique;
  bounded = omega (arith, length-sweep max t.nodes);
  entries = sweep-Entries max t.nodes v.entries;
}

-- Any sequence of calls keeps the invariant of a valid table: unique keys, at most max_nodes
-- entries, each entry under its own id, counters in 32 bits.
pub run-IsValid : (t : NodeTable) (cs : List Call) → IsValid t → IsValid (run t cs)
unfolding run
run-IsValid t [] v = v
run-IsValid t (c ∷ cs) v = run-IsValid (apply t c) cs (apply-IsValid t c v)

-- In a valid table with a capacity in 32 bits the cast of `get_node_count` loses nothing.
pub get_node_count-length :
    (t : NodeTable) → IsValid t → t.max_nodes < u32_mod → get_node_count t ≡ length t.nodes
unfolding get_node_count
get_node_count-length t v h = omega arith
