-- ===== src/Registry/NodeTable/Interface/Implementation.antt =====
-- NodeTable of node_table.cpp keeps the promises of Interface.
use d_ro_cm.Base.{
  ℕ, ◌<◌, String, ◌≡◌, ◌≢◌, refl, subst, sym, ap, suc, Option, ◌&&◌, not, ◌∙◌, none, List, [], ◌∷◌,
  leb, length, All, All-Elem, u32_mod, arith,
}
use d_ro_cm.Base.Keyed.{Apart}
use d_ro_cm.Base.Maps.{UnorderedMap, IsUnique, find, values}
use d_ro_cm.Base.Maps.Laws.{contains-find}
use d_ro_cm.Proto.{NodeInfo, Float32}
use d_ro_cm.Registry.NodeTable
use d_ro_cm.Registry.NodeTable.{NodeEntry, NodeTable, sweep, is_selected}
use d_ro_cm.Registry.NodeTable.Sweep.{IsStale, Elem-sweep, remove_stale_nodes_lem}
use d_ro_cm.Registry.NodeTable.History
use d_ro_cm.Registry.NodeTable.History.{Call, apply, next_entry, get_node-apply}
use d_ro_cm.Registry.NodeTable.Invariant.{
  IsValid, new_table-IsValid, apply-IsValid, get_node_count-length,
}
use d_ro_cm.Registry.NodeTable.Discover.{
  Distinct, infos, get_nodes_by_service-Distinct, get_all_nodes-Distinct, Elem-get_all_nodes,
  Elem-get_nodes_by_service,
}
use d_ro_cm.Registry.NodeTable.Interface.{
  Operations, Meaning, Promises, Keeps, after, is_some, entry_id,
}

abbrev pub node_table : Operations NodeTable
node_table = record {
  make = NodeTable.new_table;
  register_node = NodeTable.register_node;
  deregister_node = NodeTable.deregister_node;
  update_heartbeat = NodeTable.update_heartbeat;
  get_all_nodes = NodeTable.get_all_nodes;
  get_nodes_by_service = NodeTable.get_nodes_by_service;
  get_node = NodeTable.get_node;
  get_node_count = NodeTable.get_node_count;
  has_node = NodeTable.has_node;
  remove_stale_nodes = NodeTable.remove_stale_nodes;
  increment_all_missed_heartbeats = NodeTable.increment_all_missed_heartbeats;
}

-- The class invariant, and a capacity that is a uint32_t.
abbrev pub IsGood : NodeTable → Type 0
IsGood t = IsValid t × (t.max_nodes < u32_mod)

abbrev pub meaning : Meaning NodeTable
meaning = record { IsGood = IsGood; max_nodes = λ t. t.max_nodes }

after-apply : (t : NodeTable) (k : Call) → after node_table t k ≡ apply t k
unfolding apply
after-apply t (History.register info sid now) = refl
after-apply t (History.deregister id) = refl
after-apply t (History.heartbeat id cpu mem conn now) = refl
after-apply t History.increment = refl
after-apply t (History.remove_stale max) = refl

apply-max_nodes : (t : NodeTable) (k : Call) → (apply t k).max_nodes ≡ t.max_nodes
unfolding apply
apply-max_nodes t (History.register info sid now) = ground arith
apply-max_nodes t (History.deregister id) = ground arith
apply-max_nodes t (History.heartbeat id cpu mem conn now) = ground arith
apply-max_nodes t History.increment = refl
apply-max_nodes t (History.remove_stale max) = ground arith

unstale : (max : ℕ) (o : Option NodeEntry) → o ≡ none → IsStale max o → ⊥
unstale max o e h = subst (IsStale max) e h

All-infos :
    (e : NodeEntry) (l : List NodeEntry)
    → All (λ (i : NodeInfo). e.info.node_id ≢ i.node_id) (infos l)
    → All (λ x. entry_id e ≢ entry_id x) l
All-infos e [] h = tt
All-infos e (x ∷ l) h = (h.0, All-infos e l h.1)

-- Each stale node is reported once.
sweep-Apart : (max : ℕ) (m : UnorderedMap NodeEntry) → IsUnique m → Apart (λ id. id) (sweep max m).1
unfolding sweep
sweep-Apart max [] u = tt
sweep-Apart max ((j, e) ∷ m) u =
    let rest = sweep-Apart max m u.1 in
    let fresh : All (λ k. j ≢ k) (sweep max m).1 =
      All-Elem (λ k. j ≢ k) (sweep max m).1
        (λ k at same.
          unstale max (find k m) (subst (λ i. find i m ≡ none) same u.0)
            ((Elem-sweep max k m u.1).0 at)) in
    ground (arith, rest, fresh)

Apart-Distinct : (l : List NodeEntry) → Distinct (infos l) → Apart entry_id l
Apart-Distinct [] d = tt
Apart-Distinct (e ∷ l) d = (All-infos e l d.0, Apart-Distinct l d.1)

length-values : (m : UnorderedMap NodeEntry) → length (values m) ≡ length m
unfolding values
length-values [] = refl
length-values ((j, e) ∷ m) = ap suc (length-values m)

registered_lem :
    (t : NodeTable) (info : NodeInfo) (sid : String) (now : ℕ)
    → (NodeTable.register_node t info sid now).1 ≡ (
        not (leb t.max_nodes (length t.nodes)) && not (is_some (NodeTable.get_node t info.node_id)))
unfolding NodeTable.register_node NodeTable.get_node
registered_lem t info sid now = ground (arith, contains-find info.node_id t.nodes)

deregistered_lem :
    (t : NodeTable) (id : String)
    → (NodeTable.deregister_node t id).1 ≡ is_some (NodeTable.get_node t id)
unfolding NodeTable.deregister_node NodeTable.get_node
deregistered_lem t id = ground arith

beaten_lem :
    (t : NodeTable) (id : String) (cpu mem : Float32) (connections now : ℕ)
    → (NodeTable.update_heartbeat t id cpu mem connections now).1
      ≡ is_some (NodeTable.get_node t id)
unfolding NodeTable.update_heartbeat NodeTable.get_node
beaten_lem t id cpu mem connections now = ground arith

has_lem :
    (t : NodeTable) (id : String) → NodeTable.has_node t id ≡ is_some (NodeTable.get_node t id)
unfolding NodeTable.has_node NodeTable.get_node
has_lem t id = ground (arith, contains-find id t.nodes)

counted_lem :
    (t : NodeTable) → IsGood t → NodeTable.get_node_count t ≡ length (NodeTable.get_all_nodes t)
unfolding NodeTable.get_all_nodes
counted_lem t g = get_node_count-length t g.0 g.1 ∙ sym (length-values t.nodes)

removed_once_lem :
    (t : NodeTable) (max : ℕ)
    → IsUnique t.nodes
    → Apart (λ (id : String). id) (NodeTable.remove_stale_nodes t max).1
unfolding NodeTable.remove_stale_nodes
removed_once_lem t max u = sweep-Apart max t.nodes u

apply-IsGood : (t : NodeTable) (k : Call) → IsGood t → IsGood (apply t k)
apply-IsGood t k g = (apply-IsValid t k g.0, rw (apply-max_nodes t k) g.1)

promises : (t : NodeTable) → IsGood t → Promises node_table meaning t
promises t g =
    let exact = get_node_count-length t g.0 g.1 in
    record {
      kept = λ k. rw (after-apply t k) (apply-IsGood t k g);
      capacity = λ k. rw (after-apply t k) (apply-max_nodes t k);
      entries = λ k id. rw (after-apply t k, exact) (get_node-apply t id k g.0.unique);
      registered = λ info sid now. rw exact (registered_lem t info sid now);
      deregistered = deregistered_lem t;
      beaten = beaten_lem t;
      removed = λ max id. (remove_stale_nodes_lem max t id g.0.unique).0;
      removed_once = λ max. removed_once_lem t max g.0.unique;
      has = has_lem t;
      listed = λ e. Elem-get_all_nodes t e g.0;
      listed_once = Apart-Distinct (NodeTable.get_all_nodes t) (get_all_nodes-Distinct t g.0);
      counted = counted_lem t g;
      selected = λ filter e. Elem-get_nodes_by_service t filter e g.0;
      selected_once = λ filter.
          Apart-Distinct (NodeTable.get_nodes_by_service t filter)
            (get_nodes_by_service-Distinct t filter g.0);
    }

-- NodeTable satisfies a specification of its methods that speaks of the methods alone: a new table
-- of a capacity in 32 bits is in order and empty; a table in order stays so, with its capacity, in
-- each of the five writing calls, which change each entry as next_entry says and report success
-- exactly if the node was there (register_node: if it was not, and the table was not full) or, for
-- the removal, each node with the given number of missed heartbeats or more, once; and the lists
-- hold each node in question once (the discovery: each one that has missed no heartbeat and, unless
-- the filter is empty, shares a service with it), and the count is the length of the snapshot.
pub node_table-Keeps : Keeps node_table meaning
unfolding NodeTable.new_table NodeTable.get_node
node_table-Keeps = record {
  made = λ max fits. (new_table-IsValid max, fits);
  made_capacity = λ max. refl;
  made_empty = λ max id. refl;
  promises = promises;
}
