-- ===== src/Registry/NodeTable/Interface/Reference.antt =====
-- The ledger keeps the promises, and NodeTable answers as it does.
use d_ro_cm.Base.{
  ℕ, ◌<◌, String, ◌≡◌, refl, ap, ◌↔◌, true, not, ◌&&◌, Option, none, some, List, leb, length, Elem,
  Elem-keep_if, Option-cases, eq_iff, u32_mod, arith,
}
use d_ro_cm.Base.Keyed.{Apart, Apart-keep_if}
use d_ro_cm.Proto.{NodeInfo}
use d_ro_cm.Registry.NodeTable.{NodeEntry, new_table}
use d_ro_cm.Registry.NodeTable.Sweep.{IsStale}
use d_ro_cm.Registry.NodeTable.Discover.{IsOffered}
use d_ro_cm.Registry.NodeTable.History
use d_ro_cm.Registry.NodeTable.History.{Call, next_entry}
use d_ro_cm.Registry.NodeTable.Interface.{Promises, Keeps, after, is_some, entry_id}
use d_ro_cm.Registry.NodeTable.Interface.Answers.{Question, answers, AllSame, answers_agree}
use d_ro_cm.Registry.NodeTable.Interface.Implementation.{node_table, node_table-Keeps}
use d_ro_cm.Registry.NodeTable.Interface.Listing.{
  Elem-collect, Apart-collect, length-collect, is_offered_iff,
}
use d_ro_cm.Registry.NodeTable.Interface.Ledger.{
  Ledger, ledger, InOrder, meaning, collect, is_stale, is_offered, enter-InOrder, strike-InOrder,
  note-InOrder, purge-InOrder, increment-InOrder,
}

after-InOrder : (l : Ledger) (k : Call) → InOrder l → InOrder (after ledger l k)
after-InOrder l (History.register info sid now) g = enter-InOrder l info sid now g
after-InOrder l (History.deregister id) g = strike-InOrder l id g
after-InOrder l (History.heartbeat id cpu mem connections now) g =
    note-InOrder l id cpu mem connections now g
after-InOrder l History.increment g = increment-InOrder l g
after-InOrder l (History.remove_stale max) g = purge-InOrder l max g

after-max_nodes : (l : Ledger) (k : Call) → (after ledger l k).max_nodes ≡ l.max_nodes
after-max_nodes l (History.register info sid now) = ground arith
after-max_nodes l (History.deregister id) = ground arith
after-max_nodes l (History.heartbeat id cpu mem connections now) = ground arith
after-max_nodes l History.increment = refl
after-max_nodes l (History.remove_stale max) = refl

after-entry :
    (l : Ledger) (k : Call) (id : String)
    → (after ledger l k).entry id ≡ next_entry (leb l.max_nodes (length l.ids)) id (l.entry id) k
after-entry l (History.register info sid now) id =
    ground (arith, eq_iff info.node_id id, Option-cases (l.entry id))
after-entry l (History.deregister k) id = ground (arith, eq_iff k id)
after-entry l (History.heartbeat k cpu mem connections now) id = ground (arith, eq_iff k id)
after-entry l History.increment id = refl
after-entry l (History.remove_stale max) id = refl

registered_lem :
    (l : Ledger) (info : NodeInfo) (sid : String) (now : ℕ)
    → (ledger.register_node l info sid now).1
      ≡ (not (leb l.max_nodes (length l.ids)) && not (is_some (l.entry info.node_id)))
registered_lem l info sid now = ground arith

is_stale_iff :
    (max : ℕ) (o : Option NodeEntry)
    → ((is_some o ≡ true) × (is_stale max o ≡ true)) ↔ IsStale max o
is_stale_iff max none = ((λ h. cc), (λ h. absurd h))
is_stale_iff max (some e) = ((λ h. ground arith), (λ h. ground arith))

removed_lem :
    (l : Ledger) (max : ℕ) (id : String)
    → InOrder l
    → Elem id (ledger.remove_stale_nodes l max).1 ↔ IsStale max (l.entry id)
removed_lem l max id g =
    let kept = Elem-keep_if (λ k. is_stale max (l.entry k)) id l.ids in
    let stale = is_stale_iff max (l.entry id) in
    (
      (λ h. stale.0 ((g.known id).0 (kept.0 h).0, (kept.0 h).1)),
      (λ h. kept.1 ((g.known id).1 (stale.1 h).0, (stale.1 h).1)),
    )

at_id :
    (l : Ledger) (e : NodeEntry)
    → InOrder l
    → l.entry (entry_id e) ≡ some e
    → Elem (entry_id e) l.ids
at_id l e g h = (g.known (entry_id e)).1 (ap is_some h)

selected_lem :
    (l : Ledger) (filter : List String) (e : NodeEntry)
    → InOrder l
    → Elem e (ledger.get_nodes_by_service l filter)
      ↔ ((l.entry (entry_id e) ≡ some e) × IsOffered filter e)
selected_lem l filter e g =
    let kept = Elem-keep_if (is_offered filter) e (collect l.entry l.ids) in
    let listed = Elem-collect l.entry g.own e l.ids in
    let offered = is_offered_iff filter e in
    (
      (λ h. ((listed.0 (kept.0 h).0).1, offered.0 (kept.0 h).1)),
      (λ h. kept.1 (listed.1 (at_id l e g h.0, h.0), offered.1 h.1)),
    )

selected_once_lem :
    (l : Ledger) (filter : List String)
    → InOrder l
    → Apart entry_id (ledger.get_nodes_by_service l filter)
selected_once_lem l filter g =
    Apart-keep_if entry_id (is_offered filter) (collect l.entry l.ids)
      (Apart-collect l.entry g.own l.ids g.once)

promises : (l : Ledger) → InOrder l → Promises ledger meaning l
promises l g =
    let listed = λ (e : NodeEntry). Elem-collect l.entry g.own e l.ids in
    record {
      kept = λ k. after-InOrder l k g;
      capacity = after-max_nodes l;
      entries = after-entry l;
      registered = registered_lem l;
      deregistered = λ id. ground arith;
      beaten = λ id cpu mem connections now. ground arith;
      removed = λ max id. removed_lem l max id g;
      removed_once =
          λ max. Apart-keep_if (λ (k : String). k) (λ k. is_stale max (l.entry k)) l.ids g.once;
      has = λ id. refl;
      listed = λ e. ((λ h. ((listed e).0 h).1), (λ h. (listed e).1 (at_id l e g h, h)));
      listed_once = Apart-collect l.entry g.own l.ids g.once;
      counted = length-collect l.entry g.own l.ids (λ k. (g.known k).0);
      selected = λ filter e. selected_lem l filter e g;
      selected_once = λ filter. selected_once_lem l filter g;
    }

pub ledger-Keeps : Keeps ledger meaning
ledger-Keeps = record {
  made = λ max fits. record { once = tt; known = λ k. ((λ h. absurd h), (λ h. cc)); own = λ k. tt };
  made_capacity = λ max. refl;
  made_empty = λ max id. refl;
  promises = promises;
}

-- A new table with a capacity in 32 bits, asked any sequence of its ten methods, answers as the
-- reference does, a function from ids to entries and a list of the ids with its own description of
-- each write and of the discovery (no missed heartbeat, and an empty filter or a shared service):
-- equal results of registrations, deregistrations, heartbeats, look-ups and counts, and lists of
-- nodes and of removed ids with the same elements and the same length.
pub node_table-ledger :
    (max_nodes : ℕ) (qs : List Question)
    → max_nodes < u32_mod
    → AllSame
        (answers node_table (new_table max_nodes) qs)
        (answers ledger (ledger.make max_nodes) qs)
node_table-ledger = answers_agree node_table-Keeps ledger-Keeps
