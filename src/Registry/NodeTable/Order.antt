-- ===== src/Registry/NodeTable/Order.antt =====
-- The table forgets the order in which std::unordered_map iterates.
mod Sweep
use mathlib.Core.List.{Permᴰ}
use mathlib.Core.List.Permᴰ
use d_ro_cm.Base.{
  ℕ, String, ◌≡◌, refl, sym, ap, ◌∙◌, true, false, Bool-cases, inl, inr, List, [], ◌∷◌, Option,
  none, some, Option-cases, leb, length, ◌%◌, u32_mod, arith,
}
use d_ro_cm.Base.Maps.{UnorderedMap, find, contains, try_emplace, erase, modify, IsUnique}
use d_ro_cm.Base.Maps.Laws.{contains-find}
use d_ro_cm.Base.Maps.Order.{
  Permᴰ-SameMap, respects, erase-Permᴰ, modify-Permᴰ, modify_all-Permᴰ, values-Permᴰ, length-Permᴰ,
  keep_if-Permᴰ,
}
use d_ro_cm.Proto.{NodeInfo}
use d_ro_cm.Registry.NodeTable.{
  NodeEntry, NodeTable, sweep, remove_stale_nodes, get_node, get_nodes_by_service, select,
  is_selected, get_all_nodes, get_node_count, beat, miss, fresh_entry, register_node,
  deregister_node, update_heartbeat,
}
use d_ro_cm.Registry.NodeTable.History.{
  Call, register, deregister, heartbeat, increment, remove_stale, apply, run,
}
use d_ro_cm.Registry.NodeTable.Invariant.{IsValid, apply-IsValid, run-IsValid}
use d_ro_cm.Registry.NodeTable.Order.Sweep.{sweep_kept-Permᴰ, sweep_removed-Permᴰ}

-- The same entries and the same capacity.
pub record SameTable (t t' : NodeTable) : Type 0 where
  pub capacity : t.max_nodes ≡ t'.max_nodes
  pub entries : Permᴰ t.nodes t'.nodes

find-SameTable :
    (t t' : NodeTable) (id : String)
    → IsUnique t.nodes
    → SameTable t t'
    → find id t.nodes ≡ find id t'.nodes
find-SameTable t t' id u s = (Permᴰ-SameMap s.entries u).1 id

contains-SameTable :
    (t t' : NodeTable) (id : String)
    → IsUnique t.nodes
    → SameTable t t'
    → contains id t.nodes ≡ contains id t'.nodes
contains-SameTable t t' id u s =
    contains-find id t.nodes
    ∙ ap (λ (o : Option NodeEntry). elim o [ none ↦ false | some _ ↦ true ])
        (find-SameTable t t' id u s)
    ∙ sym (contains-find id t'.nodes)

-- Tables that are equal to the same tables.
SameTable-subst : {t t' s s' : NodeTable} → t ≡ s → t' ≡ s' → SameTable s s' → SameTable t t'
SameTable-subst e e' h = rw (e, e') h

register-SameTable :
    (t t' : NodeTable) (info : NodeInfo) (sid : String) (now : ℕ)
    → IsUnique t.nodes
    → SameTable t t'
    → SameTable (register_node t info sid now).0 (register_node t' info sid now).0
unfolding register_node try_emplace
register-SameTable t t' info sid now u s =
    let held = contains-SameTable t t' info.node_id u s in
    let full : leb t.max_nodes (length t.nodes) ≡ leb t'.max_nodes (length t'.nodes) =
      rw (s.capacity, length-Permᴰ s.entries) refl in
    elim (Bool-cases (leb t.max_nodes (length t.nodes))) [
      | inl e ↦ SameTable-subst (register_full t e) (register_full t' (sym full ∙ e)) s
      | inr e ↦ elim (Bool-cases (contains info.node_id t.nodes)) [
        | inl e' ↦
            SameTable-subst (held_before t e e') (held_before t' (sym full ∙ e) (sym held ∙ e')) s
        | inr e' ↦
            SameTable-subst (entered t e e') (entered t' (sym full ∙ e) (sym held ∙ e'))
              (record { capacity = s.capacity; entries = Permᴰ.cons refl s.entries })
      ]
    ]
  where
    register_full :
        (x : NodeTable)
        → leb x.max_nodes (length x.nodes) ≡ true
        → (register_node x info sid now).0 ≡ x
    register_full x e = ground (arith, e)

    held_before :
        (x : NodeTable)
        → leb x.max_nodes (length x.nodes) ≡ false
        → contains info.node_id x.nodes ≡ true
        → (register_node x info sid now).0 ≡ x
    held_before x e e' = ground (arith, e, e')

    entered :
        (x : NodeTable)
        → leb x.max_nodes (length x.nodes) ≡ false
        → contains info.node_id x.nodes ≡ false
        → (register_node x info sid now).0
          ≡ record x { nodes = (info.node_id, fresh_entry info sid now) ∷ x.nodes }
    entered x e e' = ground (arith, e, e')

-- A method that writes to an entry, if it finds one.
found_step :
    (f : NodeTable → NodeTable) (g : UnorderedMap NodeEntry → UnorderedMap NodeEntry) (id : String)
    (t t' : NodeTable)
    → ((s : NodeTable) → find id s.nodes ≡ none → f s ≡ s)
    → ((s : NodeTable) (x : NodeEntry)
        → find id s.nodes ≡ some x
        → f s ≡ record s { nodes = g s.nodes })
    → Permᴰ (g t.nodes) (g t'.nodes)
    → IsUnique t.nodes
    → SameTable t t'
    → SameTable (f t) (f t')
found_step f g id t t' missing found p u s =
    let same = sym (find-SameTable t t' id u s) in
    elim (Option-cases (find id t.nodes)) [
      | inl e ↦ SameTable-subst (missing t e) (missing t' (same ∙ e)) s
      | inr (x, e) ↦
          SameTable-subst (found t x e) (found t' x (same ∙ e))
            (record { capacity = s.capacity; entries = p })
    ]

-- Every call gives the same table, whatever the order of iteration.
pub apply-SameTable :
    (t t' : NodeTable) (c : Call)
    → IsUnique t.nodes
    → SameTable t t'
    → SameTable (apply t c) (apply t' c)
unfolding apply
apply-SameTable t t' (register info sid now) u s = register-SameTable t t' info sid now u s
apply-SameTable t t' (deregister id) u s =
    found_step (λ x. (deregister_node x id).0) (erase id) id t t' (λ x e. ground (arith, e))
      (λ x y e. ground (arith, e)) (erase-Permᴰ id s.entries u) u s
apply-SameTable t t' (heartbeat id cpu mem conn now) u s =
    found_step (λ x. (update_heartbeat x id cpu mem conn now).0) (modify id (beat now cpu mem)) id t
      t' (λ x e. ground (arith, e)) (λ x y e. ground (arith, e))
      (modify-Permᴰ id (beat now cpu mem) s.entries u) u s
apply-SameTable t t' increment u s = record {
  capacity = s.capacity;
  entries = modify_all-Permᴰ miss s.entries u;
}
apply-SameTable t t' (remove_stale max) u s = record {
  capacity = s.capacity;
  entries = sweep_kept-Permᴰ max s.entries u;
}

run-SameTable :
    (t t' : NodeTable) (cs : List Call)
    → IsValid t
    → SameTable t t'
    → SameTable (run t cs) (run t' cs)
unfolding run
run-SameTable t t' [] v s = s
run-SameTable t t' (c ∷ cs) v s =
    run-SameTable (apply t c) (apply t' c) cs (apply-IsValid t c v)
      (apply-SameTable t t' c v.unique s)

select-Permᴰ :
    (filter : List String) {xs ys : List NodeEntry}
    → Permᴰ xs ys
    → Permᴰ (select filter xs) (select filter ys)
unfolding select
select-Permᴰ filter p = keep_if-Permᴰ (is_selected filter) p

-- A valid table and one that holds the same entries in whatever order of iteration answer alike
-- after the same calls: look-ups and counts are equal; snapshots, discoveries and the ids that a
-- removal reports are equal up to order.
pub order_irrelevant :
    (t t' : NodeTable) (cs : List Call) (id : String) (filter : List String) (max : ℕ)
    → IsValid t
    → SameTable t t'
    → let s = run t cs in
      let s' = run t' cs in
      (get_node s id ≡ get_node s' id)
      × (get_node_count s ≡ get_node_count s')
      × Permᴰ (get_all_nodes s) (get_all_nodes s')
      × Permᴰ (get_nodes_by_service s filter) (get_nodes_by_service s' filter)
      × Permᴰ (remove_stale_nodes s max).1 (remove_stale_nodes s' max).1
unfolding get_node get_node_count get_all_nodes get_nodes_by_service remove_stale_nodes
order_irrelevant t t' cs id filter max v same =
    let s = run t cs in
    let s' = run t' cs in
    let h = run-SameTable t t' cs v same in
    let u = (run-IsValid t cs v).unique in
    (
      find-SameTable s s' id u h,
      ap (λ (n : ℕ). n % u32_mod) (length-Permᴰ h.entries),
      values-Permᴰ h.entries u,
      select-Permᴰ filter (values-Permᴰ h.entries u),
      sweep_removed-Permᴰ max h.entries u,
    )
