-- ===== src/Registry/HealthChecker/Timeout.antt =====
-- When the health checker removes a node, and when it does not, whatever the other threads do in
-- between.
use d_ro_cm.Base.{
  ℕ, suc, ◌+◌, ◌<◌, String, ◌≡◌, refl, inl, inr, Bool, Bool-cases, List, [], ◌∷◌, Option, none,
  some, All, arith, add32, add32_small, u32_mod, ◌∙◌,
}
use mathlib.Core.Option
use d_ro_cm.Base.Maps.{find, IsUnique}
use d_ro_cm.Registry.NodeTable.{
  NodeEntry, NodeTable, new_table, get_node, miss, increment_all_missed_heartbeats,
}
use d_ro_cm.Registry.NodeTable.History.{
  Call, increment, remove_stale, apply, run, next_entry, get_node-apply,
}
use d_ro_cm.Registry.NodeTable.Sweep.{drop_stale}
use d_ro_cm.Registry.NodeTable.Invariant.{IsValid, apply-IsValid, run-IsValid, new_table-IsValid}
use d_ro_cm.Registry.HealthChecker.{Round, check, run_loop}
use d_ro_cm.Registry.HealthChecker.Entry.{IsRpc, Below, run_keeps, next_entry-Below}

get_node-increment :
    (t : NodeTable) (id : String)
    → IsUnique t.nodes
    → get_node (increment_all_missed_heartbeats t) id ≡ Option.map miss (get_node t id)
unfolding apply
get_node-increment t id u = get_node-apply t id increment u

-- The two steps of the checker, as the calls that they are.
pub check-run :
    (max : ℕ) (t : NodeTable) (between : List Call)
    → check max t between ≡ apply (run (apply t increment) between) (remove_stale max)
unfolding check apply
check-run max t between = refl

pub check-IsValid :
    (max : ℕ) (t : NodeTable) (between : List Call) → IsValid t → IsValid (check max t between)
check-IsValid max t between v =
    rw check-run
      (apply-IsValid _ (remove_stale max) (run-IsValid _ between (apply-IsValid t increment v)))

-- A turn on one node's entry: a property before the turn, after the increment, and after the sweep.
pub check_keeps :
    (max : ℕ) (id : String) (P Q R : Option NodeEntry → Type 0) (C : Call → Type 0)
    → ((o : Option NodeEntry) → P o → Q (Option.map miss o))
    → ((full : Bool) (o : Option NodeEntry) (c : Call) → C c → Q o → Q (next_entry full id o c))
    → ((o : Option NodeEntry) → Q o → R (drop_stale max o))
    → (t : NodeTable) (between : List Call) → IsValid t
    → All C between
    → P (get_node t id)
    → R (get_node (check max t between) id)
check_keeps max id P Q R C up keep down t between v ok p =
    let t₁ = apply t increment in
    let v₁ = apply-IsValid t increment v in
    let v₂ = run-IsValid t₁ between v₁ in
    let q : Q (get_node t₁ id) =
      rw (get_node-apply t id increment v.unique) (up (get_node t id) p) in
    rw (check-run, get_node-apply (run t₁ between) id (remove_stale max) v₂.unique)
      (down _ (run_keeps id Q C keep t₁ between v₁ ok q))

module _ (max : ℕ) (pos : 0 < max) (fits : max < u32_mod) (id : String) where
  miss-Below : (o : Option NodeEntry) → Below max o → Below (suc max) (Option.map miss o)
  unfolding add32
  miss-Below none b = tt
  miss-Below (some e) b = omega arith

  drop-Below : (n : ℕ) (o : Option NodeEntry) → Below n o → Below max (drop_stale max o)
  drop-Below n none b = tt
  drop-Below n (some e) b = ground arith

  -- After a turn no entry has reached the threshold.
  check-Below :
      (t : NodeTable) (between : List Call)
      → IsValid t
      → All IsRpc between
      → Below max (get_node t id)
      → Below max (get_node (check max t between) id)
  check-Below t between v ok b =
      check_keeps max id (Below max) (Below (suc max)) (Below max) IsRpc miss-Below
        (next_entry-Below (suc max) id (omega arith)) (drop-Below (suc max)) t between v ok b

-- All that the other threads do in a round.
abbrev pub During : (Call → Type 0) → Round → Type 0
During C r = All C r.while_asleep × All C r.between

-- The table after a round that runs to its end.
abbrev pub turn : ℕ → NodeTable → Round → NodeTable
turn max t r = check max (run t r.while_asleep) r.between

pub turn-IsValid : (max : ℕ) (t : NodeTable) (r : Round) → IsValid t → IsValid (turn max t r)
turn-IsValid max t r v =
    check-IsValid max (run t r.while_asleep) r.between (run-IsValid t r.while_asleep v)

pub run_loop-IsValid :
    (max : ℕ) (t : NodeTable) (rs : List Round) → IsValid t → IsValid (run_loop max t rs)
unfolding run_loop
run_loop-IsValid max t [] v = v
run_loop-IsValid max t (r ∷ rs) v =
    let rest = run_loop-IsValid max (turn max t r) rs (turn-IsValid max t r v) in
    elim (Bool-cases r.stop_at_head) [
      | inl e ↦ rw e v
      | inr e ↦ rw e (elim (Bool-cases r.stop_after_sleep) [
        | inl e' ↦ rw e' (run-IsValid t r.while_asleep v)
        | inr e' ↦ rw e' rest
      ])
    ]

-- Whenever the loop ends, no node is at the threshold.
pub run_loop-Below :
    (max : ℕ) (id : String)
    → 0 < max
    → max < u32_mod
    → (t : NodeTable) (rs : List Round) → IsValid t
    → All (During IsRpc) rs
    → Below max (get_node t id)
    → Below max (get_node (run_loop max t rs) id)
unfolding run_loop
run_loop-Below max id pos fits t [] v ok b = b
run_loop-Below max id pos fits t (r ∷ rs) v ok b =
    let asleep = run t r.while_asleep in
    let v₁ = run-IsValid t r.while_asleep v in
    let b₁ =
      run_keeps id (Below max) IsRpc (next_entry-Below max id pos) t r.while_asleep v ok.0.0 b in
    let b₂ = check-Below max pos fits id asleep r.between v₁ ok.0.1 b₁ in
    let rest = run_loop-Below max id pos fits (turn max t r) rs (turn-IsValid max t r v) ok.1 b₂ in
    ground (arith, b, b₁, rest)

pub new_table-Below :
    (max max_nodes : ℕ) (id : String) → Below max (get_node (new_table max_nodes) id)
unfolding new_table get_node find
new_table-Below max max_nodes id = tt

-- The counter of missed heartbeats never wraps: after any rounds of a checker on a new table, with
-- handlers' calls in between and a positive threshold in 32 bits, the next increment adds exactly
-- one to each node's counter.
pub increment_exact :
    (max max_nodes : ℕ) (id : String) (rs : List Round)
    → 0 < max
    → max < u32_mod
    → All (During IsRpc) rs
    → let t = run_loop max (new_table max_nodes) rs in
      get_node (increment_all_missed_heartbeats t) id
      ≡ Option.map
          (λ (e : NodeEntry). record e { missed_heartbeats = e.missed_heartbeats + 1 })
          (get_node t id)
increment_exact max max_nodes id rs pos fits ok =
    let t₀ = new_table max_nodes in
    let t = run_loop max t₀ rs in
    let v = new_table-IsValid max_nodes in
    get_node-increment t id (run_loop-IsValid max t₀ rs v).unique
    ∙ exact (get_node t id)
        (run_loop-Below max id pos fits t₀ rs v ok (new_table-Below max max_nodes id))
  where
    exact :
        (o : Option NodeEntry)
        → Below max o
        → Option.map miss o
          ≡ Option.map
              (λ (e : NodeEntry). record e { missed_heartbeats = e.missed_heartbeats + 1 })
              o
    exact none b = refl
    exact (some e) b = rw (add32_small e.missed_heartbeats 1 (omega arith))
