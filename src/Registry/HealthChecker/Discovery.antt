-- ===== src/Registry/HealthChecker/Discovery.antt =====
-- What clients discover of a node that has gone silent.
use d_ro_cm.Base.{
  ℕ, suc, ◌+◌, ◌<◌, String, ◌≡◌, refl, inl, false, subst, List, [], ◌∷◌, Option, none, some, All,
  length, Elem, arith, u32_mod,
}
use d_ro_cm.Registry.NodeTable.{NodeEntry, NodeTable, new_table, get_node, get_nodes_by_service}
use d_ro_cm.Registry.NodeTable.History.{run}
use d_ro_cm.Registry.NodeTable.Invariant.{IsValid, new_table-IsValid}
use d_ro_cm.Registry.NodeTable.Discover.{Elem-get_nodes_by_service}
use d_ro_cm.Registry.HealthChecker.{Round, run_loop, check}
use d_ro_cm.Registry.HealthChecker.Entry.{IsRpc, Below, Lags}
use d_ro_cm.Registry.HealthChecker.Timeout.{
  turn, turn-IsValid, run_loop-IsValid, run_loop-Below, new_table-Below, During,
}
use d_ro_cm.Registry.HealthChecker.Silence.{Lagging, IsSilentRound, turn-Lagging}

module _ (max : ℕ) (pos : 0 < max) (fits : max < u32_mod) (id : String) where
  -- Each silent round adds a miss, as long as the node is in the table.
  run_loop-Lagging :
      (n : ℕ) (t : NodeTable) (rs : List Round)
      → IsValid t
      → All (IsSilentRound id) rs
      → Lagging max pos fits id n max (get_node t id)
      → Lagging max pos fits id (n + length rs) max (get_node (run_loop max t rs) id)
  unfolding run_loop
  run_loop-Lagging n t [] v ok l =
      subst (λ (k : ℕ). Lagging max pos fits id k max (get_node t id)) (omega arith) l
  run_loop-Lagging n t (r ∷ rs) v ok l =
      let l' = turn-Lagging max pos fits id n t r v ok.0.2 l in
      let rest = run_loop-Lagging (suc n) (turn max t r) rs (turn-IsValid max t r v) ok.1 l' in
      rw (ok.0.0, ok.0.1)
        (subst
          (λ (k : ℕ). Lagging max pos fits id k max (get_node (run_loop max (turn max t r) rs) id))
          (omega arith) rest)

  none_missed : (o : Option NodeEntry) → Lags 0 o
  none_missed none = tt
  none_missed (some e) = omega arith

  -- In a valid table and with a positive threshold in 32 bits: a node below the threshold that
  -- neither registers nor beats for one completed round of the checker or more is not discovered
  -- afterwards, by whatever filter, even if it is still in the table.
  pub silent_undiscovered :
      (t : NodeTable) (rs : List Round) (filter : List String) (e : NodeEntry)
      → IsValid t
      → Below max (get_node t id)
      → All (IsSilentRound id) rs
      → 0 < length rs
      → e.info.node_id ≡ id
      → ¬ Elem e (get_nodes_by_service (run_loop max t rs) filter)
  silent_undiscovered t rs filter e v b ok some_round same h =
      let s = run_loop max t rs in
      let l = run_loop-Lagging 0 t rs v ok (none_missed (get_node t id), b) in
      let listed = (Elem-get_nodes_by_service s filter e (run_loop-IsValid max t rs v)).0 h in
      let held : get_node s id ≡ some e = subst (λ i. get_node s i ≡ some e) same listed.0 in
      let late : Lags (0 + length rs) (some e) = subst (Lags (0 + length rs)) held l.0 in
      absurd (omega (arith, late, listed.1.0))

no_Elem : {A : Type 0} (xs : List A) → ((a : A) → ¬ Elem a xs) → xs ≡ []
no_Elem [] h = refl
no_Elem (x ∷ xs) h = absurd (h x (inl refl))

-- A round without a call from anyone.
abbrev pub quiet : Round
quiet = record { stop_at_head = false; while_asleep = []; stop_after_sleep = false; between = [] }

-- Right after a check of the health checker no filter discovers any node, whatever calls handlers
-- have made since the table was new, if the threshold is positive and in 32 bits and no call comes
-- within the check.
pub check_undiscovers :
    (max max_nodes : ℕ) (rs : List Round) (filter : List String)
    → 0 < max
    → max < u32_mod
    → All (During IsRpc) rs
    → get_nodes_by_service (check max (run_loop max (new_table max_nodes) rs) []) filter ≡ []
unfolding run_loop run
check_undiscovers max max_nodes rs filter pos fits ok = no_Elem _ (λ e h.
    let t₀ = new_table max_nodes in
    let v = new_table-IsValid max_nodes in
    let id = e.info.node_id in
    silent_undiscovered max pos fits id (run_loop max t₀ rs) (quiet ∷ []) filter e
      (run_loop-IsValid max t₀ rs v)
      (run_loop-Below max id pos fits t₀ rs v ok (new_table-Below max max_nodes id))
      ((refl, refl, (tt, tt)), tt) (omega arith) refl h)
