-- ===== src/Registry/HealthChecker/Silence.antt =====
-- Removal of a node that has gone silent, and survival of one that has not.
use d_ro_cm.Base.{
  ℕ, suc, ◌+◌, ◌≤◌, ◌<◌, String, ◌≡◌, refl, ◌≢◌, ◌⊎◌, inl, inr, Bool, false, List, [], ◌∷◌, Option,
  none, some, All, length, eq_iff, arith, add32, u32_mod,
}
use mathlib.Core.Option
use d_ro_cm.Registry.NodeTable.{NodeEntry, NodeTable, get_node, miss}
use d_ro_cm.Registry.NodeTable.History.{
  Call, register, deregister, heartbeat, increment, remove_stale, apply, run, is_full, next_entry,
  get_node-apply,
}
use d_ro_cm.Registry.NodeTable.Sweep.{drop_stale}
use d_ro_cm.Registry.NodeTable.Invariant.{IsValid, apply-IsValid, run-IsValid}
use d_ro_cm.Registry.HealthChecker.{Round, check, run_loop}
use d_ro_cm.Registry.HealthChecker.Entry.{
  IsRpc, Spares, IsSilent, Below, Lags, IsAlive, run_keeps, next_entry-Below, next_entry-Lags,
  next_entry-IsAlive,
}
use d_ro_cm.Registry.HealthChecker.Timeout.{check_keeps, turn, turn-IsValid, During}

IsSilent-IsRpc : (id : String) (c : Call) → IsSilent id c → IsRpc c
IsSilent-IsRpc id (register info sid now) h = tt
IsSilent-IsRpc id (deregister k) h = tt
IsSilent-IsRpc id (heartbeat k cpu mem conn now) h = tt
IsSilent-IsRpc id increment h = h
IsSilent-IsRpc id (remove_stale max) h = h

-- A round that runs to its end and in which the node gives no sign of life.
abbrev pub IsSilentRound : String → Round → Type 0
IsSilentRound id r =
    (r.stop_at_head ≡ false) × (r.stop_after_sleep ≡ false) × During (IsSilent id) r

module _ (max : ℕ) (pos : 0 < max) (fits : max < u32_mod) (id : String) where
  -- At least `n` misses, and fewer than `m`.
  abbrev pub Lagging : ℕ → ℕ → Option NodeEntry → Type 0
  Lagging n m o = Lags n o × Below m o

  next_entry-Lagging :
      (n m : ℕ)
      → 0 < m
      → (full : Bool) (o : Option NodeEntry) (c : Call) → IsSilent id c
      → Lagging n m o
      → Lagging n m (next_entry full id o c)
  next_entry-Lagging n m p full o c h l = (
    next_entry-Lags n id full o c h l.0,
    next_entry-Below m id p full o c (IsSilent-IsRpc id c h) l.1,
  )

  miss-Lagging :
      (n : ℕ) (o : Option NodeEntry)
      → Lagging n max o
      → Lagging (suc n) (suc max) (Option.map miss o)
  unfolding add32
  miss-Lagging n none l = (tt, tt)
  miss-Lagging n (some e) l = omega arith

  drop-Lagging :
      (n : ℕ) (o : Option NodeEntry) → Lagging n (suc max) o → Lagging n max (drop_stale max o)
  drop-Lagging n none l = (tt, tt)
  drop-Lagging n (some e) l = ground arith

  pub turn-Lagging :
      (n : ℕ) (t : NodeTable) (r : Round)
      → IsValid t
      → During (IsSilent id) r
      → Lagging n max (get_node t id)
      → Lagging (suc n) max (get_node (turn max t r) id)
  turn-Lagging n t r v h l =
      check_keeps max id (Lagging n max) (Lagging (suc n) (suc max)) (Lagging (suc n) max)
        (IsSilent id) (miss-Lagging n) (next_entry-Lagging (suc n) (suc max) (omega arith))
        (drop-Lagging (suc n)) (run t r.while_asleep) r.between (run-IsValid t r.while_asleep v) h.1
        (run_keeps id (Lagging n max) (IsSilent id) (next_entry-Lagging n max pos) t r.while_asleep
          v h.0 l)

  Lagging-none : (n : ℕ) (o : Option NodeEntry) → max ≤ n → Lagging n max o → o ≡ none
  Lagging-none n none h l = refl
  Lagging-none n (some e) h l = absurd (omega arith)

  -- In a valid table and with a positive threshold in 32 bits: a node below the threshold that
  -- neither registers nor beats is out of the table once its misses and the completed rounds of the
  -- checker make up the threshold, whatever the other nodes do.
  pub run_loop_timeout :
      (n : ℕ) (t : NodeTable) (rs : List Round)
      → IsValid t
      → All (IsSilentRound id) rs
      → Lags n (get_node t id)
      → Below max (get_node t id)
      → max ≤ n + length rs
      → get_node (run_loop max t rs) id ≡ none
  unfolding run_loop
  run_loop_timeout n t [] v ok l b h = Lagging-none n _ (omega arith) (l, b)
  run_loop_timeout n t (r ∷ rs) v ok l b h =
      let l' = turn-Lagging n t r v ok.0.2 (l, b) in
      rw (ok.0.0, ok.0.1)
        (run_loop_timeout (suc n) (turn max t r) rs (turn-IsValid max t r v) ok.1 l'.0 l'.1
          (omega arith))

-- A heartbeat of the node.
abbrev pub IsBeat : String → Call → Type 0
IsBeat id (heartbeat node_id cpu mem connections now) = node_id ≡ id
IsBeat id _ = ⊥

abbrev pub Beats : String → List Call → Type 0
Beats id [] = ⊥
Beats id (c ∷ cs) = IsBeat id c ⊎ Beats id cs

pub beat-IsAlive :
    (id : String) (n : ℕ) (full : Bool) (o : Option NodeEntry) (c : Call)
    → IsBeat id c
    → IsAlive n o
    → IsAlive 0 (next_entry full id o c)
beat-IsAlive id n full none c h a = absurd a
beat-IsAlive id n full (some e) (heartbeat k cpu mem conn now) h a = ground (arith, eq_iff k id)
beat-IsAlive id n full (some e) c h a = absurd h

-- After a heartbeat, and whatever follows it but a deregistration, the node has missed none.
run-Beats :
    (id : String) (n : ℕ) (t : NodeTable) (cs : List Call)
    → IsValid t
    → All (Spares id) cs
    → Beats id cs
    → IsAlive n (get_node t id)
    → IsAlive 0 (get_node (run t cs) id)
unfolding run
run-Beats id n t [] v ok b a = absurd b
run-Beats id n t (c ∷ cs) v ok (inl b) a =
    run_keeps id (IsAlive 0) (Spares id) (next_entry-IsAlive 0 id) (apply t c) cs
      (apply-IsValid t c v) ok.1
      (rw (get_node-apply t id c v.unique) (beat-IsAlive id n (is_full t) (get_node t id) c b a))
run-Beats id n t (c ∷ cs) v ok (inr b) a =
    run-Beats id n (apply t c) cs (apply-IsValid t c v) ok.1 b (
      rw (get_node-apply t id c v.unique)
        (next_entry-IsAlive n id (is_full t) (get_node t id) c ok.0 a))

-- Started with at most `n` misses, the node is heard from (while the checker sleeps) before its
-- misses reach the threshold.
abbrev pub IsHeard : ℕ → String → ℕ → List Round → Type 0
IsHeard max id n [] = Unit
IsHeard max id n (r ∷ rs) =
    (Beats id r.while_asleep × (1 < max) × IsHeard max id 1 rs)
    ⊎ ((suc n < max) × IsHeard max id (suc n) rs)

module _ (max : ℕ) (fits : max < u32_mod) (id : String) where
  miss-IsAlive :
      (n : ℕ)
      → suc n < max
      → (o : Option NodeEntry) → IsAlive n o
      → IsAlive (suc n) (Option.map miss o)
  unfolding add32
  miss-IsAlive n h none a = a
  miss-IsAlive n h (some e) a = omega arith

  drop-IsAlive :
      (n : ℕ) → n < max → (o : Option NodeEntry) → IsAlive n o → IsAlive n (drop_stale max o)
  drop-IsAlive n h none a = a
  drop-IsAlive n h (some e) a = ground arith

  check-IsAlive :
      (n : ℕ) (t : NodeTable) (between : List Call)
      → suc n < max
      → IsValid t
      → All (Spares id) between
      → IsAlive n (get_node t id)
      → IsAlive (suc n) (get_node (check max t between) id)
  check-IsAlive n t between h v ok a =
      check_keeps max id (IsAlive n) (IsAlive (suc n)) (IsAlive (suc n)) (Spares id)
        (miss-IsAlive n h) (next_entry-IsAlive (suc n) id) (drop-IsAlive (suc n) h) t between v ok a

  asleep-IsAlive :
      (n : ℕ) (t : NodeTable) (r : Round)
      → IsValid t
      → During (Spares id) r
      → IsAlive n (get_node t id)
      → IsAlive n (get_node (run t r.while_asleep) id)
  asleep-IsAlive n t r v ok a =
      run_keeps id (IsAlive n) (Spares id) (next_entry-IsAlive n id) t r.while_asleep v ok.0 a

  IsAlive-some : (n : ℕ) (o : Option NodeEntry) → IsAlive n o → o ≢ none
  IsAlive-some n none a e = a
  IsAlive-some n (some x) a e = cc

  -- In a valid table and with a threshold in 32 bits: a node that is there, is heard from while the
  -- checker sleeps before its misses reach the threshold, and is not deregistered, is never
  -- removed, however the handlers' calls interleave with the checker and however the loop is
  -- stopped.
  pub run_loop_survives :
      (n : ℕ) (t : NodeTable) (rs : List Round)
      → IsValid t
      → All (During (Spares id)) rs
      → IsHeard max id n rs
      → IsAlive n (get_node t id)
      → get_node (run_loop max t rs) id ≢ none
  unfolding run_loop
  run_loop_survives n t [] v ok h a = IsAlive-some n _ a
  run_loop_survives n t (r ∷ rs) v ok (inl (b, two, later)) a =
      let asleep = run t r.while_asleep in
      let v₁ = run-IsValid t r.while_asleep v in
      let a₁ = run-Beats id n t r.while_asleep v ok.0.0 b a in
      let rest =
        run_loop_survives 1 (turn max t r) rs (turn-IsValid max t r v) ok.1 later
          (check-IsAlive 0 asleep r.between two v₁ ok.0.1 a₁) in
      ground (arith, IsAlive-some n _ a, IsAlive-some 0 _ a₁, rest)
  run_loop_survives n t (r ∷ rs) v ok (inr (room, later)) a =
      let asleep = run t r.while_asleep in
      let v₁ = run-IsValid t r.while_asleep v in
      let a₁ = asleep-IsAlive n t r v ok.0 a in
      let rest =
        run_loop_survives (suc n) (turn max t r) rs (turn-IsValid max t r v) ok.1 later
          (check-IsAlive n asleep r.between room v₁ ok.0.1 a₁) in
      ground (arith, IsAlive-some n _ a, IsAlive-some n _ a₁, rest)
