-- ===== src/Main/RegistryServer/Forgets.antt =====
-- What the registry's process knows at its end of a node that has gone silent.
use d_ro_cm.Base.{
  ℕ, ◌≤◌, ◌<◌, String, ◌≡◌, refl, ◌⊎◌, inl, inr, true, false, List, [], ◌∷◌, ◌++◌, Option, none,
  some, All, All-append, All-mono, length, arith, u32_mod,
}
use d_ro_cm.Registry.NodeTable.{NodeEntry, NodeTable, get_node, new_table}
use d_ro_cm.Registry.NodeTable.History.{run}
use d_ro_cm.Registry.NodeTable.Invariant.{IsValid, new_table-IsValid, run-IsValid}
use d_ro_cm.Registry.Service.{RegistryService}
use d_ro_cm.Registry.HealthChecker.{Round, run_loop}
use d_ro_cm.Registry.HealthChecker.Entry.{IsRpc, Below, Lags, run_keeps, next_entry-Below}
use d_ro_cm.Registry.HealthChecker.Timeout.{
  turn, During, run_loop-IsValid, run_loop-Below, new_table-Below,
}
use d_ro_cm.Registry.HealthChecker.Silence.{IsSilentRound, run_loop_timeout}
use d_ro_cm.Deployment.Unknown.{IsNoRegistration, next_entry-none}
use d_ro_cm.Logger.{Spdlog, Logger}
use d_ro_cm.Logger.Lifecycle.{IsFree, IsWritable}
use d_ro_cm.Main.{Step, ReturnsWith}
use d_ro_cm.Main.RegistryServer.{Inputs, Process, started, main}
use d_ro_cm.Main.RegistryServer.Order.{final_table, IsStopped, main_stops}

-- A round that runs to its end, with the handlers' calls in it.
abbrev pub IsFull : Round → Type 0
IsFull r = (r.stop_at_head ≡ false) × (r.stop_after_sleep ≡ false) × During IsRpc r

run_loop-append :
    (max : ℕ) (t : NodeTable) (rs qs : List Round)
    → All (λ (r : Round). (r.stop_at_head ≡ false) × (r.stop_after_sleep ≡ false)) rs
    → run_loop max t (rs ++ qs) ≡ run_loop max (run_loop max t rs) qs
unfolding run_loop
run_loop-append max t [] qs full = refl
run_loop-append max t (r ∷ rs) qs full =
    rw (full.0.0, full.0.1) (run_loop-append max (turn max t r) rs qs full.1)

-- The round in which the thread reads that it shall stop, before or after its sleep.
abbrev pub IsLast : String → Round → Type 0
IsLast id r =
    (r.stop_at_head ≡ true)
    ⊎ ((r.stop_at_head ≡ false)
        × (r.stop_after_sleep ≡ true)
        × All (IsNoRegistration id) r.while_asleep)

last-none :
    (max : ℕ) (id : String) (t : NodeTable) (r : Round)
    → IsValid t
    → IsLast id r
    → get_node t id ≡ none
    → get_node (run_loop max t (r ∷ [])) id ≡ none
unfolding run_loop
last-none max id t r v (inl head) absent = rw head absent
last-none max id t r v (inr (head, slept, alone)) absent =
    rw (head, slept)
      (run_keeps id (λ o. o ≡ none) (IsNoRegistration id) (next_entry-none id) t r.while_asleep v
        alone absent)

-- The rounds of the thread: full ones, then three or more in which the node is silent, then the last.
pub record IsForgetful (id : String) (i : Inputs) : Type 0 where
  pub earlier : List Round
  pub silent : List Round
  pub last : Round
  pub rounds : i.rounds ≡ earlier ++ silent ++ last ∷ []
  pub before : All IsRpc i.before_checker
  pub full : All IsFull earlier
  pub still : All (IsSilentRound id) silent
  pub enough : 3 ≤ length silent
  pub ends : IsLast id last

fits : 3 < u32_mod
fits = omega arith

none_missed : (o : Option NodeEntry) → Lags 0 o
none_missed none = tt
none_missed (some e) = omega arith

-- Neither a full nor a silent round stops the thread.
abbrev IsUnstopped : Round → Type 0
IsUnstopped r = (r.stop_at_head ≡ false) × (r.stop_after_sleep ≡ false)

final_table-none :
    (id : String) (i : Inputs) → IsForgetful id i → get_node (final_table i) id ≡ none
final_table-none id i f =
    let t₀ = run (new_table 10000) i.before_checker in
    let v₀ = run-IsValid (new_table 10000) i.before_checker (new_table-IsValid 10000) in
    let b₀ =
      run_keeps id (Below 3) IsRpc (next_entry-Below 3 id (omega arith)) (new_table 10000)
        i.before_checker (new_table-IsValid 10000) f.before (new_table-Below 3 10000 id) in
    let t₁ = run_loop 3 t₀ f.earlier in
    let v₁ = run_loop-IsValid 3 t₀ f.earlier v₀ in
    let rpc = All-mono IsFull (During IsRpc) (λ r full. full.2) f.earlier f.full in
    let b₁ = run_loop-Below 3 id (omega arith) fits t₀ f.earlier v₀ rpc b₀ in
    let t₂ = run_loop 3 t₁ f.silent in
    let v₂ = run_loop-IsValid 3 t₁ f.silent v₁ in
    let gone =
      run_loop_timeout 3 (omega arith) fits id 0 t₁ f.silent v₁ f.still
        (none_missed (get_node t₁ id)) b₁ (omega (arith, f.enough)) in
    let run₁ = All-mono IsFull IsUnstopped (λ r full. (full.0, full.1)) f.earlier f.full in
    let run₂ =
      All-mono (IsSilentRound id) IsUnstopped (λ r still. (still.0, still.1)) f.silent f.still in
    let run₁₂ = All-append IsUnstopped f.earlier f.silent run₁ run₂ in
    rw
      (
        f.rounds,
        run_loop-append 3 t₀ (f.earlier ++ f.silent) (f.last ∷ []) run₁₂,
        run_loop-append 3 t₀ f.earlier f.silent run₁,
      )
      (last-none 3 id t₂ f.last v₂ f.ends gone)

-- The service does not know the node.
abbrev pub LacksNode : {R : Type 0} → String → Process R → Type 0
LacksNode id p =
    (s : RegistryService) × (p.registry_service ≡ some s) × (get_node s.node_table id ≡ none)

returns-LacksNode :
    {R : Type 0} (id : String) (t : NodeTable) (end : Step (Process R))
    → get_node t id ≡ none
    → ReturnsWith 0 (IsStopped t) end
    → ReturnsWith 0 (LacksNode id) end
returns-LacksNode id t (Step.exits code p) absent (zero_code, stopped) =
    (zero_code, (record { node_table = t; is_running = false }, stopped.3, absent))
returns-LacksNode id t (Step.goes p) absent r = r
returns-LacksNode id t Step.null_dereference absent r = r
returns-LacksNode id t Step.terminates absent r = r
returns-LacksNode id t Step.blocks absent r = r

-- If the registry's main starts (the logger's name is free, its file can be written, the address
-- can be bound) and its checker's thread runs, after any full rounds, three or more in which a node
-- neither registers nor beats, and then the round in which it is stopped, in which the node does
-- not register either, then main returns 0 with a table that does not hold the node.
pub main_forgets :
    {R : Type 0} (spdlog : Spdlog R) (i : Inputs) (l : Logger R) (id : String)
    → IsFree spdlog l
    → IsWritable i.files
    → i.is_bound ≡ true
    → IsForgetful id i
    → ReturnsWith 0 (LacksNode id) (main spdlog i (started l)).1
main_forgets spdlog i l id free writable bound f =
    returns-LacksNode id (final_table i) (main spdlog i (started l)).1 (final_table-none id i f)
      (main_stops spdlog i l free writable bound).0
