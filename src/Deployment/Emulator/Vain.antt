-- ===== src/Deployment/Emulator/Vain.antt =====
-- The turns of the emulator's thread at a registry that does not know its node.
use d_ro_cm.Base.{
  Bool, if◌then◌else◌, ℕ, ◌+◌, ◌≤◌, ◌<◌, String, ◌≡◌, refl, ◌≢◌, ◌∙◌, ap, true, false, List, [],
  ◌∷◌, All, length, none, arith,
}
use d_ro_cm.Grpc.{Status, is_ok}
use d_ro_cm.Proto.{empty_heartbeat_response}
use d_ro_cm.Registry.NodeTable.{get_node}
use d_ro_cm.Registry.NodeTable.History.{Call}
use d_ro_cm.Registry.NodeTable.Invariant.{IsValid, run-IsValid}
use d_ro_cm.Registry.HealthChecker.Entry.{run_keeps}
use d_ro_cm.Registry.Service.{RegistryService, heartbeat}
use d_ro_cm.Registry.Service.Outcomes.{heartbeat_unknown}
use d_ro_cm.Lidar.Heartbeat.{State, Turn, turn, request}
use d_ro_cm.Deployment.{Delivery, answer, served}
use d_ro_cm.Deployment.Quiet.{IsFair}
use d_ro_cm.Deployment.Unknown.{IsNoRegistration, next_entry-none}
use d_ro_cm.Deployment.Emulator.{
  Meeting, World, after, register_answer, heartbeat_answer, meet, live, running_turn, pending,
}

-- The thread runs on, its heartbeat arrives or ends with a status other than OK, and nobody else
-- registers the node.
abbrev pub IsAlone : String → Meeting → Type 0
IsAlone node_id e =
    All (IsNoRegistration node_id) e.others
    × All (IsNoRegistration node_id) e.between
    × (e.running ≡ true)
    × IsFair e.heartbeat_delivery

-- The thread beats on, with so many failures, at a registry that runs, with a valid table that does
-- not know the node.
pub record Failing (node_id : String) (failures : ℕ) (x : World) : Type 0 where
  pub wants : x.thread.needs_reregister ≡ false
  pub counted : x.thread.consecutive_failures ≡ failures
  pub valid : IsValid x.service.node_table
  pub unknown : get_node x.service.node_table node_id ≡ none
  pub runs : x.service.is_running ≡ true

answer_refused :
    {R : Type 0} (empty : R) (d : Delivery) (resp : R) (st : Status)
    → IsFair d
    → is_ok st ≡ false
    → is_ok (answer (λ st r. r) empty d (resp, st)).0 ≡ false
answer_refused empty Delivery.delivered resp st fair h = h
answer_refused empty (Delivery.request_lost lost) resp st fair h = fair
answer_refused empty (Delivery.answer_lost lost) resp st fair h = fair

served_same : (d : Delivery) (s s' : RegistryService) → s' ≡ s → served d s s' ≡ s
served_same Delivery.delivered s s' h = h
served_same (Delivery.request_lost lost) s s' h = refl
served_same (Delivery.answer_lost lost) s s' h = h

if_set : {A : Type 0} (b : Bool) (x y : A) → b ≡ true → (if b then x else y) ≡ x
if_set b x y h = rw h refl

module _ (node_id : String) (port : ℕ) (named : node_id ≢ "") where
  pub after-none :
      (s : RegistryService) (cs : List Call)
      → IsValid s.node_table
      → All (IsNoRegistration node_id) cs
      → get_node s.node_table node_id ≡ none
      → get_node (after cs s).node_table node_id ≡ none
  after-none s cs v ok absent =
      run_keeps node_id (λ o. o ≡ none) (IsNoRegistration node_id) (next_entry-none node_id)
        s.node_table cs v ok absent

  beats_in_vain :
      (s : State) (u : Turn)
      → s.needs_reregister ≡ false
      → is_ok u.heartbeat_answer.0 ≡ false
      → ((turn node_id port s u).consecutive_failures ≡ s.consecutive_failures + 1)
        × (s.consecutive_failures < 4 → (turn node_id port s u).needs_reregister ≡ false)
        × (4 ≤ s.consecutive_failures → (turn node_id port s u).needs_reregister ≡ true)
  unfolding turn
  beats_in_vain s u n h = (ground arith, (λ m. ground arith), (λ m. ground arith))

  -- The registry as the heartbeat of a turn without a registration finds it.
  abbrev met : World → Meeting → RegistryService
  met x e = after e.between (after e.others x.service)

  met-none :
      (n : ℕ) (x : World) (e : Meeting)
      → Failing node_id n x
      → IsAlone node_id e
      → IsValid (met x e).node_table × (get_node (met x e).node_table node_id ≡ none)
  met-none n x e f alone =
      let v = run-IsValid x.service.node_table e.others f.valid in
      let absent = after-none x.service e.others f.valid alone.0 f.unknown in
      (
        run-IsValid (after e.others x.service).node_table e.between v,
        after-none (after e.others x.service) e.between v alone.1 absent,
      )

  refused :
      (x : World) (e : Meeting)
      → x.thread.needs_reregister ≡ false
      → get_node (met x e).node_table node_id ≡ none
      → IsFair e.heartbeat_delivery
      → is_ok (heartbeat_answer node_id port x e).0 ≡ false
  refused x e n absent fair =
      let q = request node_id port x.thread (pending e) in
      let (_, code, same) =
        heartbeat_unknown (met x e) q empty_heartbeat_response e.later named absent in
      let h = heartbeat (met x e) q empty_heartbeat_response e.later in
      rw n (
        answer_refused empty_heartbeat_response e.heartbeat_delivery h.1 h.2 fair
          (ground (arith, code)))

  unchanged :
      (x : World) (e : Meeting)
      → x.thread.needs_reregister ≡ false
      → get_node (met x e).node_table node_id ≡ none
      → (meet node_id port x e).service ≡ met x e
  unfolding meet
  unchanged x e n absent =
      let q = request node_id port x.thread (pending e) in
      let (_, code, same) =
        heartbeat_unknown (met x e) q empty_heartbeat_response e.later named absent in
      rw n (
        served_same e.heartbeat_delivery (met x e)
          (heartbeat (met x e) q empty_heartbeat_response e.later).0 same)

  meet_in_vain :
      (n : ℕ) (x : World) (e : Meeting)
      → Failing node_id n x
      → IsAlone node_id e
      → ((meet node_id port x e).service ≡ met x e)
        × ((meet node_id port x e).thread.consecutive_failures ≡ n + 1)
        × (n < 4 → (meet node_id port x e).thread.needs_reregister ≡ false)
        × (4 ≤ n → (meet node_id port x e).thread.needs_reregister ≡ true)
  unfolding meet
  meet_in_vain n x e f alone =
      let (_, absent) = met-none n x e f alone in
      let failed = refused x e f.wants absent alone.3 in
      let u =
        running_turn e (register_answer node_id port x e) (heartbeat_answer node_id port x e) in
      let (counts, keeps, asks) = beats_in_vain x.thread u f.wants failed in
      (
        unchanged x e f.wants absent,
        counts ∙ ap (λ k. k + 1) f.counted,
        (λ m. keeps (omega (arith, f.counted))),
        (λ m. asks (omega (arith, f.counted))),
      )

  meet-Failing :
      (n : ℕ) (x : World) (e : Meeting)
      → n < 4
      → Failing node_id n x
      → IsAlone node_id e
      → Failing node_id (n + 1) (meet node_id port x e)
  meet-Failing n x e low f alone =
      let (v, absent) = met-none n x e f alone in
      let (same, counts, keeps, asks) = meet_in_vain n x e f alone in
      record {
        wants = keeps low;
        counted = counts;
        valid = rw same v;
        unknown = rw same absent;
        runs = ap (λ (s : RegistryService). s.is_running) same ∙ f.runs;
      }

  -- A loop that runs goes on after the turn.
  pub live_on :
      (x : World) (e : Meeting) (es : List Meeting)
      → e.running ≡ true
      → live node_id port x (e ∷ es) ≡ live node_id port (meet node_id port x e) es
  unfolding live
  live_on x e es on = if_set e.running (live node_id port (meet node_id port x e) es) x on

  pub live_none : (x : World) → live node_id port x [] ≡ x
  unfolding live
  live_none x = refl

  -- After five failures the thread wants to register.
  pub live_in_vain :
      (n : ℕ) (x : World) (es : List Meeting)
      → n < 5
      → n + length es ≡ 5
      → Failing node_id n x
      → All (IsAlone node_id) es
      → ((live node_id port x es).thread.needs_reregister ≡ true)
        × ((live node_id port x es).service.is_running ≡ true)
        × IsValid (live node_id port x es).service.node_table
        × (get_node (live node_id port x es).service.node_table node_id ≡ none)
  live_in_vain n x [] low h f alone = absurd (omega arith)
  live_in_vain n x (e ∷ []) low h f alone =
      let (v, absent) = met-none n x e f alone.0 in
      let (same, counts, keeps, asks) = meet_in_vain n x e f alone.0 in
      rw (live_on x e [] alone.0.2, live_none (meet node_id port x e))
        (
          asks (omega arith),
          ap (λ (s : RegistryService). s.is_running) same ∙ f.runs,
          rw same v,
          rw same absent,
        )
  live_in_vain n x (e ∷ e' ∷ es) low h f alone = rw (live_on x e (e' ∷ es) alone.0.2) (
      live_in_vain (n + 1) (meet node_id port x e) (e' ∷ es) (omega arith) (omega arith)
        (meet-Failing n x e (omega arith) f alone.0) alone.1)
