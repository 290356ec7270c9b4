-- ===== src/Deployment/Known.antt =====
-- A node whose heartbeats reach the registry in time stays known there, whether or not their answers
-- come back.
use d_ro_cm.Base.{
  ℕ, ◌+◌, ◌<◌, ◌≤◌, false, length, String, ◌≡◌, refl, ◌≢◌, Bool, List, [], ◌∷◌, Option, none, some,
  All, All-mono, eq_iff, arith, add32,
}
use d_ro_cm.Grpc.{Status, is_ok}
use d_ro_cm.Proto.{RegisterResponse, HeartbeatRequest}
use d_ro_cm.Registry.NodeTable.{NodeEntry, NodeTable, get_node}
use d_ro_cm.Registry.NodeTable.History.{Call, apply, run, is_full, next_entry, get_node-apply}
use d_ro_cm.Registry.NodeTable.Invariant.{IsValid, apply-IsValid, run-IsValid}
use d_ro_cm.Registry.HealthChecker.Entry.{IsAlive}
use d_ro_cm.Registry.HealthChecker.Silence.{beat-IsAlive}
use d_ro_cm.Node.Loop.{Exit, heartbeat_request}
use d_ro_cm.Node.Healing.{Transport}
use d_ro_cm.Deployment.{Delivery, Meeting, World, registrations, pending, live}
use d_ro_cm.Deployment.Quiet.{IsFair, IsSteady, quiet, outlast, live_lem, outlast_sends}
use d_ro_cm.Node.Sent.{heartbeats}
use d_ro_cm.Deployment.Table.{calls, arrived, call_of, beaten-run, run-append}

-- The request reaches the registry; an answer that is lost shows as a failure.
abbrev pub Reaches : Delivery → Type 0
Reaches (Delivery.request_lost st) = ⊥
Reaches Delivery.delivered = Unit
Reaches (Delivery.answer_lost st) = is_ok st ≡ false

-- A call of the handlers that does not deregister the node, or of a checker with this threshold.
abbrev pub IsUsual : ℕ → String → Call → Type 0
IsUsual max id (Call.deregister k) = k ≢ id
IsUsual max id (Call.remove_stale m) = m ≡ max
IsUsual max id _ = Unit

-- How often the checker counts a miss.
abbrev misses : Call → ℕ
misses Call.increment = 1
misses _ = 0

abbrev pub increments : List Call → ℕ
increments [] = 0
increments (c ∷ cs) = misses c + increments cs

module _ (max : ℕ) (id : String) where
  next_entry_usual :
      (n : ℕ) (full : Bool) (o : Option NodeEntry) (c : Call)
      → IsUsual max id c
      → n < max
      → IsAlive n o
      → IsAlive (n + misses c) (next_entry full id o c)
  unfolding add32
  next_entry_usual n full none c u h a = absurd a
  next_entry_usual n full (some e) Call.increment u h a = omega arith
  next_entry_usual n full (some e) (Call.remove_stale m) u h a = ground arith
  next_entry_usual n full (some e) (Call.deregister k) u h a = ground (arith, eq_iff k id)
  next_entry_usual n full (some e) (Call.heartbeat k cpu mem conn now) u h a = ground arith
  next_entry_usual n full (some e) (Call.register info sid now) u h a = omega arith

  IsAlive-mono : (n m : ℕ) (o : Option NodeEntry) → n ≤ m → IsAlive n o → IsAlive m o
  IsAlive-mono n m none h a = a
  IsAlive-mono n m (some e) h a = omega arith

  -- Fewer misses than the threshold leave the node in the table.
  pub run_usual :
      (n m : ℕ) (t : NodeTable) (cs : List Call)
      → IsValid t
      → All (IsUsual max id) cs
      → n + increments cs ≤ m
      → m < max
      → IsAlive n (get_node t id)
      → IsAlive m (get_node (run t cs) id)
  unfolding run
  run_usual n m t [] v u h b a = IsAlive-mono n m (get_node t id) (omega arith) a
  run_usual n m t (c ∷ cs) v u h b a =
      run_usual (n + misses c) m (apply t c) cs (apply-IsValid t c v) u.1 (omega arith) b (
        rw (get_node-apply t id c v.unique)
          (next_entry_usual n (is_full t) (get_node t id) c u.0 (omega arith) a))

-- The heartbeat reaches the registry, after fewer misses than the threshold since the last one.
abbrev pub IsInTime : ℕ → String → Meeting → Type 0
IsInTime max id e =
    Reaches e.heartbeat_delivery × All (IsUsual max id) e.others × (increments e.others < max)

-- The node is known, without a miss, to a registry with a valid table.
abbrev pub IsFresh : World → Type 0
IsFresh x =
    IsValid x.service.node_table × IsAlive 0 (get_node x.service.node_table x.loop.node.node_id)

arrived_fresh :
    (id : String) (m : ℕ) (t : NodeTable) (d : Delivery) (r : HeartbeatRequest) (now : ℕ)
    → Reaches d
    → r.node_id ≡ id
    → IsValid t
    → IsAlive m (get_node t id)
    → IsAlive 0 (get_node (run t (arrived d (call_of r now))) id)
unfolding run
arrived_fresh id m t (Delivery.request_lost st) r now ok same v a = absurd ok
arrived_fresh id m t Delivery.delivered r now ok same v a =
    rw (get_node-apply t id (call_of r now) v.unique)
      (beat-IsAlive id m (is_full t) (get_node t id) (call_of r now) same a)
arrived_fresh id m t (Delivery.answer_lost st) r now ok same v a =
    rw (get_node-apply t id (call_of r now) v.unique)
      (beat-IsAlive id m (is_full t) (get_node t id) (call_of r now) same a)

Reaches-IsFair : (d : Delivery) → Reaches d → IsFair d
Reaches-IsFair Delivery.delivered r = tt
Reaches-IsFair (Delivery.answer_lost st) r = r
Reaches-IsFair (Delivery.request_lost st) r = absurd r

module _ (w : Transport) (received : Status → RegisterResponse → RegisterResponse) (max : ℕ) where
  quiet_known :
      (x : World) (e : Meeting)
      → IsSteady x.loop
      → x.loop.node.node_id ≢ ""
      → IsInTime max x.loop.node.node_id e
      → IsFresh x
      → IsFresh (quiet w received x e)
  quiet_known x e steady named (ok, usual, few) (v, a) =
      let id = x.loop.node.node_id in
      let t = x.service.node_table in
      let r = heartbeat_request x.loop.node (pending e) in
      let v' = run-IsValid t e.others v in
      let a' = run_usual max id 0 (increments e.others) t e.others v usual (omega arith) few a in
      rw (beaten-run x e named steady.1) (
        run-IsValid t (calls x e) v,
        rw (run-append t e.others (arrived e.heartbeat_delivery (call_of r e.now))) (
            arrived_fresh id (increments e.others) (run t e.others) e.heartbeat_delivery r e.now ok
              refl v' a'),
      )

  outlast_known :
      (x : World) (es : List Meeting)
      → IsSteady x.loop
      → x.loop.node.node_id ≢ ""
      → All (IsInTime max x.loop.node.node_id) es
      → IsFresh x
      → IsFresh (outlast w received x es)
  outlast_known x [] steady named ok f = f
  outlast_known x (e ∷ es) steady named ok f =
      outlast_known (quiet w received x e) es steady named ok.1
        (quiet_known x e steady named ok.0 f)

  -- A node with a name and a stub, which is not reconnecting and whose entry in a valid table has
  -- missed no heartbeat, stays known without a miss and goes on, sending one heartbeat in each turn
  -- and no registration, if each of its heartbeats reaches the registry, whether or not its answer
  -- comes back, and the checker counts fewer misses than its threshold between two of them,
  -- whatever else the handlers do but deregister it.
  pub live_known :
      (x : World) (es : List Meeting)
      → IsSteady x.loop
      → x.loop.node.node_id ≢ ""
      → All (IsInTime max x.loop.node.node_id) es
      → IsFresh x
      → let (x', exit) = live w received x es in
        (exit ≡ Exit.next)
        × IsAlive 0 (get_node x'.service.node_table x.loop.node.node_id)
        × (heartbeats x'.loop.events ≡ heartbeats x.loop.events + length es)
        × (registrations x'.loop.events ≡ registrations x.loop.events)
  live_known x es steady named ok f =
      let fair =
        All-mono (IsInTime max x.loop.node.node_id) (λ (e : Meeting). IsFair e.heartbeat_delivery)
          (λ e i. Reaches-IsFair e.heartbeat_delivery i.0) es ok in
      let (beats, regs, node) = outlast_sends w received x es in
      let (_, alive) = outlast_known x es steady named ok f in
      rw (live_lem w received x es steady fair) (refl, rw node at alive, beats, regs)
