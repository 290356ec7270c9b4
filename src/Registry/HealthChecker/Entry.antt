-- ===== src/Registry/HealthChecker/Entry.antt =====
-- One node's entry under the calls of other threads, between the steps of the health checker.
use d_ro_cm.Base.{
  ℕ, ◌≤◌, ◌<◌, String, ◌≢◌, Bool, List, [], ◌∷◌, Option, none, some, All, eq_iff, arith,
}
use d_ro_cm.Registry.NodeTable.{NodeEntry, NodeTable, get_node}
use d_ro_cm.Registry.NodeTable.History.{
  Call, register, deregister, heartbeat, increment, remove_stale, apply, run, is_full, next_entry,
  get_node-apply,
}
use d_ro_cm.Registry.NodeTable.Invariant.{IsValid, apply-IsValid}

-- The calls that the RPC handlers make; the other two are the health checker's own.
abbrev pub IsRpc : Call → Type 0
IsRpc increment = ⊥
IsRpc (remove_stale max) = ⊥
IsRpc _ = Unit

-- A handler's call that leaves the node registered.
abbrev pub Spares : String → Call → Type 0
Spares id (deregister node_id) = node_id ≢ id
Spares id c = IsRpc c

-- A handler's call that is no sign of life from the node.
abbrev pub IsSilent : String → Call → Type 0
IsSilent id (register info session_id now) = info.node_id ≢ id
IsSilent id (heartbeat node_id cpu mem connections now) = node_id ≢ id
IsSilent id c = IsRpc c

-- A property of the entry that each call keeps is kept by a sequence of calls.
pub run_keeps :
    (id : String) (P : Option NodeEntry → Type 0) (C : Call → Type 0)
    → ((full : Bool) (o : Option NodeEntry) (c : Call) → C c → P o → P (next_entry full id o c))
    → (t : NodeTable) (cs : List Call) → IsValid t
    → All C cs
    → P (get_node t id)
    → P (get_node (run t cs) id)
unfolding run
run_keeps id P C keep t [] v ok p = p
run_keeps id P C keep t (c ∷ cs) v ok p =
    run_keeps id P C keep (apply t c) cs (apply-IsValid t c v) ok.1
      (rw (get_node-apply t id c v.unique) (keep (is_full t) (get_node t id) c ok.0 p))

-- The entry, if there is one, has missed fewer than `n` heartbeats; at least `n`; it is there and
-- has missed at most `n`.
abbrev pub Below : ℕ → Option NodeEntry → Type 0
Below n none = Unit
Below n (some e) = e.missed_heartbeats < n

abbrev pub Lags : ℕ → Option NodeEntry → Type 0
Lags n none = Unit
Lags n (some e) = n ≤ e.missed_heartbeats

abbrev pub IsAlive : ℕ → Option NodeEntry → Type 0
IsAlive n none = ⊥
IsAlive n (some e) = e.missed_heartbeats ≤ n

pub next_entry-Below :
    (n : ℕ) (id : String)
    → 0 < n
    → (full : Bool) (o : Option NodeEntry) (c : Call) → IsRpc c
    → Below n o
    → Below n (next_entry full id o c)
next_entry-Below n id pos full none (register info sid now) r b = ground arith
next_entry-Below n id pos full (some e) (register info sid now) r b = b
next_entry-Below n id pos full none c r b = ground arith
next_entry-Below n id pos full (some e) c r b = ground arith

pub next_entry-Lags :
    (n : ℕ) (id : String) (full : Bool) (o : Option NodeEntry) (c : Call)
    → IsSilent id c
    → Lags n o
    → Lags n (next_entry full id o c)
next_entry-Lags n id full none (register info sid now) r b = ground (arith, eq_iff info.node_id id)
next_entry-Lags n id full (some e) (register info sid now) r b = b
next_entry-Lags n id full none (heartbeat k cpu mem conn now) r b = ground arith
next_entry-Lags n id full (some e) (heartbeat k cpu mem conn now) r b = ground (arith, eq_iff k id)
next_entry-Lags n id full none c r b = ground arith
next_entry-Lags n id full (some e) c r b = ground arith

pub next_entry-IsAlive :
    (n : ℕ) (id : String) (full : Bool) (o : Option NodeEntry) (c : Call)
    → Spares id c
    → IsAlive n o
    → IsAlive n (next_entry full id o c)
next_entry-IsAlive n id full none c r b = absurd b
next_entry-IsAlive n id full (some e) (deregister k) r b = ground (arith, eq_iff k id)
next_entry-IsAlive n id full (some e) c r b = ground arith
