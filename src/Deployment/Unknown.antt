-- ===== src/Deployment/Unknown.antt =====
-- A node that the registry does not know, and whose heartbeats go on.
use d_ro_cm.Base.{
  ◌+◌, length, String, ◌≡◌, refl, ◌≢◌, Bool, List, [], ◌∷◌, Option, none, some, All, All-append,
  All-mono, eq_iff, arith,
}
use d_ro_cm.Grpc.{Status}
use d_ro_cm.Proto.{RegisterResponse}
use d_ro_cm.Registry.NodeTable.{NodeEntry, get_node}
use d_ro_cm.Registry.NodeTable.History.{Call, next_entry}
use d_ro_cm.Registry.NodeTable.Invariant.{IsValid, run-IsValid}
use d_ro_cm.Registry.HealthChecker.Entry.{run_keeps}
use d_ro_cm.Node.Loop.{Exit, heartbeat_request}
use d_ro_cm.Node.Healing.{Transport}
use d_ro_cm.Deployment.{Delivery, Meeting, World, registrations, pending, live}
use d_ro_cm.Deployment.Quiet.{IsFair, IsSteady, quiet, outlast, live_lem, outlast_sends}
use d_ro_cm.Node.Sent.{heartbeats}
use d_ro_cm.Deployment.Table.{calls, arrived, call_of, beaten-run}

-- A call that does not register the node.
abbrev pub IsNoRegistration : String → Call → Type 0
IsNoRegistration id (Call.register info session_id now) = info.node_id ≢ id
IsNoRegistration id _ = Unit

pub next_entry-none :
    (id : String) (full : Bool) (o : Option NodeEntry) (c : Call)
    → IsNoRegistration id c
    → o ≡ none
    → next_entry full id o c ≡ none
next_entry-none id full (some e) c h absent = cc
next_entry-none id full none (Call.register info sid now) h absent =
    ground (arith, eq_iff info.node_id id)
next_entry-none id full none c h absent = ground arith

-- Nobody else registers the node, and the fate of its heartbeats is fair.
abbrev pub IsAbandoned : String → Meeting → Type 0
IsAbandoned id e = IsFair e.heartbeat_delivery × All (IsNoRegistration id) e.others

arrived-IsNoRegistration :
    (id : String) (d : Delivery) (c : Call)
    → IsNoRegistration id c
    → All (IsNoRegistration id) (arrived d c)
arrived-IsNoRegistration id Delivery.delivered c h = (h, tt)
arrived-IsNoRegistration id (Delivery.request_lost st) c h = tt
arrived-IsNoRegistration id (Delivery.answer_lost st) c h = (h, tt)

-- The node is unknown to a registry with a valid table.
abbrev pub IsForgotten : World → Type 0
IsForgotten x =
    IsValid x.service.node_table × (get_node x.service.node_table x.loop.node.node_id ≡ none)

module _ (w : Transport) (received : Status → RegisterResponse → RegisterResponse) where
  quiet_unknown :
      (x : World) (e : Meeting)
      → IsSteady x.loop
      → x.loop.node.node_id ≢ ""
      → IsAbandoned x.loop.node.node_id e
      → IsForgotten x
      → IsForgotten (quiet w received x e)
  quiet_unknown x e steady named alone (v, absent) =
      let id = x.loop.node.node_id in
      let c = call_of (heartbeat_request x.loop.node (pending e)) e.now in
      let ok =
        All-append (IsNoRegistration id) e.others (arrived e.heartbeat_delivery c) alone.1
          (arrived-IsNoRegistration id e.heartbeat_delivery c tt) in
      rw (beaten-run x e named steady.1) (
        run-IsValid x.service.node_table (calls x e) v,
        run_keeps id (λ o. o ≡ none) (IsNoRegistration id) (next_entry-none id) x.service.node_table
            (calls x e) v ok absent,
      )

  outlast_unknown :
      (x : World) (es : List Meeting)
      → IsSteady x.loop
      → x.loop.node.node_id ≢ ""
      → All (IsAbandoned x.loop.node.node_id) es
      → IsForgotten x
      → IsForgotten (outlast w received x es)
  outlast_unknown x [] steady named alone f = f
  outlast_unknown x (e ∷ es) steady named alone f =
      outlast_unknown (quiet w received x e) es steady named alone.1
        (quiet_unknown x e steady named alone.0 f)

  -- A node with a name and a stub, which is not reconnecting and which a registry with a valid
  -- table does not know, stays unknown for ever: it goes on, sends one heartbeat in each turn and
  -- never a registration, whatever becomes of its heartbeats (a lost one ends with a status other
  -- than OK) and whatever the other threads do but register it.
  pub live_unknown :
      (x : World) (es : List Meeting)
      → IsSteady x.loop
      → x.loop.node.node_id ≢ ""
      → All (IsAbandoned x.loop.node.node_id) es
      → IsForgotten x
      → let (x', exit) = live w received x es in
        (exit ≡ Exit.next)
        × (get_node x'.service.node_table x.loop.node.node_id ≡ none)
        × (heartbeats x'.loop.events ≡ heartbeats x.loop.events + length es)
        × (registrations x'.loop.events ≡ registrations x.loop.events)
  live_unknown x es steady named alone f =
      let fair =
        All-mono (IsAbandoned x.loop.node.node_id) (λ (e : Meeting). IsFair e.heartbeat_delivery)
          (λ e a. a.0) es alone in
      let (beats, regs, node) = outlast_sends w received x es in
      let (_, absent) = outlast_unknown x es steady named alone f in
      rw (live_lem w received x es steady fair) (refl, rw node at absent, beats, regs)
