-- ===== src/Deployment/Table.antt =====
-- The registry's table when a turn's heartbeat has reached it or was lost: a run of calls.
use d_ro_cm.Base.{ℕ, ◌≡◌, refl, ◌≢◌, true, List, [], ◌∷◌, ◌++◌, eq_iff, arith}
use d_ro_cm.Proto.{HeartbeatRequest, HeartbeatResponse}
use d_ro_cm.Registry.NodeTable.{NodeTable, update_heartbeat}
use d_ro_cm.Registry.NodeTable.History.{Call, apply, run}
use d_ro_cm.Registry.Service.{RegistryService, heartbeat}
use d_ro_cm.Node.Loop.{heartbeat_request}
use d_ro_cm.Deployment.{Delivery, Meeting, World, beaten, busy, pending}

-- The call on the table that a heartbeat makes.
abbrev pub call_of : HeartbeatRequest → ℕ → Call
call_of r now = Call.heartbeat r.node_id r.cpu_usage r.memory_usage r.active_connections now

abbrev pub arrived : Delivery → Call → List Call
arrived (Delivery.request_lost st) c = []
arrived _ c = c ∷ []

-- The calls on the table from one turn's heartbeat to the next's.
abbrev pub calls : World → Meeting → List Call
calls x e =
    e.others
    ++ arrived e.heartbeat_delivery (call_of (heartbeat_request x.loop.node (pending e)) e.now)

pub run-append : (t : NodeTable) (cs ds : List Call) → run t (cs ++ ds) ≡ run (run t cs) ds
unfolding run
run-append t [] ds = refl
run-append t (c ∷ cs) ds = run-append (apply t c) cs ds

heartbeat-apply :
    (s : RegistryService) (r : HeartbeatRequest) (response : HeartbeatResponse) (now : ℕ)
    → r.node_id ≢ ""
    → (heartbeat s r response now).0.node_table ≡ apply s.node_table (call_of r now)
unfolding heartbeat apply update_heartbeat
heartbeat-apply s r response now named = ground (arith, eq_iff r.node_id "")

beaten_by :
    (x : World) (e : Meeting) (d : Delivery)
    → e.heartbeat_delivery ≡ d
    → x.loop.node.node_id ≢ ""
    → x.loop.node.registry_stub ≡ true
    → (beaten x e).node_table
      ≡ run
          (busy x e).node_table
          (arrived d (call_of (heartbeat_request x.loop.node (pending e)) e.now))
unfolding beaten run
beaten_by x e Delivery.delivered h named stub =
    rw (stub, h) (heartbeat-apply (busy x e) _ _ e.now named)
beaten_by x e (Delivery.answer_lost st) h named stub =
    rw (stub, h) (heartbeat-apply (busy x e) _ _ e.now named)
beaten_by x e (Delivery.request_lost st) h named stub = rw (stub, h) refl

-- With a stub and a name, the turn is a run of these calls.
pub beaten-run :
    (x : World) (e : Meeting)
    → x.loop.node.node_id ≢ ""
    → x.loop.node.registry_stub ≡ true
    → (beaten x e).node_table ≡ run x.service.node_table (calls x e)
beaten-run x e named stub =
    rw
      (run-append x.service.node_table e.others
        (arrived e.heartbeat_delivery (call_of (heartbeat_request x.loop.node (pending e)) e.now)))
      (beaten_by x e e.heartbeat_delivery refl named stub)
