-- ===== src/Registry/Service/Refinement.antt =====
-- Each handler makes at most one call on the table: the service keeps the table's invariant.
use Prim.Native.String.{◌++◌}
use d_ro_cm.Base.{
  ℕ, String, ◌≡◌, refl, ◌⊎◌, inl, inr, Bool-cases, List, [], ◌∷◌, Option-cases, arith, ◌==◌,
}
use d_ro_cm.Proto.{
  RegisterRequest, RegisterResponse, HeartbeatRequest, HeartbeatResponse, DeregisterRequest,
  DeregisterResponse,
}
use d_ro_cm.Registry.NodeTable.{NodeTable}
use d_ro_cm.Registry.NodeTable.History
use d_ro_cm.Registry.NodeTable.History.{Call, apply}
use d_ro_cm.Registry.NodeTable.Invariant.{IsValid, apply-IsValid, new_table-IsValid}
use d_ro_cm.Registry.Service.{
  RegistryService, new_service, register, heartbeat, deregister, discover,
}
use d_ro_cm.Registry.Service.Shutdown.{
  Request, register_request, heartbeat_request, deregister_request, discover_request, serve,
  serve_all,
}
use d_ro_cm.Registry.HealthChecker.Entry.{IsRpc}

-- The table is left alone, or has gone through one call of those that handlers make.
abbrev pub OneCall : NodeTable → NodeTable → Type 0
OneCall t t' = (t' ≡ t) ⊎ ((c : Call) × IsRpc c × (t' ≡ apply t c))

register-OneCall :
    (s : RegistryService) (request : RegisterRequest) (response : RegisterResponse) (roll : String)
    (now : ℕ)
    → OneCall s.node_table (register s request response roll now).0.node_table
unfolding register apply
register-OneCall s request response roll now = elim (Option-cases request.node_info) [
  | inl e ↦ inl (ground arith)
  | inr (info, e) ↦ elim (Bool-cases s.is_running) [
    | inr off ↦ inl (ground arith)
    | inl on ↦ elim (Bool-cases (info.node_id == "")) [
      | inl empty ↦ inl (ground arith)
      | inr named ↦ inr (History.register info (info.node_id ++ "_" ++ roll) now, tt, ground arith)
    ]
  ]
]

heartbeat-OneCall :
    (s : RegistryService) (request : HeartbeatRequest) (response : HeartbeatResponse) (now : ℕ)
    → OneCall s.node_table (heartbeat s request response now).0.node_table
unfolding heartbeat apply
heartbeat-OneCall s request response now = elim (Bool-cases (request.node_id == "")) [
  | inl empty ↦ inl (ground arith)
  | inr named ↦ inr (
    History.heartbeat request.node_id request.cpu_usage request.memory_usage
        request.active_connections now,
    tt,
    ground arith,
  )
]

deregister-OneCall :
    (s : RegistryService) (request : DeregisterRequest) (response : DeregisterResponse)
    → OneCall s.node_table (deregister s request response).0.node_table
unfolding deregister apply
deregister-OneCall s request response = inr (History.deregister request.node_id, tt, ground arith)

-- Serving a request leaves the table alone or makes one call on it that is not one of the health
-- checker's.
pub serve-OneCall :
    (s : RegistryService) (r : Request) → OneCall s.node_table (serve s r).node_table
unfolding serve discover
serve-OneCall s (register_request request response roll now) =
    register-OneCall s request response roll now
serve-OneCall s (heartbeat_request request response now) = heartbeat-OneCall s request response now
serve-OneCall s (deregister_request request response) = deregister-OneCall s request response
serve-OneCall s (discover_request request response) = inl refl

OneCall-IsValid : (t t' : NodeTable) → OneCall t t' → IsValid t → IsValid t'
OneCall-IsValid t t' (inl e) v = rw e v
OneCall-IsValid t t' (inr (c, rpc, e)) v = rw e (apply-IsValid t c v)

pub serve-IsValid :
    (s : RegistryService) (r : Request) → IsValid s.node_table → IsValid (serve s r).node_table
serve-IsValid s r v = OneCall-IsValid s.node_table (serve s r).node_table (serve-OneCall s r) v

-- Whatever is served from the start, the table keeps its invariant.
pub serve_all-IsValid :
    (s : RegistryService) (rs : List Request)
    → IsValid s.node_table
    → IsValid (serve_all s rs).node_table
unfolding serve_all
serve_all-IsValid s [] v = v
serve_all-IsValid s (r ∷ rs) v = serve_all-IsValid (serve s r) rs (serve-IsValid s r v)

pub new_service-IsValid : (max_nodes : ℕ) → IsValid (new_service max_nodes).node_table
unfolding new_service
new_service-IsValid max_nodes = new_table-IsValid max_nodes
