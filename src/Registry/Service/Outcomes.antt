-- ===== src/Registry/Service/Outcomes.antt =====
-- What the four handlers answer, on every branch, and what they leave of the table.
use Prim.Native.String.{◌++◌}
use d_ro_cm.Base.{
  ℕ, ◌≤◌, ◌<◌, String, ◌≡◌, ◌≢◌, ◌↔◌, true, false, Option, none, some, ◌==◌, eq_iff, if◌then◌else◌,
  length, arith,
}
use d_ro_cm.Base.Maps.{find}
use d_ro_cm.Base.Maps.Laws.{contains-find}
use d_ro_cm.Grpc.{StatusCode, is_ok}
use d_ro_cm.Proto.{
  NodeInfo, RegisterRequest, RegisterResponse, HeartbeatRequest, HeartbeatResponse,
  DeregisterRequest, DeregisterResponse, empty_register_response, empty_heartbeat_response,
  empty_deregister_response,
}
use d_ro_cm.Registry.NodeTable.{
  NodeTable, fresh_entry, register_node, deregister_node, update_heartbeat, get_node,
}
use d_ro_cm.Registry.Service.{RegistryService, register, heartbeat, deregister}

-- The table can take a node of this name: it has room, and no entry of that name.
abbrev pub HasRoom : NodeTable → String → Type 0
HasRoom t id = (length t.nodes < t.max_nodes) × (get_node t id ≡ none)

-- The conditions under which `Register` accepts a request.
abbrev pub IsAcceptable : RegistryService → Option NodeInfo → Type 0
IsAcceptable s none = ⊥
IsAcceptable s (some info) =
    (s.is_running ≡ true) × (info.node_id ≢ "") × HasRoom s.node_table info.node_id

pub register_node_iff :
    (t : NodeTable) (info : NodeInfo) (sid : String) (now : ℕ)
    → ((register_node t info sid now).1 ≡ true) ↔ HasRoom t info.node_id
unfolding register_node get_node
register_node_iff t info sid now = (
  (λ h. (
    ground (arith, contains-find info.node_id t.nodes),
    ground (arith, contains-find info.node_id t.nodes),
  )),
  (λ h. ground (arith, contains-find info.node_id t.nodes)),
)

-- Register answers OK exactly if the service runs, the request has a node_info with a non-empty id,
-- the table has room and holds no node of that id.
pub register-is_ok_iff :
    (s : RegistryService) (request : RegisterRequest) (response : RegisterResponse) (roll : String)
    (now : ℕ)
    → (is_ok (register s request response roll now).2 ≡ true) ↔ IsAcceptable s request.node_info
unfolding register
register-is_ok_iff s request response roll now = register_info_iff request.node_info
  where
    register_info_iff :
        (info : Option NodeInfo)
        → (is_ok (register s (record request { node_info = info }) response roll now).2 ≡ true)
          ↔ IsAcceptable s info
    register_info_iff none = ((λ h. ground arith), (λ h. absurd h))
    register_info_iff (some info) =
        let accepted = register_node_iff s.node_table info (info.node_id ++ "_" ++ roll) now in
        (
          (λ h. (ground arith, ground (arith, eq_iff info.node_id ""), accepted.0 (ground arith))),
          (λ h. ground (arith, eq_iff info.node_id "", accepted.1 h.2)),
        )

-- The node of this name is in the table.
abbrev pub IsKnown : RegistryService → String → Type 0
IsKnown s id = get_node s.node_table id ≢ none

-- Heartbeat answers OK exactly if the request's id is not empty and names a node of the table.
pub heartbeat-is_ok_iff :
    (s : RegistryService) (request : HeartbeatRequest) (response : HeartbeatResponse) (now : ℕ)
    → (is_ok (heartbeat s request response now).2 ≡ true)
      ↔ ((request.node_id ≢ "") × IsKnown s request.node_id)
unfolding heartbeat update_heartbeat get_node
heartbeat-is_ok_iff s request response now = (
  (λ h. (ground (arith, eq_iff request.node_id ""), ground arith)),
  (λ h. ground (arith, eq_iff request.node_id "")),
)

-- A heartbeat of a node that is not in the table is told to register again.
pub heartbeat_unknown :
    (s : RegistryService) (request : HeartbeatRequest) (response : HeartbeatResponse) (now : ℕ)
    → request.node_id ≢ ""
    → get_node s.node_table request.node_id ≡ none
    → ((heartbeat s request response now).1.should_reconnect ≡ true)
      × ((heartbeat s request response now).2.code ≡ StatusCode.not_found)
      × ((heartbeat s request response now).0 ≡ s)
unfolding heartbeat update_heartbeat get_node
heartbeat_unknown s request response now named unknown = (
  ground (arith, eq_iff request.node_id ""),
  ground (arith, eq_iff request.node_id ""),
  ground (arith, eq_iff request.node_id ""),
)

-- `Deregister` accepts exactly the requests that name a node of the table.
pub deregister-is_ok_iff :
    (s : RegistryService) (request : DeregisterRequest) (response : DeregisterResponse)
    → (is_ok (deregister s request response).2 ≡ true) ↔ IsKnown s request.node_id
unfolding deregister deregister_node get_node
deregister-is_ok_iff s request response = ((λ h. ground arith), (λ h. ground arith))

-- A refused `Register` leaves the service as it was.
pub register_refused :
    (s : RegistryService) (request : RegisterRequest) (response : RegisterResponse) (roll : String)
    (now : ℕ)
    → is_ok (register s request response roll now).2 ≡ false
    → (register s request response roll now).0 ≡ s
unfolding register register_node
register_refused s request response roll now h = refused request.node_info h
  where
    refused :
        (info : Option NodeInfo)
        → is_ok (register s (record request { node_info = info }) response roll now).2 ≡ false
        → (register s (record request { node_info = info }) response roll now).0 ≡ s
    refused none h = ground arith
    refused (some info) h = ground arith

pub heartbeat_refused :
    (s : RegistryService) (request : HeartbeatRequest) (response : HeartbeatResponse) (now : ℕ)
    → is_ok (heartbeat s request response now).2 ≡ false
    → (heartbeat s request response now).0 ≡ s
unfolding heartbeat update_heartbeat
heartbeat_refused s request response now h = ground arith

pub deregister_refused :
    (s : RegistryService) (request : DeregisterRequest) (response : DeregisterResponse)
    → is_ok (deregister s request response).2 ≡ false
    → (deregister s request response).0 ≡ s
unfolding deregister deregister_node
deregister_refused s request response h = ground arith

-- At a running service with a full table, a request with a non-empty id is answered ALREADY_EXISTS,
-- whether or not a node of that name is there.
pub register_full :
    (s : RegistryService) (request : RegisterRequest) (response : RegisterResponse) (roll : String)
    (now : ℕ) (info : NodeInfo)
    → request.node_info ≡ some info
    → s.is_running ≡ true
    → info.node_id ≢ ""
    → s.node_table.max_nodes ≤ length s.node_table.nodes
    → (register s request response roll now).2.code ≡ StatusCode.already_exists
unfolding register register_node
register_full s request response roll now info e running named full =
    ground (arith, eq_iff info.node_id "")

-- An acceptable Register puts a fresh entry under the node's id, leaves every other node's entry,
-- and answers with success, an interval of 1000 ms and a session id that begins with the node's id.
pub register_accepted :
    (s : RegistryService) (request : RegisterRequest) (response : RegisterResponse) (roll : String)
    (now : ℕ) (info : NodeInfo) (id : String)
    → request.node_info ≡ some info
    → IsAcceptable s (some info)
    → let reply = register s request response roll now in
      let session = info.node_id ++ "_" ++ roll in
      (get_node reply.0.node_table id ≡ (
        if info.node_id == id
        then some (fresh_entry info session now)
        else get_node s.node_table id))
      × (reply.1.session_id ≡ session)
      × (reply.1.heartbeat_interval ≡ 1000)
      × (reply.1.success ≡ true)
unfolding register register_node get_node find
register_accepted s request response roll now info id e (running, named, room) = (
  ground (arith, eq_iff info.node_id "", contains-find info.node_id s.node_table.nodes),
  ground (arith, eq_iff info.node_id "", contains-find info.node_id s.node_table.nodes),
  ground (arith, eq_iff info.node_id "", contains-find info.node_id s.node_table.nodes),
  ground (arith, eq_iff info.node_id "", contains-find info.node_id s.node_table.nodes),
)

-- On a fresh response message the success flag says the same as the status, for each handler.
pub success_agrees :
    (s : RegistryService) (join : RegisterRequest) (beat : HeartbeatRequest)
    (leave : DeregisterRequest) (roll : String) (now : ℕ)
    → let a = register s join empty_register_response roll now in
      let b = heartbeat s beat empty_heartbeat_response now in
      let c = deregister s leave empty_deregister_response in
      (a.1.success ≡ is_ok a.2) × (b.1.success ≡ is_ok b.2) × (c.1.success ≡ is_ok c.2)
unfolding register heartbeat deregister
success_agrees s join beat leave roll now = (ground arith, ground arith, ground arith)
