-- ===== src/Registry/Service/Lifecycle.antt =====
-- A node's life at the service: registration, heartbeats, discovery, departure.
use Prim.Native.String.{◌++◌}
use d_ro_cm.Base.{
  ℕ, String, ◌≡◌, refl, sym, ◌∙◌, ◌≢◌, ◌⊎◌, true, [], some, eq_iff, eq_refl, Elem, Elem-map, arith,
}
use d_ro_cm.Base.Maps.Laws.{find-modify, find-erase}
use d_ro_cm.Grpc.{StatusCode, is_ok}
use d_ro_cm.Proto.{
  NodeInfo, RegisterRequest, RegisterResponse, HeartbeatRequest, HeartbeatResponse,
  DeregisterRequest, DeregisterResponse, DiscoverRequest, empty_discover_response,
}
use d_ro_cm.Registry.NodeTable.{
  NodeEntry, fresh_entry, beat, deregister_node, update_heartbeat, get_node, get_nodes_by_service,
}
use d_ro_cm.Registry.NodeTable.Invariant.{IsValid}
use d_ro_cm.Registry.NodeTable.Discover.{Elem-get_nodes_by_service, SharesService}
use d_ro_cm.Registry.Service.{RegistryService, register, heartbeat, deregister, discover}
use d_ro_cm.Registry.Service.Shutdown.{register_request, serve}
use d_ro_cm.Registry.Service.Refinement.{serve-IsValid}
use d_ro_cm.Registry.Service.Outcomes.{IsAcceptable, IsKnown, register_accepted}

-- A heartbeat of a node that the table holds is accepted, and leaves it with no missed heartbeat.
pub heartbeat_known :
    (s : RegistryService) (request : HeartbeatRequest) (response : HeartbeatResponse) (now : ℕ)
    (e : NodeEntry)
    → request.node_id ≢ ""
    → get_node s.node_table request.node_id ≡ some e
    → let reply = heartbeat s request response now in
      (is_ok reply.2 ≡ true)
      × (reply.1.success ≡ true)
      × (get_node reply.0.node_table request.node_id
          ≡ some (beat now request.cpu_usage request.memory_usage e))
unfolding heartbeat update_heartbeat get_node
heartbeat_known s request response now e named known =
    let f = beat now request.cpu_usage request.memory_usage in
    let after = find-modify request.node_id request.node_id f s.node_table.nodes in
    (
      ground (arith, eq_iff request.node_id ""),
      ground (arith, eq_iff request.node_id ""),
      ground (arith, eq_iff request.node_id "", after, eq_refl request.node_id),
    )

-- After an acceptable registration the node's next heartbeat is accepted, whatever session id it
-- carries, and the node stays known.
pub register_then_heartbeat :
    (s : RegistryService) (join : RegisterRequest) (r₁ : RegisterResponse) (roll : String) (now : ℕ)
    (info : NodeInfo) (request : HeartbeatRequest) (r₂ : HeartbeatResponse) (later : ℕ)
    → join.node_info ≡ some info
    → IsAcceptable s (some info)
    → request.node_id ≡ info.node_id
    → let reply = heartbeat (register s join r₁ roll now).0 request r₂ later in
      (is_ok reply.2 ≡ true) × (reply.1.success ≡ true) × IsKnown reply.0 info.node_id
register_then_heartbeat s join r₁ roll now info request r₂ later e a same =
    let entry = (register_accepted s join r₁ roll now info info.node_id e a).0 in
    let after = (register s join r₁ roll now).0 in
    let fresh = fresh_entry info (info.node_id ++ "_" ++ roll) now in
    let known : get_node after.node_table request.node_id ≡ some fresh =
      ground (arith, entry, eq_refl info.node_id) in
    let (ok, success, held) =
      heartbeat_known after request r₂ later fresh (λ h. a.1 (sym same ∙ h)) known in
    (ok, success, (λ h. cc (held)))

-- After Deregister of a node at a service with a valid table, a heartbeat with its non-empty id is
-- answered NOT_FOUND with the advice to reconnect.
pub deregister_then_heartbeat :
    (s : RegistryService) (leave : DeregisterRequest) (r₁ : DeregisterResponse)
    (request : HeartbeatRequest) (r₂ : HeartbeatResponse) (later : ℕ)
    → IsValid s.node_table
    → request.node_id ≢ ""
    → leave.node_id ≡ request.node_id
    → let reply = heartbeat (deregister s leave r₁).0 request r₂ later in
      (reply.2.code ≡ StatusCode.not_found) × (reply.1.should_reconnect ≡ true)
unfolding deregister heartbeat deregister_node update_heartbeat get_node
deregister_then_heartbeat s leave r₁ request r₂ later v named same =
    let gone = find-erase leave.node_id request.node_id s.node_table.nodes v.unique in
    (
      ground (arith, eq_iff request.node_id "", gone, eq_iff leave.node_id request.node_id),
      ground (arith, eq_iff request.node_id "", gone, eq_iff leave.node_id request.node_id),
    )

-- Right after an acceptable registration at a service with a valid table, Discover lists the node
-- if the filter is empty or names one of its services.
pub register_then_discover :
    (s : RegistryService) (join : RegisterRequest) (r₁ : RegisterResponse) (roll : String) (now : ℕ)
    (info : NodeInfo) (ask : DiscoverRequest)
    → IsValid s.node_table
    → join.node_info ≡ some info
    → IsAcceptable s (some info)
    → (ask.service_filter ≡ []) ⊎ SharesService ask.service_filter info.services
    → Elem info (discover (register s join r₁ roll now).0 ask empty_discover_response).1.nodes
unfolding discover serve
register_then_discover s join r₁ roll now info ask v e a wanted =
    let after = (register s join r₁ roll now).0 in
    let fresh = fresh_entry info (info.node_id ++ "_" ++ roll) now in
    let entry = (register_accepted s join r₁ roll now info info.node_id e a).0 in
    let known : get_node after.node_table info.node_id ≡ some fresh =
      ground (arith, entry, eq_refl info.node_id) in
    let valid = serve-IsValid s (register_request join r₁ roll now) v in
    Elem-map (λ d. d.info) fresh (get_nodes_by_service after.node_table ask.service_filter)
      ((Elem-get_nodes_by_service after.node_table ask.service_filter fresh valid).1
        (known, (refl, wanted)))
