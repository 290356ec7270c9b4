-- ===== src/Registry/Specification/Steps.antt =====
-- Each step of the service of registry_service.cpp and of the health checker, against the
-- specification.
use Prim.Native.String.{◌++◌}
use d_ro_cm.Base.{
  List, subst, Elem, Elem-map, Elem-map_inv, ◌⊎◌, ◌≢◌, ℕ, String, ◌≡◌, refl, sym, ◌∙◌, false,
  Option, none, some, ◌==◌, length, arith, Bool-cases, inl, inr,
}
use d_ro_cm.Base.Maps.Laws.{contains-find}
use d_ro_cm.Proto.{
  NodeInfo, RegisterRequest, RegisterResponse, HeartbeatRequest, HeartbeatResponse,
  DeregisterRequest, DeregisterResponse, DiscoverRequest, DiscoverResponse,
}
use d_ro_cm.Registry.NodeTable.{
  NodeEntry, get_nodes_by_service, get_node, register_node, deregister_node, update_heartbeat,
  remove_stale_nodes,
}
use d_ro_cm.Registry.NodeTable.History
use d_ro_cm.Registry.NodeTable.History.{apply}
use d_ro_cm.Registry.NodeTable.Discover.{
  infos, Elem-get_nodes_by_service, get_nodes_by_service-Distinct,
}
use d_ro_cm.Registry.NodeTable.Sweep.{drop_stale, remove_stale_nodes_lem}
use d_ro_cm.Registry.Service
use d_ro_cm.Registry.Service.{RegistryService}
use d_ro_cm.Registry.Service.Shutdown.{
  register_request, heartbeat_request, deregister_request, discover_request,
}
use d_ro_cm.Registry.Specification.{serve, increment, remove_stale, shutdown}
use d_ro_cm.Registry.Specification.Fates.{
  Finds, Directory, Verdict, admitted, taken, unnamed, missing, closing, admit, verdict, admit_if,
  beaten_directory, left_directory, missed_directory,
}
use d_ro_cm.Registry.Specification.Represents.{
  respond, Represents, Refines, called, register_admitted, beat_known, left, missed,
}

-- The service and the directory, seen as equal ones.
carried :
    (s s' : RegistryService) (d d' : Directory)
    → s' ≡ s
    → d' ≡ d
    → Represents s d
    → Represents s' d'
carried s s' d d' e f r = rw (e, f) r

is_admitted_cases : (v : Verdict) → (v ≡ admitted) ⊎ (v ≢ admitted)
is_admitted_cases admitted = inl refl
is_admitted_cases taken = inr (λ e. cc)
is_admitted_cases unnamed = inr (λ e. cc)
is_admitted_cases missing = inr (λ e. cc)
is_admitted_cases closing = inr (λ e. cc)

module _ (s : RegistryService) (d : Directory) (r : Represents s d) where
  register_info_lem :
      (request : RegisterRequest) (info : NodeInfo) (response : RegisterResponse) (roll : String)
      (now : ℕ)
      → Refines d
          (serve (register_request (record request { node_info = some info }) response roll now))
          (respond s
            (serve (register_request (record request { node_info = some info }) response roll now)))
  unfolding respond Service.register register_node get_node apply
  register_info_lem request info response roll now =
      let sid = info.node_id ++ "_" ++ roll in
      let v = verdict d (some info) in
      let d' = admit_if v d (some info) sid now in
      let flag = r.same_flag in
      let known = r.entries info.node_id in
      let seen = contains-find info.node_id s.node_table.nodes in
      let size = r.counted in
      let capacity = r.same_capacity in
      (
        d',
        (ground arith, refl),
        elim (is_admitted_cases v) [
          | inl e ↦
              carried _ _ (admit d info sid now) d' (ground arith) (ground arith)
                (register_admitted s d info sid now r (ground arith) (ground arith))
          | inr e ↦ carried s _ d d' (ground arith) (ground arith) r
        ],
      )

  pub register_lem :
      (request : RegisterRequest) (o : Option NodeInfo) (response : RegisterResponse)
      (roll : String) (now : ℕ)
      → Refines d (serve (register_request (record request { node_info = o }) response roll now)) (
          respond s (serve (register_request (record request { node_info = o }) response roll now)))
  unfolding respond Service.register
  register_lem request none response roll now =
      (d, (ground (arith, r.same_flag), ground arith), carried s _ d d (ground arith) refl r)
  register_lem request (some info) response roll now =
      register_info_lem request info response roll now

  pub heartbeat_lem :
      (request : HeartbeatRequest) (response : HeartbeatResponse) (now : ℕ)
      → Refines d
          (serve (heartbeat_request request response now))
          (respond s (serve (heartbeat_request request response now)))
  unfolding respond Service.heartbeat update_heartbeat get_node apply
  heartbeat_lem request response now = elim (Bool-cases (request.node_id == "")) [
    | inl empty ↦ (d, (ground arith, ground arith), carried s _ d d (ground arith) refl r)
    | inr named ↦ (
      beaten_directory d request now,
      (ground (arith, r.entries request.node_id), refl),
      carried _ _ _ _ (ground arith) (ground arith) (
          beat_known s d request.node_id request.cpu_usage request.memory_usage
            request.active_connections now r),
    )
  ]

  pub deregister_lem :
      (request : DeregisterRequest) (response : DeregisterResponse)
      → Refines d
          (serve (deregister_request request response))
          (respond s (serve (deregister_request request response)))
  unfolding respond Service.deregister deregister_node get_node apply
  deregister_lem request response = (
    left_directory d request.node_id,
    (ground (arith, r.entries request.node_id), refl),
    carried _ _ _ _ (ground arith) refl (left s d request.node_id r),
  )

  pub infos-Finds :
      (filter : List String) → Finds d filter (infos (get_nodes_by_service s.node_table filter))
  infos-Finds filter =
      let entries = get_nodes_by_service s.node_table filter in
      let found = infos entries in
      let listed = λ (e : NodeEntry). Elem-get_nodes_by_service s.node_table filter e r.valid in
      record {
        distinct = get_nodes_by_service-Distinct s.node_table filter r.valid;
        offered = λ info. (
          (λ h.
              let (e, at, same) = Elem-map_inv (λ (e : NodeEntry). e.info) info entries h in
              let (held, offered) = (listed e).0 at in
              (e, sym (r.entries e.info.node_id) ∙ held, offered, same)),
          (λ h.
              let (e, held, offered, same) = h in
              subst (λ i. Elem i found) same
                (Elem-map (λ (e : NodeEntry). e.info) e entries
                  ((listed e).1 (r.entries e.info.node_id ∙ held, offered)))),
        );
      }

  pub discover_lem :
      (request : DiscoverRequest) (response : DiscoverResponse)
      → Refines d
          (serve (discover_request request response))
          (respond s (serve (discover_request request response)))
  unfolding respond Service.discover
  discover_lem request response =
      let filter = request.service_filter in
      let found = infos (get_nodes_by_service s.node_table filter) in
      (d, (found, refl, infos-Finds filter, refl), r)

  pub increment_lem : Refines d increment (respond s increment)
  unfolding respond apply
  increment_lem = (missed_directory d, (refl, refl), missed s d r)

  pub remove_stale_lem : (max : ℕ) → Refines d (remove_stale max) (respond s (remove_stale max))
  unfolding respond apply
  remove_stale_lem max =
      let (table, ids) = remove_stale_nodes s.node_table max in
      let d' = record d { entry = λ id. drop_stale max (d.entry id); size = length table.nodes } in
      let swept = λ (id : String). remove_stale_nodes_lem max s.node_table id r.valid.unique in
      (
        d',
        (
          ids,
          refl,
          record {
            named = λ id. rw (← r.entries id) (swept id).0;
            left = λ id. refl;
            counted = (swept "").2 ∙ r.counted;
            same_capacity = refl;
            same_open = refl;
          },
        ),
        called s d d' (History.remove_stale max) r (λ id. refl) refl r.same_capacity refl,
      )

  pub shutdown_lem : Refines d shutdown (respond s shutdown)
  unfolding respond Service.shutdown
  shutdown_lem = (
    record d { is_open = false },
    (refl, refl),
    record {
      valid = r.valid;
      entries = r.entries;
      counted = r.counted;
      same_capacity = r.same_capacity;
      same_flag = refl;
    },
  )
