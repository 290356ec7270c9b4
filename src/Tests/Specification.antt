-- ===== src/Tests/Specification.antt =====
-- The registry against its specification, from a service for two nodes.
use d_ro_cm.Base.{
  Elem, ◌↔◌, none, some, ◌≤◌, arith, ◌≡◌, refl, Bool, true, false, not, ◌&&◌, ◌==◌, List, [], ◌∷◌,
  map,
}
use d_ro_cm.Registry.NodeTable.{get_node_count}
use d_ro_cm.Grpc.{is_ok}
use d_ro_cm.Proto.{
  empty_register_response, empty_heartbeat_response, empty_deregister_response,
  empty_discover_response,
}
use d_ro_cm.Registry.Service
use d_ro_cm.Registry.Service.{new_service, get_node_table}
use d_ro_cm.Registry.Service.Shutdown.{register_request, heartbeat_request, discover_request}
use d_ro_cm.Registry.Specification.{
  Step, Answer, Trace, serve, increment, remove_stale, shutdown, registered, beaten, removed,
}
use d_ro_cm.Registry.Specification.Fates.{Directory, empty_directory}
use d_ro_cm.Registry.Specification.Represents.{Represents}
use d_ro_cm.Registry.Specification.Refinement.{
  respond_all, respond_all-Trace, new_service-Represents,
}
use d_ro_cm.Registry.Specification.Provenance.{heard_all}
use d_ro_cm.Registry.Specification.Tally.{
  tally_all, count_from_answers, accepts, statuses_from_answers,
}
use d_ro_cm.Registry.Specification.Discovery.{Wants, discovered_from_answers}
use d_ro_cm.Registry.Specification.Told.{told_all}
use d_ro_cm.Tests.Table.{program}
use d_ro_cm.Tests.Service.{start, join, pulse, leave, ask, info}

-- The node registers, is found, misses a check, leaves and comes back; the service then stops.
abbrev steps : List Step
steps =
    serve (register_request join empty_register_response "42" 5)
    ∷ serve (register_request join empty_register_response "43" 6)
    ∷ serve (discover_request ask empty_discover_response)
    ∷ increment
    ∷ remove_stale 1
    ∷ serve (heartbeat_request pulse empty_heartbeat_response 7)
    ∷ serve (register_request join empty_register_response "44" 8)
    ∷ shutdown
    ∷ []

-- Which of the answers are acceptances.
accepted : Answer → Bool
accepted (registered response status) = is_ok status
accepted (beaten response status) = is_ok status
accepted (removed ids) = false
accepted _ = true

acceptances :
    map (λ (h : Step × Answer). accepted h.1) (respond_all start steps).0
    ≡ true ∷ false ∷ true ∷ true ∷ false ∷ false ∷ true ∷ true ∷ []
unfolding program accepted respond_all new_service Service.register Service.heartbeat
    Service.discover Service.shutdown
acceptances = refl

respond_all-Trace_example :
    (d : Directory) × Trace (empty_directory 2) (respond_all start steps).0 d
    × Represents (respond_all start steps).1 d
respond_all-Trace_example =
    respond_all-Trace start (empty_directory 2) steps (new_service-Represents 2)

statuses_from_answers_example :
    let (history, s) = respond_all (new_service 2) steps in
    (is_ok (Service.register s join empty_register_response "45" 9).2
      ≡ accepts 2 history join.node_info)
    × (is_ok (Service.heartbeat s pulse empty_heartbeat_response 9).2
        ≡ not (pulse.node_id == "") && heard_all pulse.node_id false history)
    × (is_ok (Service.deregister s leave empty_deregister_response).2
        ≡ heard_all leave.node_id false history)
statuses_from_answers_example =
    statuses_from_answers 2 steps join pulse leave empty_register_response empty_heartbeat_response
      empty_deregister_response "45" 9

count_from_answers_example :
    let (history, s) = respond_all (new_service 2) steps in
    (get_node_count (get_node_table s) ≡ tally_all 0 history)
    × (get_node_count (get_node_table s) ≤ 2)
count_from_answers_example = count_from_answers 2 steps (omega arith)

discovered_from_answers_example :
    let (history, s) = respond_all (new_service 2) steps in
    Elem info (Service.discover s ask empty_discover_response).1.nodes
    ↔ ((told_all info.node_id none history ≡ some (info, 0)) × Wants ask.service_filter info)
discovered_from_answers_example = discovered_from_answers 2 steps ask info (omega arith)
