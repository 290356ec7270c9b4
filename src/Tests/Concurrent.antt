-- ===== src/Tests/Concurrent.antt =====
-- Register in two steps, at a service for two nodes.
use d_ro_cm.Base.{true, ◌≡◌, refl, List, [], ◌∷◌}
use d_ro_cm.Proto.{empty_heartbeat_response, empty_register_response}
use d_ro_cm.Registry.Service.{new_service, shutdown}
use d_ro_cm.Registry.Service.Shutdown.{register_request, heartbeat_request, serve_all}
use d_ro_cm.Registry.Service.Linear.{in_order, run-in_order}
use d_ro_cm.Registry.Service.Concurrent.{System, Step, begin, finish, stop, other, run}
use d_ro_cm.Tests.Service.{join, pulse, start}

abbrev stopped : System
stopped = record { service = shutdown start; in_flight = [] }

abbrev steps : List Step
steps =
    begin join
    ∷ finish 0 "42" 5
    ∷ other (heartbeat_request pulse empty_heartbeat_response 6)
    ∷ stop
    ∷ []

-- A Register reads the flag, the service is shut down, another comes too late, and the first goes on.
abbrev crossing : List Step
crossing = begin join ∷ stop ∷ begin join ∷ finish 0 "42" 5 ∷ finish 0 "43" 6 ∷ []

abbrev idle : System
idle = record { service = start; in_flight = [] }

run-in_order_example :
    (run idle crossing).service.node_table
    ≡ (serve_all
        (record idle.service { is_running = true })
        (in_order idle.service.is_running idle.in_flight crossing)).node_table
run-in_order_example = run-in_order idle crossing

-- The one request that counts.
one_request_counts :
    in_order idle.service.is_running idle.in_flight crossing
    ≡ register_request join empty_register_response "42" 5 ∷ []
unfolding new_service
one_request_counts = refl
