-- ===== src/Tests/Server.antt =====
-- The registry server at concrete turns: lidar_01 registers, and then is silent, or is not.
use d_ro_cm.Base.{◌≡◌, refl, ◌&&◌, true, false, inl, inr, [], ◌∷◌, some, length, ltb, arith}
use d_ro_cm.Grpc.{StatusCode, is_ok}
use d_ro_cm.Proto.{empty_register_response, empty_heartbeat_response, empty_discover_response}
use d_ro_cm.Registry.NodeTable.Invariant.{IsValid}
use d_ro_cm.Registry.Service.{RegistryService, new_service, register, heartbeat}
use d_ro_cm.Registry.Service.Shutdown.{register_request, heartbeat_request, discover_request, serve}
use d_ro_cm.Registry.Service.Refinement.{serve-IsValid}
use d_ro_cm.Registry.Server.{Turn, server_loop}
use d_ro_cm.Registry.Server.Silent.{silent_node_refused, beating_node_accepted}
use d_ro_cm.Tests.Service.{start, start-IsValid, named, join, pulse, ask, info}
use d_ro_cm.Tests.Table.{program}

abbrev joined : RegistryService
joined = serve start (register_request join empty_register_response "42" 5)

joined-IsValid : IsValid joined.node_table
joined-IsValid =
    serve-IsValid start (register_request join empty_register_response "42" 5) start-IsValid

abbrev asking : Turn
asking = record {
  stop_at_head = false;
  while_asleep = discover_request ask empty_discover_response ∷ [];
  stop_after_sleep = false;
  between = [];
}

abbrev beating : Turn
beating = record asking { while_asleep = heartbeat_request pulse empty_heartbeat_response 6 ∷ [] }

silent_node_refused_example :
    let after = server_loop 3 joined (asking ∷ asking ∷ asking ∷ []) in
    ((heartbeat after pulse empty_heartbeat_response 9).2.code ≡ StatusCode.not_found)
    × ((heartbeat after pulse empty_heartbeat_response 9).1.should_reconnect ≡ true)
    × (is_ok
          (register after (record join { node_info = some info }) empty_register_response "7" 9).2
        ≡ joined.is_running && ltb (length after.node_table.nodes) after.node_table.max_nodes)
unfolding program serve register new_service
silent_node_refused_example =
    silent_node_refused 3 (omega arith) joined (asking ∷ asking ∷ asking ∷ []) "lidar_01" 0
      joined-IsValid named pulse info join empty_heartbeat_response empty_register_response "7" 9
      (omega arith) ((refl, refl, (tt, tt)), ((refl, refl, (tt, tt)), ((refl, refl, (tt, tt)), tt)))
      (omega arith) (omega arith) (omega arith) refl refl

beating_node_accepted_example :
    is_ok
      (heartbeat
        (server_loop 3 joined (beating ∷ asking ∷ beating ∷ []))
        pulse
        empty_heartbeat_response
        9).2
    ≡ true
unfolding program serve register new_service
beating_node_accepted_example =
    beating_node_accepted 3 (omega arith) joined (beating ∷ asking ∷ beating ∷ []) "lidar_01" 0
      joined-IsValid named pulse empty_heartbeat_response 9
      (((tt, tt), tt), ((tt, tt), (((tt, tt), tt), tt)))
      (inl (inl refl, omega arith, inr (omega arith, inl (inl refl, omega arith, tt))))
      (omega arith) refl
