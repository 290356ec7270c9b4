-- ===== src/Tests/Service.antt =====
-- The service's theorems at concrete requests.
use d_ro_cm.Base.{String, refl, ◌≢◌, [], ◌∷◌, some, arith, eq_iff}
use d_ro_cm.Proto.{NodeInfo, RegisterRequest, HeartbeatRequest, DeregisterRequest, DiscoverRequest}
use d_ro_cm.Registry.NodeTable.{get_node}
use d_ro_cm.Registry.NodeTable.Invariant.{IsValid}
use d_ro_cm.Registry.Service.{RegistryService, new_service}
use d_ro_cm.Registry.Service.Outcomes.{HasRoom, IsAcceptable}
use d_ro_cm.Registry.Service.Refinement.{new_service-IsValid}

abbrev pub info : NodeInfo
info = record {
  node_id = "lidar_01";
  ip_address = "127.0.0.1";
  port = 50052;
  services = "lidar" ∷ [];
  startup_timestamp = 0;
}

abbrev pub join : RegisterRequest
join = record { node_info = some info; cpu_usage = 0; memory_usage = 0 }

abbrev pub pulse : HeartbeatRequest
pulse = record {
  node_id = "lidar_01";
  session_id = "lidar_01_42";
  timestamp = 0;
  cpu_usage = 1;
  memory_usage = 2;
  active_connections = 3;
}

abbrev pub leave : DeregisterRequest
leave = record { node_id = "lidar_01"; session_id = ""; reason = "shutdown" }

abbrev pub ask : DiscoverRequest
ask = record { service_filter = "lidar" ∷ [] }

abbrev pub start : RegistryService
start = new_service 2

abbrev tiny : RegistryService
tiny = new_service 0

pub start-IsValid : IsValid start.node_table
start-IsValid = new_service-IsValid 2

pub named : ◌≢◌ {A = String} "lidar_01" ""
named = ground (arith, eq_iff "lidar_01" "")

pub start-HasRoom : HasRoom start.node_table "lidar_01"
unfolding new_service get_node
start-HasRoom = (omega arith, refl)

start-IsAcceptable : IsAcceptable start (some info)
unfolding new_service
start-IsAcceptable = (refl, named, start-HasRoom)
