-- ===== src/Registry/Service.antt =====
-- src/registry/registry_service.h and registry_service.cpp. A handler takes the service and the
-- response message and returns them as it leaves them, with the status. `now` is the clock at the
-- call; `roll` is what `std::to_string(std::rand())` gives there.
pub mod Outcomes
pub mod Shutdown
pub mod Refinement
pub mod Refusals
pub mod Calls
pub mod Concurrent
pub mod Linear
pub mod Lifecycle
use Prim.Native.String.{◌++◌}
use d_ro_cm.Base.{
  ℕ, String, Bool, true, false, List, [], ◌∷◌, map, Option, none, some, ◌==◌, if◌then◌else◌,
}
use mathlib.Core.List
use d_ro_cm.Grpc.{StatusCode, Status, status_ok}
use d_ro_cm.Proto.{
  NodeInfo, RegisterRequest, RegisterResponse, HeartbeatRequest, HeartbeatResponse,
  DeregisterRequest, DeregisterResponse, DiscoverRequest, DiscoverResponse,
}
use d_ro_cm.Registry.NodeTable.{
  NodeEntry, NodeTable, new_table, register_node, deregister_node, update_heartbeat,
  get_nodes_by_service,
}

pub record RegistryService : Type 0 where
  pub node_table : NodeTable
  pub is_running : Bool

unfoldable pub new_service : ℕ → RegistryService
unfolding new_table
new_service max_nodes = record { node_table = new_table max_nodes; is_running = true }

-- The constructor with its default argument.
abbrev pub default_service : RegistryService
default_service = new_service 10000

abbrev pub get_node_table : RegistryService → NodeTable
get_node_table s = s.node_table

abbrev pub is_running : RegistryService → Bool
is_running s = s.is_running

-- What a handler leaves behind: the service, the response and the status.
abbrev pub Reply : Type 0 → Type 0
Reply R = RegistryService × R × Status

abbrev pub refuse_register : RegisterResponse → String → RegisterResponse
refuse_register response message = record response { success = false; error_message = message }

-- The rest of `Register`, given what the table returns.
abbrev pub register_reply :
    RegistryService → RegisterResponse → String → NodeTable × Bool → Reply RegisterResponse
register_reply s response session_id (table, registered) =
    if registered
    then (
      record s { node_table = table },
      record response {
        success = true;
        session_id = session_id;
        heartbeat_interval = 1000;
        error_message = "";
      },
      status_ok,
    )
    else (
      record s { node_table = table },
      refuse_register response "Node already registered or table full",
      record { code = StatusCode.already_exists; error_message = "Duplicate node" },
    )

-- `Register` once the flag is read and the message has a node_info.
abbrev pub register_info :
    RegistryService → NodeInfo → RegisterResponse → String → ℕ → Reply RegisterResponse
register_info s info response roll now =
    if info.node_id == ""
    then (
      s,
      refuse_register response "node_id cannot be empty",
      record { code = StatusCode.invalid_argument; error_message = "Empty node_id" },
    )
    else (let session_id = info.node_id ++ "_" ++ roll in
        register_reply s response session_id (register_node s.node_table info session_id now))

abbrev pub register_request :
    RegistryService → Option NodeInfo → RegisterResponse → String → ℕ → Reply RegisterResponse
register_request s none response roll now = (
  s,
  refuse_register response "Missing node_info field",
  record { code = StatusCode.invalid_argument; error_message = "Missing node_info" },
)
register_request s (some info) response roll now = register_info s info response roll now

unfoldable pub register :
    RegistryService → RegisterRequest → RegisterResponse → String → ℕ → Reply RegisterResponse
register s request response roll now =
    if s.is_running then register_request s request.node_info response roll now else (
      s,
      response,
      record { code = StatusCode.unavailable; error_message = "Service is shutting down" },
    )

abbrev pub heartbeat_reply :
    RegistryService → HeartbeatResponse → NodeTable × Bool → Reply HeartbeatResponse
heartbeat_reply s response (table, found) =
    if found
    then (
      record s { node_table = table },
      record { success = true; missed_heartbeats = 0; should_reconnect = false },
      status_ok,
    )
    else (
      record s { node_table = table },
      record { success = false; missed_heartbeats = 0; should_reconnect = true },
      record { code = StatusCode.not_found; error_message = "Node not registered" },
    )

unfoldable pub heartbeat :
    RegistryService → HeartbeatRequest → HeartbeatResponse → ℕ → Reply HeartbeatResponse
heartbeat s request response now =
    if request.node_id == ""
    then (
      s,
      record response { success = false },
      record { code = StatusCode.invalid_argument; error_message = "Empty node_id" },
    )
    else heartbeat_reply s response (
        update_heartbeat s.node_table request.node_id request.cpu_usage request.memory_usage
          request.active_connections now)

abbrev pub deregister_reply : RegistryService → NodeTable × Bool → Reply DeregisterResponse
deregister_reply s (table, removed) =
    if removed
    then (
      record s { node_table = table },
      record { success = true; message = "Node deregistered gracefully" },
      status_ok,
    )
    else (
      record s { node_table = table },
      record { success = false; message = "Node not found" },
      record { code = StatusCode.not_found; error_message = "Node not found" },
    )

unfoldable pub deregister :
    RegistryService → DeregisterRequest → DeregisterResponse → Reply DeregisterResponse
deregister s request response = deregister_reply s (deregister_node s.node_table request.node_id)

-- `add_nodes()->CopyFrom(entry.info)` for each entry; the copy loop of the filter is the identity.
unfoldable pub discover :
    RegistryService → DiscoverRequest → DiscoverResponse → Reply DiscoverResponse
discover s request response = (
  s,
  record response {
    nodes =
        List.◌++◌ response.nodes
          (map (λ e. e.info) (get_nodes_by_service s.node_table request.service_filter));
  },
  status_ok,
)

-- is_running_.exchange(false)
unfoldable pub shutdown : RegistryService → RegistryService
shutdown s = record s { is_running = false }
