-- ===== src/Proto.antt =====
-- The messages of proto/registry.proto, with NodeInfo of proto/common.proto, and the default values
-- that a fresh message has. A `float` is carried by its 32-bit pattern (the program
-- stores and copies floats and never computes with them); 0.0f is the pattern 0.
pub mod Robot
pub mod NodeService
use d_ro_cm.Base.{ℕ, String, Bool, false, List, [], Option}

abbrev pub Float32 : Type 0
Float32 = ℕ

abbrev pub zero_float : Float32
zero_float = 0

pub record NodeInfo : Type 0 where
  pub node_id : String
  pub ip_address : String
  pub port : ℕ
  pub services : List String
  pub startup_timestamp : ℕ

-- `has_node_info()` is whether the field is `some`.
pub record RegisterRequest : Type 0 where
  pub node_info : Option NodeInfo
  pub cpu_usage : Float32
  pub memory_usage : Float32

pub record RegisterResponse : Type 0 where
  pub success : Bool
  pub session_id : String
  pub heartbeat_interval : ℕ
  pub error_message : String

pub record HeartbeatRequest : Type 0 where
  pub node_id : String
  pub session_id : String
  pub timestamp : ℕ
  pub cpu_usage : Float32
  pub memory_usage : Float32
  pub active_connections : ℕ

pub record HeartbeatResponse : Type 0 where
  pub success : Bool
  pub missed_heartbeats : ℕ
  pub should_reconnect : Bool

pub record DeregisterRequest : Type 0 where
  pub node_id : String
  pub session_id : String
  pub reason : String

pub record DeregisterResponse : Type 0 where
  pub success : Bool
  pub message : String

pub record DiscoverRequest : Type 0 where
  pub service_filter : List String

pub record DiscoverResponse : Type 0 where
  pub nodes : List NodeInfo

-- A fresh message: proto3 fields start at their zero values.
abbrev pub empty_register_response : RegisterResponse
empty_register_response = record {
  success = false;
  session_id = "";
  heartbeat_interval = 0;
  error_message = "";
}

abbrev pub empty_heartbeat_response : HeartbeatResponse
empty_heartbeat_response = record {
  success = false;
  missed_heartbeats = 0;
  should_reconnect = false;
}

abbrev pub empty_deregister_response : DeregisterResponse
empty_deregister_response = record { success = false; message = "" }

abbrev pub empty_discover_response : DiscoverResponse
empty_discover_response = record { nodes = [] }
