-- ===== src/Lidar/Heartbeat.antt =====
-- try_register_node and run_heartbeat of the LIDAR emulator: heartbeats with backoff, and
-- registration after five failures. A turn takes the flags as the loop reads them, the clock and the
-- answers of the remote calls. Waits and requests are recorded as events.
pub mod Recovery
pub mod Healing
use d_ro_cm.Base.{
  ℕ, suc, ◌+◌, ◌-◌, ◌*◌, ◌^◌, min, String, Bool, true, false, ◌&&◌, List, [], ◌∷◌, ◌++◌, Option,
  some, if◌then◌else◌, leb,
}
use d_ro_cm.Grpc.{Status, is_ok}
use d_ro_cm.Proto.{
  Float32, zero_float, NodeInfo, RegisterRequest, RegisterResponse, HeartbeatRequest,
  HeartbeatResponse,
}

pub data Event : Type 0 where
  sleep_ms : ℕ → Event
  send_register : RegisterRequest → Event
  send_heartbeat : HeartbeatRequest → Event

-- The request of `try_register_node`.
abbrev pub registration : String → ℕ → RegisterRequest
registration node_id port = record {
  node_info = some (record {
    node_id = node_id;
    ip_address = "127.0.0.1";
    port = port;
    services = "lidar" ∷ [];
    startup_timestamp = 0;
  });
  cpu_usage = zero_float;
  memory_usage = zero_float;
}

-- The session id after the call, and its result.
unfoldable pub try_register_node : String → Status × RegisterResponse → String × Bool
try_register_node session_id (status, resp) =
    if is_ok status && resp.success then (resp.session_id, true) else (session_id, false)

pub record Turn : Type 0 where
  pub running : Bool
  pub timestamp : ℕ
  pub register_answer : Status × RegisterResponse
  pub heartbeat_answer : Status × HeartbeatResponse

pub record State : Type 0 where
  pub session_id : String
  pub consecutive_failures : ℕ
  pub needs_reregister : Bool
  pub events : List Event

abbrev pub max_retries : ℕ
max_retries = 5

-- The bit patterns of 15.0f and 45.0f.
abbrev pub cpu_load : Float32
cpu_load = 0x41700000

abbrev pub memory_load : Float32
memory_load = 0x42340000

abbrev pub emit : State → List Event → State
emit s es = record s { events = s.events ++ es }

-- min(500 * (1 << (consecutive_failures - 1)), 10000)
abbrev pub backoff : ℕ → ℕ
backoff consecutive_failures = min (500 * 2 ^ (consecutive_failures - 1)) 10000

module _ (node_id : String) (port : ℕ) where
  abbrev pub request : State → Turn → HeartbeatRequest
  request s u = record {
    node_id = node_id;
    session_id = s.session_id;
    timestamp = u.timestamp;
    cpu_usage = cpu_load;
    memory_usage = memory_load;
    active_connections = 2;
  }

  unfoldable pub heartbeat_failed : State → State
  heartbeat_failed s =
      let failures = s.consecutive_failures + 1 in
      record {
        session_id = s.session_id;
        consecutive_failures = failures;
        needs_reregister = if leb max_retries failures then true else s.needs_reregister;
        events = s.events ++ Event.sleep_ms (backoff failures) ∷ [];
      }

  abbrev pub heartbeat_done : State → State
  heartbeat_done s = record s {
    consecutive_failures = 0;
    events = s.events ++ Event.sleep_ms 500 ∷ [];
  }

  -- The heartbeat of a turn and what follows it.
  unfoldable pub send : State → Turn → State
  unfolding heartbeat_failed
  send s u =
      let sent = emit s (Event.send_heartbeat (request s u) ∷ []) in
      if is_ok u.heartbeat_answer.0 && u.heartbeat_answer.1.success
      then heartbeat_done sent
      else heartbeat_failed sent

  -- The registration at the head of a turn: on success the turn goes on to its heartbeat.
  abbrev pub reregistered : State → Turn → String × Bool → State
  reregistered s u (session_id, true) =
      send
        (record s { session_id = session_id; needs_reregister = false; consecutive_failures = 0 }) u
  reregistered s u (session_id, false) = record s {
    session_id = session_id;
    events = s.events ++ Event.sleep_ms 2000 ∷ [];
  }

  unfoldable pub turn : State → Turn → State
  unfolding send try_register_node
  turn s u =
      if s.needs_reregister
      then reregistered (emit s (Event.send_register (registration node_id port) ∷ [])) u
          (try_register_node s.session_id u.register_answer)
      else send s u

  unfoldable pub run_heartbeat : State → List Turn → State
  unfolding turn
  run_heartbeat s [] = s
  run_heartbeat s (u ∷ us) = let rest = run_heartbeat (turn s u) us in if u.running then rest else s

  abbrev pub initial : String → State
  initial session_id = record {
    session_id = session_id;
    consecutive_failures = 0;
    needs_reregister = false;
    events = [];
  }
