-- ===== src/Tests/Node.antt =====
-- The node's theorems at concrete answers.
use d_ro_cm.Base.{
  List, ◌≤◌, inr, ◌-◌, ◌*◌, ◌^◌, min, ◌≡◌, refl, ◌≢◌, true, false, [], ◌∷◌, if◌then◌else◌, arith,
  mul32,
}
use d_ro_cm.Grpc.{Status, StatusCode, status_ok, is_ok}
use d_ro_cm.Proto.{
  NodeInfo, RegisterResponse, HeartbeatResponse, HeartbeatRequest, empty_heartbeat_response,
  empty_register_response,
}
use d_ro_cm.Registry.Service.{RegistryService, new_service, heartbeat}
use d_ro_cm.Node.{
  Node, done, null_dereference, new_node, start, stop, default_strategy, ReconnectStrategy,
}
use d_ro_cm.Node.Backoff.{calculate_backoff_delay, calculate_backoff_delay-exact}
use d_ro_cm.Node.Loop.{State, Turn, Exit, turn, heartbeat_loop, initial}
use d_ro_cm.Node.Lifecycle.{
  IsSound, new_node-IsSound, start-IsSound, stop_faults_asleep, restart_faults,
}
use d_ro_cm.Node.Numbering.{CountsUp, attempts_after, attempts_numbered}
use d_ro_cm.Node.Giveup.{gives_up}
use d_ro_cm.Node.Healing.{Transport, served, lost, Idle, never_reconnects}

abbrev pub info : NodeInfo
info = record {
  node_id = "arm_01";
  ip_address = "10.0.0.7";
  port = 50060;
  services = "arm" ∷ [];
  startup_timestamp = 0;
}

abbrev fresh : Node
fresh = new_node "arm_01" "localhost:50051" info

abbrev pub accepted : Status × RegisterResponse
accepted = (
  status_ok,
  record { success = true; session_id = "arm_01_7"; heartbeat_interval = 1000; error_message = "" },
)

abbrev pub running : Node
running = (start fresh accepted).0

running-IsSound : IsSound running
unfolding new_node
running-IsSound =
    start-IsSound fresh accepted refl (new_node-IsSound "arm_01" "localhost:50051" info)

abbrev strategy : ReconnectStrategy
strategy = default_strategy

-- 1, 2, 4, 8, 16 seconds, and then the cap of 30.
delays :
    (calculate_backoff_delay strategy 1 ≡ 1000)
    × (calculate_backoff_delay strategy 5 ≡ 16000)
    × (calculate_backoff_delay strategy 6 ≡ 30000)
    × (calculate_backoff_delay strategy 10 ≡ 30000)
unfolding calculate_backoff_delay mul32
delays = (refl, refl, refl, refl)

calculate_backoff_delay-exact_example :
    calculate_backoff_delay strategy 4 ≡ min (1000 * 2 ^ (4 - 1)) 30000
calculate_backoff_delay-exact_example = calculate_backoff_delay-exact strategy 4 refl (omega arith)

restart_faults_example :
    (n' : Node) × (stop running ≡ done n')
    × ((start n' accepted).1 ≡ true)
    × (stop (start n' accepted).0 ≡ null_dereference)
unfolding start new_node
restart_faults_example = restart_faults running accepted running-IsSound refl refl

-- A heartbeat that the registry answers NOT_FOUND, with its response delivered.
abbrev pub asked : HeartbeatResponse
asked = record { success = false; missed_heartbeats = 0; should_reconnect = true }

abbrev pub not_found : Status
not_found = record { code = StatusCode.not_found; error_message = "Node not registered" }

abbrev pub refused : Turn
refused = record {
  stop_at_head = false;
  owner_stops = false;
  owner_stops_waiting = false;
  stop_after_sleep = false;
  timestamp = 0;
  payload = (0, 0, 0);
  heartbeat_answer = (not_found, asked);
  register_answer = (not_found, empty_register_response);
}

stop_faults_asleep_example :
    (turn (initial running) (record refused { owner_stops_waiting = true })).1 ≡ Exit.fault
unfolding start new_node
stop_faults_asleep_example =
    stop_faults_asleep (initial running) (record refused { owner_stops_waiting = true })
      running-IsSound refl refl refl (inr (refl, (refl, refl, refl), refl))

abbrev hasty : State
hasty = initial (record running { reconnect_strategy = record strategy { max_attempts = 1 } })

gives_up_example : (heartbeat_loop hasty (refused ∷ refused ∷ [])).1 ≡ Exit.gave_up
unfolding start new_node
gives_up_example =
    gives_up hasty (refused ∷ refused ∷ []) refl (omega arith)
      ((refl, refl, refl, refl, refl, refl), ((refl, refl, refl, refl, refl, refl), tt))
      (omega arith) (omega arith)

-- Two attempts, a heartbeat that is answered, and a third.
abbrev shaky : List Turn
shaky =
    refused
    ∷ refused
    ∷ record refused { heartbeat_answer = (status_ok, record asked { success = true }) }
    ∷ refused
    ∷ []

attempts_numbered_example :
    let last = (heartbeat_loop (initial running) shaky).0 in
    CountsUp 0 last.events
    × (attempts_after 0 last.events ≡ last.reconnect_attempts)
    × (last.reconnect_attempts ≤ running.reconnect_strategy.max_attempts)
unfolding start new_node
attempts_numbered_example = attempts_numbered running shaky (omega arith)

-- gRPC as documented: the message arrives with the status OK alone.
pub deliver : Status → HeartbeatResponse → HeartbeatResponse
deliver st resp = if is_ok st then resp else empty_heartbeat_response

pub deliver_ok : (st : Status) (resp : HeartbeatResponse) → is_ok st ≡ true → deliver st resp ≡ resp
unfolding deliver
deliver_ok st resp h = rw h

pub deliver_failed :
    (st : Status) (resp : HeartbeatResponse)
    → is_ok st ≡ false
    → deliver st resp ≡ empty_heartbeat_response
unfolding deliver
deliver_failed st resp h = rw h

abbrev pub transport : Transport
transport = record {
  received = deliver;
  received_ok = deliver_ok;
  received_failed = deliver_failed;
}

abbrev pub pulse : HeartbeatRequest
pulse = record {
  node_id = "arm_01";
  session_id = "arm_01_7";
  timestamp = 0;
  cpu_usage = 0;
  memory_usage = 0;
  active_connections = 0;
}

-- A registry that was restarted has lost the node.
abbrev pub restarted : RegistryService
restarted = new_service 10

abbrev told : Turn
told = record refused {
  heartbeat_answer = (
    (heartbeat restarted pulse empty_heartbeat_response 3).2,
    deliver (heartbeat restarted pulse empty_heartbeat_response 3).2
        (heartbeat restarted pulse empty_heartbeat_response 3).1,
  );
}

abbrev cut_off : Turn
cut_off = record refused {
  heartbeat_answer =
      (record { code = StatusCode.unavailable; error_message = "" }, empty_heartbeat_response);
}

running-Idle : Idle "arm_01_7" (initial running)
unfolding start new_node
running-Idle = record { no_attempt = refl; same_session = refl; quiet = tt }

never_reconnects_example :
    Idle "arm_01_7" (heartbeat_loop (initial running) (told ∷ cut_off ∷ [])).0
    × ((heartbeat_loop (initial running) (told ∷ cut_off ∷ [])).1 ≢ Exit.gave_up)
never_reconnects_example =
    never_reconnects transport "arm_01_7" (initial running) (told ∷ cut_off ∷ [])
      (served restarted pulse 3 refl refl, (lost refl refl, tt)) running-Idle
