-- ===== src/Node/Loop.antt =====
-- Node::heartbeat_loop. A turn of the loop takes what the thread meets there: the two reads of the
-- stop token, whether the owner calls `stop` while the thread sleeps, for the heartbeat's interval or
-- before a reconnection, the clock, the payload of the derived class and the answers of the remote
-- calls. Calls of the derived class, requests and waits are recorded as events.
use d_ro_cm.Base.{ℕ, Bool, ◌&&◌, List, [], ◌∷◌, ◌++◌, if◌then◌else◌, ltb, add32}
use d_ro_cm.Grpc.{Status, is_ok}
use d_ro_cm.Proto.{Float32, RegisterRequest, RegisterResponse, HeartbeatRequest, HeartbeatResponse}
use d_ro_cm.Node.{Node, Outcome, done, null_dereference, registration, is_accepted, adopt, stop}
use d_ro_cm.Node.Backoff.{calculate_backoff_delay}

pub record Turn : Type 0 where
  pub stop_at_head : Bool
  pub owner_stops : Bool
  pub owner_stops_waiting : Bool
  pub stop_after_sleep : Bool
  pub timestamp : ℕ
  pub payload : Float32 × Float32 × ℕ
  pub heartbeat_answer : Status × HeartbeatResponse
  pub register_answer : Status × RegisterResponse

pub data Event : Type 0 where
  sleep_ms : ℕ → Event
  send_heartbeat : HeartbeatRequest → Event
  send_register : RegisterRequest → Event
  on_reconnect_attempt : ℕ → ℕ → Event
  on_reconnected : Event

pub record State : Type 0 where
  pub node : Node
  pub reconnect_attempts : ℕ
  pub events : List Event

-- A turn goes on to the next, leaves the loop on the stop token or by giving up, or faults.
pub data Exit : Type 0 where
  next stopped gave_up fault : Exit

abbrev pub emit : State → List Event → State
emit s events = record s { events = s.events ++ events }

abbrev pub heartbeat_request : Node → Turn → HeartbeatRequest
heartbeat_request n u = record {
  node_id = n.node_id;
  session_id = n.session_id;
  timestamp = u.timestamp;
  cpu_usage = u.payload.0;
  memory_usage = u.payload.1;
  active_connections = u.payload.2;
}

-- The branch for an accepted heartbeat.
abbrev pub heartbeat_accepted : State → State
heartbeat_accepted s =
    if ltb 0 s.reconnect_attempts
    then record (emit s (Event.on_reconnected ∷ [])) { reconnect_attempts = 0 }
    else s

-- What the owner's thread does while the heartbeat thread sleeps; a fault there ends the process.
abbrev pub owner_call : State → Outcome Node → Outcome State
owner_call s (done n) = done (record s { node = n })
owner_call s null_dereference = null_dereference

abbrev pub meanwhile : Bool → State → Outcome State
meanwhile owner_stops s = if owner_stops then owner_call s (stop s.node) else done s

-- An attempt to reconnect up to its wait: it is counted and announced.
abbrev pub announce : State → State
announce s =
    let attempt = add32 s.reconnect_attempts 1 in
    let delay_ms = calculate_backoff_delay s.node.reconnect_strategy attempt in
    record s {
      reconnect_attempts = attempt;
      events =
          s.events ++ Event.on_reconnect_attempt attempt delay_ms ∷ Event.sleep_ms delay_ms ∷ [];
    }

-- After the wait: the registration goes through the stub.
abbrev pub reregister : State → Status × RegisterResponse → State × Exit
reregister s answer =
    if s.node.registry_stub
    then (
      record s {
        node = if is_accepted answer then adopt s.node answer.1 else s.node;
        events = s.events ++ Event.send_register (registration s.node) ∷ [];
      },
      Exit.next,
    )
    else (s, Exit.fault)

abbrev pub resumed : State → Status × RegisterResponse → Outcome State → State × Exit
resumed s answer (done s') = reregister s' answer
resumed s answer null_dereference = (s, Exit.fault)

abbrev pub reconnect : State → Turn → State × Exit
reconnect s u =
    let waiting = announce s in
    resumed waiting u.register_answer (meanwhile u.owner_stops_waiting waiting)

-- The branch for a refused heartbeat.
abbrev pub heartbeat_refused : State → Turn → State × Exit
heartbeat_refused s u =
    if u.heartbeat_answer.1.should_reconnect
    then (if ltb s.reconnect_attempts s.node.reconnect_strategy.max_attempts
        then reconnect s u
        else (s, Exit.gave_up))
    else (s, Exit.next)

-- `status.ok() && resp.success()`
abbrev pub is_heartbeat_accepted : Status × HeartbeatResponse → Bool
is_heartbeat_accepted (status, resp) = is_ok status && resp.success

unfoldable pub answered : State → Turn → State × Exit
answered s u =
    if is_heartbeat_accepted u.heartbeat_answer
    then (heartbeat_accepted s, Exit.next)
    else heartbeat_refused s u

-- From the second read of the stop token on.
unfoldable pub beat : State → Turn → State × Exit
unfolding answered
beat s u =
    if u.stop_after_sleep
    then (s, Exit.stopped)
    else (if s.node.registry_stub
        then answered (emit s (Event.send_heartbeat (heartbeat_request s.node u) ∷ [])) u
        else (s, Exit.fault))

abbrev pub asleep : State → Turn → Outcome State
asleep s u = meanwhile u.owner_stops (emit s (Event.sleep_ms s.node.heartbeat_interval_ms ∷ []))

abbrev pub awake : State → Turn → Outcome State → State × Exit
awake s u (done s') = beat s' u
awake s u null_dereference = (s, Exit.fault)

unfoldable pub turn : State → Turn → State × Exit
unfolding beat
turn s u = if u.stop_at_head then (s, Exit.stopped) else awake s u (asleep s u)

abbrev pub go_on : State × Exit → (State → State × Exit) → State × Exit
go_on (s, Exit.next) k = k s
go_on r k = r

unfoldable pub heartbeat_loop : State → List Turn → State × Exit
unfolding turn
heartbeat_loop s [] = (s, Exit.next)
heartbeat_loop s (u ∷ us) = go_on (turn s u) (λ s'. heartbeat_loop s' us)

abbrev pub initial : Node → State
initial n = record { node = n; reconnect_attempts = 0; events = [] }
