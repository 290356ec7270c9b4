-- ===== src/Node/Threads.antt =====
-- node_base.cpp: the owner's thread and the heartbeat threads of one node, step by step. A heartbeat
-- thread stands at the head of its loop, in one of its two sleeps, or has ended; between two of these
-- it runs in one step. `start` is two steps of the owner: the assignment to heartbeat_thread_ starts
-- the new thread, and then asks the old one to stop and joins it. The destructor calls `stop`, and
-- then the member's destructor asks and joins.
pub mod Phases
pub mod Invariant
pub mod Ends
pub mod Restart
pub mod Destructor
pub mod Orphan
use d_ro_cm.Base.{ℕ, ◌≡◌, Bool, true, false, List, [], ◌∷◌, Option, none, some, if◌then◌else◌, ltb}
use d_ro_cm.Grpc.{Status}
use d_ro_cm.Proto.{RegisterResponse}
use d_ro_cm.Node.{Node, Outcome, done, null_dereference, connect, adopt, is_accepted, start, stop}
use d_ro_cm.Node.Loop.{
  State, Turn, Event, Exit, emit, heartbeat_request, heartbeat_accepted, is_heartbeat_accepted,
  announce, reregister,
}

pub data Pc : Type 0 where
  head sleeping waiting ended : Pc

pub record HeartbeatThread : Type 0 where
  pub pc : Pc
  pub stop_requested : Bool
  pub reconnect_attempts : ℕ
  pub events : List Event

abbrev pub new_thread : HeartbeatThread
new_thread = record { pc = Pc.head; stop_requested = false; reconnect_attempts = 0; events = [] }

-- `while (!stop_token.stop_requested())`, and the call of sleep_for.
abbrev pub at_head : State → Bool → State × Pc
at_head s stop_requested =
    if stop_requested
    then (s, Pc.ended)
    else (emit s (Event.sleep_ms s.node.heartbeat_interval_ms ∷ []), Pc.sleeping)

-- The answer of the heartbeat, up to the wait before a reconnection.
abbrev pub heard : State → Turn → State × Pc
heard s u =
    if is_heartbeat_accepted u.heartbeat_answer
    then (heartbeat_accepted s, Pc.head)
    else (if u.heartbeat_answer.1.should_reconnect
        then (if ltb s.reconnect_attempts s.node.reconnect_strategy.max_attempts
            then (announce s, Pc.waiting)
            else (s, Pc.ended))
        else (s, Pc.head))

-- From the second read of the stop token on.
abbrev pub at_wake : State → Bool → Turn → Outcome (State × Pc)
at_wake s stop_requested u =
    if stop_requested
    then done (s, Pc.ended)
    else (if s.node.registry_stub
        then done (heard (emit s (Event.send_heartbeat (heartbeat_request s.node u) ∷ [])) u)
        else null_dereference)

-- From the end of the wait before a reconnection to the head of the loop.
abbrev pub retried : State × Exit → Outcome (State × Pc)
retried (s, Exit.next) = done (s, Pc.head)
retried (s, _) = null_dereference

abbrev pub at_retry : State → Status × RegisterResponse → Outcome (State × Pc)
at_retry s answer = retried (reregister s answer)

abbrev pub state_of : Node → HeartbeatThread → State
state_of n w = record { node = n; reconnect_attempts = w.reconnect_attempts; events = w.events }

abbrev pub phase_at : Pc → State → Bool → Turn → Outcome (State × Pc)
phase_at Pc.head s stop_requested u = done (at_head s stop_requested)
phase_at Pc.sleeping s stop_requested u = at_wake s stop_requested u
phase_at Pc.waiting s stop_requested u = at_retry s u.register_answer
phase_at Pc.ended s stop_requested u = done (s, Pc.ended)

abbrev pub moved : HeartbeatThread → Outcome (State × Pc) → Outcome (Node × HeartbeatThread)
moved w (done (s, pc)) =
    done
      (s.node, record w { pc = pc; reconnect_attempts = s.reconnect_attempts; events = s.events })
moved w null_dereference = null_dereference

-- One step of a thread. It reads its own stop token and the object that all threads share.
unfoldable pub phase : Node → HeartbeatThread → Turn → Outcome (Node × HeartbeatThread)
phase n w u = moved w (phase_at w.pc (state_of n w) w.stop_requested u)

-- Where the owner stands: between two calls, in the assignment of `start`, in the destructor, or
-- behind it.
pub data Owner : Type 0 where
  idle assigning destroying gone : Owner

-- `current` is heartbeat_thread_; `fresh` is the thread that `start` has made and not yet assigned.
pub record System : Type 0 where
  pub node : Node
  pub current : Option HeartbeatThread
  pub fresh : Option HeartbeatThread
  pub owner : Owner

abbrev pub initial : Node → System
initial n = record { node = n; current = none; fresh = none; owner = Owner.idle }

abbrev pub request_stop : Option HeartbeatThread → Option HeartbeatThread
request_stop none = none
request_stop (some w) = some (record w { stop_requested = true })

-- join() returns: there is no thread, or it has ended.
abbrev pub IsJoinable : Option HeartbeatThread → Type 0
IsJoinable none = Unit
IsJoinable (some w) = w.pc ≡ Pc.ended

-- `start` with an accepted registration, up to the join in the assignment.
abbrev pub spawned : System → RegisterResponse → System
spawned s resp = record {
  node = adopt (connect s.node) resp;
  current = request_stop s.current;
  fresh = some new_thread;
  owner = Owner.assigning;
}

-- The rest of `start`.
abbrev pub assigned : System → System
assigned s = record {
  node = record s.node { heartbeat_thread = true; is_running = true };
  current = s.fresh;
  fresh = none;
  owner = Owner.idle;
}

abbrev pub put_node : System → Outcome Node → Outcome System
put_node s (done n) = done (record s { node = n })
put_node s null_dereference = null_dereference

-- The destructor: `stop`, and then the destructor of heartbeat_thread_ up to its join.
abbrev pub destroyed : System → Outcome Node → Outcome System
destroyed s (done n) =
    done (record s { node = n; current = request_stop s.current; owner = Owner.destroying })
destroyed s null_dereference = null_dereference

abbrev pub put_current : System → Outcome (Node × HeartbeatThread) → Outcome System
put_current s (done (n, w)) = done (record s { node = n; current = some w })
put_current s null_dereference = null_dereference

abbrev pub put_fresh : System → Outcome (Node × HeartbeatThread) → Outcome System
put_fresh s (done (n, w)) = done (record s { node = n; fresh = some w })
put_fresh s null_dereference = null_dereference

-- The first four are the owner's calls, the next two the ends of its joins.
pub data Step (s : System) (o : Outcome System) : Type 0 where
  refuse_start :
      (answer : Status × RegisterResponse)
      → s.owner ≡ Owner.idle
      → s.node.is_running ≡ false
      → is_accepted answer ≡ false
      → o ≡ done (record s { node = (start s.node answer).0 })
      → Step s o
  accept_start :
      (answer : Status × RegisterResponse)
      → s.owner ≡ Owner.idle
      → s.node.is_running ≡ false
      → is_accepted answer ≡ true
      → o ≡ done (spawned s answer.1)
      → Step s o
  stop_node : s.owner ≡ Owner.idle → o ≡ put_node s (stop s.node) → Step s o
  destroy_node : s.owner ≡ Owner.idle → o ≡ destroyed s (stop s.node) → Step s o
  assign : s.owner ≡ Owner.assigning → IsJoinable s.current → o ≡ done (assigned s) → Step s o
  leave :
      s.owner ≡ Owner.destroying
      → IsJoinable s.current
      → o ≡ done (record s { owner = Owner.gone })
      → Step s o
  run_current :
      (w : HeartbeatThread) (u : Turn)
      → s.current ≡ some w
      → o ≡ put_current s (phase s.node w u)
      → Step s o
  run_fresh :
      (w : HeartbeatThread) (u : Turn)
      → s.fresh ≡ some w
      → o ≡ put_fresh s (phase s.node w u)
      → Step s o

pub data Reach (s : System) : System → Type 0 where
  here : Reach s s
  next : {t t' : System} → Reach s t → Step t (done t') → Reach s t'
