-- ===== src/Node/Threads/Phases.antt =====
-- The phases of a heartbeat thread, one after the other, are a turn of its loop.
use d_ro_cm.Base.{◌≡◌, refl, inl, inr, true, false, Bool-cases, [], ◌∷◌, arith}
use d_ro_cm.Grpc.{Status}
use d_ro_cm.Proto.{RegisterResponse}
use d_ro_cm.Node.{Outcome, done, null_dereference, start, is_accepted}
use d_ro_cm.Node.Loop.{
  State, Turn, Exit, Event, emit, heartbeat_request, announce, reconnect, answered, beat, asleep,
  awake, meanwhile, turn,
}
use d_ro_cm.Node.Threads.{Pc, heard, at_head, at_wake, at_retry, spawned, assigned, System}

-- A phase after the owner's call in the sleep before it.
abbrev after : Outcome State → (State → Outcome (State × Pc)) → Outcome (State × Pc)
after (done s) k = k s
after null_dereference k = null_dereference

abbrev retry_if_waiting : Turn → Outcome (State × Pc) → Outcome (State × Pc)
retry_if_waiting u (done (s, Pc.waiting)) =
    after (meanwhile u.owner_stops_waiting s) (λ s'. at_retry s' u.register_answer)
retry_if_waiting u o = o

abbrev wake_if_sleeping : Turn → State × Pc → Outcome (State × Pc)
wake_if_sleeping u (s, Pc.sleeping) =
    after (meanwhile u.owner_stops s) (λ s'. retry_if_waiting u (at_wake s' u.stop_after_sleep u))
wake_if_sleeping u r = done r

-- One round of phases, from the head of the loop on.
abbrev pub in_phases : State → Turn → Outcome (State × Pc)
in_phases s u = wake_if_sleeping u (at_head s u.stop_at_head)

-- Where a turn leaves the thread; a fault leaves nothing.
abbrev pub settled : State × Exit → Outcome (State × Pc)
settled (s, Exit.next) = done (s, Pc.head)
settled (s, Exit.stopped) = done (s, Pc.ended)
settled (s, Exit.gave_up) = done (s, Pc.ended)
settled (s, Exit.fault) = null_dereference

retry-reconnect :
    (s : State) (u : Turn)
    → retry_if_waiting u (done (announce s, Pc.waiting)) ≡ settled (reconnect s u)
retry-reconnect s u = ground arith

wake-answered :
    (s : State) (u : Turn) → retry_if_waiting u (done (heard s u)) ≡ settled (answered s u)
unfolding answered
wake-answered s u = ground (arith, retry-reconnect s u)

wake-beat :
    (s : State) (u : Turn)
    → retry_if_waiting u (at_wake s u.stop_after_sleep u) ≡ settled (beat s u)
unfolding beat
wake-beat s u =
    ground
      (arith, wake-answered (emit s (Event.send_heartbeat (heartbeat_request s.node u) ∷ [])) u)

wake-awake :
    (s : State) (u : Turn) (o : Outcome State)
    → after o (λ s'. retry_if_waiting u (at_wake s' u.stop_after_sleep u)) ≡ settled (awake s u o)
wake-awake s u (done t) = wake-beat t u
wake-awake s u null_dereference = refl

pub in_phases-turn : (s : State) (u : Turn) → in_phases s u ≡ settled (turn s u)
unfolding turn
in_phases-turn s u = elim (Bool-cases u.stop_at_head) [
  | inl stopped ↦ rw stopped
  | inr going ↦ rw going (wake-awake s u (asleep s u))
]

-- `start` in its two steps.
pub assigned-spawned :
    (s : System) (answer : Status × RegisterResponse)
    → s.node.is_running ≡ false
    → is_accepted answer ≡ true
    → (assigned (spawned s answer.1)).node ≡ (start s.node answer).0
unfolding start
assigned-spawned s answer off accepted = ground arith
