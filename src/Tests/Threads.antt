-- ===== src/Tests/Threads.antt =====
-- The theorems on a node's threads along one run: it starts, its thread sleeps, it is stopped, and
-- started again.
use d_ro_cm.Base.{◌+◌, ◌≡◌, ◌≢◌, refl, true, false, [], ◌∷◌, some, length, arith}
use d_ro_cm.Proto.{empty_register_response, empty_heartbeat_response}
use d_ro_cm.Node.{done, null_dereference, new_node, stop}
use d_ro_cm.Node.Loop.{Turn, Event}
use d_ro_cm.Node.Sent.{heartbeats}
use d_ro_cm.Node.Threads.{
  Pc, HeartbeatThread, phase, Owner, System, initial, spawned, assigned, destroyed, Step, Reach,
  here, next, accept_start, stop_node, assign, run_current,
}
use d_ro_cm.Node.Threads.Invariant.{Inv, Reach-Inv}
use d_ro_cm.Node.Threads.Restart.{Runner, run_threads, restart_returns}
use d_ro_cm.Node.Threads.Destructor.{destroy_lem}
use d_ro_cm.Node.Threads.Orphan.{IsAbandoned, orphan_beats}
use d_ro_cm.Tests.Node.{info, accepted, not_found, refused}

abbrev made : System
made = initial (new_node "arm_01" "localhost:50051" info)

abbrev started : System
started = assigned (spawned made accepted.1)

-- The thread in its first sleep.
abbrev sleeper : HeartbeatThread
sleeper = record {
  pc = Pc.sleeping;
  stop_requested = false;
  reconnect_attempts = 0;
  events = Event.sleep_ms 1000 ∷ [];
}

abbrev beating : System
beating = record started { current = some sleeper }

-- A heartbeat that the registry does not know, as gRPC delivers the answer.
abbrev unknown : Turn
unknown = record refused { heartbeat_answer = (not_found, empty_heartbeat_response) }

reach_beating : Reach made beating
unfolding new_node phase
reach_beating =
    next (next (next here (accept_start accepted refl refl refl refl)) (assign refl tt refl))
      (run_current (record sleeper { pc = Pc.head; events = [] }) unknown refl refl)

-- Stopped while the thread sleeps, and started again: the owner is in its assignment.
abbrev stopped : System
stopped = record beating {
  node = record beating.node {
    coro_adapter = false;
    registry_stub = false;
    registry_channel = false;
    is_running = false;
    is_registered = false;
  };
}

abbrev restarted : System
restarted = spawned stopped accepted.1

reach_restarted : Reach made restarted
unfolding new_node stop
reach_restarted =
    next (next reach_beating (stop_node refl refl)) (accept_start accepted refl refl refl refl)

Reach-Inv_example : Inv restarted
Reach-Inv_example = Reach-Inv "arm_01" "localhost:50051" info reach_restarted

beating-Inv : Inv beating
beating-Inv = Reach-Inv "arm_01" "localhost:50051" info reach_beating

restart_returns_example :
    (s' : System) × (run_threads restarted
        ((Runner.new, unknown) ∷ (Runner.old, unknown) ∷ (Runner.old, unknown) ∷ [])
      ≡ done s')
    × Step s' (done (assigned s'))
    × Inv (assigned s')
    × ((assigned s').node.is_running ≡ true)
restart_returns_example =
    restart_returns restarted
      ((Runner.new, unknown) ∷ (Runner.old, unknown) ∷ (Runner.old, unknown) ∷ [])
      (Reach-Inv "arm_01" "localhost:50051" info reach_restarted) refl (omega arith)

destroy_lem_example :
    (s' : System) × (destroyed beating (stop beating.node) ≡ done s')
    × (sleeper.pc ≡ Pc.waiting → Step s' null_dereference)
    × (sleeper.pc ≢ Pc.waiting
        → (t : System) × Step s' (done t) × Step t (done (record t { owner = Owner.gone })))
unfolding new_node
destroy_lem_example = destroy_lem beating sleeper unknown beating-Inv refl refl refl refl

orphan_beats_example :
    (t : System) × (w' : HeartbeatThread) × Reach beating t
    × IsAbandoned t w'
    × (heartbeats w'.events ≡ heartbeats sleeper.events + length (unknown ∷ unknown ∷ []))
unfolding new_node
orphan_beats_example =
    orphan_beats beating sleeper (not_found, empty_register_response) (unknown ∷ unknown ∷ [])
      beating-Inv
      (record { owner = refl; running = refl; adapter = refl; current = refl; asleep = refl }) refl
      ((λ _. refl), ((λ _. refl), tt))
