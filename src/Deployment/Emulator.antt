-- ===== src/Deployment/Emulator.antt =====
-- The emulator's heartbeat thread (run_heartbeat and try_register_node in examples/lidar_emulator.cpp)
-- and the registry that answers it. A call can be lost on its way there or back, or meet its deadline,
-- and ends then with a status of the client's. Each call that arrives meets the registry as other
-- threads have left it.
pub mod Vain
pub mod Rejoin
pub mod Restored
use d_ro_cm.Base.{ℕ, String, Bool, ◌&&◌, ◌||◌, not, List, [], ◌∷◌, if◌then◌else◌}
use d_ro_cm.Grpc.{Status, status_ok, is_ok}
use d_ro_cm.Proto.{
  RegisterResponse, HeartbeatResponse, empty_register_response, empty_heartbeat_response,
}
use d_ro_cm.Registry.NodeTable.History.{Call, run}
use d_ro_cm.Registry.Service.{RegistryService, Reply, register, heartbeat}
use d_ro_cm.Lidar.Heartbeat.{State, Turn, turn, request, registration, try_register_node}
use d_ro_cm.Deployment.{Delivery, answer, served}

-- One turn: the flags that the loop reads at its head, the calls of others before it and between its
-- two own, the clocks, the random suffix of a session id, and the fates of its two calls.
pub record Meeting : Type 0 where
  pub running : Bool
  pub others : List Call
  pub between : List Call
  pub timestamp : ℕ
  pub now : ℕ
  pub later : ℕ
  pub roll : String
  pub register_delivery : Delivery
  pub heartbeat_delivery : Delivery

pub record World : Type 0 where
  pub thread : State
  pub service : RegistryService

abbrev pub after : List Call → RegistryService → RegistryService
after calls s = record s { node_table = run s.node_table calls }

abbrev pub running_turn : Meeting → Status × RegisterResponse → Status × HeartbeatResponse → Turn
running_turn e register_answer heartbeat_answer = record {
  running = e.running;
  timestamp = e.timestamp;
  register_answer = register_answer;
  heartbeat_answer = heartbeat_answer;
}

-- The turn before its answers, on which its request does not depend.
abbrev pub pending : Meeting → Turn
pending e =
    running_turn e (status_ok, empty_register_response) (status_ok, empty_heartbeat_response)

module _ (node_id : String) (port : ℕ) where
  abbrev pub joined : World → Meeting → Reply RegisterResponse
  joined x e =
      register (after e.others x.service) (registration node_id port) empty_register_response e.roll
        e.now

  -- The thread reads a message only under an OK status.
  abbrev pub register_answer : World → Meeting → Status × RegisterResponse
  register_answer x e =
      let g = joined x e in
      answer (λ st resp. resp) empty_register_response e.register_delivery (g.1, g.2)

  -- The registration is only sent if the thread wants to register.
  abbrev pub midway : World → Meeting → World
  midway x e =
      let before = after e.others x.service in
      if x.thread.needs_reregister
      then record {
        thread = record x.thread {
          session_id = (try_register_node x.thread.session_id (register_answer x e)).0;
        };
        service = after e.between (served e.register_delivery before (joined x e).0);
      }
      else record x { service = after e.between before }

  abbrev pub answered : World → Meeting → Reply HeartbeatResponse
  answered x e =
      let y = midway x e in
      heartbeat y.service (request node_id port y.thread (pending e)) empty_heartbeat_response
        e.later

  abbrev pub heartbeat_answer : World → Meeting → Status × HeartbeatResponse
  heartbeat_answer x e =
      let h = answered x e in
      answer (λ st resp. resp) empty_heartbeat_response e.heartbeat_delivery (h.1, h.2)

  -- A turn without a registration, or with one whose acceptance the thread has heard of, sends a
  -- heartbeat.
  abbrev pub sends : World → Meeting → Bool
  sends x e =
      let a = register_answer x e in not x.thread.needs_reregister || (is_ok a.0 && a.1.success)

  unfoldable pub meet : World → Meeting → World
  meet x e =
      let y = midway x e in
      record {
        thread =
            turn node_id port x.thread
              (running_turn e (register_answer x e) (heartbeat_answer x e));
        service =
            if sends x e then served e.heartbeat_delivery y.service (answered x e).0 else y.service;
      }

  -- The loop of run_heartbeat: it ends where a flag is not set.
  unfoldable pub live : World → List Meeting → World
  unfolding meet
  live x [] = x
  live x (e ∷ es) = let rest = live (meet x e) es in if e.running then rest else x
