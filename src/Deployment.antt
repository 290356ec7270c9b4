-- ===== src/Deployment.antt =====
-- A node's heartbeat thread (Node::heartbeat_loop in src/node/node_base.cpp) and the registry that
-- answers it (src/registry/registry_service.cpp), while nobody stops the node. Each turn of the loop
-- meets the registry as other threads (handlers for other nodes, the health checker) have left it.
pub mod Quiet
pub mod Table
pub mod Unknown
pub mod Known
pub mod Emulator
use d_ro_cm.Base.{ℕ, suc, String, Bool, true, false, List, [], ◌∷◌, if◌then◌else◌, ltb}
use d_ro_cm.Grpc.{Status, status_ok}
use d_ro_cm.Proto.{
  Float32, RegisterResponse, HeartbeatResponse, empty_register_response, empty_heartbeat_response,
}
use d_ro_cm.Registry.NodeTable.History.{Call, run}
use d_ro_cm.Registry.Service.{RegistryService, heartbeat, register}
use d_ro_cm.Node.{registration}
use d_ro_cm.Node.Loop.{State, Turn, Event, Exit, turn, heartbeat_request}
use d_ro_cm.Node.Healing.{Transport}

-- What becomes of a remote call. One that is lost ends with the given status at the caller; its
-- request may have been served before the answer was lost.
pub data Delivery : Type 0 where
  delivered : Delivery
  request_lost answer_lost : Status → Delivery

-- One turn: the calls on the table since the last one, the clocks of the node and of the registry, the
-- payload, the random suffix of a session id, and the fates of the two calls that a turn may make.
pub record Meeting : Type 0 where
  pub others : List Call
  pub timestamp : ℕ
  pub now : ℕ
  pub payload : Float32 × Float32 × ℕ
  pub roll : String
  pub heartbeat_delivery : Delivery
  pub register_delivery : Delivery

pub record World : Type 0 where
  pub loop : State
  pub service : RegistryService

-- The caller's side of a call, given what the handler leaves.
abbrev pub answer : {R : Type 0} → (Status → R → R) → R → Delivery → R × Status → Status × R
answer received empty Delivery.delivered (resp, st) = (st, received st resp)
answer received empty (Delivery.request_lost lost) r = (lost, empty)
answer received empty (Delivery.answer_lost lost) r = (lost, empty)

-- The registry's side.
abbrev pub served : Delivery → RegistryService → RegistryService → RegistryService
served (Delivery.request_lost lost) before after = before
served _ before after = after

-- A turn in which nobody stops the node.
abbrev pub unstopped : Meeting → Status × HeartbeatResponse → Status × RegisterResponse → Turn
unstopped e heartbeat_answer register_answer = record {
  stop_at_head = false;
  owner_stops = false;
  owner_stops_waiting = false;
  stop_after_sleep = false;
  timestamp = e.timestamp;
  payload = e.payload;
  heartbeat_answer = heartbeat_answer;
  register_answer = register_answer;
}

-- The registrations that the loop has sent.
abbrev pub registrations : List Event → ℕ
registrations [] = 0
registrations (Event.send_register request ∷ es) = suc (registrations es)
registrations (e ∷ es) = registrations es

abbrev pub busy : World → Meeting → RegistryService
busy x e = record x.service { node_table = run x.service.node_table e.others }

-- The turn before its answers, on which its request does not depend.
abbrev pub pending : Meeting → Turn
pending e = unstopped e (status_ok, empty_heartbeat_response) (status_ok, empty_register_response)

-- The registry once the turn's heartbeat has been sent, if there is a stub to send it through.
unfoldable pub beaten : World → Meeting → RegistryService
beaten x e =
    let before = busy x e in
    let request = heartbeat_request x.loop.node (pending e) in
    let after = (heartbeat before request empty_heartbeat_response e.now).0 in
    if x.loop.node.registry_stub then served e.heartbeat_delivery before after else before

module _ (w : Transport) (received : Status → RegisterResponse → RegisterResponse) where
  abbrev pub heartbeat_answer : World → Meeting → Status × HeartbeatResponse
  heartbeat_answer x e =
      let request = heartbeat_request x.loop.node (pending e) in
      let h = heartbeat (busy x e) request empty_heartbeat_response e.now in
      answer w.received empty_heartbeat_response e.heartbeat_delivery (h.1, h.2)

  -- A turn of the loop. The registry serves a Register if the turn sends one.
  unfoldable pub meet : World → Meeting → World × Exit
  unfolding beaten
  meet x e =
      let before = beaten x e in
      let g = register before (registration x.loop.node) empty_register_response e.roll e.now in
      let (loop, exit) = turn x.loop (
        unstopped e (heartbeat_answer x e)
          (answer received empty_register_response e.register_delivery (g.1, g.2))) in
      let asked = ltb (registrations x.loop.events) (registrations loop.events) in
      (
        record {
          loop = loop;
          service = if asked then served e.register_delivery before g.0 else before;
        },
        exit,
      )

  abbrev pub go_on : World × Exit → (World → World × Exit) → World × Exit
  go_on (x, Exit.next) k = k x
  go_on r k = r

  unfoldable pub live : World → List Meeting → World × Exit
  unfolding meet
  live x [] = (x, Exit.next)
  live x (e ∷ es) = go_on (meet x e) (λ x'. live x' es)
