-- ===== src/Node/Healing.antt =====
-- The heartbeat loop of a node against the registry's own answers. gRPC delivers the response
-- message of a unary call only with the status OK: otherwise the caller's message stays as it was
-- made. That is the parameter Transport; the program relies on more.
use d_ro_cm.Base.{
  ℕ, String, ◌≡◌, ◌≢◌, true, false, Bool-cases, ◌∙◌, List, [], ◌∷◌, All, All-append, inl, inr,
  arith,
}
use d_ro_cm.Grpc.{Status, is_ok}
use d_ro_cm.Proto.{HeartbeatRequest, HeartbeatResponse, empty_heartbeat_response}
use d_ro_cm.Registry.Service.{RegistryService, heartbeat}
use d_ro_cm.Node.{Node, done, stop}
use d_ro_cm.Node.Rule.{IsPlain, Invariant, loop_keeps}
use d_ro_cm.Node.Loop.{State, Turn, Event, Exit, heartbeat_loop, answered, emit}

-- What the caller's fresh HeartbeatResponse holds when a call comes back with the status, if the
-- handler left the message.
pub record Transport : Type 0 where
  pub received : Status → HeartbeatResponse → HeartbeatResponse
  pub received_ok :
      (st : Status) (resp : HeartbeatResponse) → is_ok st ≡ true → received st resp ≡ resp
  pub received_failed :
      (st : Status) (resp : HeartbeatResponse)
      → is_ok st ≡ false
      → received st resp ≡ empty_heartbeat_response

-- An answer to a heartbeat: the registry's, in whatever state it is, or a failure on the way.
pub data IsAnswer (w : Transport) (answer : Status × HeartbeatResponse) : Type 0 where
  served :
      (s : RegistryService) (request : HeartbeatRequest) (now : ℕ)
      → answer.0 ≡ (heartbeat s request empty_heartbeat_response now).2
      → answer.1 ≡ w.received answer.0 (heartbeat s request empty_heartbeat_response now).1
      → IsAnswer w answer
  lost : is_ok answer.0 ≡ false → answer.1 ≡ empty_heartbeat_response → IsAnswer w answer

module _ (w : Transport) where
  heartbeat_ok :
      (s : RegistryService) (request : HeartbeatRequest) (now : ℕ)
      → is_ok (heartbeat s request empty_heartbeat_response now).2 ≡ true
      → ((heartbeat s request empty_heartbeat_response now).1.should_reconnect ≡ false)
  unfolding heartbeat
  heartbeat_ok s request now h = ground arith

  -- No answer ever asks the node to reconnect: the registry sets the flag only beside NOT_FOUND.
  pub never_asked :
      (answer : Status × HeartbeatResponse) → IsAnswer w answer → answer.1.should_reconnect ≡ false
  never_asked answer (lost failed e) = rw e
  never_asked answer (served s request now st resp) = elim (Bool-cases (is_ok answer.0)) [
    | inl ok ↦ rw (resp, w.received_ok answer.0 _ ok) (heartbeat_ok s request now (rw st at ok))
    | inr failed ↦ rw (resp, w.received_failed answer.0 _ failed)
  ]

-- Not a registration.
abbrev pub IsQuiet : Event → Type 0
IsQuiet (Event.send_register request) = ⊥
IsQuiet _ = Unit

-- The loop has neither tried to reconnect nor taken a new session.
pub record Idle (session : String) (s : State) : Type 0 where
  pub no_attempt : s.reconnect_attempts ≡ 0
  pub same_session : s.node.session_id ≡ session
  pub quiet : All IsQuiet s.events

IsPlain-IsQuiet : (e : Event) → IsPlain e → IsQuiet e
IsPlain-IsQuiet (Event.sleep_ms ms) p = tt
IsPlain-IsQuiet (Event.send_heartbeat request) p = tt
IsPlain-IsQuiet (Event.send_register request) p = absurd p
IsPlain-IsQuiet (Event.on_reconnect_attempt a d) p = tt
IsPlain-IsQuiet Event.on_reconnected p = tt

module _ (w : Transport) (session : String) where
  answered-Idle :
      (s : State) (u : Turn)
      → IsAnswer w u.heartbeat_answer
      → Idle session s
      → Idle session (answered s u).0 × ((answered s u).1 ≡ Exit.next)
  unfolding answered
  answered-Idle s u a i =
      let unasked = never_asked w u.heartbeat_answer a in
      (
        record {
          no_attempt = ground (arith, i.no_attempt, unasked);
          same_session = ground (arith, i.no_attempt, i.same_session, unasked);
          quiet = ground (arith, i.no_attempt, i.quiet, unasked);
        },
        ground (arith, unasked),
      )

  stop-session : (n n' : Node) → stop n ≡ done n' → n'.session_id ≡ n.session_id
  unfolding stop
  stop-session n n' h = ground arith

  emit-Idle : (s : State) (e : Event) → IsPlain e → Idle session s → Idle session (emit s (e ∷ []))
  emit-Idle s e q i = record {
    no_attempt = i.no_attempt;
    same_session = i.same_session;
    quiet = All-append IsQuiet s.events (e ∷ []) i.quiet (IsPlain-IsQuiet e q, tt);
  }

  Idle-Invariant :
      Invariant (Idle session) (λ x. x ≢ Exit.gave_up) (λ u. IsAnswer w u.heartbeat_answer)
  Idle-Invariant = record {
    emits = emit-Idle;
    stops = λ s n e i. record {
      no_attempt = i.no_attempt;
      same_session = stop-session s.node n e ∙ i.same_session;
      quiet = i.quiet;
    };
    answers = λ s u a i. let (j, e) = answered-Idle s u a i in (j, (λ h. cc));
    next = λ h. cc;
    stopped = λ h. cc;
    fault = λ h. cc;
  }

  -- A heartbeat loop that has not tried to reconnect never does, if each of its heartbeats is
  -- answered by the registry, in whatever state, and delivered as gRPC does, or is lost: the
  -- counter stays at 0, the session stays, no registration is sent, and the loop does not give up.
  pub never_reconnects :
      (s : State) (us : List Turn)
      → All (λ (u : Turn). IsAnswer w u.heartbeat_answer) us
      → Idle session s
      → Idle session (heartbeat_loop s us).0 × ((heartbeat_loop s us).1 ≢ Exit.gave_up)
  never_reconnects = loop_keeps Idle-Invariant
