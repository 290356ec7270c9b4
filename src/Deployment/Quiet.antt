-- ===== src/Deployment/Quiet.antt =====
-- A turn in which the node is not asked to register again: what it leaves, exactly.
use d_ro_cm.Base.{
  ℕ, suc, ◌+◌, length, ltb, ◌≡◌, refl, ◌∙◌, ap, true, false, List, [], ◌∷◌, ◌++◌, All, arith,
}
use d_ro_cm.Grpc.{Status, is_ok}
use d_ro_cm.Proto.{RegisterResponse, empty_register_response}
use d_ro_cm.Registry.Service.{register}
use d_ro_cm.Node.{registration}
use d_ro_cm.Node.Sent.{heartbeats, heartbeats-append}
use d_ro_cm.Node.Loop.{State, Turn, Event, Exit, turn, beat, answered, emit, heartbeat_request}
use d_ro_cm.Node.Healing.{Transport, IsAnswer, never_asked}
use d_ro_cm.Deployment.{
  Delivery, Meeting, World, registrations, busy, beaten, answer, heartbeat_answer, unstopped,
  pending, meet, live,
}

-- A call that is lost ends with a status other than OK.
abbrev pub IsFair : Delivery → Type 0
IsFair Delivery.delivered = Unit
IsFair (Delivery.request_lost st) = is_ok st ≡ false
IsFair (Delivery.answer_lost st) = is_ok st ≡ false

-- A loop with a stub that is not reconnecting.
abbrev pub IsSteady : State → Type 0
IsSteady s = (s.reconnect_attempts ≡ 0) × (s.node.registry_stub ≡ true)

-- The loop after a turn that waits, sends a heartbeat and does nothing else.
abbrev pub beaten_on : State → Turn → State
beaten_on s u =
    emit (emit s (Event.sleep_ms s.node.heartbeat_interval_ms ∷ []))
      (Event.send_heartbeat (heartbeat_request s.node u) ∷ [])

turn_steady :
    (s : State) (u : Turn)
    → IsSteady s
    → u.stop_at_head ≡ false
    → u.owner_stops ≡ false
    → u.stop_after_sleep ≡ false
    → u.heartbeat_answer.1.should_reconnect ≡ false
    → turn s u ≡ (beaten_on s u, Exit.next)
unfolding turn beat answered
turn_steady s u steady a b c d = ground (arith, steady.0, steady.1)

registrations-append :
    (es fs : List Event) → registrations fs ≡ 0 → registrations (es ++ fs) ≡ registrations es
registrations-append [] fs h = h
registrations-append (Event.send_register request ∷ es) fs h = ap suc (registrations-append es fs h)
registrations-append (Event.sleep_ms ms ∷ es) fs h = registrations-append es fs h
registrations-append (Event.send_heartbeat request ∷ es) fs h = registrations-append es fs h
registrations-append (Event.on_reconnect_attempt a d ∷ es) fs h = registrations-append es fs h
registrations-append (Event.on_reconnected ∷ es) fs h = registrations-append es fs h

ltb_irrefl : (n : ℕ) → ltb n n ≡ false
ltb_irrefl n = ground arith

beaten_on-registrations :
    (s : State) (u : Turn) → registrations (beaten_on s u).events ≡ registrations s.events
beaten_on-registrations s u =
    registrations-append (s.events ++ Event.sleep_ms s.node.heartbeat_interval_ms ∷ [])
      (Event.send_heartbeat (heartbeat_request s.node u) ∷ []) refl
    ∙ registrations-append s.events (Event.sleep_ms s.node.heartbeat_interval_ms ∷ []) refl

module _ (w : Transport) (received : Status → RegisterResponse → RegisterResponse) where
  heartbeat_answer-IsAnswer :
      (x : World) (e : Meeting) (d : Delivery)
      → e.heartbeat_delivery ≡ d
      → IsFair d
      → IsAnswer w (heartbeat_answer w received x e)
  heartbeat_answer-IsAnswer x e Delivery.delivered h fair =
      rw h (IsAnswer.served (busy x e) (heartbeat_request x.loop.node (pending e)) e.now refl refl)
  heartbeat_answer-IsAnswer x e (Delivery.request_lost st) h fair = rw h (IsAnswer.lost fair refl)
  heartbeat_answer-IsAnswer x e (Delivery.answer_lost st) h fair = rw h (IsAnswer.lost fair refl)

  -- The world after a turn of a loop that is not reconnecting.
  abbrev pub quiet : World → Meeting → World
  quiet x e = record { loop = beaten_on x.loop (pending e); service = beaten x e }

  pub meet_steady :
      (x : World) (e : Meeting)
      → IsSteady x.loop
      → IsFair e.heartbeat_delivery
      → meet w received x e ≡ (quiet x e, Exit.next)
  unfolding meet
  meet_steady x e steady fair =
      let a = heartbeat_answer w received x e in
      let unasked =
        never_asked w a (heartbeat_answer-IsAnswer x e e.heartbeat_delivery refl fair) in
      let g =
        register (beaten x e) (registration x.loop.node) empty_register_response e.roll e.now in
      let u =
        unstopped e a (answer received empty_register_response e.register_delivery (g.1, g.2)) in
      let went = turn_steady x.loop u steady refl refl refl unasked in
      let same = beaten_on-registrations x.loop u in
      rw (went, same, ltb_irrefl (registrations x.loop.events))

  live_steady :
      (x : World) (e : Meeting) (es : List Meeting)
      → IsSteady x.loop
      → IsFair e.heartbeat_delivery
      → live w received x (e ∷ es) ≡ live w received (quiet x e) es
  unfolding live
  live_steady x e es steady fair = rw (meet_steady x e steady fair)

  -- What the turns make of the world, without the loop's own choices.
  abbrev pub outlast : World → List Meeting → World
  outlast x [] = x
  outlast x (e ∷ es) = outlast (quiet x e) es

  -- A loop that is not reconnecting never starts to, and goes on.
  pub live_lem :
      (x : World) (es : List Meeting)
      → IsSteady x.loop
      → All (λ (e : Meeting). IsFair e.heartbeat_delivery) es
      → live w received x es ≡ (outlast x es, Exit.next)
  unfolding live
  live_lem x [] steady fair = refl
  live_lem x (e ∷ es) steady fair =
      live_steady x e es steady fair.0 ∙ live_lem (quiet x e) es steady fair.1

beaten_on-heartbeats :
    (s : State) (u : Turn) → heartbeats (beaten_on s u).events ≡ suc (heartbeats s.events)
beaten_on-heartbeats s u = omega (
  arith,
  heartbeats-append (s.events ++ Event.sleep_ms s.node.heartbeat_interval_ms ∷ [])
      (Event.send_heartbeat (heartbeat_request s.node u) ∷ []),
  heartbeats-append s.events (Event.sleep_ms s.node.heartbeat_interval_ms ∷ []),
)

-- Each turn sends one heartbeat and no registration, and leaves the node as it is.
pub outlast_sends :
    (w : Transport) (received : Status → RegisterResponse → RegisterResponse) (x : World)
    (es : List Meeting)
    → (heartbeats (outlast w received x es).loop.events ≡ heartbeats x.loop.events + length es)
      × (registrations (outlast w received x es).loop.events ≡ registrations x.loop.events)
      × ((outlast w received x es).loop.node ≡ x.loop.node)
outlast_sends w received x [] = (omega arith, refl, refl)
outlast_sends w received x (e ∷ es) =
    let (beats, regs, node) = outlast_sends w received (quiet w received x e) es in
    (
      omega (arith, beats, beaten_on-heartbeats x.loop (pending e)),
      regs ∙ beaten_on-registrations x.loop (pending e),
      node,
    )
