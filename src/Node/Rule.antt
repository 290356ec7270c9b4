-- ===== src/Node/Rule.antt =====
-- The invariant rule of Node::heartbeat_loop: what the answers, the recorded waits and requests and
-- the owner's `stop` keep, the whole loop keeps; and that of the handling of one answer.
use d_ro_cm.Grpc.{Status}
use d_ro_cm.Proto.{RegisterResponse}
use d_ro_cm.Base.{if_intro, true, ltb, arith, ◌≡◌, refl, List, [], ◌∷◌, All}
use d_ro_cm.Node.{Node, Outcome, done, null_dereference, stop}
use d_ro_cm.Node.Loop.{
  State, Turn, Event, Exit, beat, turn, heartbeat_loop, answered, emit, heartbeat_request,
  owner_call, awake, go_on, announce, reregister, resumed, heartbeat_accepted, heartbeat_refused,
  is_heartbeat_accepted,
}

-- The events of a turn outside the handling of its answer.
abbrev pub IsPlain : Event → Type 0
IsPlain (Event.sleep_ms ms) = Unit
IsPlain (Event.send_heartbeat request) = Unit
IsPlain _ = ⊥

-- `P` of the state and `G` of the exit, under turns that satisfy `A`.
pub record Invariant (P : State → Type 0) (G : Exit → Type 0) (A : Turn → Type 0) : Type 0 where
  pub emits : (s : State) (e : Event) → IsPlain e → P s → P (emit s (e ∷ []))
  pub stops : (s : State) (n : Node) → stop s.node ≡ done n → P s → P (record s { node = n })
  pub answers : (s : State) (u : Turn) → A u → P s → P (answered s u).0 × G (answered s u).1
  pub next : G Exit.next
  pub stopped : G Exit.stopped
  pub fault : G Exit.fault

module _ {P : State → Type 0} {G : Exit → Type 0} {A : Turn → Type 0} (inv : Invariant P G A) where
  abbrev Holds : State × Exit → Type 0
  Holds r = P r.0 × G r.1

  beat_keeps : (s : State) (u : Turn) → A u → P s → Holds (beat s u)
  unfolding beat
  beat_keeps s u a p =
      let e = Event.send_heartbeat (heartbeat_request s.node u) in
      if_intro Holds u.stop_after_sleep (λ _. (p, inv.stopped))
        (λ _.
          if_intro Holds s.node.registry_stub
            (λ _. inv.answers (emit s (e ∷ [])) u a (inv.emits s e tt p)) (λ _. (p, inv.fault)))

  owner_keeps :
      (s woken : State) (u : Turn) (o : Outcome Node)
      → A u
      → P s
      → P woken
      → stop woken.node ≡ o
      → Holds (awake s u (owner_call woken o))
  owner_keeps s woken u (done n) a p q e =
      beat_keeps (record woken { node = n }) u a (inv.stops woken n e q)
  owner_keeps s woken u null_dereference a p q e = (p, inv.fault)

  turn_keeps : (s : State) (u : Turn) → A u → P s → Holds (turn s u)
  unfolding turn
  turn_keeps s u a p =
      let e = Event.sleep_ms s.node.heartbeat_interval_ms in
      let woken = emit s (e ∷ []) in
      let q = inv.emits s e tt p in
      if_intro Holds u.stop_at_head (λ _. (p, inv.stopped))
        (λ _.
          if_intro (λ o. Holds (awake s u o)) u.owner_stops
            (λ _. owner_keeps s woken u (stop s.node) a p q refl) (λ _. beat_keeps woken u a q))

  go_on_keeps :
      (r : State × Exit) (k : State → State × Exit)
      → Holds r
      → (P r.0 → Holds (k r.0))
      → Holds (go_on r k)
  go_on_keeps (s, Exit.next) k h f = f h.0
  go_on_keeps (s, Exit.stopped) k h f = h
  go_on_keeps (s, Exit.gave_up) k h f = h
  go_on_keeps (s, Exit.fault) k h f = h

  pub loop_keeps : (s : State) (us : List Turn) → All A us → P s → Holds (heartbeat_loop s us)
  unfolding heartbeat_loop
  loop_keeps s [] a p = (p, inv.next)
  loop_keeps s (u ∷ us) a p =
      go_on_keeps (turn s u) (λ s'. heartbeat_loop s' us) (turn_keeps s u a.0 p)
        (loop_keeps (turn s u).0 us a.1)

pub stop-strategy : (n n' : Node) → stop n ≡ done n' → n'.reconnect_strategy ≡ n.reconnect_strategy
unfolding stop
stop-strategy n n' h = ground arith

-- The steps of the handling of an answer: a reconnection is noticed, an attempt is announced, the
-- owner stops the node meanwhile, the node is registered again.
pub record Handling (P : State → Type 0) : Type 0 where
  pub notices : (s : State) → P s → P (heartbeat_accepted s)
  pub announces :
      (s : State)
      → ltb s.reconnect_attempts s.node.reconnect_strategy.max_attempts ≡ true
      → P s
      → P (announce s)
  pub halts : (s : State) (n : Node) → stop s.node ≡ done n → P s → P (record s { node = n })
  pub registers : (s : State) (answer : Status × RegisterResponse) → P s → P (reregister s answer).0

module _ {P : State → Type 0} (steps : Handling P) where
  abbrev Stays : State × Exit → Type 0
  Stays q = P q.0

  resumed_keeps :
      (s : State) (answer : Status × RegisterResponse) (o : Outcome Node)
      → stop s.node ≡ o
      → P s
      → Stays (resumed s answer (owner_call s o))
  resumed_keeps s answer (done n) e p =
      steps.registers (record s { node = n }) answer (steps.halts s n e p)
  resumed_keeps s answer null_dereference e p = p

  refused_keeps : (s : State) (u : Turn) → P s → Stays (heartbeat_refused s u)
  refused_keeps s u p =
      let waiting = announce s in
      let answer = u.register_answer in
      if_intro Stays u.heartbeat_answer.1.should_reconnect
        (λ _.
          if_intro Stays (ltb s.reconnect_attempts s.node.reconnect_strategy.max_attempts)
            (λ e.
              let q = steps.announces s e p in
              if_intro (λ o. Stays (resumed waiting answer o)) u.owner_stops_waiting
                (λ _. resumed_keeps waiting answer (stop waiting.node) refl q)
                (λ _. steps.registers waiting answer q))
            (λ _. p))
        (λ _. p)

  pub answered_keeps : (s : State) (u : Turn) → P s → Stays (answered s u)
  unfolding answered
  answered_keeps s u p =
      if_intro Stays (is_heartbeat_accepted u.heartbeat_answer) (λ _. steps.notices s p)
        (λ _. refused_keeps s u p)

-- No condition on the turns.
pub All-Unit : (us : List Turn) → All (λ _. Unit {0}) us
All-Unit [] = tt
All-Unit (u ∷ us) = (tt, All-Unit us)
