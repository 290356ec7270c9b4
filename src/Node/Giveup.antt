-- ===== src/Node/Giveup.antt =====
-- How often, and after which waits, Node::heartbeat_loop tries to reconnect when it is asked to.
use d_ro_cm.Base.{
  ◌+◌, ◌-◌, ◌*◌, ◌^◌, ◌≤◌, ◌<◌, min, ◌≡◌, refl, ap, ◌∙◌, true, false, Bool-cases, if_intro, List,
  [], ◌∷◌, All, All-append, All-mono, inl, inr, length, if◌then◌else◌, ltb, ltb→lt, add32,
  add32_small, u32_mod, arith,
}
use native.Mathlib.Nat.{pow-le-pow_right}
use d_ro_cm.Grpc.{Status}
use d_ro_cm.Proto.{RegisterResponse}
use d_ro_cm.Node.{Node, ReconnectStrategy, default_strategy, done, stop}
use d_ro_cm.Node.Backoff.{calculate_backoff_delay, calculate_backoff_delay-exact}
use d_ro_cm.Node.Rule.{
  All-Unit, IsPlain, Invariant, loop_keeps, Handling, answered_keeps, stop-strategy,
}
use d_ro_cm.Node.Loop.{
  State, Turn, Event, Exit, turn, heartbeat_loop, is_heartbeat_accepted, emit, heartbeat_request,
  announce, reregister, initial, heartbeat_accepted,
}

-- An announced attempt is one of the first `max_attempts`, and its delay is the documented one.
abbrev pub IsPaced : ReconnectStrategy → Event → Type 0
IsPaced r (Event.on_reconnect_attempt attempt delay_ms) =
    (1 ≤ attempt) × (attempt ≤ r.max_attempts) × (delay_ms ≡ calculate_backoff_delay r attempt)
IsPaced r _ = Unit

pub record Paced (r : ReconnectStrategy) (s : State) : Type 0 where
  pub strategy : s.node.reconnect_strategy ≡ r
  pub attempts : s.reconnect_attempts ≤ r.max_attempts
  pub events : All (IsPaced r) s.events

module _ (r : ReconnectStrategy) where
  IsPlain-IsPaced : (e : Event) → IsPlain e → IsPaced r e
  IsPlain-IsPaced (Event.sleep_ms ms) p = tt
  IsPlain-IsPaced (Event.send_heartbeat request) p = tt
  IsPlain-IsPaced (Event.send_register request) p = tt
  IsPlain-IsPaced (Event.on_reconnect_attempt a d) p = absurd p
  IsPlain-IsPaced Event.on_reconnected p = tt

module _ (r : ReconnectStrategy) (fits : r.max_attempts < u32_mod) where
  emit-Paced : (s : State) (es : List Event) → All (IsPaced r) es → Paced r s → Paced r (emit s es)
  emit-Paced s es q p = record {
    strategy = p.strategy;
    attempts = p.attempts;
    events = All-append (IsPaced r) s.events es p.events q;
  }

  announce-Paced :
      (s : State)
      → ltb s.reconnect_attempts s.node.reconnect_strategy.max_attempts ≡ true
      → Paced r s
      → Paced r (announce s)
  announce-Paced s room p =
      let below : s.reconnect_attempts < r.max_attempts = ground (arith, p.strategy) in
      let counted = add32_small s.reconnect_attempts 1 (omega arith) in
      record {
        strategy = p.strategy;
        attempts = omega (arith, counted);
        events = All-append (IsPaced r) s.events _ p.events (
          (
            omega (arith, counted),
            omega (arith, counted),
            ap (λ q. calculate_backoff_delay q (add32 s.reconnect_attempts 1)) p.strategy,
          ),
          (tt, tt),
        );
      }

  abbrev Keeps : State × Exit → Type 0
  Keeps q = Paced r q.0

  reregister-Paced :
      (s : State) (answer : Status × RegisterResponse) → Paced r s → Keeps (reregister s answer)
  reregister-Paced s answer p =
      if_intro Keeps s.node.registry_stub
        (λ _. record {
          strategy = ground (arith, p.strategy);
          attempts = p.attempts;
          events = All-append (IsPaced r) s.events _ p.events (tt, tt);
        })
        (λ _. p)

  stopped-Paced :
      (s : State) (n : Node) → stop s.node ≡ done n → Paced r s → Paced r (record s { node = n })
  stopped-Paced s n e p = record {
    strategy = stop-strategy s.node n e ∙ p.strategy;
    attempts = p.attempts;
    events = p.events;
  }

  accepted-Paced : (s : State) → Paced r s → Paced r (heartbeat_accepted s)
  accepted-Paced s p =
      if_intro (Paced r) (ltb 0 s.reconnect_attempts)
        (λ _. record {
          strategy = p.strategy;
          attempts = omega arith;
          events = All-append (IsPaced r) s.events _ p.events (tt, tt);
        })
        (λ _. p)

  Paced-Handling : Handling (Paced r)
  Paced-Handling = record {
    notices = accepted-Paced;
    announces = announce-Paced;
    halts = stopped-Paced;
    registers = reregister-Paced;
  }

  Paced-Invariant : Invariant (Paced r) (λ _. Unit {0}) (λ _. Unit {0})
  Paced-Invariant = record {
    emits = λ s e q p. emit-Paced s (e ∷ []) (IsPlain-IsPaced r e q, tt) p;
    stops = stopped-Paced;
    answers = λ s u _ p. (answered_keeps Paced-Handling s u p, tt);
    next = tt;
    stopped = tt;
    fault = tt;
  }

  -- The attempts are at most `max_attempts`, and each waits for the backoff delay of its number.
  pub heartbeat_loop-Paced :
      (s : State) (us : List Turn) → Paced r s → Paced r (heartbeat_loop s us).0
  heartbeat_loop-Paced s us p = (loop_keeps Paced-Invariant s us (All-Unit us) p).0

-- The documented wait: base * 2^(attempt-1), one second doubled for each attempt, at most 30 seconds.
abbrev pub IsDocumented : Event → Type 0
IsDocumented (Event.on_reconnect_attempt attempt delay_ms) =
    (1 ≤ attempt) × (attempt ≤ 10) × (delay_ms ≡ min (1000 * 2 ^ (attempt - 1)) 30000)
IsDocumented _ = Unit

IsPaced-IsDocumented : (e : Event) → IsPaced default_strategy e → IsDocumented e
IsPaced-IsDocumented (Event.sleep_ms ms) p = tt
IsPaced-IsDocumented (Event.send_heartbeat request) p = tt
IsPaced-IsDocumented (Event.send_register request) p = tt
IsPaced-IsDocumented Event.on_reconnected p = tt
IsPaced-IsDocumented (Event.on_reconnect_attempt a d) (low, high, e) =
    let pow_le : 2 ^ (a - 1) ≤ 2 ^ 9 = pow-le-pow_right (omega arith) {j = 9} (omega arith) in
    (low, high, e ∙ calculate_backoff_delay-exact default_strategy a refl (omega arith))

-- With the default strategy, whatever happens to the loop, each announced attempt is one of ten and
-- its delay is min(1000 * 2^(attempt-1), 30000) ms.
pub reconnect_delays :
    (n : Node) (us : List Turn)
    → n.reconnect_strategy ≡ default_strategy
    → All IsDocumented (heartbeat_loop (initial n) us).0.events
reconnect_delays n us e =
    All-mono (IsPaced default_strategy) IsDocumented IsPaced-IsDocumented _
      (heartbeat_loop-Paced default_strategy (omega arith) (initial n) us
        (record { strategy = e; attempts = omega arith; events = tt })).events

-- A turn that runs through, whose heartbeat is refused with the advice to reconnect.
abbrev pub IsRefused : Turn → Type 0
IsRefused u =
    (u.stop_at_head ≡ false)
    × (u.owner_stops ≡ false)
    × (u.owner_stops_waiting ≡ false)
    × (u.stop_after_sleep ≡ false)
    × (is_heartbeat_accepted u.heartbeat_answer ≡ false)
    × (u.heartbeat_answer.1.should_reconnect ≡ true)

-- The state in which such a turn handles its answer.
abbrev beaten : State → Turn → State
beaten s u =
    let woken = emit s (Event.sleep_ms s.node.heartbeat_interval_ms ∷ []) in
    emit woken (Event.send_heartbeat (heartbeat_request woken.node u) ∷ [])

-- The state after an attempt to reconnect in which the owner does not stop the node.
abbrev retried : State → Turn → State
retried s u = (reregister (announce (beaten s u)) u.register_answer).0

refused_turn :
    (s : State) (u : Turn)
    → s.node.registry_stub ≡ true
    → IsRefused u
    → turn s u ≡ (
        if ltb s.reconnect_attempts s.node.reconnect_strategy.max_attempts
        then (retried s u, Exit.next)
        else (beaten s u, Exit.gave_up))
unfolding turn
refused_turn s u stub (head, owner, waiting, after, refused, asked) = ground arith

retried_lem :
    (s : State) (u : Turn)
    → s.node.registry_stub ≡ true
    → ((retried s u).node.registry_stub ≡ true)
      × ((retried s u).node.reconnect_strategy.max_attempts
          ≡ s.node.reconnect_strategy.max_attempts)
      × ((retried s u).reconnect_attempts ≡ add32 s.reconnect_attempts 1)
retried_lem s u stub = (ground arith, ground arith, ground arith)

-- With a stub and a counter at most max_attempts, itself in 32 bits: asked to reconnect in turn
-- after turn, whether or not its registrations are accepted, the loop gives up as soon as the
-- refusals exceed max_attempts.
pub gives_up :
    (s : State) (us : List Turn)
    → s.node.registry_stub ≡ true
    → s.node.reconnect_strategy.max_attempts < u32_mod
    → All IsRefused us
    → s.reconnect_attempts ≤ s.node.reconnect_strategy.max_attempts
    → s.node.reconnect_strategy.max_attempts < s.reconnect_attempts + length us
    → (heartbeat_loop s us).1 ≡ Exit.gave_up
unfolding heartbeat_loop
gives_up s [] stub fits a low high = absurd (omega arith)
gives_up s (u ∷ us) stub fits a low high =
    elim (Bool-cases (ltb s.reconnect_attempts s.node.reconnect_strategy.max_attempts)) [
      | inl more ↦
          let below = ltb→lt s.reconnect_attempts s.node.reconnect_strategy.max_attempts more in
          let counted = add32_small s.reconnect_attempts 1 (omega arith) in
          let (kept, same, next) = retried_lem s u stub in
          rw (refused_turn s u stub a.0, more)
            (gives_up (retried s u) us kept (omega (arith, same)) a.1
              (omega (arith, same, next, counted)) (omega (arith, same, next, counted)))
      | inr full ↦ rw (refused_turn s u stub a.0, full)
    ]
