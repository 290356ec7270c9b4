-- ===== src/Node/Numbering.antt =====
-- The numbers of the attempts that Node::heartbeat_loop announces to the derived class.
use d_ro_cm.Base.{
  ℕ, ◌+◌, ◌≤◌, ◌<◌, ◌≡◌, refl, sym, ap, subst, ltb→lt, ◌∙◌, true, if_intro, List, [], ◌∷◌, ◌++◌,
  ltb, add32_small, u32_mod, arith,
}
use d_ro_cm.Grpc.{Status}
use d_ro_cm.Proto.{RegisterResponse}
use d_ro_cm.Node.{Node, ReconnectStrategy, done, stop}
use d_ro_cm.Node.Rule.{
  All-Unit, IsPlain, Invariant, loop_keeps, Handling, answered_keeps, stop-strategy,
}
use d_ro_cm.Node.Loop.{
  State, Turn, Event, Exit, heartbeat_loop, emit, announce, reregister, initial, heartbeat_accepted,
}

-- The attempts since the last reconnection, `k` of them before these events.
abbrev pub attempts_after : ℕ → List Event → ℕ
attempts_after k [] = k
attempts_after k (Event.on_reconnect_attempt attempt delay_ms ∷ es) = attempts_after (k + 1) es
attempts_after k (Event.on_reconnected ∷ es) = attempts_after 0 es
attempts_after k (_ ∷ es) = attempts_after k es

-- Each attempt has the next number, and a reconnection is announced only after an attempt.
abbrev pub CountsUp : ℕ → List Event → Type 0
CountsUp k [] = Unit
CountsUp k (Event.on_reconnect_attempt attempt delay_ms ∷ es) =
    (attempt ≡ k + 1) × CountsUp (k + 1) es
CountsUp k (Event.on_reconnected ∷ es) = (0 < k) × CountsUp 0 es
CountsUp k (_ ∷ es) = CountsUp k es

attempts_after-append :
    (k : ℕ) (es fs : List Event)
    → attempts_after k (es ++ fs) ≡ attempts_after (attempts_after k es) fs
attempts_after-append k [] fs = refl
attempts_after-append k (Event.on_reconnect_attempt attempt delay_ms ∷ es) fs =
    attempts_after-append (k + 1) es fs
attempts_after-append k (Event.on_reconnected ∷ es) fs = attempts_after-append 0 es fs
attempts_after-append k (Event.sleep_ms ms ∷ es) fs = attempts_after-append k es fs
attempts_after-append k (Event.send_heartbeat request ∷ es) fs = attempts_after-append k es fs
attempts_after-append k (Event.send_register request ∷ es) fs = attempts_after-append k es fs

CountsUp-append :
    (k : ℕ) (es fs : List Event)
    → CountsUp k es
    → CountsUp (attempts_after k es) fs
    → CountsUp k (es ++ fs)
CountsUp-append k [] fs p q = q
CountsUp-append k (Event.on_reconnect_attempt attempt delay_ms ∷ es) fs p q =
    (p.0, CountsUp-append (k + 1) es fs p.1 q)
CountsUp-append k (Event.on_reconnected ∷ es) fs p q = (p.0, CountsUp-append 0 es fs p.1 q)
CountsUp-append k (Event.sleep_ms ms ∷ es) fs p q = CountsUp-append k es fs p q
CountsUp-append k (Event.send_heartbeat request ∷ es) fs p q = CountsUp-append k es fs p q
CountsUp-append k (Event.send_register request ∷ es) fs p q = CountsUp-append k es fs p q

-- The counter of the loop is the number of the last attempt since a reconnection.
pub record Counted (m : ℕ) (s : State) : Type 0 where
  pub limit : s.node.reconnect_strategy.max_attempts ≡ m
  pub within : s.reconnect_attempts ≤ m
  pub counted : attempts_after 0 s.events ≡ s.reconnect_attempts
  pub numbered : CountsUp 0 s.events

module _ (m : ℕ) (fits : m < u32_mod) where
  -- More events, and a counter that agrees with them.
  extend :
      (s s' : State) (es : List Event)
      → Counted m s
      → s'.events ≡ s.events ++ es
      → s'.node.reconnect_strategy.max_attempts ≡ m
      → s'.reconnect_attempts ≤ m
      → attempts_after s.reconnect_attempts es ≡ s'.reconnect_attempts
      → CountsUp s.reconnect_attempts es
      → Counted m s'
  extend s s' es c e limit within after next = record {
    limit = limit;
    within = within;
    counted =
        rw e
          (attempts_after-append 0 s.events es ∙ ap (λ k. attempts_after k es) c.counted ∙ after);
    numbered = rw e (
        CountsUp-append 0 s.events es c.numbered (subst (λ k. CountsUp k es) (sym c.counted) next));
  }

  announce-Counted :
      (s : State)
      → ltb s.reconnect_attempts s.node.reconnect_strategy.max_attempts ≡ true
      → Counted m s
      → Counted m (announce s)
  announce-Counted s room c =
      let limit = c.limit in
      let below : s.reconnect_attempts < m = ground arith in
      let next = add32_small s.reconnect_attempts 1 (omega arith) in
      extend s (announce s) _ c refl limit (omega (arith, next)) (sym next) (next, tt)

  accepted-Counted : (s : State) → Counted m s → Counted m (heartbeat_accepted s)
  accepted-Counted s c =
      if_intro (Counted m) (ltb 0 s.reconnect_attempts)
        (λ e.
          extend s _ (Event.on_reconnected ∷ []) c refl c.limit (omega arith) refl
            (ltb→lt 0 s.reconnect_attempts e, tt))
        (λ _. c)

  reregister-Counted :
      (s : State) (answer : Status × RegisterResponse)
      → Counted m s
      → Counted m (reregister s answer).0
  reregister-Counted s answer c =
      let limit = c.limit in
      if_intro (λ (q : State × Exit). Counted m q.0) s.node.registry_stub
        (λ _. extend s _ _ c refl (ground arith) c.within refl tt) (λ _. c)

  stopped-Counted :
      (s : State) (n : Node)
      → stop s.node ≡ done n
      → Counted m s
      → Counted m (record s { node = n })
  stopped-Counted s n e c = record {
    limit = ap (λ (r : ReconnectStrategy). r.max_attempts) (stop-strategy s.node n e) ∙ c.limit;
    within = c.within;
    counted = c.counted;
    numbered = c.numbered;
  }

  emit-Counted : (s : State) (e : Event) → IsPlain e → Counted m s → Counted m (emit s (e ∷ []))
  emit-Counted s (Event.sleep_ms ms) p c = extend s _ _ c refl c.limit c.within refl tt
  emit-Counted s (Event.send_heartbeat request) p c = extend s _ _ c refl c.limit c.within refl tt
  emit-Counted s (Event.send_register request) p c = absurd p
  emit-Counted s (Event.on_reconnect_attempt a d) p c = absurd p
  emit-Counted s Event.on_reconnected p c = absurd p

  Counted-Handling : Handling (Counted m)
  Counted-Handling = record {
    notices = accepted-Counted;
    announces = announce-Counted;
    halts = stopped-Counted;
    registers = reregister-Counted;
  }

  Counted-Invariant : Invariant (Counted m) (λ _. Unit {0}) (λ _. Unit {0})
  Counted-Invariant = record {
    emits = emit-Counted;
    stops = stopped-Counted;
    answers = λ s u _ c. (answered_keeps Counted-Handling s u c, tt);
    next = tt;
    stopped = tt;
    fault = tt;
  }

-- Whatever a heartbeat loop with max_attempts in 32 bits meets, the attempts that it announces to
-- the derived class are numbered 1, 2 and so on since the last reconnection, which is announced
-- only after an attempt; its counter is the number of the last, and at most max_attempts.
pub attempts_numbered :
    (n : Node) (us : List Turn)
    → n.reconnect_strategy.max_attempts < u32_mod
    → let last = (heartbeat_loop (initial n) us).0 in
      CountsUp 0 last.events
      × (attempts_after 0 last.events ≡ last.reconnect_attempts)
      × (last.reconnect_attempts ≤ n.reconnect_strategy.max_attempts)
attempts_numbered n us fits =
    let m = n.reconnect_strategy.max_attempts in
    let fresh : Counted m (initial n) = record {
      limit = refl;
      within = omega arith;
      counted = refl;
      numbered = tt;
    } in
    let c = (loop_keeps (Counted-Invariant m fits) (initial n) us (All-Unit us) fresh).0 in
    (c.numbered, c.counted, c.within)
