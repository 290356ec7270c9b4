-- ===== src/Lidar/Subscribe/Counts.antt =====
-- What Subscribe counts and how long it waits.
use d_ro_cm.Base.{
  ℕ, zero, suc, ◌+◌, ◌<◌, String, ◌≡◌, refl, ◌⊎◌, inl, inr, Bool, true, false, if_intro, List, [],
  ◌∷◌, ◌++◌, All, All-append, leb, arith,
}
use d_ro_cm.Proto.NodeService.{TopicData}
use d_ro_cm.Lidar.Subscribe.{
  Turn, Event, State, Exit, write_failed, backoff, attempt, turn, go_on, stream, subscribe, frame,
  initial,
}

-- The number of successful writes among the events.
abbrev pub writes_ok : List Event → ℕ
writes_ok [] = 0
writes_ok (Event.write d true ∷ es) = suc (writes_ok es)
writes_ok (e ∷ es) = writes_ok es

writes_ok-append : (xs ys : List Event) → writes_ok (xs ++ ys) ≡ writes_ok xs + writes_ok ys
writes_ok-append [] ys = omega arith
writes_ok-append (Event.write d true ∷ xs) ys = omega (arith, writes_ok-append xs ys)
writes_ok-append (Event.write d false ∷ xs) ys = writes_ok-append xs ys
writes_ok-append (Event.sleep_ms n ∷ xs) ys = writes_ok-append xs ys

-- A wait of 10 or 20 milliseconds.
abbrev pub IsShortWait : Event → Type 0
IsShortWait (Event.sleep_ms ms) = (ms ≡ 10) ⊎ (ms ≡ 20)
IsShortWait _ = Unit

pub record Inv (s : State) : Type 0 where
  pub counted : s.messages_sent ≡ writes_ok s.events
  pub waits : All IsShortWait s.events

abbrev Keeps : State × Exit → Type 0
Keeps r = Inv r.0 × ((r.1 ≡ Exit.dropped) ⊎ (r.0.consecutive_failures < 3))

short_wait : (f : ℕ) → f + 1 < 3 → IsShortWait (Event.sleep_ms (backoff (f + 1)))
short_wait zero h = inl refl
short_wait (suc zero) h = inr refl
short_wait (suc (suc f)) h = absurd (omega arith)

write_failed-Keeps : (s : State) → Inv s → s.consecutive_failures < 3 → Keeps (write_failed s)
unfolding write_failed
write_failed-Keeps s v h =
    let failures = s.consecutive_failures + 1 in
    if_intro Keeps (leb 3 failures)
      (λ _. (record { counted = v.counted; waits = v.waits }, inl refl))
      (λ e. (
        record {
          counted = omega (
            arith,
            writes_ok-append s.events (Event.sleep_ms (backoff failures) ∷ []),
            v.counted,
          );
          waits =
              All-append IsShortWait s.events _ v.waits
                (short_wait s.consecutive_failures (ground arith), tt);
        },
        inr (ground arith),
      ))

attempt-Keeps :
    (s : State) (d : TopicData) (b : Bool)
    → Inv s
    → s.consecutive_failures < 3
    → Keeps (attempt s d b)
unfolding attempt
attempt-Keeps s d true v h = (
  record {
    counted = omega (arith, writes_ok-append s.events (Event.write d true ∷ []), v.counted);
    waits = All-append IsShortWait s.events _ v.waits (tt, tt);
  },
  inr (omega arith),
)
attempt-Keeps s d false v h =
    write_failed-Keeps (record s { events = s.events ++ Event.write d false ∷ [] })
      (record {
        counted = omega (arith, writes_ok-append s.events (Event.write d false ∷ []), v.counted);
        waits = All-append IsShortWait s.events _ v.waits (tt, tt);
      })
      h

module _ (payload : ℕ → String) (topic : String) where
  turn-Keeps :
      (s : State) (u : Turn) → Inv s → s.consecutive_failures < 3 → Keeps (turn payload topic s u)
  unfolding turn
  turn-Keeps s u v h =
      if_intro Keeps u.running (λ _. attempt-Keeps s (frame payload topic s u) u.written v h)
        (λ _. (v, inr h))

  go_on-Keeps :
      (r : State × Exit) (k : State → State × Exit)
      → Keeps r
      → (Inv r.0 → r.0.consecutive_failures < 3 → Keeps (k r.0))
      → Keeps (go_on r k)
  go_on-Keeps (s, Exit.next) k (v, inl e) f = cc
  go_on-Keeps (s, Exit.next) k (v, inr h) f = f v h
  go_on-Keeps (s, Exit.stopped) k h f = h
  go_on-Keeps (s, Exit.dropped) k h f = h

  stream-Keeps :
      (s : State) (us : List Turn)
      → Inv s
      → s.consecutive_failures < 3
      → Keeps (stream payload topic s us)
  unfolding stream
  stream-Keeps s [] v h = (v, inr h)
  stream-Keeps s (u ∷ us) v h =
      go_on-Keeps (turn payload topic s u) (λ s'. stream payload topic s' us) (turn-Keeps s u v h)
        (stream-Keeps (turn payload topic s u).0 us)

  -- Subscribe counts exactly the successful writes, and each of its waits is 10 or 20 ms.
  pub subscribe_counts :
      (us : List Turn)
      → ((subscribe payload topic us).0.messages_sent
          ≡ writes_ok (subscribe payload topic us).0.events)
        × All IsShortWait (subscribe payload topic us).0.events
  unfolding subscribe
  subscribe_counts us =
      let v = (stream-Keeps initial us (record { counted = refl; waits = tt }) (omega arith)).0 in
      (v.counted, v.waits)
