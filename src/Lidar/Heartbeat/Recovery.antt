-- ===== src/Lidar/Heartbeat/Recovery.antt =====
-- The emulator's heartbeat thread: its failure count and waits, and when it registers again.
use native.Mathlib.Nat.{pow-le-pow_right}
use d_ro_cm.Base.{
  ℕ, ◌+◌, ◌-◌, ◌*◌, ◌^◌, ◌≤◌, ◌<◌, String, ◌≡◌, refl, ◌⊎◌, inl, inr, Bool, true, false, if_intro,
  ◌&&◌, List, [], ◌∷◌, All, All-append, arith,
}
use d_ro_cm.Grpc.{is_ok}
use d_ro_cm.Lidar.Heartbeat.{
  Event, State, Turn, heartbeat_failed, heartbeat_done, send, reregistered, turn, run_heartbeat,
  emit, request, registration, try_register_node, backoff,
}

-- Half a second, two seconds, or half a second doubled up to four times.
abbrev pub IsWait : Event → Type 0
IsWait (Event.sleep_ms ms) = (ms ≡ 2000) ⊎ ((k : ℕ) × (k ≤ 4) × (ms ≡ 500 * 2 ^ k))
IsWait _ = Unit

pub record Inv (s : State) : Type 0 where
  pub few : s.consecutive_failures ≤ 5
  pub asks : s.consecutive_failures ≡ 5 → s.needs_reregister ≡ true
  pub waits : All IsWait s.events

-- 1 ≤ k ≤ 5 failures: the cap of ten seconds is never reached.
backoff_uncapped : (k : ℕ) → k ≤ 4 → backoff (k + 1) ≡ 500 * 2 ^ k
backoff_uncapped k h =
    let same : k + 1 - 1 ≡ k = omega arith in
    let pow_le : 2 ^ k ≤ 2 ^ 4 = pow-le-pow_right (omega arith) {j = 4} h in rw same (omega arith)

module _ (node_id : String) (port : ℕ) where
  failed-Inv :
      (s : State) → s.consecutive_failures < 5 → Inv s → Inv (heartbeat_failed node_id port s)
  unfolding heartbeat_failed
  failed-Inv s h v = record {
    few = omega arith;
    asks = λ e. ground arith;
    waits = All-append IsWait s.events _ v.waits (
      (inr (
        s.consecutive_failures,
        omega arith,
        backoff_uncapped s.consecutive_failures (omega arith),
      )),
      tt,
    );
  }

  done-Inv : (s : State) → Inv s → Inv (heartbeat_done node_id port s)
  done-Inv s v = record {
    few = omega arith;
    asks = λ e. absurd (omega arith);
    waits = All-append IsWait s.events _ v.waits ((inr (0, omega arith, refl)), tt);
  }

  send-Inv :
      (s : State) (u : Turn) → s.consecutive_failures < 5 → Inv s → Inv (send node_id port s u)
  unfolding send
  send-Inv s u h v =
      let sent = emit s (Event.send_heartbeat (request node_id port s u) ∷ []) in
      let w : Inv sent = record {
        few = v.few;
        asks = v.asks;
        waits = All-append IsWait s.events _ v.waits (tt, tt);
      } in
      if_intro Inv (is_ok u.heartbeat_answer.0 && u.heartbeat_answer.1.success)
        (λ _. done-Inv sent w) (λ _. failed-Inv sent h w)

  reregistered-Inv :
      (s : State) (u : Turn) (r : String × Bool) → Inv s → Inv (reregistered node_id port s u r)
  reregistered-Inv s u (sid, true) v =
      send-Inv _ u (omega arith)
        (record { few = omega arith; asks = λ e. absurd (omega arith); waits = v.waits })
  reregistered-Inv s u (sid, false) v = record {
    few = v.few;
    asks = v.asks;
    waits = All-append IsWait s.events _ v.waits (inl refl, tt);
  }

  turn-Inv : (s : State) (u : Turn) → Inv s → Inv (turn node_id port s u)
  unfolding turn
  turn-Inv s u v =
      if_intro Inv s.needs_reregister
        (λ _.
          reregistered-Inv (emit s (Event.send_register (registration node_id port) ∷ [])) u
            (try_register_node s.session_id u.register_answer)
            (record {
              few = v.few;
              asks = v.asks;
              waits = All-append IsWait s.events _ v.waits (tt, tt);
            }))
        (λ e. send-Inv s u (below v e) v)
    where
      below : Inv s → s.needs_reregister ≡ false → s.consecutive_failures < 5
      below w e = grind (arith, w.few, w.asks)

  -- Whatever is answered, the loop keeps its invariant: at most five failures are counted, at five
  -- the thread wants to register again, and each wait is 2000 ms or 500 ms doubled at most four
  -- times.
  pub run_heartbeat-Inv :
      (s : State) (us : List Turn) → Inv s → Inv (run_heartbeat node_id port s us)
  unfolding run_heartbeat
  run_heartbeat-Inv s [] v = v
  run_heartbeat-Inv s (u ∷ us) v =
      if_intro Inv u.running (λ _. run_heartbeat-Inv (turn node_id port s u) us (turn-Inv s u v))
        (λ _. v)
