-- ===== src/Lidar/Heartbeat/Healing.antt =====
-- The emulator's recovery on the thread's side: from repeated failures to a new registration.
use d_ro_cm.Base.{
  ℕ, ◌+◌, ◌≤◌, ◌<◌, String, ◌≡◌, true, false, Bool-cases, ◌&&◌, List, [], ◌∷◌, All, length, leb,
  leb→le, inl, inr, arith,
}
use d_ro_cm.Grpc.{Status, is_ok}
use d_ro_cm.Registry.Service.{Reply}
use d_ro_cm.Lidar.Heartbeat.{State, Turn, turn, run_heartbeat}

-- The thread runs, and neither its heartbeat nor its registration is accepted.
abbrev pub IsFailing : Turn → Type 0
IsFailing u =
    (u.running ≡ true)
    × ((is_ok u.heartbeat_answer.0 && u.heartbeat_answer.1.success) ≡ false)
    × ((is_ok u.register_answer.0 && u.register_answer.1.success) ≡ false)

-- The status and the message that a handler left, as they reach the caller when the status is OK.
abbrev pub delivered : {R : Type 0} → Reply R → Status × R
delivered (s, response, status) = (status, response)

module _ (node_id : String) (port : ℕ) where
  -- A failing turn counts a failure, or leaves the thread wanting to register.
  failing_turn :
      (s : State) (u : Turn)
      → IsFailing u
      → (s.needs_reregister ≡ true → (turn node_id port s u).needs_reregister ≡ true)
        × (s.needs_reregister ≡ false
            → (turn node_id port s u).consecutive_failures ≡ s.consecutive_failures + 1)
        × (s.needs_reregister ≡ false
            → 4 ≤ s.consecutive_failures
            → (turn node_id port s u).needs_reregister ≡ true)
  unfolding turn
  failing_turn s u (on, h, r) = ((λ n. ground arith), (λ n. ground arith), (λ n m. ground arith))

  still_needs :
      (s : State) (us : List Turn)
      → All IsFailing us
      → s.needs_reregister ≡ true
      → (run_heartbeat node_id port s us).needs_reregister ≡ true
  unfolding run_heartbeat
  still_needs s [] f n = n
  still_needs s (u ∷ us) f n =
      rw (f.0.0) (still_needs (turn node_id port s u) us f.1 ((failing_turn s u f.0).0 n))

  -- Once failing turns, in which the thread runs and neither its heartbeat nor its registration is
  -- accepted, make up five with the fewer than five failures already counted, the emulator's thread
  -- wants to register again.
  pub five_failures :
      (s : State) (us : List Turn)
      → All IsFailing us
      → s.consecutive_failures < 5
      → 5 ≤ s.consecutive_failures + length us
      → (run_heartbeat node_id port s us).needs_reregister ≡ true
  unfolding run_heartbeat
  five_failures s [] f low h = absurd (omega arith)
  five_failures s (u ∷ us) f low h =
      let (keeps, counts, asks) = failing_turn s u f.0 in
      elim (Bool-cases s.needs_reregister) [
        | inl n ↦ rw (f.0.0) (still_needs (turn node_id port s u) us f.1 (keeps n))
        | inr n ↦ elim (Bool-cases (leb 4 s.consecutive_failures)) [
          | inl last ↦ rw (f.0.0) (
              still_needs (turn node_id port s u) us f.1
                (asks n (leb→le 4 s.consecutive_failures last)))
          | inr early ↦
              let counted = counts n in
              let room : s.consecutive_failures < 4 = ground arith in
              rw (f.0.0) (
                five_failures (turn node_id port s u) us f.1 (omega (arith, counted))
                  (omega (arith, counted)))
        ]
      ]

  -- The thread's side: an accepted registration and an accepted heartbeat end the recovery.
  pub recovering_turn :
      (s : State) (u : Turn)
      → s.needs_reregister ≡ true
      → (is_ok u.register_answer.0 && u.register_answer.1.success) ≡ true
      → (is_ok u.heartbeat_answer.0 && u.heartbeat_answer.1.success) ≡ true
      → ((turn node_id port s u).session_id ≡ u.register_answer.1.session_id)
        × ((turn node_id port s u).needs_reregister ≡ false)
        × ((turn node_id port s u).consecutive_failures ≡ 0)
  unfolding turn
  recovering_turn s u n r h = (ground arith, ground arith, ground arith)
