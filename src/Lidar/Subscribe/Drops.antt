-- ===== src/Lidar/Subscribe/Drops.antt =====
-- When Subscribe drops a slow consumer.
use d_ro_cm.Base.{
  ℕ, zero, suc, ◌+◌, ◌≤◌, ◌<◌, String, ◌≡◌, refl, sym, ap, ◌∙◌, ◌↔◌, ◌⊎◌, inl, inr, true, false,
  Bool-cases, List, [], ◌∷◌, ◌++◌, All, arith,
}
use d_ro_cm.Lidar.Subscribe.{
  Turn, Event, State, Exit, write_done, backoff, turn, stream, subscribe, frame, initial,
}

-- The first `n` writes fail.
abbrev pub FailFirst : ℕ → List Turn → Type 0
FailFirst zero us = Unit
FailFirst (suc n) [] = ⊥
FailFirst (suc n) (u ∷ us) = (u.written ≡ false) × FailFirst n us

-- Somewhere three writes in a row fail.
abbrev pub FailsThrice : List Turn → Type 0
FailsThrice [] = ⊥
FailsThrice (u ∷ us) = FailFirst 3 (u ∷ us) ⊎ FailsThrice us

FailFirst-FailsThrice : (us : List Turn) → FailFirst 3 us → FailsThrice us
FailFirst-FailsThrice [] h = h
FailFirst-FailsThrice (u ∷ us) h = inl h

Fails_written :
    (n : ℕ) (u : Turn) (us : List Turn)
    → FailFirst 3 us ⊎ FailsThrice us
    → FailFirst (suc n) (u ∷ us) ⊎ FailsThrice (u ∷ us)
Fails_written n u us (inl a) = inr (inr (FailFirst-FailsThrice us a))
Fails_written n u us (inr b) = inr (inr b)

Fails_rest :
    (n : ℕ) (u : Turn) (us : List Turn)
    → u.written ≡ true
    → FailFirst (suc n) (u ∷ us) ⊎ FailsThrice (u ∷ us)
    → FailFirst 3 us ⊎ FailsThrice us
Fails_rest n u us e (inl a) = cc (a.0)
Fails_rest n u us e (inr (inl a)) = cc (a.0)
Fails_rest n u us e (inr (inr b)) = inr b

FailFirst-le : (m n : ℕ) (us : List Turn) → m ≤ n → FailFirst n us → FailFirst m us
FailFirst-le zero n us h f = tt
FailFirst-le (suc m) zero us h f = absurd (omega arith)
FailFirst-le (suc m) (suc n) [] h f = f
FailFirst-le (suc m) (suc n) (u ∷ us) h f = (f.0, FailFirst-le m n us (omega arith) f.1)

Fails_more :
    (m : ℕ) (u : Turn) (us : List Turn)
    → u.written ≡ false
    → FailFirst (suc m) us ⊎ FailsThrice us
    → FailFirst (suc (suc m)) (u ∷ us) ⊎ FailsThrice (u ∷ us)
Fails_more m u us e (inl a) = inl (e, a)
Fails_more m u us e (inr b) = inr (inr b)

Fails_less :
    (m : ℕ) (u : Turn) (us : List Turn)
    → suc m ≤ 2
    → FailFirst (suc (suc m)) (u ∷ us) ⊎ FailsThrice (u ∷ us)
    → FailFirst (suc m) us ⊎ FailsThrice us
Fails_less m u us h (inl a) = inl a.1
Fails_less m u us h (inr (inl a)) = inl (FailFirst-le (suc m) 2 us h a.1)
Fails_less m u us h (inr (inr b)) = inr b

FailsThrice-any : (us : List Turn) → FailFirst 3 us ⊎ FailsThrice us → FailsThrice us
FailsThrice-any us (inl a) = FailFirst-FailsThrice us a
FailsThrice-any us (inr b) = b

abbrev pub AreRunning : List Turn → Type 0
AreRunning us = All (λ (u : Turn). u.running ≡ true) us

module _ (payload : ℕ → String) (topic : String) where
  stream_next :
      (s s' : State) (u : Turn) (us : List Turn)
      → turn payload topic s u ≡ (s', Exit.next)
      → stream payload topic s (u ∷ us) ≡ stream payload topic s' us
  unfolding stream
  stream_next s s' u us h = rw h

  turn_written :
      (s : State) (u : Turn)
      → u.running ≡ true
      → u.written ≡ true
      → (s' : State) × (turn payload topic s u ≡ (s', Exit.next)) × (s'.consecutive_failures ≡ 0)
  unfolding turn
  turn_written s u on done =
      let d = frame payload topic s u in
      (write_done (record s { events = s.events ++ Event.write d true ∷ [] }), ground arith, refl)

  turn_failed :
      (s : State) (u : Turn)
      → u.running ≡ true
      → u.written ≡ false
      → s.consecutive_failures + 1 < 3
      → (s' : State) × (turn payload topic s u ≡ (s', Exit.next))
        × (s'.consecutive_failures ≡ s.consecutive_failures + 1)
  unfolding turn
  turn_failed s u on failed h =
      let d = frame payload topic s u in
      let failures = s.consecutive_failures + 1 in
      (
        record {
          i = s.i + 1;
          consecutive_failures = failures;
          messages_sent = s.messages_sent;
          events = (s.events ++ Event.write d false ∷ []) ++ Event.sleep_ms (backoff failures) ∷ [];
        },
        ground arith,
        refl,
      )

  stream_dropped :
      (s : State) (u : Turn) (us : List Turn)
      → u.running ≡ true
      → u.written ≡ false
      → 3 ≤ s.consecutive_failures + 1
      → (stream payload topic s (u ∷ us)).1 ≡ Exit.dropped
  unfolding stream turn
  stream_dropped s u us on failed h = ground arith

  -- The connection is dropped on `n + 1` failures at once, or on three later.
  abbrev Drops : ℕ → State → List Turn → Type 0
  Drops n s us =
      ((stream payload topic s us).1 ≡ Exit.dropped) ↔ (FailFirst (suc n) us ⊎ FailsThrice us)

  Drops-written :
      (n : ℕ) (s : State) (u : Turn) (us : List Turn)
      → u.running ≡ true
      → u.written ≡ true
      → ((s' : State) → s'.consecutive_failures ≡ 0 → Drops 2 s' us)
      → Drops n s (u ∷ us)
  Drops-written n s u us on done rest =
      let (s', step, reset) = turn_written s u on done in
      let same = ap (λ (r : State × Exit). r.1) (stream_next s s' u us step) in
      let ih = rest s' reset in
      (
        (λ h. Fails_written n u us (ih.0 (sym same ∙ h))),
        (λ h. same ∙ ih.1 (Fails_rest n u us done h)),
      )

  stream-Drops :
      (n : ℕ) (s : State) (us : List Turn)
      → s.consecutive_failures + suc n ≡ 3
      → AreRunning us
      → Drops n s us
  unfolding stream
  stream-Drops n s [] e run = ((λ h. cc), (λ h. ground arith))
  stream-Drops zero s (u ∷ us) e run = elim (Bool-cases u.written) [
    | inl done ↦
        Drops-written zero s u us run.0 done (λ s' r. stream-Drops 2 s' us (omega arith) run.1)
    | inr failed ↦
        ((λ h. inl (failed, tt)), (λ h. stream_dropped s u us run.0 failed (omega arith)))
  ]
  stream-Drops (suc m) s (u ∷ us) e run = elim (Bool-cases u.written) [
    | inl done ↦
        Drops-written (suc m) s u us run.0 done (λ s' r. stream-Drops 2 s' us (omega arith) run.1)
    | inr failed ↦
        let (s', step, more) = turn_failed s u run.0 failed (omega arith) in
        let same = ap (λ (r : State × Exit). r.1) (stream_next s s' u us step) in
        let ih = stream-Drops m s' us (omega arith) run.1 in
        (
          (λ h. Fails_more m u us failed (ih.0 (sym same ∙ h))),
          (λ h. same ∙ ih.1 (Fails_less m u us (omega arith) h)),
        )
  ]

  -- While the process runs, Subscribe drops the connection exactly if three writes in a row fail.
  pub subscribe_drops :
      (us : List Turn)
      → AreRunning us
      → ((subscribe payload topic us).1 ≡ Exit.dropped) ↔ FailsThrice us
  unfolding subscribe
  subscribe_drops us run =
      let (there, back) = stream-Drops 2 initial us (omega arith) run in
      ((λ h. FailsThrice-any us (there h)), (λ h. back (inr h)))
