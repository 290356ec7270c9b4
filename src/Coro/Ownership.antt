-- ===== src/Coro/Ownership.antt =====
-- The poller thread and the contexts: which are freed, which stay, and which coroutines are resumed.
use mathlib.Core.List.{append-nil, append_assoc}
use d_ro_cm.Base.{
  ℕ, ◌≡◌, refl, sym, ap, subst, ◌∙◌, Bool, true, false, Bool-cases, inl, inr, List, [], ◌∷◌, ◌++◌,
  Option, none, some, Option-cases, All, if◌then◌else◌, arith,
}
use d_ro_cm.Coro.{
  Context, async_unary, stream_op, unknown_type, Heap, Event, Adapter, Access, valid, invalid,
  Completion, Next, Poll, await_resume, process_context, process_tag, drain_remaining_tags,
  and_then, polled, poll_loop,
}
use d_ro_cm.Coro.Completions.{
  then_taken, taken, names, NotAgain, AreDistinct, IsLive, AreLive, left, left_at, resumed_at,
  resumed_by, resumed,
}

and_then-ext :
    (r : Access Adapter) (k k' : Adapter → Access Adapter)
    → ((b : Adapter) → k b ≡ k' b)
    → and_then r k ≡ and_then r k'
and_then-ext (valid b) k k' h = h b
and_then-ext invalid k k' h = refl

polled-then_taken :
    (a : Adapter) (n : Next) (k : Adapter → Access Adapter) (rest : List Completion)
    → ((b : Adapter) → k b ≡ drain_remaining_tags b rest)
    → polled a n k ≡ drain_remaining_tags a (then_taken n rest)
unfolding drain_remaining_tags
polled-then_taken a (Next.got_event c) k rest h = and_then-ext (process_tag a c) k _ h
polled-then_taken a Next.timeout k rest h = h a
polled-then_taken a (Next.shut_down cs) k rest h = refl

poll_loop-taken :
    (a : Adapter) (us : List Poll) → poll_loop a us ≡ drain_remaining_tags a (taken us)
unfolding poll_loop
poll_loop-taken a [] = refl
poll_loop-taken a (u ∷ us) =
    let step = polled-then_taken a u.next _ (taken us) (λ b. poll_loop-taken b us) in
    elim (Bool-cases u.stop_requested) [ inl stop ↦ rw stop refl | inr go ↦ rw go step ]

-- One completion: the context that it names, and no other, changes.
abbrev Step : Adapter → Completion → Adapter → Type 0
Step a c b =
    (process_tag a c ≡ valid b)
    × ((q : ℕ) → b.heap q ≡ (if names q c.tag then left c.ok (a.heap q) else a.heap q))
    × (b.events ≡ a.events ++ resumed_by a.heap c c.tag)

process_context-Step :
    (a : Adapter) (c : Completion) (p : ℕ) (x : Context)
    → c.tag ≡ some p
    → a.heap p ≡ some x
    → Step a c (process_context a p c.ok c.caller_done x)
unfolding process_tag process_context await_resume
process_context-Step a c p (async_unary x) e h =
    (rw (e, h) refl, (λ q. ground (arith, e, h)), rw (e, h) (ground arith))
process_context-Step a c p (stream_op x) e h =
    (rw (e, h) refl, (λ q. ground (arith, e, h)), rw (e, h) refl)
process_context-Step a c p unknown_type e h =
    (rw (e, h) refl, (λ q. ground (arith, e, h)), rw (e, h) (sym (append-nil a.events)))

process_tag-Step : (a : Adapter) (c : Completion) → IsLive a.heap c.tag → (b : Adapter) × Step a c b
unfolding process_tag
process_tag-Step a c live = elim (Option-cases c.tag) [
  | inl e ↦ (a, (rw e refl, (λ q. rw e refl), rw e (sym (append-nil a.events))))
  | inr (p, e) ↦ elim (Option-cases (a.heap p)) [
    | inl h ↦ absurd (rw e at live h)
    | inr (x, h) ↦ (process_context a p c.ok c.caller_done x, process_context-Step a c p x e h)
  ]
]

-- The heaps agree on what the tag points to.
abbrev Agrees : Heap → Heap → Option ℕ → Type 0
Agrees heap heap' none = Unit
Agrees heap heap' (some q) = heap q ≡ heap' q

agrees :
    (a b : Heap) (t tag : Option ℕ) (ok : Bool)
    → ((q : ℕ) → b q ≡ (if names q t then left ok (a q) else a q))
    → NotAgain t (record { tag = tag; ok = ok; caller_done = ok } ∷ [])
    → Agrees b a tag
agrees a b t none ok h n = tt
agrees a b none (some q) ok h n = h q
agrees a b (some p) (some q) ok h n = ground (arith, h q, n.0)

Agrees-IsLive : (a b : Heap) (tag : Option ℕ) → Agrees b a tag → IsLive a tag → IsLive b tag
Agrees-IsLive a b none g l = tt
Agrees-IsLive a b (some q) g l = λ e. l (sym g ∙ e)

Agrees-resumed_by :
    (a b : Heap) (c : Completion) (tag : Option ℕ)
    → Agrees b a tag
    → resumed_by b c tag ≡ resumed_by a c tag
Agrees-resumed_by a b c none g = refl
Agrees-resumed_by a b c (some q) g = ap (resumed_at c) g

-- What is said of the later completions survives the step.
later :
    (a b : Heap) (t : Option ℕ) (ok : Bool) (cs : List Completion)
    → ((q : ℕ) → b q ≡ (if names q t then left ok (a q) else a q))
    → NotAgain t cs
    → AreLive a cs
    → AreLive b cs × (resumed b cs ≡ resumed a cs)
later a b t ok [] h n l = (tt, refl)
later a b t ok (d ∷ cs) h n l =
    let g : Agrees b a d.tag = agrees a b t d.tag ok h (first t n) in
    let (live, same) = later a b t ok cs h (rest t n) l.1 in
    (
      (Agrees-IsLive a b d.tag g l.0, live),
      ap (λ (es : List Event). es ++ resumed b cs) (Agrees-resumed_by a b d d.tag g)
          ∙ ap (λ (es : List Event). resumed_by a d d.tag ++ es) same,
    )
  where
    first :
        (s : Option ℕ)
        → NotAgain s (d ∷ cs)
        → NotAgain s (record { tag = d.tag; ok = ok; caller_done = ok } ∷ [])
    first none m = tt
    first (some p) m = (m.0, tt)

    rest : (s : Option ℕ) → NotAgain s (d ∷ cs) → NotAgain s cs
    rest none m = tt
    rest (some p) m = m.1

left_at-absent :
    (p : ℕ) (cs : List Completion) (o : Option Context)
    → All (λ (d : Completion). names p d.tag ≡ false) cs
    → left_at p cs o ≡ o
left_at-absent p [] o h = refl
left_at-absent p (d ∷ cs) o h = rw (h.0) (left_at-absent p cs o h.1)

absent :
    (p : ℕ) (t : Option ℕ) (cs : List Completion)
    → names p t ≡ true
    → NotAgain t cs
    → All (λ (d : Completion). names p d.tag ≡ false) cs
absent p none cs e n = cc
absent p (some q) cs e n =
    let same : q ≡ p = ground arith in
    subst (λ r. All (λ (d : Completion). names r d.tag ≡ false) cs) same n

left_at-step :
    (a b : Heap) (c : Completion) (cs : List Completion) (p : ℕ)
    → b p ≡ (if names p c.tag then left c.ok (a p) else a p)
    → NotAgain c.tag cs
    → left_at p cs (b p) ≡ left_at p (c ∷ cs) (a p)
left_at-step a b c cs p h n = elim (Bool-cases (names p c.tag)) [
  | inl e ↦ left_at-absent p cs (b p) (absent p c.tag cs e n) ∙ h ∙ rw e refl
  | inr e ↦ let h' : b p ≡ a p = rw e at h in ap (left_at p cs) h' ∙ rw e refl
]

abbrev Drained : Adapter → List Completion → ℕ → Type 0
Drained a cs p =
    (b : Adapter) × (drain_remaining_tags a cs ≡ valid b)
    × (b.heap p ≡ left_at p cs (a.heap p))
    × (b.events ≡ a.events ++ resumed a.heap cs)

drain-Drained :
    (a : Adapter) (cs : List Completion) (p : ℕ)
    → AreDistinct cs
    → AreLive a.heap cs
    → Drained a cs p
unfolding drain_remaining_tags
drain-Drained a [] p d l = (a, refl, refl, sym (append-nil a.events))
drain-Drained a (c ∷ cs) p d l =
    let (b, (step, heap, events)) = process_tag-Step a c l.0 in
    let (live, same) = later a.heap b.heap c.tag c.ok cs heap d.0 l.1 in
    let (b', rest, heap', events') = drain-Drained b cs p d.1 live in
    (
      b',
      rw step rest,
      heap' ∙ left_at-step a.heap b.heap c cs p (heap p) d.0,
      events'
          ∙ ap (λ (es : List Event). es ++ resumed b.heap cs) events
          ∙ ap (λ (es : List Event). (a.events ++ resumed_by a.heap c c.tag) ++ es) same
          ∙ append_assoc a.events (resumed_by a.heap c c.tag) (resumed a.heap cs),
    )

-- If the operations whose completions the poller takes are alive and no two are the same, the
-- poller touches no dead context; it frees the unary contexts among them and no other, leaves the
-- streams' to their awaiters, and resumes each waiting caller once, in order, with the operation's
-- result.
pub poll_loop_lem :
    (a : Adapter) (us : List Poll) (p : ℕ)
    → AreDistinct (taken us)
    → AreLive a.heap (taken us)
    → (b : Adapter) × (poll_loop a us ≡ valid b)
      × (b.heap p ≡ left_at p (taken us) (a.heap p))
      × (b.events ≡ a.events ++ resumed a.heap (taken us))
poll_loop_lem a us p d l =
    let (b, drained, heap, events) = drain-Drained a (taken us) p d l in
    (b, poll_loop-taken a us ∙ drained, heap, events)
