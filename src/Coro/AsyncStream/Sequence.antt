-- ===== src/Coro/AsyncStream/Sequence.antt =====
-- A coroutine that awaits the operations of one AsyncStream one after the other.
use d_ro_cm.Base.{
  ℕ, ◌≡◌, ◌≢◌, refl, sym, ap, ◌∙◌, Bool, false, List, [], ◌∷◌, ◌++◌, map, none, some, arith,
}
use mathlib.Core.List.{append-nil, append_assoc}
use d_ro_cm.Grpc.{Status}
use d_ro_cm.Coro.{
  StreamContext, stream_op, Event, Adapter, valid, invalid, put, wake, process_context,
}
use d_ro_cm.Coro.AsyncStream.{
  Operation, Session, Exchange, new_context, make, result, co_await, await_all,
}

module _ {W : Type 0} (p handle : ℕ) where
  -- The adapter when the poller has resumed the coroutine, and when the context is gone.
  abbrev awaited : Session W → Bool → Adapter
  awaited s ok =
      let waiting : StreamContext = record new_context { caller_handle = some handle } in
      let made = put p (some (stream_op new_context)) s.adapter.heap in
      let asleep = record s.adapter { heap = put p (some (stream_op waiting)) made } in
      let woken = process_context asleep p ok false (stream_op waiting) in
      record woken { heap = put p none woken.heap }

  abbrev left : ℕ → Session W → Operation W → Bool → Session W
  left n s operation ok = record {
    adapter = awaited s ok;
    calls = s.calls ++ (n, operation, p) ∷ [];
  }

  co_await_eq :
      (n : ℕ) (s : Session W) (operation : Operation W) (ok : Bool) (status : Status)
      → co_await p handle s (make (record { stream = some n }) operation) ok status
        ≡ valid (left n s operation ok, result operation ok status)
  unfolding co_await process_context wake
  co_await_eq n s (Operation.read msg) ok status = ground arith
  co_await_eq n s (Operation.write msg) ok status = ground arith
  co_await_eq n s Operation.writes_done ok status = ground arith
  co_await_eq n s (Operation.finish at) ok status = ground arith

  abbrev pub calls_of : ℕ → List (Exchange W) → List (ℕ × Operation W × ℕ)
  calls_of n xs = map (λ (x : Exchange W). (n, x.operation, p)) xs

  abbrev pub resumptions : List (Exchange W) → List Event
  resumptions xs = map (λ (x : Exchange W). Event.resume_stream handle x.ok) xs

  -- What the operations leave: each was started once, in order, under the address of its context;
  -- each completion resumed the coroutine once; the other contexts are as they were.
  pub record Awaited (n : ℕ) (s : Session W) (xs : List (Exchange W)) (s' : Session W)
      : Type 0 where
    pub calls : s'.calls ≡ s.calls ++ calls_of n xs
    pub events : s'.adapter.events ≡ s.adapter.events ++ resumptions xs
    pub others : (q : ℕ) → p ≢ q → s'.adapter.heap q ≡ s.adapter.heap q

  left-Awaited :
      (n : ℕ) (s : Session W) (x : Exchange W) → Awaited n s (x ∷ []) (left n s x.operation x.ok)
  unfolding process_context wake
  left-Awaited n s x = record { calls = refl; events = refl; others = λ q apart. ground arith }

  Awaited-cons :
      (n : ℕ) (s s' s'' : Session W) (x : Exchange W) (xs : List (Exchange W))
      → Awaited n s (x ∷ []) s'
      → Awaited n s' xs s''
      → Awaited n s (x ∷ xs) s''
  Awaited-cons n s s' s'' x xs first rest = record {
    calls = rest.calls ∙ ap (λ l. l ++ calls_of n xs) first.calls ∙ append_assoc s.calls _ _;
    events =
        rest.events
        ∙ ap (λ l. l ++ resumptions xs) first.events
        ∙ append_assoc s.adapter.events _ _;
    others = λ q apart. rest.others q apart ∙ first.others q apart;
  }

  -- A coroutine that awaits operations on a stream that is not null, one after the other, each of
  -- which completes, gets for each the flag of its own completion, and for Finish the status that
  -- gRPC has written; each operation is started once, in order, and resumes the coroutine once, and
  -- no other context is touched.
  pub await_all_lem :
      (n : ℕ) (s : Session W) (xs : List (Exchange W))
      → (s' : Session W) × (await_all p handle (record { stream = some n }) s xs
          ≡ valid (s', map (λ (x : Exchange W). result x.operation x.ok x.status) xs))
        × Awaited n s xs s'
  unfolding await_all
  await_all_lem n s [] = (
    s,
    refl,
    record {
      calls = sym (append-nil s.calls);
      events = sym (append-nil s.adapter.events);
      others = λ q apart. refl;
    },
  )
  await_all_lem n s (x ∷ xs) =
      let s' = left n s x.operation x.ok in
      let (s'', runs, rest) = await_all_lem n s' xs in
      (
        s'',
        rw (co_await_eq n s x.operation x.ok x.status, runs) refl,
        Awaited-cons n s s' s'' x xs (left-Awaited n s x) rest,
      )

  co_await_null :
      (s : Session W) (operation : Operation W) (ok : Bool) (status : Status)
      → co_await p handle s (make (record { stream = none }) operation) ok status ≡ invalid
  unfolding co_await
  co_await_null s (Operation.read msg) ok status = ground arith
  co_await_null s (Operation.write msg) ok status = ground arith
  co_await_null s Operation.writes_done ok status = ground arith
  co_await_null s (Operation.finish at) ok status = ground arith

  -- With a null stream the first operation already calls through the null pointer.
  pub await_all_null :
      (s : Session W) (x : Exchange W) (xs : List (Exchange W))
      → await_all p handle (record { stream = none }) s (x ∷ xs) ≡ invalid
  unfolding await_all
  await_all_null s x xs = rw (co_await_null s x.operation x.ok x.status) refl
