-- ===== src/Coro/Cancel.antt =====
-- Single operations: the pairing of `new` and `delete`, a timeout before the completion, and the
-- shutdown of several adapters.
use d_ro_cm.Base.{
  map, ℕ, ◌≡◌, refl, ap, ◌∙◌, Bool, true, false, ◌||◌, List, [], ◌∷◌, ◌++◌, none, some,
  if◌then◌else◌, eqb, arith,
}
use mathlib.Core.List.{append_assoc}
use d_ro_cm.Grpc.{StatusCode, Status, status_ok}
use d_ro_cm.Coro.{
  AsyncContext, async_unary, Event, Adapter, valid, Completion, wake, await_resume, process_context,
  process_tag, and_then, await_suspend, cancel_with_timeout, Process, shutdown, put, timed_out,
}

-- The completion of the operation at `p`, whose caller waits.
abbrev pub completion : ℕ → Bool → Completion
completion p ok = record { tag = some p; ok = ok; caller_done = false }

abbrev pub cancelled : Status
cancelled = record { code = StatusCode.cancelled; error_message = "Async operation failed" }

abbrev pub timed_out_status : Status
timed_out_status = record {
  code = StatusCode.deadline_exceeded;
  error_message = "Operation timed out";
}

-- A unary operation with a live context that starts is freed by its completion, which resumes the
-- waiting caller once, with OK or CANCELLED; one whose start throws is freed at once, without a
-- resumption.
pub await_suspend_lem :
    (a : Adapter) (p handle : ℕ) (c : AsyncContext) (ok : Bool)
    → a.heap p ≡ some (async_unary c)
    → ((b : Adapter) × (await_suspend a p handle true ≡ valid b)
        × (b.heap p ≡ none)
        × (b.events ≡ a.events))
      × ((b : Adapter) × (and_then
              (await_suspend a p handle false)
              (λ a'. process_tag a' (completion p ok))
            ≡ valid b)
          × (b.heap p ≡ none)
          × (b.events
              ≡ a.events ++ Event.resume_unary handle (if ok then status_ok else cancelled) ∷ []))
unfolding await_suspend process_tag process_context wake await_resume
await_suspend_lem a p handle c ok live =
    let started : AsyncContext = record c { caller_handle = some handle; timed_out = false } in
    (
      (record a { heap = put p none a.heap }, rw live refl, ground arith, refl),
      (
        process_context (record a { heap = put p (some (async_unary started)) a.heap }) p ok false
            (async_unary started),
        rw live (ground arith),
        ground arith,
        ground arith,
      ),
    )

-- The coroutine that an event resumes, whatever it goes on to do.
abbrev pub woken : Event → ℕ
woken (Event.resume_unary handle status) = handle
woken (Event.resume_stream handle ok) = handle

-- A unary call with a waiting caller that times out and completes afterwards, while its coroutine
-- is not done, resumes that coroutine twice: first with DEADLINE_EXCEEDED as the result of the
-- call, then at whatever point it waits by then. The context is freed.
pub timeout_resumes_twice :
    (a : Adapter) (p handle : ℕ) (c : AsyncContext) (ok : Bool)
    → a.heap p ≡ some (async_unary c)
    → c.caller_handle ≡ some handle
    → (b : Adapter) × (late : List Event) × (and_then
          (cancel_with_timeout a (some p) false)
          (λ a'. process_tag a' (completion p ok))
        ≡ valid b)
      × (b.heap p ≡ none)
      × (b.events ≡ a.events ++ Event.resume_unary handle timed_out_status ∷ late)
      × (map woken late ≡ handle ∷ [])
unfolding cancel_with_timeout process_tag process_context wake await_resume
timeout_resumes_twice a p handle c ok live waits =
    let late : AsyncContext = timed_out c in
    let again = Event.resume_unary handle timed_out_status ∷ [] in
    let first : Adapter = record {
      heap = put p (some (async_unary late)) a.heap;
      events = a.events ++ again;
    } in
    (
      process_context first p ok false (async_unary late),
      again,
      rw live (ground (arith, waits)),
      ground arith,
      ground (arith, waits, append_assoc a.events again again),
      refl,
    )

abbrev pub shutdown_all : Process → List ℕ → Process
shutdown_all p [] = p
shutdown_all p (i ∷ is) = shutdown_all (shutdown p i) is

already : (p : Process) (is : List ℕ) → p.shutdown_flag ≡ true → shutdown_all p is ≡ p
unfolding shutdown
already p [] h = refl
already p (i ∷ is) h =
    let same : shutdown p i ≡ p = ground (arith, h) in
    ap (λ (q : Process). shutdown_all q is) same ∙ already p is h

-- In a process in which no adapter has been shut down, whichever shutdowns follow, the first one
-- alone reaches its queue.
pub shutdown_first :
    (p : Process) (i j : ℕ) (is : List ℕ)
    → p.shutdown_flag ≡ false
    → (shutdown_all p (i ∷ is)).queue_shut j ≡ (eqb i j || p.queue_shut j)
unfolding shutdown
shutdown_first p i j is h =
    let set : (shutdown p i).shutdown_flag ≡ true = ground (arith, h) in
    ap (λ (q : Process). q.queue_shut j) (already (shutdown p i) is set) ∙ ground (arith, h)
