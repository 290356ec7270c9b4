-- ===== src/Tests/Coro.antt =====
-- The adapter's theorems at a heap of two operations.
use d_ro_cm.Base.{
  String, map, ◌≡◌, refl, true, false, List, [], ◌∷◌, ◌++◌, none, some, if◌then◌else◌, eqb,
}
use d_ro_cm.Grpc.{status_ok}
use d_ro_cm.Coro.{
  AsyncContext, StreamContext, async_unary, stream_op, Event, Adapter, valid, Poll, Next, and_then,
  cancel_with_timeout, process_tag, poll_loop,
}
use d_ro_cm.Coro
use d_ro_cm.Coro.Completions.{taken, left_at, resumed, AreDistinct, AreLive}
use d_ro_cm.Coro.Ownership.{poll_loop_lem}
use d_ro_cm.Coro.AsyncStream.{Operation, Session, Exchange, result, await_all}
use d_ro_cm.Coro.AsyncStream.Sequence.{Awaited, await_all_lem}
use d_ro_cm.Coro.Cancel.{completion, cancelled, timed_out_status, woken, timeout_resumes_twice}

abbrev call : AsyncContext
call = record { caller_handle = some 70; grpc_status = status_ok; ok = false; timed_out = false }

abbrev read : StreamContext
read = record { caller_handle = some 80; ok = false }

-- A unary call at address 1 and a read at address 2.
abbrev two_operations : Adapter
two_operations = record {
  heap = λ p.
      if eqb p 1 then some (async_unary call) else if eqb p 2 then some (stream_op read) else none;
  events = [];
}

-- The read completes, the queue is silent, a null tag comes, and the call fails while the queue is
-- drained.
abbrev polls : List Poll
polls =
    record { stop_requested = false; next = Next.got_event (completion 2 true) }
    ∷ record { stop_requested = false; next = Next.timeout }
    ∷ record {
      stop_requested = false;
      next = Next.got_event (record { tag = none; ok = true; caller_done = false });
    }
    ∷ record { stop_requested = false; next = Next.shut_down (completion 1 false ∷ []) }
    ∷ []

polls-AreDistinct : AreDistinct (taken polls)
polls-AreDistinct = ((refl, (refl, tt)), (tt, (tt, tt)))

polls-AreLive : AreLive two_operations.heap (taken polls)
polls-AreLive = ((λ h. cc), (tt, ((λ h. cc), tt)))

poll_loop_lem_example :
    (b : Adapter) × (poll_loop two_operations polls ≡ valid b)
    × (b.heap 1 ≡ left_at 1 (taken polls) (two_operations.heap 1))
    × (b.events ≡ two_operations.events ++ resumed two_operations.heap (taken polls))
poll_loop_lem_example = poll_loop_lem two_operations polls 1 polls-AreDistinct polls-AreLive

-- The call is freed with CANCELLED, after the read's coroutine was resumed.
events_of_polls :
    resumed two_operations.heap (taken polls)
    ≡ Event.resume_stream 80 true ∷ Event.resume_unary 70 cancelled ∷ []
unfolding Coro.wake
events_of_polls = refl

timeout_resumes_twice_example :
    (b : Adapter) × (late : List Event) × (and_then
        (cancel_with_timeout two_operations (some 1) false)
        (λ a'. process_tag a' (completion 1 true))
      ≡ valid b)
    × (b.heap 1 ≡ none)
    × (b.events ≡ two_operations.events ++ Event.resume_unary 70 timed_out_status ∷ late)
    × (map woken late ≡ 70 ∷ [])
timeout_resumes_twice_example = timeout_resumes_twice two_operations 1 70 call true refl refl

-- A read, a write and Finish, on a stream whose peer half-closes before the write.
abbrev exchanges : List (Exchange String)
exchanges =
    record { operation = Operation.read 90; ok = true; status = status_ok }
    ∷ record { operation = Operation.write "halt"; ok = false; status = status_ok }
    ∷ record { operation = Operation.finish 91; ok = true; status = cancelled }
    ∷ []

abbrev session : Session String
session = record { adapter = two_operations; calls = [] }

await_all_lem_example :
    (s : Session String) × (await_all 5 80 (record { stream = some 3 }) session exchanges
      ≡ valid (s, map (λ (x : Exchange String). result x.operation x.ok x.status) exchanges))
    × Awaited 5 80 3 session exchanges s
await_all_lem_example = await_all_lem 5 80 3 session exchanges
