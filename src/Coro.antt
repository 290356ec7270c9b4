-- ===== src/Coro.antt =====
-- src/core/coro/coro_adapter.h, coro_adapter.cpp and stream_awaiters.h: contexts of asynchronous
-- operations, whose addresses are the tags of gRPC's completion queue. The heap holds the contexts
-- that are alive. What the queue returns is an argument, and so is `done()` of the waiting coroutine
-- at that moment. A resumed coroutine is recorded as an event; what it does next are
-- later steps.
pub mod Completions
pub mod Ownership
pub mod Cancel
pub mod Streams
pub mod AsyncStream
pub mod Operation
use d_ro_cm.Base.{ℕ, Bool, true, false, List, [], ◌∷◌, ◌++◌, Option, none, some, if◌then◌else◌, eqb}
use d_ro_cm.Grpc.{StatusCode, Status, status_ok}

pub record AsyncContext : Type 0 where
  pub caller_handle : Option ℕ
  pub grpc_status : Status
  pub ok : Bool
  pub timed_out : Bool

pub record StreamContext : Type 0 where
  pub caller_handle : Option ℕ
  pub ok : Bool

-- What a tag points to, by the first byte: ContextType::ASYNC_UNARY, STREAM_OP, or neither.
pub data Context : Type 0 where
  async_unary : AsyncContext → Context
  stream_op : StreamContext → Context
  unknown_type : Context

abbrev pub Heap : Type 0
Heap = ℕ → Option Context

abbrev pub put : ℕ → Option Context → Heap → Heap
put p c heap q = if eqb p q then c else heap q

-- A coroutine is resumed. Beside its handle stands what this operation's `await_resume` returns from
-- the context at that moment: the coroutine reads it if it waits for this operation, and goes on
-- without it if it waits elsewhere.
pub data Event : Type 0 where
  resume_unary : ℕ → Status → Event
  resume_stream : ℕ → Bool → Event

pub record Adapter : Type 0 where
  pub heap : Heap
  pub events : List Event

-- A step reads and writes live contexts only, or one that is not there.
pub data Access (A : Type 0) : Type 0 where
  valid : A → Access A
  invalid : Access A

-- What the queue delivers, and whether the coroutine that waits for it is done.
pub record Completion : Type 0 where
  pub tag : Option ℕ
  pub ok : Bool
  pub caller_done : Bool

-- AwaitableOperation::await_resume
unfoldable pub await_resume : AsyncContext → Status
await_resume c =
    if c.timed_out
    then record { code = StatusCode.deadline_exceeded; error_message = "Operation timed out" }
    else c.grpc_status

-- `if (caller_handle && !caller_handle.done()) caller_handle.resume()`
unfoldable pub wake : Option ℕ → Bool → (ℕ → Event) → List Event
wake none caller_done k = []
wake (some h) caller_done k = if caller_done then [] else k h ∷ []

-- The writes of `process_tag` to an AsyncContext.
abbrev pub complete : AsyncContext → Bool → AsyncContext
complete c ok = record c {
  ok = ok;
  grpc_status =
      if ok
      then status_ok
      else record { code = StatusCode.cancelled; error_message = "Async operation failed" };
}

-- A unary context is freed after the resumption; a stream's stays with its awaiter.
unfoldable pub process_context : Adapter → ℕ → Bool → Bool → Context → Adapter
unfolding wake await_resume
process_context a p ok caller_done (async_unary c) = record {
  heap = put p none a.heap;
  events =
      a.events
      ++ wake c.caller_handle caller_done
          (λ h. Event.resume_unary h (await_resume (complete c ok)));
}
process_context a p ok caller_done (stream_op c) = record {
  heap = put p (some (stream_op (record c { ok = ok }))) a.heap;
  events = a.events ++ wake c.caller_handle caller_done (λ h. Event.resume_stream h ok);
}
process_context a p ok caller_done unknown_type = a

abbrev pub process_at : Adapter → ℕ → Completion → Option Context → Access Adapter
process_at a p c none = invalid
process_at a p c (some context) = valid (process_context a p c.ok c.caller_done context)

abbrev pub process_pointer : Adapter → Completion → Option ℕ → Access Adapter
process_pointer a c none = valid a
process_pointer a c (some p) = process_at a p c (a.heap p)

unfoldable pub process_tag : Adapter → Completion → Access Adapter
unfolding process_context
process_tag a c = process_pointer a c c.tag

abbrev pub and_then : Access Adapter → (Adapter → Access Adapter) → Access Adapter
and_then (valid a) k = k a
and_then invalid k = invalid

-- The loop of `drain_remaining_tags`, on what the queue still delivers.
unfoldable pub drain_remaining_tags : Adapter → List Completion → Access Adapter
unfolding process_tag
drain_remaining_tags a [] = valid a
drain_remaining_tags a (c ∷ cs) = and_then (process_tag a c) (λ a'. drain_remaining_tags a' cs)

-- What `AsyncNext` returns; on SHUTDOWN, with what is then drained.
pub data Next : Type 0 where
  got_event : Completion → Next
  timeout : Next
  shut_down : List Completion → Next

pub record Poll : Type 0 where
  pub stop_requested : Bool
  pub next : Next

abbrev pub polled : Adapter → Next → (Adapter → Access Adapter) → Access Adapter
polled a (Next.got_event c) k = and_then (process_tag a c) k
polled a Next.timeout k = k a
polled a (Next.shut_down cs) k = drain_remaining_tags a cs

unfoldable pub poll_loop : Adapter → List Poll → Access Adapter
unfolding drain_remaining_tags
poll_loop a [] = valid a
poll_loop a (u ∷ us) = if u.stop_requested then valid a else polled a u.next (λ a'. poll_loop a' us)

-- The start of the operation: if `start_fn` throws, the context is freed.
abbrev pub suspend_at : Adapter → ℕ → ℕ → Bool → Option Context → Access Adapter
suspend_at a p handle throws (some (async_unary c)) =
    if throws
    then valid (record a { heap = put p none a.heap })
    else valid (record a {
      heap =
          put p (some (async_unary (record c { caller_handle = some handle; timed_out = false })))
            a.heap;
    })
suspend_at a p handle throws _ = invalid

-- AwaitableOperation::await_suspend on the context at `p`; `throws` is whether `start_fn` does.
unfoldable pub await_suspend : Adapter → ℕ → ℕ → Bool → Access Adapter
await_suspend a p handle throws = suspend_at a p handle throws (a.heap p)

-- A coroutine that times out is resumed; its context stays where it is.
abbrev pub timed_out : AsyncContext → AsyncContext
timed_out c = record c {
  timed_out = true;
  grpc_status = record { code = StatusCode.deadline_exceeded; error_message = "Timed out" };
}

abbrev pub cancel_at : Adapter → ℕ → Bool → Option Context → Access Adapter
cancel_at a p caller_done (some (async_unary c)) = valid (record {
  heap = put p (some (async_unary (timed_out c))) a.heap;
  events =
      a.events
      ++ wake c.caller_handle caller_done (λ h. Event.resume_unary h (await_resume (timed_out c)));
})
cancel_at a p caller_done _ = invalid

-- AwaitableOperation::cancel_with_timeout; the pointer is null once `await_resume` has taken the
-- status.
unfoldable pub cancel_with_timeout : Adapter → Option ℕ → Bool → Access Adapter
unfolding wake await_resume
cancel_with_timeout a none caller_done = valid a
cancel_with_timeout a (some p) caller_done = cancel_at a p caller_done (a.heap p)

-- The flag in `CoroAdapter::shutdown` is static: one for the process. For each adapter, whether its
-- queue was shut down.
pub record Process : Type 0 where
  pub shutdown_flag : Bool
  pub queue_shut : ℕ → Bool

-- CoroAdapter::shutdown on the adapter `i`
unfoldable pub shutdown : Process → ℕ → Process
shutdown p i =
    if p.shutdown_flag
    then p
    else record { shutdown_flag = true; queue_shut = λ j. if eqb i j then true else p.queue_shut j }
