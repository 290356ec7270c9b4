-- ===== src/Coro/AsyncStream.antt =====
-- AsyncStream and the awaiters of stream_awaiters.h, as a coroutine uses them: it makes an awaiter,
-- whose context lies at `p` in its frame, awaits it, and makes the next. What each operation meets
-- is an argument: whether it succeeds, and what gRPC has written to the status by then.
pub mod Sequence
use d_ro_cm.Base.{ℕ, ap, Bool, false, List, [], ◌∷◌, ◌++◌, Option, none, some, if◌then◌else◌}
use d_ro_cm.Grpc.{Status}
use d_ro_cm.Coro.{
  StreamContext, Context, stream_op, Adapter, Access, valid, invalid, put, process_tag,
}
use d_ro_cm.Coro.Streams.{stream_await_suspend, stream_await_resume}

-- A chain of steps ends at the first that touches what is not there.
infixl 5 ◌>>=◌ ◌>>◌
abbrev ◌>>=◌ : {A B : Type 0} → Access A → (A → Access B) → Access B
valid a >>= k = k a
invalid >>= k = invalid

abbrev ◌>>◌ : {A B : Type 0} → Access A → Access B → Access B
m >> k = m >>= λ _. k

-- The call that starts an operation, with the address or the message that it is given.
pub data Operation (W : Type 0) : Type 0 where
  read : ℕ → Operation W
  write : W → Operation W
  writes_done : Operation W
  finish : ℕ → Operation W

-- StreamReadAwaiter, StreamWriteAwaiter, StreamWritesDoneAwaiter and StreamFinishAwaiter: the stream
-- that they are given, which may be null, the rest of their arguments, and the context.
pub record Awaiter (W : Type 0) : Type 0 where
  pub stream : Option ℕ
  pub operation : Operation W
  pub ctx : StreamContext

pub record AsyncStream : Type 0 where
  pub stream : Option ℕ

abbrev pub new_context : StreamContext
new_context = record { caller_handle = none; ok = false }

module _ {W : Type 0} where
  -- The constructors of the awaiters.
  abbrev pub new_awaiter : Option ℕ → Operation W → Awaiter W
  new_awaiter stream operation = record {
    stream = stream;
    operation = operation;
    ctx = new_context;
  }

  -- AsyncStream's methods of these names, and the accessor.
  abbrev pub stream_read : AsyncStream → ℕ → Awaiter W
  stream_read s msg = new_awaiter s.stream (Operation.read msg)

  abbrev pub stream_write : AsyncStream → W → Awaiter W
  stream_write s msg = new_awaiter s.stream (Operation.write msg)

  abbrev pub stream_writes_done : AsyncStream → Awaiter W
  stream_writes_done s = new_awaiter s.stream Operation.writes_done

  abbrev pub stream_finish : AsyncStream → ℕ → Awaiter W
  stream_finish s status = new_awaiter s.stream (Operation.finish status)

  abbrev pub await_ready : Awaiter W → Bool
  await_ready a = false

abbrev pub get : AsyncStream → Option ℕ
get s = s.stream

-- What `co_await` gives: the flag of the context, or the status that Finish was given.
pub data Result : Type 0 where
  flag : Bool → Result
  final : Status → Result

abbrev pub result : {W : Type 0} → Operation W → Bool → Status → Result
result (Operation.finish at) ok status = Result.final status
result _ ok status = Result.flag ok

-- The adapter, and the calls on gRPC's streams so far, each with its stream and its tag.
pub record Session (W : Type 0) : Type 0 where
  pub adapter : Adapter
  pub calls : List (ℕ × Operation W × ℕ)

module _ {W : Type 0} (p handle : ℕ) where
  abbrev started : Session W → Operation W → Adapter → Option ℕ → Access (Session W)
  started s operation a none = invalid
  started s operation a (some stream) =
      valid (record { adapter = a; calls = s.calls ++ (stream, operation, p) ∷ [] })

  -- await_suspend on an awaiter whose context lies at `p`.
  unfoldable pub await_suspend : Session W → Awaiter W → Access (Session W)
  unfolding stream_await_suspend
  await_suspend s aw = do
    a ← stream_await_suspend s.adapter p handle
    started s aw.operation a aw.stream

  -- await_resume: of Finish, the status; of the others, the flag in the context.
  abbrev await_resume : Operation W → Status → Adapter → Access Result
  await_resume (Operation.finish at) status a = valid (Result.final status)
  await_resume _ status a = do ok ← stream_await_resume a p; valid (Result.flag ok)

  -- The end of a `co_await`: its result is taken, and its context leaves the frame.
  abbrev ended : Session W → Operation W → Status → Access (Session W × Result)
  ended s operation status = do
    r ← await_resume operation status s.adapter
    let heap = put p none s.adapter.heap
    valid (record s { adapter = record s.adapter { heap = heap } }, r)

  -- The wait, and the completion that the poller takes.
  abbrev suspended : Session W → Awaiter W → Bool → Access (Session W)
  suspended s aw ok = do
    waiting ← await_suspend s aw
    a ← process_tag waiting.adapter (record { tag = some p; ok = ok; caller_done = false })
    valid (record waiting { adapter = a })

  -- `co_await`, from the making of the awaiter on.
  unfoldable pub co_await : Session W → Awaiter W → Bool → Status → Access (Session W × Result)
  unfolding await_suspend process_tag stream_await_resume
  co_await s aw ok status =
      let heap = put p (some (stream_op aw.ctx)) s.adapter.heap in
      let made = record s { adapter = record s.adapter { heap = heap } } in
      if await_ready aw
      then ended made aw.operation status
      else (suspended made aw ok >>= λ s'. ended s' aw.operation status)

-- An operation with what it meets.
pub record Exchange (W : Type 0) : Type 0 where
  pub operation : Operation W
  pub ok : Bool
  pub status : Status

-- The method of AsyncStream for the operation.
abbrev pub make : {W : Type 0} → AsyncStream → Operation W → Awaiter W
make s (Operation.read msg) = stream_read s msg
make s (Operation.write msg) = stream_write s msg
make s Operation.writes_done = stream_writes_done s
make s (Operation.finish status) = stream_finish s status

module _ {W : Type 0} (p handle : ℕ) where
  -- A coroutine that awaits the operations one after the other.
  unfoldable pub await_all :
      AsyncStream → Session W → List (Exchange W) → Access (Session W × List Result)
  await_all stream s [] = valid (s, [])
  await_all stream s (x ∷ xs) = do
    (s', r) ← co_await p handle s (make stream x.operation) x.ok x.status
    (last, rs) ← await_all stream s' xs
    valid (last, r ∷ rs)
