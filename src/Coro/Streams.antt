-- ===== src/Coro/Streams.antt =====
-- The awaiters of stream_awaiters.h, one operation at a time. Read, Write, WritesDone and Finish differ
-- in the call that starts the operation, which is gRPC's, and in that Finish returns the status that
-- gRPC has written.
use d_ro_cm.Base.{ℕ, ◌≡◌, Bool, false, [], ◌∷◌, ◌++◌, Option, some, arith}
use d_ro_cm.Coro.{
  StreamContext, Context, stream_op, Event, Adapter, Access, valid, invalid, put, wake,
  process_context, process_tag, and_then,
}

abbrev pub suspend_stream : Adapter → ℕ → ℕ → Option Context → Access Adapter
suspend_stream a p handle (some (stream_op c)) =
    valid (record a {
      heap = put p (some (stream_op (record c { caller_handle = some handle }))) a.heap;
    })
suspend_stream a p handle _ = invalid

-- await_suspend of the four awaiters, on the context at `p`.
unfoldable pub stream_await_suspend : Adapter → ℕ → ℕ → Access Adapter
stream_await_suspend a p handle = suspend_stream a p handle (a.heap p)

abbrev pub ok_of : Option Context → Access Bool
ok_of (some (stream_op c)) = valid c.ok
ok_of _ = invalid

-- await_resume of the read, write and writes-done awaiters.
unfoldable pub stream_await_resume : Adapter → ℕ → Access Bool
stream_await_resume a p = ok_of (a.heap p)

-- The completion of a stream operation with a live context resumes its waiting coroutine once, and
-- the context is still there for co_await to return whether the operation succeeded.
pub stream_await_suspend_lem :
    (a : Adapter) (p handle : ℕ) (c : StreamContext) (ok : Bool)
    → a.heap p ≡ some (stream_op c)
    → (b : Adapter) × (and_then
          (stream_await_suspend a p handle)
          (λ a'. process_tag a' (record { tag = some p; ok = ok; caller_done = false }))
        ≡ valid b)
      × (b.events ≡ a.events ++ Event.resume_stream handle ok ∷ [])
      × (stream_await_resume b p ≡ valid ok)
unfolding stream_await_suspend stream_await_resume process_tag process_context wake
stream_await_suspend_lem a p handle c ok live =
    let waiting : StreamContext = record c { caller_handle = some handle } in
    (
      process_context (record a { heap = put p (some (stream_op waiting)) a.heap }) p ok false
          (stream_op waiting),
      rw live (ground arith),
      ground arith,
      ground arith,
    )
