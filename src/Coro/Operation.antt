-- ===== src/Coro/Operation.antt =====
-- AwaitableOperation: its pointer to the context, which await_resume takes away unless the operation
-- timed out, and what a cancellation meets that comes after the completion.
use d_ro_cm.Base.{ℕ, ◌≡◌, refl, Bool, true, false, Option, none, some, if◌then◌else◌, arith}
use d_ro_cm.Grpc.{Status}
use d_ro_cm.Coro.{
  AsyncContext, Context, async_unary, Adapter, Access, valid, invalid, put, wake, complete,
  await_resume, process_context, process_tag, cancel_with_timeout,
}
use d_ro_cm.Coro.Cancel.{completion, timed_out_status}

pub record AwaitableOperation : Type 0 where
  pub ctx : Option ℕ
  pub timeout_ms : ℕ

abbrev pub await_ready : AwaitableOperation → Bool
await_ready op = false

abbrev pub resume_from : AwaitableOperation → Option Context → Access (AwaitableOperation × Status)
resume_from op (some (async_unary c)) =
    if c.timed_out
    then valid (op, await_resume c)
    else valid (record op { ctx = none }, await_resume c)
resume_from op _ = invalid

abbrev pub resume_at :
    Adapter → AwaitableOperation → Option ℕ → Access (AwaitableOperation × Status)
resume_at a op none = invalid
resume_at a op (some p) = resume_from op (a.heap p)

-- AwaitableOperation::await_resume, with its write to `ctx`.
unfoldable pub operation_resume :
    Adapter → AwaitableOperation → Access (AwaitableOperation × Status)
unfolding await_resume
operation_resume a op = resume_at a op op.ctx

-- The context as the poller has completed it when it resumes the coroutine, before it is deleted.
abbrev pub completing : Adapter → ℕ → AsyncContext → Bool → Adapter
completing a p c ok = record a { heap = put p (some (async_unary (complete c ok))) a.heap }

module _ (a : Adapter) (p : ℕ) (c : AsyncContext) (op : AwaitableOperation) (ok caller_done : Bool)
    (live : a.heap p ≡ some (async_unary c)) (held : op.ctx ≡ some p) where
  -- A cancellation after the completion finds no pointer and does nothing, if the operation had not
  -- timed out.
  pub cancel_after_completion :
      c.timed_out ≡ false
      → (b : Adapter) × (op' : AwaitableOperation) × (status : Status) × (process_tag a
            (completion p ok)
          ≡ valid b)
        × (operation_resume (completing a p c ok) op ≡ valid (op', status))
        × (cancel_with_timeout b op'.ctx caller_done ≡ valid b)
  unfolding operation_resume process_tag process_context cancel_with_timeout wake
  cancel_after_completion in_time = (
    process_context a p ok false (async_unary c),
    record op { ctx = none },
    (complete c ok).grpc_status,
    rw live refl,
    ground (arith, held, in_time),
    refl,
  )

  -- If it had timed out, the resumed coroutine leaves the pointer where it is, and a further
  -- cancellation after the completion reads the freed context.
  pub cancel_after_timeout :
      c.timed_out ≡ true
      → (b : Adapter) × (process_tag a (completion p ok) ≡ valid b)
        × (operation_resume (completing a p c ok) op ≡ valid (op, timed_out_status))
        × (cancel_with_timeout b op.ctx caller_done ≡ invalid)
  unfolding operation_resume process_tag process_context cancel_with_timeout wake
  cancel_after_timeout late = (
    process_context a p ok false (async_unary c),
    rw live refl,
    ground (arith, held, late),
    ground (arith, held),
  )
