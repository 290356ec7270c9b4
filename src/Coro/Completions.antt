-- ===== src/Coro/Completions.antt =====
-- What the completions that the poller takes say of the contexts and of the waiting coroutines.
use d_ro_cm.Base.{
  ℕ, ◌≡◌, ◌≢◌, Bool, false, List, [], ◌∷◌, ◌++◌, Option, none, some, All, if◌then◌else◌, eqb,
}
use d_ro_cm.Grpc.{StatusCode, Status, status_ok}
use d_ro_cm.Coro.{
  AsyncContext, Context, async_unary, stream_op, unknown_type, Heap, Event, Completion, Next, Poll,
  wake,
}

-- The completions that the poller takes: up to a stop request, or up to the shutdown of the queue and
-- what is then drained.
abbrev pub then_taken : Next → List Completion → List Completion
then_taken (Next.got_event c) rest = c ∷ rest
then_taken Next.timeout rest = rest
then_taken (Next.shut_down cs) rest = cs

abbrev pub taken : List Poll → List Completion
taken [] = []
taken (u ∷ us) = let rest = taken us in if u.stop_requested then [] else then_taken u.next rest

-- The completion is one of the operation at `p`.
abbrev pub names : ℕ → Option ℕ → Bool
names p none = false
names p (some q) = eqb q p

-- No operation completes twice.
abbrev pub NotAgain : Option ℕ → List Completion → Type 0
NotAgain none cs = Unit
NotAgain (some p) cs = All (λ (d : Completion). names p d.tag ≡ false) cs

abbrev pub AreDistinct : List Completion → Type 0
AreDistinct [] = Unit
AreDistinct (c ∷ cs) = NotAgain c.tag cs × AreDistinct cs

-- The contexts that the tags point to are alive.
abbrev pub IsLive : Heap → Option ℕ → Type 0
IsLive heap none = Unit
IsLive heap (some p) = heap p ≢ none

abbrev pub AreLive : Heap → List Completion → Type 0
AreLive heap cs = All (λ (c : Completion). IsLive heap c.tag) cs

-- What a completion leaves of the context that it is about.
abbrev pub left : Bool → Option Context → Option Context
left ok (some (stream_op c)) = some (stream_op (record c { ok = ok }))
left ok (some unknown_type) = some unknown_type
left ok _ = none

-- What the completions leave of the context at `p`.
abbrev pub left_at : ℕ → List Completion → Option Context → Option Context
left_at p [] o = o
left_at p (c ∷ cs) o = let rest = left_at p cs o in if names p c.tag then left c.ok o else rest

-- What a unary `co_await` returns on a completion.
abbrev pub result : AsyncContext → Bool → Status
result c ok =
    if c.timed_out
    then record { code = StatusCode.deadline_exceeded; error_message = "Operation timed out" }
    else if ok
    then status_ok
    else record { code = StatusCode.cancelled; error_message = "Async operation failed" }

abbrev pub resumed_at : Completion → Option Context → List Event
resumed_at c (some (async_unary x)) =
    wake x.caller_handle c.caller_done (λ h. Event.resume_unary h (result x c.ok))
resumed_at c (some (stream_op x)) =
    wake x.caller_handle c.caller_done (λ h. Event.resume_stream h c.ok)
resumed_at c _ = []

abbrev pub resumed_by : Heap → Completion → Option ℕ → List Event
resumed_by heap c none = []
resumed_by heap c (some p) = resumed_at c (heap p)

-- The resumptions, in the order of the completions, each from the context as it was at the start.
abbrev pub resumed : Heap → List Completion → List Event
resumed heap [] = []
resumed heap (c ∷ cs) = resumed_by heap c c.tag ++ resumed heap cs
