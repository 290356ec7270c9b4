-- ===== src/Lidar/Control.antt =====
-- LidarNodeService::ControlStream. The stream is the list of requests that `Read` delivers before it
-- returns false, each with what `Write` of its response returns.
use d_ro_cm.Proto.NodeService.{
  ControlStreamRequest, ControlStreamResponse, empty_control_stream_response,
}
use mathlib.Core.List.{append-nil, append_assoc}
use d_ro_cm.Base.{
  ℕ, ◌+◌, ◌-◌, ◌≡◌, refl, sym, Bool, false, Bool-cases, List, [], ◌∷◌, ◌++◌, if◌then◌else◌, leb,
  arith, inl, inr,
}

pub record Turn : Type 0 where
  pub request : ControlStreamRequest
  pub written : Bool

pub data Event : Type 0 where
  -- "too many pending commands": the request is skipped
  skip : Event
  sleep_ms : ℕ → Event
  -- a response, and the result of the write
  respond : ControlStreamResponse → Bool → Event

pub record State : Type 0 where
  pub pending : ℕ
  pub events : List Event

abbrev pub max_pending : ℕ
max_pending = 5

-- A fresh message with the session id of the request.
abbrev pub response : ControlStreamRequest → ControlStreamResponse
response req = record empty_control_stream_response { session_id = req.session_id }

-- The state after the write, before `pending--`.
abbrev pub responded : State → Turn → State
responded s u = record {
  pending = s.pending + 1;
  events = s.events ++ Event.sleep_ms 10 ∷ Event.respond (response u.request) u.written ∷ [];
}

unfoldable pub control_stream : State → List Turn → State
control_stream s [] = s
control_stream s (u ∷ us) =
    let after = responded s u in
    let skipped = control_stream (record s { events = s.events ++ Event.skip ∷ [] }) us in
    let rest = control_stream (record after { pending = after.pending - 1 }) us in
    if leb max_pending s.pending then skipped else if u.written then rest else after

abbrev pub initial : State
initial = record { pending = 0; events = [] }

-- The independent description: each request is answered with its own session id, up to the first
-- write that fails.
abbrev pub answers : List Turn → List Event
answers [] = []
answers (u ∷ us) =
    let rest = answers us in
    Event.sleep_ms 10
    ∷ Event.respond (response u.request) u.written
    ∷ (if u.written then rest else [])

control_stream-from :
    (s : State) (us : List Turn)
    → s.pending ≡ 0
    → (control_stream s us).events ≡ s.events ++ answers us
unfolding control_stream
control_stream-from s [] e = sym (append-nil s.events)
control_stream-from s (u ∷ us) e =
    let after = responded s u in
    let ih = control_stream-from (record after { pending = after.pending - 1 }) us (omega arith) in
    let room : leb max_pending s.pending ≡ false = ground arith in
    let regroup =
      append_assoc s.events (Event.sleep_ms 10 ∷ Event.respond (response u.request) u.written ∷ [])
        (answers us) in
    elim (Bool-cases u.written) [
      | inl done ↦ ground (arith, room, done, ih, regroup)
      | inr failed ↦ ground (arith, room, failed)
    ]

-- ControlStream waits 10 ms for each request and answers it with its own session id, in order, up
-- to the first failed write; no request is skipped.
pub control_stream_lem : (us : List Turn) → (control_stream initial us).events ≡ answers us
control_stream_lem us = control_stream-from initial us refl
