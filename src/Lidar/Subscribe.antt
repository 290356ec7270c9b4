-- ===== src/Lidar/Subscribe.antt =====
-- LidarNodeService::Subscribe: the stream with its backpressure. A turn of the loop takes the flag
-- g_running as it reads it, the clock and what `writer->Write` returns. The payload's text is made
-- by `std::to_string` on doubles and is a parameter. The frame counter is an `int`, here a number: it
-- only numbers the frames, and 2^31 of them are out of view.
pub mod Counts
pub mod Drops
use d_ro_cm.Proto.NodeService.{TopicData}
use d_ro_cm.Base.{
  ℕ, zero, suc, ◌+◌, ◌-◌, ◌*◌, ◌^◌, String, Bool, true, false, List, [], ◌∷◌, ◌++◌, if◌then◌else◌,
  leb,
}

pub record Turn : Type 0 where
  pub running : Bool
  pub timestamp : ℕ
  pub written : Bool

pub data Event : Type 0 where
  write : TopicData → Bool → Event
  sleep_ms : ℕ → Event

pub record State : Type 0 where
  pub i : ℕ
  pub consecutive_failures : ℕ
  pub messages_sent : ℕ
  pub events : List Event

abbrev pub max_backpressure_retries : ℕ
max_backpressure_retries = 3

-- The loop goes on, or ended by the flag, or dropped the connection.
pub data Exit : Type 0 where
  next stopped dropped : Exit

-- `10 << (consecutive_failures - 1)`
abbrev pub backoff : ℕ → ℕ
backoff consecutive_failures = 10 * 2 ^ (consecutive_failures - 1)

-- After a failed write.
unfoldable pub write_failed : State → State × Exit
write_failed s =
    let failures = s.consecutive_failures + 1 in
    if leb max_backpressure_retries failures
    then (record s { consecutive_failures = failures }, Exit.dropped)
    else (
      record {
        i = s.i + 1;
        consecutive_failures = failures;
        messages_sent = s.messages_sent;
        events = s.events ++ Event.sleep_ms (backoff failures) ∷ [];
      },
      Exit.next,
    )

-- After a write that succeeded; the metric is `Metrics::increment_messages_sent`.
abbrev pub write_done : State → State
write_done s = record s {
  i = s.i + 1;
  consecutive_failures = 0;
  messages_sent = s.messages_sent + 1;
}

-- One write of the stream, with its result.
unfoldable pub attempt : State → TopicData → Bool → State × Exit
unfolding write_failed
attempt s d written =
    let tried = record s { events = s.events ++ Event.write d written ∷ [] } in
    if written then (write_done tried, Exit.next) else write_failed tried

abbrev pub go_on : State × Exit → (State → State × Exit) → State × Exit
go_on (s, Exit.next) k = k s
go_on r k = r

abbrev pub initial : State
initial = record { i = 0; consecutive_failures = 0; messages_sent = 0; events = [] }

module _ (payload : ℕ → String) (topic : String) where
  abbrev pub frame : State → Turn → TopicData
  frame s u = record {
    topic = topic;
    timestamp = u.timestamp;
    payload_type = "RobotStatus";
    payload = payload s.i;
  }

  unfoldable pub turn : State → Turn → State × Exit
  unfolding attempt
  turn s u = if u.running then attempt s (frame s u) u.written else (s, Exit.stopped)

  unfoldable pub stream : State → List Turn → State × Exit
  unfolding turn
  stream s [] = (s, Exit.next)
  stream s (u ∷ us) = go_on (turn s u) (λ s'. stream s' us)

  unfoldable pub subscribe : List Turn → State × Exit
  unfolding stream
  subscribe us = stream initial us
