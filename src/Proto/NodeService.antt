-- ===== src/Proto/NodeService.antt =====
-- The messages of proto/node.proto, between nodes.
use d_ro_cm.Base.{ℕ, String, Option, none}
use d_ro_cm.Proto.Robot.{RobotStatus, RobotCommand, CommandResult}

pub record GetStatusRequest : Type 0 where
  pub requester_id : String
  pub timestamp : ℕ

pub record GetStatusResponse : Type 0 where
  pub status : Option RobotStatus
  pub response_time : ℕ

pub record SubscribeRequest : Type 0 where
  pub subscriber_id : String
  pub topic : String
  pub qos : ℕ

pub record TopicData : Type 0 where
  pub topic : String
  pub timestamp : ℕ
  pub payload : String
  pub payload_type : String

pub record ControlStreamRequest : Type 0 where
  pub controller_id : String
  pub session_id : String
  pub command : Option RobotCommand

pub record ControlStreamResponse : Type 0 where
  pub session_id : String
  pub result : Option CommandResult

abbrev pub empty_control_stream_response : ControlStreamResponse
empty_control_stream_response = record { session_id = ""; result = none }
