-- ===== src/Proto/Robot.antt =====
-- The messages of proto/common.proto that describe a robot. A `double` is carried by its 64-bit
-- pattern; a field that is a message is `none` where it is not set.
use d_ro_cm.Base.{ℕ, String, Bool, false, Option, none}
use d_ro_cm.Proto.{Float32, zero_float}

abbrev pub Float64 : Type 0
Float64 = ℕ

pub record Vector3 : Type 0 where
  pub x : Float64
  pub y : Float64
  pub z : Float64

pub record Pose2D : Type 0 where
  pub x : Float64
  pub y : Float64
  pub theta : Float64

pub record Pose3D : Type 0 where
  pub position : Option Vector3
  pub orientation_w : Float64
  pub orientation_x : Float64
  pub orientation_y : Float64
  pub orientation_z : Float64

pub record RobotStatus : Type 0 where
  pub timestamp : ℕ
  pub pose : Option Pose2D
  pub battery_level : Float32
  pub velocity_linear : Float32
  pub velocity_angular : Float32
  pub is_emergency : Bool
  pub error_code : ℕ

pub record VelocityCommand : Type 0 where
  pub linear_velocity : Float32
  pub angular_velocity : Float32

pub record PoseCommand : Type 0 where
  pub target_pose : Option Pose2D
  pub max_velocity : Float32
  pub tolerance : Float32

pub record StopCommand : Type 0 where
  pub emergency : Bool

-- The oneof `command_type`.
pub data CommandType : Type 0 where
  velocity : VelocityCommand → CommandType
  pose_target : PoseCommand → CommandType
  stop : StopCommand → CommandType
  command_type_not_set : CommandType

pub record RobotCommand : Type 0 where
  pub timestamp : ℕ
  pub command_id : String
  pub command_type : CommandType

pub record CommandResult : Type 0 where
  pub command_id : String
  pub success : Bool
  pub error_message : String
  pub execution_time : ℕ

abbrev pub empty_robot_status : RobotStatus
empty_robot_status = record {
  timestamp = 0;
  pose = none;
  battery_level = zero_float;
  velocity_linear = zero_float;
  velocity_angular = zero_float;
  is_emergency = false;
  error_code = 0;
}
