-- ===== src/Grpc.antt =====
-- What the program writes and reads of gRPC: a status is the code and the message that the source
-- builds it from. What the transport does with a response is a parameter, in the modules that call.
use d_ro_cm.Base.{String, Bool, true, false}

-- The members of grpc::StatusCode that the program names, and the others as one.
pub data StatusCode : Type 0 where
  ok cancelled invalid_argument deadline_exceeded not_found already_exists unavailable : StatusCode
  other_code : StatusCode

pub record Status : Type 0 where
  pub code : StatusCode
  pub error_message : String

abbrev pub status_ok : Status
status_ok = record { code = StatusCode.ok; error_message = "" }

-- grpc::Status::ok()
abbrev pub is_ok_code : StatusCode → Bool
is_ok_code StatusCode.ok = true
is_ok_code _ = false

abbrev pub is_ok : Status → Bool
is_ok s = is_ok_code s.code
