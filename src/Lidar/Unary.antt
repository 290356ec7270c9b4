-- ===== src/Lidar/Unary.antt =====
-- LidarNodeService::GetStatus and Publish of the emulator; `now` is the clock.
use d_ro_cm.Base.{ℕ}
use d_ro_cm.Grpc.{Status, status_ok}
use d_ro_cm.Proto.NodeService.{GetStatusRequest, GetStatusResponse, TopicData}

abbrev pub get_status : ℕ → GetStatusRequest → GetStatusResponse → GetStatusResponse × Status
get_status now _ resp = (record resp { response_time = now }, status_ok)

abbrev pub publish : TopicData → GetStatusResponse → GetStatusResponse × Status
publish _ resp = (resp, status_ok)
