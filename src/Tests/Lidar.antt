-- ===== src/Tests/Lidar.antt =====
-- The emulator's theorems at concrete streams and answers.
use d_ro_cm.Base.{ℕ, String, ◌≡◌, refl, true, false, List, [], ◌∷◌, All, arith, some}
use d_ro_cm.Grpc.{Status, StatusCode}
use d_ro_cm.Proto.{empty_heartbeat_response, empty_register_response}
use d_ro_cm.Lidar.Subscribe
use d_ro_cm.Lidar.Subscribe.Counts.{IsShortWait, writes_ok, subscribe_counts}
use d_ro_cm.Lidar.Control
use d_ro_cm.Proto.NodeService.{ControlStreamRequest}
use d_ro_cm.Proto.Robot.{CommandType}
use d_ro_cm.Lidar.Heartbeat
use d_ro_cm.Lidar.Heartbeat.Recovery.{Inv, run_heartbeat-Inv}

abbrev payload : ℕ → String
payload i = "{}"

abbrev sent : Subscribe.Turn
sent = record { running = true; timestamp = 0; written = true }

abbrev full : Subscribe.Turn
full = record sent { written = false }

abbrev slow : List Subscribe.Turn
slow = sent ∷ full ∷ sent ∷ full ∷ full ∷ full ∷ sent ∷ []

drops_slow : (Subscribe.subscribe payload "scan" slow).1 ≡ Subscribe.Exit.dropped
unfolding Subscribe.subscribe
drops_slow = refl

subscribe_counts_example :
    ((Subscribe.subscribe payload "scan" slow).0.messages_sent
      ≡ writes_ok (Subscribe.subscribe payload "scan" slow).0.events)
    × All IsShortWait (Subscribe.subscribe payload "scan" slow).0.events
subscribe_counts_example = subscribe_counts payload "scan" slow

abbrev command : String → ControlStreamRequest
command session_id = record {
  controller_id = "joystick";
  session_id = session_id;
  command = some (record {
    timestamp = 0;
    command_id = "halt";
    command_type = CommandType.stop (record { emergency = true });
  });
}

abbrev commands : List Control.Turn
commands =
    record { request = command "a"; written = true }
    ∷ record { request = command "b"; written = false }
    ∷ record { request = command "c"; written = true }
    ∷ []

control_stream_lem_example :
    (Control.control_stream Control.initial commands).events ≡ Control.answers commands
control_stream_lem_example = Control.control_stream_lem commands

abbrev down : Status
down = record { code = StatusCode.unavailable; error_message = "" }

abbrev lost : Heartbeat.Turn
lost = record {
  running = true;
  timestamp = 0;
  register_answer = (down, empty_register_response);
  heartbeat_answer = (down, empty_heartbeat_response);
}

abbrev outage : List Heartbeat.Turn
outage = lost ∷ lost ∷ lost ∷ lost ∷ lost ∷ lost ∷ []

abbrev start : Heartbeat.State
start = Heartbeat.initial "lidar_01" 50052 "pending"

start-Inv : Inv start
start-Inv = record { few = omega arith; asks = λ e. absurd (omega arith); waits = tt }

run_heartbeat-Inv_example : Inv (Heartbeat.run_heartbeat "lidar_01" 50052 start outage)
run_heartbeat-Inv_example = run_heartbeat-Inv "lidar_01" 50052 start outage start-Inv
