-- ===== src/Main/LidarEmulator.antt =====
-- main of examples/lidar_emulator.cpp. What its threads meet is an argument: the metrics thread's
-- system calls and scrapes, and the turns of the heartbeat thread, each until the thread reads that it
-- shall stop.
pub mod Order
use d_ro_cm.Base.{ℕ, String, Bool, true, false, List, [], ◌∷◌, if◌then◌else◌}
use d_ro_cm.Base.Bytes.{Bytes}
use d_ro_cm.Grpc.{Status}
use d_ro_cm.Proto.{RegisterResponse}
use d_ro_cm.Logger.{Spdlog, Logger, Level, Files, init, shutdown, log, default_options}
use d_ro_cm.Lidar.MetricsServer
use d_ro_cm.Lidar.MetricsServer.{Setup, metrics_thread}
use d_ro_cm.Lidar.Heartbeat
use d_ro_cm.Lidar.Heartbeat.{try_register_node, run_heartbeat}
use d_ro_cm.Main.{
  Step, execute, logged, info, initialized, exit_with, next, Server, built, server_shutdown,
  server_wait,
}

pub record Inputs : Type 0 where
  pub files : Files
  pub is_bound : Bool
  pub setup : Setup
  pub scrapes : List MetricsServer.Turn
  pub register_answer : Status × RegisterResponse
  pub beats : List Heartbeat.Turn

-- A std::thread is whether it is joinable.
pub record Process (R : Type 0) : Type 0 where
  pub logger : Logger R
  pub g_running : Bool
  pub node_server : Server
  pub metrics_thread : Bool
  pub session_id : String
  pub heartbeat_running : Bool
  pub heartbeat_thread : Bool

abbrev pub first_session : String
first_session = "pending"

abbrev pub started : {R : Type 0} → Logger R → Process R
started l = record {
  logger = l;
  g_running = true;
  node_server = Server.not_built;
  metrics_thread = false;
  session_id = first_session;
  heartbeat_running = true;
  heartbeat_thread = false;
}

abbrev pub node_port : ℕ
node_port = 50052

-- The session id at the end of the heartbeat thread, which writes to it by reference.
abbrev pub last_session : String → List Heartbeat.Turn → String
last_session session_id beats =
    (run_heartbeat "lidar_01" node_port (Heartbeat.initial "lidar_01" node_port session_id)
      beats).session_id

-- A thread of the metrics server can be joined when it has returned.
abbrev joins : {S : Type 0} → MetricsServer.Exit → S → Step S
joins MetricsServer.Exit.returned s = Step.goes s
joins MetricsServer.Exit.serving s = Step.blocks

module _ {R : Type 0} where
  abbrev pub says : String → Process R → Step (Process R)
  says message p = info message p.logger (λ l. Step.goes (record p { logger = l }))

  abbrev complains : Level → String → Process R → Step (Process R)
  complains level message p =
      logged (log level message p.logger) (λ l. Step.goes (record p { logger = l }))

  -- try_register_node logs its result, and main logs it again.
  abbrev registered : Process R → String × Bool → Step (Process R)
  registered p (session_id, true) =
      next (says "[LIDAR] Re-registration success." (record p { session_id = session_id }))
        (says "[LIDAR] Initial registration success.")
  registered p (session_id, false) =
      next
        (complains Level.warn "[LIDAR] Re-registration failed"
          (record p { session_id = session_id }))
        (complains Level.error "[LIDAR] Initial registration failed.")

  abbrev pub join_heartbeat : Inputs → Process R → Step (Process R)
  join_heartbeat i p =
      if p.heartbeat_thread
      then Step.goes
          (record p { heartbeat_thread = false; session_id = last_session p.session_id i.beats })
      else Step.goes p

  -- The destructors of the threads: of one that is joinable, std::terminate.
  abbrev pub destroy_threads : Process R → Step (Process R)
  destroy_threads p =
      if p.heartbeat_thread
      then Step.terminates
      else if p.metrics_thread
      then Step.terminates
      else Step.goes p

  abbrev pub join_metrics : MetricsServer.Exit → Process R → Step (Process R)
  join_metrics exit p =
      if p.metrics_thread then joins exit (record p { metrics_thread = false }) else Step.goes p

  -- Given what try_register_node makes of the first session id, and where the metrics thread is when
  -- main joins it.
  module _ (reply : String × Bool) (exit : MetricsServer.Exit) (spdlog : Spdlog R)
      (i : Inputs) where
    abbrev pub statements : List (Process R → Step (Process R))
    statements =
        (λ p.
          initialized (init spdlog default_options i.files p.logger)
            (λ l. Step.goes (record p { logger = l })))
        ∷ says "=========================================="
        ∷ says "  D-RoCM LIDAR Node (Resilient Mode)"
        ∷ says "=========================================="
        ∷ (λ p. Step.goes (record p { node_server = built i.is_bound }))
        ∷ says "[LIDAR] Node server listening on 0.0.0.0:50052"
        ∷ (λ p. Step.goes (record p { metrics_thread = true }))
        ∷ (λ p. registered p reply)
        ∷ (λ p. Step.goes (record p { heartbeat_thread = true }))
        ∷ says "[LIDAR] Node is RUNNING. Press Ctrl+C to stop."
        ∷ (λ p. Step.goes (record p { g_running = false }))
        ∷ says "[LIDAR] Shutdown initiated..."
        ∷ (λ p. server_shutdown p.node_server (λ s. record p { node_server = s }))
        ∷ says "[LIDAR] Server stopped accepting new requests."
        ∷ (λ p. Step.goes (record p { heartbeat_running = false }))
        ∷ join_heartbeat i
        ∷ join_metrics exit
        ∷ (λ p. server_wait p.node_server p)
        ∷ says "[LIDAR] Node exited gracefully."
        ∷ (λ p. Step.goes (record p { logger = shutdown spdlog p.logger }))
        ∷ (λ p. exit_with 0 (destroy_threads p))
        ∷ []

  abbrev pub main :
      (ℕ → ℕ → Bytes)
      → (ℕ → ℕ → Bytes)
      → Spdlog R
      → Inputs
      → Process R
      → List (Process R) × Step (Process R)
  main avg_us avg_ms spdlog i p =
      execute
        (statements (try_register_node first_session i.register_answer)
          (metrics_thread avg_us avg_ms i.setup i.scrapes).1 spdlog i)
        p
