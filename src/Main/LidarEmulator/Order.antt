-- ===== src/Main/LidarEmulator/Order.antt =====
-- The order in which main of the emulator starts and stops its threads and its server.
use d_ro_cm.Base.{ℕ, String, ◌≡◌, refl, Bool, true, false, ◌&&◌, ◌||◌, not, List}
use d_ro_cm.Base.Bytes.{Bytes}
use d_ro_cm.Logger.{Spdlog, Logger, log, shutdown}
use d_ro_cm.Logger.Lifecycle.{IsFree, IsWritable, init_free}
use d_ro_cm.Lidar.MetricsServer
use d_ro_cm.Lidar.MetricsServer.{metrics_thread}
use d_ro_cm.Lidar.Heartbeat
use d_ro_cm.Lidar.Heartbeat.{try_register_node}
use d_ro_cm.Main.{Step, execute, all, implies, ReturnsWith, is_serving, is_shut_down}
use d_ro_cm.Main.LidarEmulator.{
  Inputs, Process, first_session, started, statements, main, last_session,
}

abbrev has_thread : {R : Type 0} → Process R → Bool
has_thread p = p.metrics_thread || p.heartbeat_thread

-- While a thread or a handler may log there is the logger, and the server is shut down and a thread
-- joined only once the threads have been told to stop.
abbrev pub is_safe : {R : Type 0} → Process R → Bool
is_safe p =
    implies (has_thread p || is_serving p.node_server) p.logger.instance_set
    && implies (is_shut_down p.node_server) (not p.g_running)
    && implies (is_shut_down p.node_server && not p.heartbeat_thread) (not p.heartbeat_running)

abbrev pub IsStopped : {R : Type 0} → String → List Heartbeat.Turn → Process R → Type 0
IsStopped session_id beats p =
    (p.logger.instance_set ≡ false)
    × (has_thread p ≡ false)
    × (is_shut_down p.node_server ≡ true)
    × (p.session_id ≡ last_session session_id beats)

-- main returns if the metrics thread has returned, and waits for it otherwise.
abbrev pub Concludes :
    {R : Type 0} → MetricsServer.Exit → String → List Heartbeat.Turn → Step (Process R) → Type 0
Concludes MetricsServer.Exit.returned session_id beats end =
    ReturnsWith 0 (IsStopped session_id beats) end
Concludes MetricsServer.Exit.serving session_id beats end = end ≡ Step.blocks

module _ {R : Type 0} (spdlog : Spdlog R) (i : Inputs) (l : Logger R) (free : IsFree spdlog l)
    (writable : IsWritable i.files) (bound : i.is_bound ≡ true) where
  statements_end :
      (exit : MetricsServer.Exit) (reply : String × Bool)
      → let (passed, end) = execute (statements reply exit spdlog i) (started l) in
        Concludes exit reply.0 i.beats end × (all is_safe passed ≡ true)
  unfolding log shutdown
  statements_end MetricsServer.Exit.returned (session_id, true) =
      let (r, es, begun) = init_free spdlog i.files l free writable in
      rw (begun, bound) ((refl, (refl, refl, refl, refl)), refl)
  statements_end MetricsServer.Exit.returned (session_id, false) =
      let (r, es, begun) = init_free spdlog i.files l free writable in
      rw (begun, bound) ((refl, (refl, refl, refl, refl)), refl)
  statements_end MetricsServer.Exit.serving (session_id, true) =
      let (r, es, begun) = init_free spdlog i.files l free writable in
      rw (begun, bound) (refl, refl)
  statements_end MetricsServer.Exit.serving (session_id, false) =
      let (r, es, begun) = init_free spdlog i.files l free writable in
      rw (begun, bound) (refl, refl)

  -- If the logger's name is free, its file can be written and the address can be bound, the
  -- emulator's main returns 0 with all stopped and the heartbeat thread's session exactly if its
  -- metrics thread has returned, and otherwise waits for that thread for ever; on the way the
  -- logger is there while a thread runs or the server serves, the server is shut down only after
  -- the signal, and the heartbeat thread joined only after it was told to stop.
  pub main_ends :
      (avg_us avg_ms : ℕ → ℕ → Bytes)
      → let (passed, end) = main avg_us avg_ms spdlog i (started l) in
        Concludes
          (metrics_thread avg_us avg_ms i.setup i.scrapes).1
          (try_register_node first_session i.register_answer).0
          i.beats
          end
        × (all is_safe passed ≡ true)
  main_ends avg_us avg_ms =
      statements_end (metrics_thread avg_us avg_ms i.setup i.scrapes).1
        (try_register_node first_session i.register_answer)

-- If the address cannot be bound, and the logger starts, the emulator's main dereferences the null
-- server when it is told to stop.
pub emulator_unbound :
    {R : Type 0} (avg_us avg_ms : ℕ → ℕ → Bytes) (spdlog : Spdlog R) (i : Inputs) (l : Logger R)
    → IsFree spdlog l
    → IsWritable i.files
    → i.is_bound ≡ false
    → (main avg_us avg_ms spdlog i (started l)).1 ≡ Step.null_dereference
unfolding log shutdown
emulator_unbound avg_us avg_ms spdlog i l free writable unbound =
    faults (metrics_thread avg_us avg_ms i.setup i.scrapes).1
      (try_register_node first_session i.register_answer)
  where
    faults :
        (exit : MetricsServer.Exit) (reply : String × Bool)
        → (execute (statements reply exit spdlog i) (started l)).1 ≡ Step.null_dereference
    faults exit (session_id, true) =
        let (r, es, begun) = init_free spdlog i.files l free writable in rw (begun, unbound) refl
    faults exit (session_id, false) =
        let (r, es, begun) = init_free spdlog i.files l free writable in rw (begun, unbound) refl
