-- ===== src/Tests/Emulator.antt =====
-- main of the emulator at a concrete run: the metrics thread returns, so main does.
use d_ro_cm.Base.{◌≡◌, refl, true, []}
use d_ro_cm.Lidar.MetricsServer.{metrics_thread}
use d_ro_cm.Lidar.Heartbeat.{try_register_node}
use d_ro_cm.Main.{all}
use d_ro_cm.Main.LidarEmulator.{Inputs, started, main, first_session}
use d_ro_cm.Main.LidarEmulator.Order.{Concludes, is_safe, main_ends}
use d_ro_cm.Tests.Node.{accepted}
use d_ro_cm.Tests.Metrics.{average, ready, scrapes}
use d_ro_cm.Tests.Main.{spdlog, unset, writable}

abbrev inputs : Inputs
inputs = record {
  files = writable;
  is_bound = true;
  setup = ready;
  scrapes = scrapes;
  register_answer = accepted;
  beats = [];
}

main_ends_example :
    let (passed, end) = main average average spdlog inputs (started unset) in
    Concludes
      (metrics_thread average average ready scrapes).1
      (try_register_node first_session accepted).0
      []
      end
    × (all is_safe passed ≡ true)
main_ends_example = main_ends spdlog inputs unset (refl, refl) (refl, refl) refl average average
