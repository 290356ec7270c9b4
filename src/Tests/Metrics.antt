-- ===== src/Tests/Metrics.antt =====
-- The metrics' theorems at concrete counters, updates and bodies, and runs of the emulator's thread.
use d_ro_cm.Base.{◌+◌, ◌%◌, ℕ, ◌≡◌, refl, true, false, List, [], ◌∷◌, some, arith}
use d_ro_cm.Base.Bytes.{Bytes, codes}
use d_ro_cm.Metrics.{u64_mod, Metrics, new_metrics, get_prometheus_text}
use d_ro_cm.Metrics.Counters.{Update, Counter, run, read, adds, total, counters_end}
use d_ro_cm.Metrics.Scrape.{sample, sample-get_prometheus_text}
use d_ro_cm.Lidar.MetricsServer.{Setup, Turn, Exit, response, metrics_thread}
use d_ro_cm.Lidar.MetricsServer.Response.{read_body, read_body-response}
use d_ro_cm.Lidar.MetricsServer.Descriptors.{all_closed, at_exit, track, track-metrics_thread}

abbrev pub average : ℕ → ℕ → Bytes
average sum count = codes "12.50"

abbrev pub counted : Metrics
counted = record new_metrics {
  nodes_online = 18446744073709551615;
  heartbeat_miss_total = 40;
  messages_sent_total = 7;
  rpc_latency_sum_us = 25;
  rpc_latency_count = 2;
}

sample-get_prometheus_text_example :
    (sample (codes "drocm_nodes_online ") true (get_prometheus_text average average counted)
      ≡ some (18446744073709551615))
    × (sample
          (codes "drocm_heartbeat_miss_total ")
          true
          (get_prometheus_text average average counted)
        ≡ some 40)
    × (sample
          (codes "drocm_messages_sent_total ")
          true
          (get_prometheus_text average average counted)
        ≡ some 7)
sample-get_prometheus_text_example =
    sample-get_prometheus_text average average counted (omega arith) (omega arith) (omega arith)

read_body-response_example :
    read_body (response (codes "drocm_nodes_online 2\n")) ≡ some (codes "drocm_nodes_online 2\n")
read_body-response_example = read_body-response (codes "drocm_nodes_online 2\n")

-- Two threads record a latency each, and a node comes and goes.
abbrev updates : List Update
updates =
    Update.rpc_added 5
    ∷ Update.online
    ∷ Update.rpc_added 7
    ∷ Update.rpc_counted
    ∷ Update.offline
    ∷ Update.rpc_counted
    ∷ Update.sent
    ∷ []

counters_end_example :
    read Counter.rpc_sum (run updates counted)
    ≡ (read Counter.rpc_sum counted + total (adds Counter.rpc_sum) updates) % u64_mod
counters_end_example = counters_end Counter.rpc_sum updates counted (omega arith)

abbrev pub ready : Setup
ready = record { has_socket = true; is_bound = true; is_listening = true }

abbrev pub scrapes : List Turn
scrapes =
    record { running = true; accepted = true; metrics = counted }
    ∷ record { running = true; accepted = false; metrics = counted }
    ∷ record { running = false; accepted = false; metrics = counted }
    ∷ []

returns_when_stopped : (metrics_thread average average ready scrapes).1 ≡ Exit.returned
unfolding metrics_thread
returns_when_stopped = refl

track-metrics_thread_example :
    track all_closed (metrics_thread average average ready scrapes).0
    ≡ some (at_exit (metrics_thread average average ready scrapes).1)
track-metrics_thread_example = track-metrics_thread average average ready scrapes
