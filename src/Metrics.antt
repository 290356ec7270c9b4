-- ===== src/Metrics.antt =====
-- src/utils/metrics.h and metrics.cpp: the counters, which are std::atomic<int64_t>, their text in the
-- format of Prometheus, and the timer ScopedRpcLatency. A counter is its residue modulo 2^64, and each
-- atomic operation is one step. A latency is the int64 that the source's cast of the double gives.
-- The averages are divisions of doubles; the text of such a quotient is a parameter. The text is made from
-- the values that its loads return: it reads each counter at most once.
pub mod Counters
pub mod Scrape
pub mod Timer
use d_ro_cm.Base.{
  ℕ, ◌+◌, ◌-◌, ◌%◌, ◌^◌, Bool, true, false, ◌&&◌, not, List, [], ◌∷◌, ◌++◌, if◌then◌else◌, ltb, eqb,
}
use d_ro_cm.Base.Bytes.{Bytes, codes, written}
use d_ro_cm.Base.Bytes.Decimal.{to_string}

abbrev pub u64_mod : ℕ
u64_mod = 2 ^ 64

-- fetch_add on an int64_t
unfoldable pub add64 : ℕ → ℕ → ℕ
add64 a b = (a + b) % u64_mod

-- fetch_sub
unfoldable pub sub64 : ℕ → ℕ → ℕ
sub64 a b = (a + (u64_mod - b)) % u64_mod

pub record Metrics : Type 0 where
  pub nodes_online : ℕ
  pub heartbeat_miss_total : ℕ
  pub messages_sent_total : ℕ
  pub rpc_latency_sum_us : ℕ
  pub rpc_latency_count : ℕ
  pub stream_latency_sum_ms : ℕ
  pub stream_latency_count : ℕ

abbrev pub new_metrics : Metrics
new_metrics = record {
  nodes_online = 0;
  heartbeat_miss_total = 0;
  messages_sent_total = 0;
  rpc_latency_sum_us = 0;
  rpc_latency_count = 0;
  stream_latency_sum_ms = 0;
  stream_latency_count = 0;
}

unfoldable pub increment_nodes_online : Metrics → Metrics
unfolding add64
increment_nodes_online m = record m { nodes_online = add64 m.nodes_online 1 }

unfoldable pub decrement_nodes_online : Metrics → Metrics
unfolding sub64
decrement_nodes_online m = record m { nodes_online = sub64 m.nodes_online 1 }

-- Two atomic operations, each a step of its own.
unfoldable pub add_rpc_latency : ℕ → Metrics → Metrics
unfolding add64
add_rpc_latency us m = record m { rpc_latency_sum_us = add64 m.rpc_latency_sum_us us }

unfoldable pub count_rpc_latency : Metrics → Metrics
unfolding add64
count_rpc_latency m = record m { rpc_latency_count = add64 m.rpc_latency_count 1 }

unfoldable pub record_rpc_latency_us : ℕ → Metrics → Metrics
unfolding add_rpc_latency count_rpc_latency
record_rpc_latency_us us m = count_rpc_latency (add_rpc_latency us m)

unfoldable pub increment_heartbeat_miss : Metrics → Metrics
unfolding add64
increment_heartbeat_miss m = record m { heartbeat_miss_total = add64 m.heartbeat_miss_total 1 }

unfoldable pub increment_messages_sent : Metrics → Metrics
unfolding add64
increment_messages_sent m = record m { messages_sent_total = add64 m.messages_sent_total 1 }

-- `us` is `static_cast<int64_t>(ms * 1000)`.
unfoldable pub add_stream_latency : ℕ → Metrics → Metrics
unfolding add64
add_stream_latency us m = record m { stream_latency_sum_ms = add64 m.stream_latency_sum_ms us }

unfoldable pub count_stream_latency : Metrics → Metrics
unfolding add64
count_stream_latency m = record m { stream_latency_count = add64 m.stream_latency_count 1 }

unfoldable pub record_stream_latency_ms : ℕ → Metrics → Metrics
unfolding add_stream_latency count_stream_latency
record_stream_latency_ms us m = count_stream_latency (add_stream_latency us m)

-- An int64 is negative.
abbrev pub is_negative : ℕ → Bool
is_negative v = not (ltb v (2 ^ 63))

-- `oss << v` for an int64_t.
unfoldable pub show_int64 : ℕ → Bytes
show_int64 v = if is_negative v then b'-' ∷ to_string (u64_mod - v) else to_string v

-- `v > 0` for an int64_t.
abbrev pub is_positive : ℕ → Bool
is_positive v = not (is_negative v) && not (eqb v 0)

-- `avg_us` and `avg_ms` are the texts of the two quotients, of the sum by the count, with two and
-- with four places.
module _ (avg_us avg_ms : ℕ → ℕ → Bytes) where
  unfoldable pub rpc_lines : Metrics → Bytes
  rpc_lines m =
      if is_positive m.rpc_latency_count
      then written (
          codes "# HELP drocm_rpc_latency_avg_us Average RPC latency in us\n"
          ∷ codes "# TYPE drocm_rpc_latency_avg_us gauge\n"
          ∷ codes "drocm_rpc_latency_avg_us "
          ∷ avg_us m.rpc_latency_sum_us m.rpc_latency_count
          ∷ codes "\n"
          ∷ [])
      else []

  unfoldable pub stream_lines : Metrics → Bytes
  stream_lines m =
      if is_positive m.stream_latency_count
      then written (
          codes "# HELP drocm_stream_latency_avg_ms Average stream latency in ms\n"
          ∷ codes "# TYPE drocm_stream_latency_avg_ms gauge\n"
          ∷ codes "drocm_stream_latency_avg_ms "
          ∷ avg_ms m.stream_latency_sum_ms m.stream_latency_count
          ∷ codes "\n"
          ∷ [])
      else []

  unfoldable pub get_prometheus_text : Metrics → Bytes
  unfolding rpc_lines stream_lines show_int64
  get_prometheus_text m = written (
      codes "# HELP drocm_nodes_online Current number of online nodes\n"
      ∷ codes "# TYPE drocm_nodes_online gauge\n"
      ∷ codes "drocm_nodes_online "
      ∷ show_int64 m.nodes_online
      ∷ codes "\n"
      ∷ codes "# HELP drocm_heartbeat_miss_total Total missed heartbeats\n"
      ∷ codes "# TYPE drocm_heartbeat_miss_total counter\n"
      ∷ codes "drocm_heartbeat_miss_total "
      ∷ show_int64 m.heartbeat_miss_total
      ∷ codes "\n"
      ∷ codes "# HELP drocm_messages_sent_total Total messages sent via streaming\n"
      ∷ codes "# TYPE drocm_messages_sent_total counter\n"
      ∷ codes "drocm_messages_sent_total "
      ∷ show_int64 m.messages_sent_total
      ∷ codes "\n"
      ∷ rpc_lines m
      ∷ stream_lines m
      ∷ [])

-- ScopedRpcLatency: whether it has stopped. `elapsed` is the time from its construction to now.
pub record ScopedRpcLatency : Type 0 where
  pub stopped : Bool

abbrev pub new_timer : ScopedRpcLatency
new_timer = record { stopped = false }

unfoldable pub stop : ScopedRpcLatency → ℕ → Metrics → ScopedRpcLatency × Metrics
unfolding record_rpc_latency_us
stop t elapsed m =
    if t.stopped then (t, m) else (record { stopped = true }, record_rpc_latency_us elapsed m)

-- The destructor.
abbrev pub destroy : ScopedRpcLatency → ℕ → Metrics → Metrics
destroy t elapsed m = (stop t elapsed m).1
