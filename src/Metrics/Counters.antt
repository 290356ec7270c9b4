-- ===== src/Metrics/Counters.antt =====
-- Updates of the counters from several threads: what the counters hold after them.
use d_ro_cm.Base.{ℕ, ◌+◌, ◌-◌, ◌%◌, ◌<◌, ◌≡◌, List, [], ◌∷◌, arith}
use d_ro_cm.Metrics.{
  Metrics, u64_mod, add64, sub64, increment_nodes_online, decrement_nodes_online, add_rpc_latency,
  count_rpc_latency, increment_heartbeat_miss, increment_messages_sent, add_stream_latency,
  count_stream_latency,
}

-- The atomic operations.
pub data Update : Type 0 where
  online offline missed sent rpc_counted stream_counted : Update
  rpc_added stream_added : ℕ → Update

unfoldable pub apply : Update → Metrics → Metrics
unfolding increment_nodes_online decrement_nodes_online add_rpc_latency count_rpc_latency
    increment_heartbeat_miss increment_messages_sent add_stream_latency count_stream_latency
apply Update.online m = increment_nodes_online m
apply Update.offline m = decrement_nodes_online m
apply Update.missed m = increment_heartbeat_miss m
apply Update.sent m = increment_messages_sent m
apply (Update.rpc_added us) m = add_rpc_latency us m
apply Update.rpc_counted m = count_rpc_latency m
apply (Update.stream_added us) m = add_stream_latency us m
apply Update.stream_counted m = count_stream_latency m

unfoldable pub run : List Update → Metrics → Metrics
run [] m = m
run (u ∷ us) m = run us (apply u m)

-- The independent description: the counters, and what each atomic operation adds to each of them. A
-- decrement adds 2^64 - 1.
pub data Counter : Type 0 where
  nodes_online heartbeat_miss messages_sent rpc_sum rpc_count stream_sum stream_count : Counter

abbrev pub read : Counter → Metrics → ℕ
read Counter.nodes_online m = m.nodes_online
read Counter.heartbeat_miss m = m.heartbeat_miss_total
read Counter.messages_sent m = m.messages_sent_total
read Counter.rpc_sum m = m.rpc_latency_sum_us
read Counter.rpc_count m = m.rpc_latency_count
read Counter.stream_sum m = m.stream_latency_sum_ms
read Counter.stream_count m = m.stream_latency_count

abbrev pub adds : Counter → Update → ℕ
adds Counter.nodes_online Update.online = 1
adds Counter.nodes_online Update.offline = u64_mod - 1
adds Counter.heartbeat_miss Update.missed = 1
adds Counter.messages_sent Update.sent = 1
adds Counter.rpc_sum (Update.rpc_added us) = us
adds Counter.rpc_count Update.rpc_counted = 1
adds Counter.stream_sum (Update.stream_added us) = us
adds Counter.stream_count Update.stream_counted = 1
adds _ _ = 0

abbrev pub total : (Update → ℕ) → List Update → ℕ
total by [] = 0
total by (u ∷ us) = by u + total by us

step_lem :
    (c : Counter) (u : Update) (m : Metrics)
    → read c m < u64_mod
    → read c (apply u m) ≡ (read c m + adds c u) % u64_mod
unfolding apply add64 sub64
step_lem Counter.nodes_online Update.online m h = omega arith
step_lem Counter.nodes_online Update.offline m h = omega arith
step_lem Counter.heartbeat_miss Update.missed m h = omega arith
step_lem Counter.messages_sent Update.sent m h = omega arith
step_lem Counter.rpc_sum (Update.rpc_added us) m h = omega arith
step_lem Counter.rpc_count Update.rpc_counted m h = omega arith
step_lem Counter.stream_sum (Update.stream_added us) m h = omega arith
step_lem Counter.stream_count Update.stream_counted m h = omega arith
step_lem _ _ m h = omega arith

-- After any sequence of the atomic updates of Metrics, as the threads interleave them, each of the
-- seven counters, if it was a residue modulo 2^64, holds its start plus what the updates add to
-- that counter, modulo 2^64: 1 for each increment, 2^64 - 1 for a decrement of the gauge, the
-- latency for an addition to a sum.
pub counters_end :
    (c : Counter) (us : List Update) (m : Metrics)
    → read c m < u64_mod
    → read c (run us m) ≡ (read c m + total (adds c) us) % u64_mod
unfolding run
counters_end c [] m h = omega arith
counters_end c (u ∷ us) m h =
    let e = step_lem c u m h in
    let bound : read c (apply u m) < u64_mod = omega (arith, e) in
    omega (arith, counters_end c us (apply u m) bound, e)
