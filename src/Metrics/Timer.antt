-- ===== src/Metrics/Timer.antt =====
-- ScopedRpcLatency from its construction to its destruction.
use d_ro_cm.Base.{ℕ, ◌≡◌, refl, true, List, [], ◌∷◌, ◌++◌}
use d_ro_cm.Metrics.{Metrics, ScopedRpcLatency, new_timer, record_rpc_latency_us, stop}

-- Calls of stop, each with the time that has passed by then.
abbrev pub stop_all : ScopedRpcLatency → List ℕ → Metrics → Metrics
stop_all t [] m = m
stop_all t (e ∷ es) m = let (t', m') = stop t e m in stop_all t' es m'

-- The life of a timer: stopped by its owner at some times, and at last by its destructor.
abbrev pub lifetime : List ℕ → ℕ → Metrics → Metrics
lifetime calls destroyed m = stop_all new_timer (calls ++ destroyed ∷ []) m

-- The time that counts.
abbrev pub first_stop : List ℕ → ℕ → ℕ
first_stop [] destroyed = destroyed
first_stop (e ∷ es) destroyed = e

stop_all-stopped : (es : List ℕ) (m : Metrics) → stop_all (record { stopped = true }) es m ≡ m
unfolding stop
stop_all-stopped [] m = refl
stop_all-stopped (e ∷ es) m = stop_all-stopped es m

-- Stopped by its owner at some times, and then destroyed, a timer records once: the time of its first
-- stop, which is its destruction if there was no other.
pub lifetime_lem :
    (calls : List ℕ) (destroyed : ℕ) (m : Metrics)
    → lifetime calls destroyed m ≡ record_rpc_latency_us (first_stop calls destroyed) m
unfolding stop
lifetime_lem [] destroyed m = refl
lifetime_lem (e ∷ es) destroyed m =
    stop_all-stopped (es ++ destroyed ∷ []) (record_rpc_latency_us e m)
