-- ===== src/Node/Sent.antt =====
-- Counting the heartbeats among the events of a heartbeat thread.
use d_ro_cm.Base.{ℕ, suc, ◌+◌, ◌≡◌, List, [], ◌∷◌, ◌++◌, arith}
use d_ro_cm.Node.Loop.{Event}

-- The heartbeats that the loop has sent.
abbrev pub heartbeats : List Event → ℕ
heartbeats [] = 0
heartbeats (Event.send_heartbeat request ∷ es) = suc (heartbeats es)
heartbeats (e ∷ es) = heartbeats es

pub heartbeats-append : (es fs : List Event) → heartbeats (es ++ fs) ≡ heartbeats es + heartbeats fs
heartbeats-append [] fs = omega arith
heartbeats-append (Event.send_heartbeat request ∷ es) fs = omega (arith, heartbeats-append es fs)
heartbeats-append (Event.sleep_ms ms ∷ es) fs = omega (arith, heartbeats-append es fs)
heartbeats-append (Event.send_register request ∷ es) fs = omega (arith, heartbeats-append es fs)
heartbeats-append (Event.on_reconnect_attempt a d ∷ es) fs = omega (arith, heartbeats-append es fs)
heartbeats-append (Event.on_reconnected ∷ es) fs = omega (arith, heartbeats-append es fs)
