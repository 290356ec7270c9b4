-- ===== src/Registry/HealthChecker.antt =====
-- src/registry/health_checker.h and health_checker.cpp. The loop of the checker thread is
-- interleaved with the calls that other threads make on the table: a round names the calls that get
-- the lock while the thread sleeps, and between its own two.
pub mod Lifecycle
pub mod Entry
pub mod Timeout
pub mod Silence
pub mod Discovery
use d_ro_cm.Base.{ℕ, Bool, true, false, List, [], ◌∷◌, if◌then◌else◌}
use d_ro_cm.Registry.NodeTable.{NodeTable, increment_all_missed_heartbeats, remove_stale_nodes}
use d_ro_cm.Registry.NodeTable.History.{Call, run}

-- checker_thread_: without a thread, or with one that is joinable.
pub data Thread : Type 0 where
  absent running : Thread

pub record HealthChecker : Type 0 where
  pub is_running : Bool
  pub checker_thread : Thread
  pub check_interval_ms : ℕ
  pub max_missed_heartbeats : ℕ

unfoldable pub new_checker : ℕ → ℕ → HealthChecker
new_checker check_interval_ms max_missed_heartbeats = record {
  is_running = false;
  checker_thread = Thread.absent;
  check_interval_ms = check_interval_ms;
  max_missed_heartbeats = max_missed_heartbeats;
}

-- The constructor with its default arguments.
abbrev pub default_checker : HealthChecker
default_checker = new_checker 1000 3

-- The result says whether a thread was started.
unfoldable pub start : HealthChecker → HealthChecker × Bool
start h =
    if h.is_running
    then (record h { is_running = true }, false)
    else (record h { is_running = true; checker_thread = Thread.running }, true)

abbrev pub is_joinable : Thread → Bool
is_joinable Thread.absent = false
is_joinable _ = true

-- `request_stop` and `join`: the call returns when the thread has left its loop.
unfoldable pub stop : HealthChecker → HealthChecker
stop h =
    if h.is_running
    then (if is_joinable h.checker_thread
        then record h { is_running = false; checker_thread = Thread.absent }
        else record h { is_running = false })
    else record h { is_running = false }

-- The destructor.
abbrev pub destroy : HealthChecker → HealthChecker
destroy h = stop h

-- The method of that name reads the flag.
abbrev pub is_checking : HealthChecker → Bool
is_checking h = h.is_running

-- One turn of the loop: the two reads of the stop token, and the calls of other threads.
pub record Round : Type 0 where
  pub stop_at_head : Bool
  pub while_asleep : List Call
  pub stop_after_sleep : Bool
  pub between : List Call

-- The two locked steps of a turn, with the calls that come between them.
unfoldable pub check : ℕ → NodeTable → List Call → NodeTable
check max t between = (remove_stale_nodes (run (increment_all_missed_heartbeats t) between) max).0

unfoldable pub run_loop : ℕ → NodeTable → List Round → NodeTable
run_loop max t [] = t
run_loop max t (r ∷ rs) =
    let asleep = run t r.while_asleep in
    let rest = run_loop max (check max asleep r.between) rs in
    if r.stop_at_head then t else if r.stop_after_sleep then asleep else rest
