-- ===== src/Node.antt =====
-- src/node/node_base.h and node_base.cpp: the node object and its calls from the owner's thread.
-- The heartbeat thread is the child Loop. A remote call's outcome (the status and the response
-- message as the client finds it) is an argument.
pub mod Backoff
pub mod Loop
pub mod Rule
pub mod Lifecycle
pub mod Giveup
pub mod Healing
pub mod Derived
pub mod Numbering
pub mod Sent
pub mod Threads
use d_ro_cm.Base.{ℕ, String, Bool, true, false, ◌&&◌, not, List, Option, none, some, if◌then◌else◌}
use d_ro_cm.Grpc.{Status, is_ok}
use d_ro_cm.Proto.{
  NodeInfo, RegisterRequest, RegisterResponse, DeregisterRequest, DeregisterResponse, zero_float,
}

pub record ReconnectStrategy : Type 0 where
  pub base_delay_ms : ℕ
  pub max_delay_ms : ℕ
  pub max_attempts : ℕ
  pub enable_backoff : Bool

-- The member initialisers.
abbrev pub default_strategy : ReconnectStrategy
default_strategy = record {
  base_delay_ms = 1000;
  max_delay_ms = 30000;
  max_attempts = 10;
  enable_backoff = true;
}

-- A smart pointer is whether it is set; the thread, whether it is joinable. `info` is what the
-- derived class's GetNodeInfo returns.
pub record Node : Type 0 where
  pub node_id : String
  pub registry_address : String
  pub session_id : String
  pub info : NodeInfo
  pub coro_adapter : Bool
  pub registry_channel : Bool
  pub registry_stub : Bool
  pub heartbeat_thread : Bool
  pub is_running : Bool
  pub is_registered : Bool
  pub heartbeat_interval_ms : ℕ
  pub reconnect_strategy : ReconnectStrategy

unfoldable pub new_node : String → String → NodeInfo → Node
new_node node_id registry_address info = record {
  node_id = node_id;
  registry_address = registry_address;
  session_id = "";
  info = info;
  coro_adapter = true;
  registry_channel = false;
  registry_stub = false;
  heartbeat_thread = false;
  is_running = false;
  is_registered = false;
  heartbeat_interval_ms = 1000;
  reconnect_strategy = default_strategy;
}

-- A call either returns or reads through a null pointer.
pub data Outcome (A : Type 0) : Type 0 where
  done : A → Outcome A
  null_dereference : Outcome A

-- The request that `start` and the reconnection send.
abbrev pub registration : Node → RegisterRequest
registration n = record {
  node_info = some n.info;
  cpu_usage = zero_float;
  memory_usage = zero_float;
}

-- `status.ok() && resp.success()`
abbrev pub is_accepted : Status × RegisterResponse → Bool
is_accepted (status, resp) = is_ok status && resp.success

abbrev pub connect : Node → Node
connect n = record n { registry_channel = true; registry_stub = true }

-- The writes after an accepted registration.
abbrev pub adopt : Node → RegisterResponse → Node
adopt n resp = record n {
  session_id = resp.session_id;
  heartbeat_interval_ms = resp.heartbeat_interval;
  is_registered = true;
}

-- The answer is that of the call `Register`.
unfoldable pub start : Node → Status × RegisterResponse → Node × Bool
start n answer =
    if n.is_running
    then (n, true)
    else (if is_accepted answer
        then (
          record (adopt (connect n) answer.1) { heartbeat_thread = true; is_running = true },
          true,
        )
        else (connect n, false))

-- The Deregister call of `stop` goes through the stub; its answer is only logged.
abbrev pub leave_registry : Node → Outcome Node
leave_registry n =
    if n.is_registered
    then if n.registry_stub then done (record n { is_registered = false }) else null_dereference
    else done n

-- `coro_adapter_->shutdown()` and the resets that follow it. A call of a method through the null pointer
-- is undefined behaviour and counted as a null dereference, although shutdown() reads no member once
-- its static once_flag is set.
abbrev pub release : Node → Outcome Node
release n =
    if n.coro_adapter
    then done (record n {
      coro_adapter = false;
      registry_stub = false;
      registry_channel = false;
      is_running = false;
    })
    else null_dereference

abbrev pub then_release : Outcome Node → Outcome Node
then_release (done n) = release n
then_release null_dereference = null_dereference

-- The block `if (heartbeat_thread_.joinable())` is empty: the thread is neither asked to stop nor
-- joined.
unfoldable pub stop : Node → Outcome Node
stop n = if n.is_running then then_release (leave_registry n) else done n
