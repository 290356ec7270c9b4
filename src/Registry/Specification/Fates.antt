-- ===== src/Registry/Specification/Fates.antt =====
-- What is known of each node id, how many ids are known and how many may be, and whether
-- registrations are taken; what a registration, a heartbeat, a departure, a discovery and a removal
-- answer on that ground, and what they change of it.
use Prim.Native.String.{◌++◌}
use d_ro_cm.Base.{
  ℕ, ◌+◌, ◌-◌, String, ◌≡◌, ◌↔◌, Bool, true, false, ◌||◌, List, Option, none, some, ◌==◌,
  if◌then◌else◌, leb, length, Elem,
}
use mathlib.Core.Option
use d_ro_cm.Grpc.{StatusCode, Status, status_ok}
use d_ro_cm.Proto.{
  zero_float, NodeInfo, RegisterResponse, HeartbeatRequest, HeartbeatResponse, DeregisterResponse,
}
use d_ro_cm.Registry.NodeTable.{NodeEntry}
use d_ro_cm.Registry.NodeTable.History.{entry_of, heard, unheard}
use d_ro_cm.Registry.NodeTable.Sweep.{drop_stale, IsStale}
use d_ro_cm.Registry.NodeTable.Discover.{IsOffered, Distinct}

pub record Directory : Type 0 where
  pub entry : String → Option NodeEntry
  pub size : ℕ
  pub capacity : ℕ
  pub is_open : Bool

abbrev pub empty_directory : ℕ → Directory
empty_directory capacity = record {
  entry = λ id. none;
  size = 0;
  capacity = capacity;
  is_open = true;
}

abbrev pub is_known : Option NodeEntry → Bool
is_known none = false
is_known (some e) = true

-- The entries, with `o` for the id `k`.
abbrev pub set_entry :
    String → Option NodeEntry → (String → Option NodeEntry) → String → Option NodeEntry
set_entry k o entry id = if k == id then o else entry id

-- The fates of a registration.
pub data Verdict : Type 0 where
  admitted taken unnamed missing closing : Verdict

abbrev pub verdict_on : Directory → NodeInfo → Verdict
verdict_on d info =
    if info.node_id == ""
    then unnamed
    else if leb d.capacity d.size || is_known (d.entry info.node_id)
    then taken
    else admitted

abbrev pub verdict_open : Directory → Option NodeInfo → Verdict
verdict_open d none = missing
verdict_open d (some info) = verdict_on d info

abbrev pub verdict : Directory → Option NodeInfo → Verdict
verdict d o = if d.is_open then verdict_open d o else closing

abbrev pub verdict_status : Verdict → Status
verdict_status admitted = status_ok
verdict_status taken = record { code = StatusCode.already_exists; error_message = "Duplicate node" }
verdict_status unnamed = record {
  code = StatusCode.invalid_argument;
  error_message = "Empty node_id";
}
verdict_status missing = record {
  code = StatusCode.invalid_argument;
  error_message = "Missing node_info";
}
verdict_status closing = record {
  code = StatusCode.unavailable;
  error_message = "Service is shutting down";
}

-- The response message; the client's is left alone by a registry that is closing.
abbrev pub verdict_response : Verdict → String → RegisterResponse → RegisterResponse
verdict_response admitted session_id response = record {
  success = true;
  session_id = session_id;
  heartbeat_interval = 1000;
  error_message = "";
}
verdict_response taken session_id response = record response {
  success = false;
  error_message = "Node already registered or table full";
}
verdict_response unnamed session_id response = record response {
  success = false;
  error_message = "node_id cannot be empty";
}
verdict_response missing session_id response = record response {
  success = false;
  error_message = "Missing node_info field";
}
verdict_response closing session_id response = response

abbrev pub admit : Directory → NodeInfo → String → ℕ → Directory
admit d info session_id now = record d {
  entry =
      set_entry info.node_id (some (entry_of info session_id now 0 zero_float zero_float)) d.entry;
  size = d.size + 1;
}

abbrev pub session_of : Option NodeInfo → String → String
session_of none roll = ""
session_of (some info) roll = info.node_id ++ "_" ++ roll

abbrev pub admit_if : Verdict → Directory → Option NodeInfo → String → ℕ → Directory
admit_if admitted d (some info) session_id now = admit d info session_id now
admit_if _ d o session_id now = d

-- A heartbeat: without an id, of a known node, of an unknown one.
abbrev pub known_beat : Option NodeEntry → HeartbeatResponse × Status
known_beat none = (
  record { success = false; missed_heartbeats = 0; should_reconnect = true },
  record { code = StatusCode.not_found; error_message = "Node not registered" },
)
known_beat (some e) =
    (record { success = true; missed_heartbeats = 0; should_reconnect = false }, status_ok)

abbrev pub beat_answer :
    Directory → HeartbeatRequest → HeartbeatResponse → HeartbeatResponse × Status
beat_answer d request response =
    if request.node_id == ""
    then (
      record response { success = false },
      record { code = StatusCode.invalid_argument; error_message = "Empty node_id" },
    )
    else known_beat (d.entry request.node_id)

abbrev pub beaten_directory : Directory → HeartbeatRequest → ℕ → Directory
beaten_directory d request now =
    let f = heard now request.cpu_usage request.memory_usage in
    if request.node_id == "" then d else record d {
      entry = set_entry request.node_id (Option.map f (d.entry request.node_id)) d.entry;
    }

abbrev pub leave_answer : Option NodeEntry → DeregisterResponse × Status
leave_answer none = (
  record { success = false; message = "Node not found" },
  record { code = StatusCode.not_found; error_message = "Node not found" },
)
leave_answer (some e) =
    (record { success = true; message = "Node deregistered gracefully" }, status_ok)

abbrev pub left_directory : Directory → String → Directory
left_directory d id = record d {
  entry = set_entry id none d.entry;
  size = if is_known (d.entry id) then d.size - 1 else d.size;
}

-- The nodes that a filter finds, each once, in whatever order.
pub record Finds (d : Directory) (filter : List String) (found : List NodeInfo) : Type 0 where
  pub distinct : Distinct found
  pub offered :
      (info : NodeInfo)
      → Elem info found ↔ (
          (e : NodeEntry) × (d.entry e.info.node_id ≡ some e)
          × IsOffered filter e
          × (e.info ≡ info))

abbrev pub missed_directory : Directory → Directory
missed_directory d = record d { entry = λ id. Option.map unheard (d.entry id) }

-- A removal of stale nodes names exactly those, in whatever order, and they are gone.
pub record Removes (max : ℕ) (d : Directory) (ids : List String) (d' : Directory) : Type 0 where
  pub named : (id : String) → Elem id ids ↔ IsStale max (d.entry id)
  pub left : (id : String) → d'.entry id ≡ drop_stale max (d.entry id)
  pub counted : d'.size + length ids ≡ d.size
  pub same_capacity : d'.capacity ≡ d.capacity
  pub same_open : d'.is_open ≡ d.is_open
