-- ===== src/Registry/Specification.antt =====
-- What src/registry promises its clients and the health checker, without a table: a directory of
-- what is known of each node id, how many ids are known and how many may be, and whether
-- registrations are taken. The order of the table, its locks and its loops do not occur here.
pub mod Fates
pub mod Represents
pub mod Steps
pub mod Refinement
pub mod Provenance
pub mod Tally
pub mod Told
pub mod Discovery
use Prim.Native.String.{◌++◌}
use d_ro_cm.Base.{ℕ, ◌+◌, String, ◌≡◌, false, List, [], ◌∷◌}
use mathlib.Core.List
use mathlib.Core.Option
use d_ro_cm.Grpc.{Status, status_ok}
use d_ro_cm.Proto.{
  NodeInfo, RegisterResponse, HeartbeatResponse, DeregisterResponse, DiscoverResponse,
}
use d_ro_cm.Registry.Service.Shutdown.{
  Request, register_request, heartbeat_request, deregister_request, discover_request,
}
use d_ro_cm.Registry.Specification.Fates.{
  Directory, verdict, verdict_status, verdict_response, admit, session_of, admit_if, beat_answer,
  beaten_directory, leave_answer, left_directory, Finds, missed_directory, Removes,
}

-- What happens to the registry: a client's request, the health checker's two steps, `Shutdown`.
pub data Step : Type 0 where
  serve : Request → Step
  increment : Step
  remove_stale : ℕ → Step
  shutdown : Step

pub data Answer : Type 0 where
  registered : RegisterResponse → Status → Answer
  beaten : HeartbeatResponse → Status → Answer
  deregistered : DeregisterResponse → Status → Answer
  discovered : DiscoverResponse → Status → Answer
  removed : List String → Answer
  silent : Answer

-- The step relation: what each step may answer and what directory it leaves.
abbrev pub Allows : Directory → Step → Answer → Directory → Type 0
Allows d (serve (register_request request response roll now)) a d' =
    let v = verdict d request.node_info in
    let session_id = session_of request.node_info roll in
    (a ≡ registered (verdict_response v session_id response) (verdict_status v))
    × (d' ≡ admit_if v d request.node_info session_id now)
Allows d (serve (heartbeat_request request response now)) a d' =
    let (reply, status) = beat_answer d request response in
    (a ≡ beaten reply status) × (d' ≡ beaten_directory d request now)
Allows d (serve (deregister_request request response)) a d' =
    let (reply, status) = leave_answer (d.entry request.node_id) in
    (a ≡ deregistered reply status) × (d' ≡ left_directory d request.node_id)
Allows d (serve (discover_request request response)) a d' =
    (found : List NodeInfo) × (a
      ≡ discovered (record response { nodes = List.◌++◌ response.nodes found }) status_ok)
    × Finds d request.service_filter found
    × (d' ≡ d)
Allows d increment a d' = (a ≡ silent) × (d' ≡ missed_directory d)
Allows d (remove_stale max) a d' = (ids : List String) × (a ≡ removed ids) × Removes max d ids d'
Allows d shutdown a d' = (a ≡ silent) × (d' ≡ record d { is_open = false })

-- A run of the specification: the steps, each with its answer.
pub data Trace : Directory → List (Step × Answer) → Directory → Type 0 where
  idle : (d : Directory) → Trace d [] d
  step :
      {d d' d'' : Directory} (s : Step) (a : Answer) {rest : List (Step × Answer)}
      → Allows d s a d'
      → Trace d' rest d''
      → Trace d ((s, a) ∷ rest) d''
