-- ===== src/Registry/Specification/Provenance.antt =====
-- Whether a node is known, as a client can tell from the answers alone.
use d_ro_cm.Base.{
  ℕ, String, ◌≡◌, ◌↔◌, refl, ◌∙◌, ap, Bool, true, false, ◌&&◌, not, List, [], ◌∷◌, Option, none,
  some, ◌==◌, if◌then◌else◌, contains_string, contains_string_iff, eq_iff, arith,
}
use d_ro_cm.Grpc.{is_ok}
use d_ro_cm.Proto.{NodeInfo, HeartbeatRequest, HeartbeatResponse}
use d_ro_cm.Registry.NodeTable.{NodeEntry, get_node, update_heartbeat}
use d_ro_cm.Registry.NodeTable.Sweep.{IsStale, drop_stale}
use d_ro_cm.Registry.Service.{RegistryService, heartbeat}
use d_ro_cm.Registry.Service.Shutdown.{
  register_request, heartbeat_request, deregister_request, discover_request,
}
use d_ro_cm.Registry.Specification.{
  Step, Answer, Allows, Trace, idle, step, serve, increment, remove_stale, shutdown, registered,
  deregistered, removed,
}
use d_ro_cm.Registry.Specification.Fates.{
  Directory, is_known, Verdict, admitted, verdict, session_of, beaten_directory, left_directory,
  leave_answer, admit_if, verdict_status,
}
use d_ro_cm.Registry.Specification.Represents.{Represents}

abbrev pub names : String → Option NodeInfo → Bool
names id none = false
names id (some info) = info.node_id == id

-- Is the node known, if it was so before, after this answer?
abbrev pub heard : String → Bool → Step × Answer → Bool
heard id b (serve (register_request request response roll now), registered reply status) =
    if names id request.node_info && is_ok status then true else b
heard id b (serve (deregister_request request response), deregistered reply status) =
    if (request.node_id == id) && is_ok status then false else b
heard id b (remove_stale max, removed ids) = if contains_string ids id then false else b
heard id b _ = b

abbrev pub heard_all : String → Bool → List (Step × Answer) → Bool
heard_all id b [] = b
heard_all id b (h ∷ history) = heard_all id (heard id b h) history

heard_register :
    (d : Directory) (id : String) (o : Option NodeInfo) (v : Verdict) (sid : String) (now : ℕ)
    → verdict d o ≡ v
    → is_known ((admit_if v d o sid now).entry id)
      ≡ (if names id o && is_ok (verdict_status v) then true else is_known (d.entry id))
heard_register d id none admitted sid now e = ground arith
heard_register d id none _ sid now e = ground arith
heard_register d id (some info) admitted sid now e = ground arith
heard_register d id (some info) _ sid now e = ground arith

heard_beat :
    (d : Directory) (id : String) (request : HeartbeatRequest) (now : ℕ)
    → is_known ((beaten_directory d request now).entry id) ≡ is_known (d.entry id)
heard_beat d id request now = ground (arith, eq_iff request.node_id id)

heard_left :
    (d : Directory) (id k : String)
    → is_known ((left_directory d k).entry id)
      ≡ (if (k == id) && is_ok (leave_answer (d.entry k)).1 then false else is_known (d.entry id))
heard_left d id k = ground (arith, eq_iff k id)

heard_removal :
    (ids : List String) (id : String) (max : ℕ) (o : Option NodeEntry)
    → (contains_string ids id ≡ true) ↔ IsStale max o
    → is_known (drop_stale max o) ≡ (if contains_string ids id then false else is_known o)
heard_removal ids id max none iff = ground (arith)
heard_removal ids id max (some x) iff = ground (arith, iff)

Allows-heard :
    (d : Directory) (st : Step) (a : Answer) (d' : Directory) (id : String)
    → Allows d st a d'
    → is_known (d'.entry id) ≡ heard id (is_known (d.entry id)) (st, a)
Allows-heard d (serve (register_request request response roll now)) a d' id h =
    rw (h.0, h.1)
      (heard_register d id request.node_info (verdict d request.node_info)
        (session_of request.node_info roll) now refl)
Allows-heard d (serve (heartbeat_request request response now)) a d' id h =
    rw (h.1) (heard_beat d id request now)
Allows-heard d (serve (deregister_request request response)) a d' id h =
    rw (h.0, h.1) (heard_left d id request.node_id)
Allows-heard d (serve (discover_request request response)) a d' id h = rw (h.3) refl
Allows-heard d increment a d' id h = rw (h.1) (ground arith)
Allows-heard d (remove_stale max) a d' id h =
    let (ids, e, r) = h in
    let reported = contains_string_iff ids id in
    rw (e, r.left id)
      (heard_removal ids id max (d.entry id)
        ((λ p. (r.named id).0 (reported.0 p)), (λ p. reported.1 ((r.named id).1 p))))
Allows-heard d shutdown a d' id h = rw (h.1) refl

pub Trace-heard_all :
    {d d' : Directory} {history : List (Step × Answer)} (id : String)
    → Trace d history d'
    → is_known (d'.entry id) ≡ heard_all id (is_known (d.entry id)) history
Trace-heard_all id (idle d) = refl
Trace-heard_all id (step {d} {d'} {d''} st a {rest} allowed trace) =
    Trace-heard_all id trace ∙ ap (λ b. heard_all id b rest) (Allows-heard d st a d' id allowed)

pub known_lem :
    (s : RegistryService) (d : Directory) (request : HeartbeatRequest)
    (response : HeartbeatResponse) (now : ℕ)
    → Represents s d
    → is_ok (heartbeat s request response now).2
      ≡ not (request.node_id == "") && is_known (d.entry request.node_id)
unfolding heartbeat update_heartbeat get_node
known_lem s d request response now r = ground (arith, r.entries request.node_id)
