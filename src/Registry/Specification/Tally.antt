-- ===== src/Registry/Specification/Tally.antt =====
-- The number of nodes and the flag, as the answers so far tell them, and with them the statuses of
-- the three handlers that accept or refuse.
use d_ro_cm.Base.{
  u32_mod, ◌<◌, ◌≤◌, ℕ, ◌+◌, ◌-◌, String, ◌≡◌, refl, ◌∙◌, ap, Bool, true, false, ◌&&◌, not, List,
  [], ◌∷◌, Option, none, some, ◌==◌, if◌then◌else◌, ltb, length, arith,
}
use d_ro_cm.Base.Maps.Laws.{contains-find}
use d_ro_cm.Grpc.{is_ok}
use d_ro_cm.Proto.{
  NodeInfo, RegisterRequest, RegisterResponse, HeartbeatRequest, HeartbeatResponse,
  DeregisterRequest, DeregisterResponse,
}
use d_ro_cm.Registry.NodeTable.Invariant.{get_node_count-length}
use d_ro_cm.Registry.NodeTable.{get_node_count, get_node, register_node, deregister_node}
use d_ro_cm.Registry.Service
use d_ro_cm.Registry.Service.{RegistryService, new_service, get_node_table}
use d_ro_cm.Registry.Service.Shutdown.{
  register_request, heartbeat_request, deregister_request, discover_request,
}
use d_ro_cm.Registry.Specification.{
  Step, Answer, Allows, Trace, idle, step, serve, increment, remove_stale, shutdown, registered,
  deregistered, removed,
}
use d_ro_cm.Registry.Specification.Fates.{
  Directory, is_known, empty_directory, Verdict, admitted, verdict, admit_if, verdict_status,
  session_of,
}
use d_ro_cm.Registry.Specification.Represents.{Represents}
use d_ro_cm.Registry.Specification.Refinement.{
  respond_all, respond_all-Trace, new_service-Represents,
}
use d_ro_cm.Registry.Specification.Provenance.{heard_all, Trace-heard_all, known_lem}

-- The number of nodes after this answer, if it was `n` before.
abbrev pub tally : ℕ → Step × Answer → ℕ
tally n (serve (register_request request response roll now), registered reply status) =
    if is_ok status then n + 1 else n
tally n (serve (deregister_request request response), deregistered reply status) =
    if is_ok status then n - 1 else n
tally n (remove_stale max, removed ids) = n - length ids
tally n _ = n

abbrev pub tally_all : ℕ → List (Step × Answer) → ℕ
tally_all n [] = n
tally_all n (h ∷ history) = tally_all (tally n h) history

abbrev pub open_after : Bool → Step × Answer → Bool
open_after b (shutdown, a) = false
open_after b _ = b

abbrev pub open_all : Bool → List (Step × Answer) → Bool
open_all b [] = b
open_all b (h ∷ history) = open_all (open_after b h) history

tally_register :
    (d : Directory) (o : Option NodeInfo) (v : Verdict) (sid : String) (now : ℕ)
    → verdict d o ≡ v
    → (admit_if v d o sid now).size ≡ (if is_ok (verdict_status v) then d.size + 1 else d.size)
tally_register d none admitted sid now e = ground arith
tally_register d none _ sid now e = refl
tally_register d (some info) admitted sid now e = refl
tally_register d (some info) _ sid now e = refl

register_open :
    (d : Directory) (o : Option NodeInfo) (v : Verdict) (sid : String) (now : ℕ)
    → ((admit_if v d o sid now).is_open ≡ d.is_open)
      × ((admit_if v d o sid now).capacity ≡ d.capacity)
register_open d none admitted sid now = (refl, refl)
register_open d none _ sid now = (refl, refl)
register_open d (some info) admitted sid now = (refl, refl)
register_open d (some info) _ sid now = (refl, refl)

-- What a step does to the number, the capacity and the flag.
abbrev Counts : Directory → Step × Answer → Directory → Type 0
Counts d h d' =
    (d'.size ≡ tally d.size h) × (d'.is_open ≡ open_after d.is_open h) × (d'.capacity ≡ d.capacity)

Allows-Counts :
    (d : Directory) (st : Step) (a : Answer) (d' : Directory)
    → Allows d st a d'
    → Counts d (st, a) d'
Allows-Counts d (serve (register_request request response roll now)) a d' h =
    let o = request.node_info in
    let v = verdict d o in
    let sid = session_of o roll in
    let (flag, capacity) = register_open d o v sid now in
    rw (h.0, h.1) (tally_register d o v sid now refl, flag, capacity)
Allows-Counts d (serve (heartbeat_request request response now)) a d' h =
    rw (h.1) (ground arith, ground arith, ground arith)
Allows-Counts d (serve (deregister_request request response)) a d' h =
    rw (h.0, h.1) (ground arith, ground arith, ground arith)
Allows-Counts d (serve (discover_request request response)) a d' h = rw (h.3) (refl, refl, refl)
Allows-Counts d increment a d' h = rw (h.1) (refl, refl, refl)
Allows-Counts d (remove_stale max) a d' h =
    let (ids, e, r) = h in
    let counted = r.counted in rw e (omega arith, r.same_open, r.same_capacity)
Allows-Counts d shutdown a d' h = rw (h.1) (refl, refl, refl)

Trace-Counts :
    {d d' : Directory} {history : List (Step × Answer)}
    → Trace d history d'
    → (d'.size ≡ tally_all d.size history)
      × (d'.is_open ≡ open_all d.is_open history)
      × (d'.capacity ≡ d.capacity)
Trace-Counts (idle d) = (refl, refl, refl)
Trace-Counts (step {d} {d'} {d''} st a {rest} allowed trace) =
    let (size, flag, capacity) = Allows-Counts d st a d' allowed in
    let (size', flag', capacity') = Trace-Counts trace in
    (
      size' ∙ ap (λ n. tally_all n rest) size,
      flag' ∙ ap (λ b. open_all b rest) flag,
      capacity' ∙ capacity,
    )

-- Does a registry that was new, with room for `max_nodes`, accept this registration?
abbrev pub accepts : ℕ → List (Step × Answer) → Option NodeInfo → Bool
accepts max_nodes history none = false
accepts max_nodes history (some info) =
    open_all true history
    && not (info.node_id == "")
    && ltb (tally_all 0 history) max_nodes
    && not (heard_all info.node_id false history)

register_status :
    (s : RegistryService) (d : Directory) (o : Option NodeInfo) (request : RegisterRequest)
    (response : RegisterResponse) (roll : String) (now : ℕ)
    → Represents s d
    → is_ok (Service.register s (record request { node_info = o }) response roll now).2
      ≡ is_ok (verdict_status (verdict d o))
unfolding Service.register register_node get_node
register_status s d none request response roll now r = ground (arith, r.same_flag)
register_status s d (some info) request response roll now r = ground (
  arith,
  r.same_flag,
  r.counted,
  r.same_capacity,
  r.entries info.node_id,
  contains-find info.node_id s.node_table.nodes,
)

verdict-accepts :
    (d : Directory) (o : Option NodeInfo) (max_nodes : ℕ) (history : List (Step × Answer))
    → d.size ≡ tally_all 0 history
    → d.is_open ≡ open_all true history
    → d.capacity ≡ max_nodes
    → ((id : String) → is_known (d.entry id) ≡ heard_all id false history)
    → is_ok (verdict_status (verdict d o)) ≡ accepts max_nodes history o
verdict-accepts d none max_nodes history size flag capacity known = ground arith
verdict-accepts d (some info) max_nodes history size flag capacity known =
    ground (arith, known info.node_id)

left_lem :
    (s : RegistryService) (d : Directory) (request : DeregisterRequest)
    (response : DeregisterResponse)
    → Represents s d
    → is_ok (Service.deregister s request response).2 ≡ is_known (d.entry request.node_id)
unfolding Service.deregister deregister_node get_node
left_lem s d request response r = ground (arith, r.entries request.node_id)

-- At a service that has been through any requests, checker steps and shutdowns since it was new,
-- the answers so far say which requests are accepted: Heartbeat and Deregister those of a node that
-- was accepted by Register and neither deregistered nor removed since (Heartbeat with a non-empty
-- id), Register one with a non-empty id that is not so known, if there was no shutdown and fewer
-- than max_nodes are so counted.
pub statuses_from_answers :
    (max_nodes : ℕ) (steps : List Step) (join : RegisterRequest) (pulse : HeartbeatRequest)
    (leave : DeregisterRequest) (r₁ : RegisterResponse) (r₂ : HeartbeatResponse)
    (r₃ : DeregisterResponse) (roll : String) (now : ℕ)
    → let (history, s) = respond_all (new_service max_nodes) steps in
      (is_ok (Service.register s join r₁ roll now).2 ≡ accepts max_nodes history join.node_info)
      × (is_ok (Service.heartbeat s pulse r₂ now).2
          ≡ not (pulse.node_id == "") && heard_all pulse.node_id false history)
      × (is_ok (Service.deregister s leave r₃).2 ≡ heard_all leave.node_id false history)
statuses_from_answers max_nodes steps join pulse leave r₁ r₂ r₃ roll now =
    let start = empty_directory max_nodes in
    let (history, s) = respond_all (new_service max_nodes) steps in
    let (d, trace, r) =
      respond_all-Trace (new_service max_nodes) start steps (new_service-Represents max_nodes) in
    let (size, flag, capacity) = Trace-Counts trace in
    let known = λ (id : String). Trace-heard_all id trace in
    (
      register_status s d join.node_info join r₁ roll now r
          ∙ verdict-accepts d join.node_info max_nodes history size flag capacity known,
      known_lem s d pulse r₂ now r ∙ ap (λ b. not (pulse.node_id == "") && b) (known pulse.node_id),
      left_lem s d leave r₃ r ∙ known leave.node_id,
    )

-- At a service that has been through any requests, checker steps and shutdowns since it was new,
-- with a capacity in 32 bits, get_node_count is the number of nodes that the answers so far tell,
-- so that its cast loses nothing, and at most the capacity.
pub count_from_answers :
    (max_nodes : ℕ) (steps : List Step)
    → max_nodes < u32_mod
    → let (history, s) = respond_all (new_service max_nodes) steps in
      (get_node_count (get_node_table s) ≡ tally_all 0 history)
      × (get_node_count (get_node_table s) ≤ max_nodes)
count_from_answers max_nodes steps fits =
    let s = (respond_all (new_service max_nodes) steps).1 in
    let (d, trace, r) =
      respond_all-Trace (new_service max_nodes) (empty_directory max_nodes) steps
        (new_service-Represents max_nodes) in
    let (size, flag, capacity) = Trace-Counts trace in
    let limit = r.same_capacity ∙ capacity in
    let bounded = r.valid.bounded in
    let exact = get_node_count-length s.node_table r.valid (omega (arith, limit)) in
    (exact ∙ r.counted ∙ size, omega (arith, exact, limit, bounded))
