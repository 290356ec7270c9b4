-- ===== src/Registry/Specification/Told.antt =====
-- What the requests and answers so far tell of a node: the metadata of its last accepted registration, and
-- how many checks have counted a miss since it was last heard. The directory of the specification agrees,
-- as long as the counter has not wrapped.
use mathlib.Core.Option
use d_ro_cm.Base.{
  ℕ, String, ◌≡◌, refl, sym, subst, ◌∙◌, ap, ◌↔◌, true, ◌&&◌, List, [], ◌∷◌, Option, none, some,
  ◌==◌, if◌then◌else◌, if_intro, suc, ◌+◌, ◌<◌, ◌≤◌, u32_mod, contains_string, contains_string_iff,
  eq_iff, add32, arith,
}
use d_ro_cm.Grpc.{is_ok}
use d_ro_cm.Proto.{NodeInfo, HeartbeatRequest, HeartbeatResponse}
use d_ro_cm.Registry.NodeTable.{NodeEntry}
use d_ro_cm.Registry.NodeTable.History.{unheard}
use d_ro_cm.Registry.NodeTable.Sweep.{IsStale, drop_stale}
use d_ro_cm.Registry.Service.{RegistryService}
use d_ro_cm.Registry.Service.Shutdown.{
  register_request, heartbeat_request, deregister_request, discover_request,
}
use d_ro_cm.Registry.Specification.{
  Step, Answer, Allows, Trace, idle, step, serve, increment, remove_stale, shutdown, registered,
  beaten, deregistered, removed,
}
use d_ro_cm.Registry.Specification.Fates.{
  Directory, Verdict, admitted, verdict, admit_if, verdict_status, session_of, beaten_directory,
  beat_answer, left_directory, leave_answer,
}
use d_ro_cm.Registry.Specification.Represents.{respond}
use d_ro_cm.Registry.Specification.Refinement.{respond_all}

-- A node's metadata, and the heartbeats that it has missed.
abbrev pub Report : Type 0
Report = NodeInfo × ℕ

abbrev pub report : NodeEntry → Report
report e = (e.info, e.missed_heartbeats)

abbrev pub registered_as : String → Option NodeInfo → Option Report → Option Report
registered_as id none o = o
registered_as id (some info) o = if info.node_id == id then some (info, 0) else o

-- What is told of the node after this answer, if `o` was told before.
abbrev pub told : String → Option Report → Step × Answer → Option Report
told id o (serve (register_request request response roll now), registered reply status) =
    if is_ok status then registered_as id request.node_info o else o
told id o (serve (heartbeat_request request response now), beaten reply status) =
    if (request.node_id == id) && is_ok status then Option.map (λ (r : Report). (r.0, 0)) o else o
told id o (serve (deregister_request request response), deregistered reply status) =
    if (request.node_id == id) && is_ok status then none else o
told id o (increment, a) = Option.map (λ (r : Report). (r.0, suc r.1)) o
told id o (remove_stale max, removed ids) = if contains_string ids id then none else o
told id o _ = o

abbrev pub told_all : String → Option Report → List (Step × Answer) → Option Report
told_all id o [] = o
told_all id o (h ∷ history) = told_all id (told id o h) history

-- The number of checks.
abbrev pub checks : List Step → ℕ
checks [] = 0
checks (increment ∷ steps) = suc (checks steps)
checks (_ ∷ steps) = checks steps

-- A count of checks after one more step.
abbrev pub counted : Step → ℕ → ℕ
counted increment n = suc n
counted _ n = n

abbrev pub steps_of : List (Step × Answer) → List Step
steps_of [] = []
steps_of ((st, a) ∷ history) = st ∷ steps_of history

pub steps_of-respond_all :
    (s : RegistryService) (steps : List Step) → steps_of (respond_all s steps).0 ≡ steps
unfolding respond_all
steps_of-respond_all s [] = refl
steps_of-respond_all s (st ∷ steps) = ap (◌∷◌ st) (steps_of-respond_all (respond s st).0 steps)

-- At most so many misses are told.
abbrev pub AtMost : ℕ → Option Report → Type 0
AtMost n none = Unit
AtMost n (some r) = r.1 ≤ n

told_register :
    (d : Directory) (id : String) (o : Option NodeInfo) (v : Verdict) (sid : String) (now : ℕ)
    → verdict d o ≡ v
    → Option.map report ((admit_if v d o sid now).entry id) ≡ (
        if is_ok (verdict_status v)
        then registered_as id o (Option.map report (d.entry id))
        else Option.map report (d.entry id))
told_register d id none admitted sid now e = refl
told_register d id none _ sid now e = refl
told_register d id (some info) admitted sid now e = ground arith
told_register d id (some info) _ sid now e = refl

told_beat :
    (d : Directory) (id : String) (request : HeartbeatRequest) (response : HeartbeatResponse)
    (now : ℕ)
    → Option.map report ((beaten_directory d request now).entry id) ≡ (
        if (request.node_id == id) && is_ok (beat_answer d request response).1
        then Option.map (λ (r : Report). (r.0, 0)) (Option.map report (d.entry id))
        else Option.map report (d.entry id))
told_beat d id request response now = ground (arith, eq_iff request.node_id id)

told_left :
    (d : Directory) (id k : String)
    → Option.map report ((left_directory d k).entry id) ≡ (
        if (k == id) && is_ok (leave_answer (d.entry k)).1
        then none
        else Option.map report (d.entry id))
told_left d id k = ground (arith, eq_iff k id)

told_removal :
    (ids : List String) (id : String) (max : ℕ) (o : Option NodeEntry)
    → (contains_string ids id ≡ true) ↔ IsStale max o
    → Option.map report (drop_stale max o)
      ≡ (if contains_string ids id then none else Option.map report o)
told_removal ids id max none iff = ground arith
told_removal ids id max (some x) iff = ground (arith, iff)

told_missed :
    (n : ℕ) (o : Option NodeEntry)
    → AtMost n (Option.map report o)
    → suc n < u32_mod
    → Option.map report (Option.map unheard o)
      ≡ Option.map (λ (r : Report). (r.0, suc r.1)) (Option.map report o)
unfolding add32
told_missed n none most few = refl
told_missed n (some e) most few =
    let exact : add32 e.missed_heartbeats 1 ≡ suc e.missed_heartbeats = omega arith in rw exact refl

registered_as-AtMost :
    (n : ℕ) (id : String) (i : Option NodeInfo) (o : Option Report)
    → AtMost n o
    → AtMost n (registered_as id i o)
registered_as-AtMost n id none o most = most
registered_as-AtMost n id (some info) o most =
    if_intro (AtMost n) (info.node_id == id) (λ _. omega arith) (λ _. most)

heard-AtMost :
    (n : ℕ) (o : Option Report) → AtMost n o → AtMost n (Option.map (λ (r : Report). (r.0, 0)) o)
heard-AtMost n none most = tt
heard-AtMost n (some r) most = omega arith

missed-AtMost :
    (n : ℕ) (o : Option Report)
    → AtMost n o
    → AtMost (suc n) (Option.map (λ (r : Report). (r.0, suc r.1)) o)
missed-AtMost n none most = tt
missed-AtMost n (some r) most = omega arith

-- A check adds at most one miss, and no other step adds any.
told-AtMost :
    (n : ℕ) (id : String) (o : Option Report) (st : Step) (a : Answer)
    → AtMost n o
    → AtMost (counted st n) (told id o (st, a))
told-AtMost n id o (serve (register_request request response roll now)) (registered reply status)
      most =
    if_intro (AtMost n) (is_ok status) (λ _. registered_as-AtMost n id request.node_info o most)
      (λ _. most)
told-AtMost n id o (serve (heartbeat_request request response now)) (beaten reply status) most =
    if_intro (AtMost n) ((request.node_id == id) && is_ok status) (λ _. heard-AtMost n o most)
      (λ _. most)
told-AtMost n id o (serve (deregister_request request response)) (deregistered reply status) most =
    if_intro (AtMost n) ((request.node_id == id) && is_ok status) (λ _. tt) (λ _. most)
told-AtMost n id o increment a most = missed-AtMost n o most
told-AtMost n id o (remove_stale max) (removed ids) most =
    if_intro (AtMost n) (contains_string ids id) (λ _. tt) (λ _. most)
told-AtMost n id o _ _ most = most

Allows-told :
    (d : Directory) (st : Step) (a : Answer) (d' : Directory) (id : String) (n : ℕ)
    → AtMost n (Option.map report (d.entry id))
    → counted st n < u32_mod
    → Allows d st a d'
    → Option.map report (d'.entry id) ≡ told id (Option.map report (d.entry id)) (st, a)
Allows-told d (serve (register_request request response roll now)) a d' id n most few h =
    rw (h.0, h.1)
      (told_register d id request.node_info (verdict d request.node_info)
        (session_of request.node_info roll) now refl)
Allows-told d (serve (heartbeat_request request response now)) a d' id n most few h =
    rw (h.0, h.1) (told_beat d id request response now)
Allows-told d (serve (deregister_request request response)) a d' id n most few h =
    rw (h.0, h.1) (told_left d id request.node_id)
Allows-told d (serve (discover_request request response)) a d' id n most few h = rw (h.3) refl
Allows-told d increment a d' id n most few h = rw (h.1) (told_missed n (d.entry id) most few)
Allows-told d (remove_stale max) a d' id n most few h =
    let (ids, e, r) = h in
    let reported = contains_string_iff ids id in
    rw (e, r.left id)
      (told_removal ids id max (d.entry id)
        ((λ p. (r.named id).0 (reported.0 p)), (λ p. reported.1 ((r.named id).1 p))))
Allows-told d shutdown a d' id n most few h = rw (h.1) refl

checks-counted :
    (st : Step) (steps : List Step) (n : ℕ) → checks (st ∷ steps) + n ≡ checks steps + counted st n
checks-counted increment steps n = omega arith
checks-counted (serve request) steps n = refl
checks-counted (remove_stale max) steps n = refl
checks-counted shutdown steps n = refl

counted_le : (st : Step) (steps : List Step) (n : ℕ) → counted st n ≤ checks (st ∷ steps) + n
counted_le increment steps n = omega arith
counted_le (serve request) steps n = omega arith
counted_le (remove_stale max) steps n = omega arith
counted_le shutdown steps n = omega arith

pub Trace-told_all :
    {d d' : Directory} {history : List (Step × Answer)} (id : String) (n : ℕ)
    → AtMost n (Option.map report (d.entry id))
    → checks (steps_of history) + n < u32_mod
    → Trace d history d'
    → Option.map report (d'.entry id) ≡ told_all id (Option.map report (d.entry id)) history
Trace-told_all id n most few (idle d) = refl
Trace-told_all id n most few (step {d} {d'} {d''} st a {rest} allowed trace) =
    let split = checks-counted st (steps_of rest) n in
    let went =
      Allows-told d st a d' id n most (omega (arith, counted_le st (steps_of rest) n)) allowed in
    let most' =
      subst (AtMost (counted st n)) (sym went)
        (told-AtMost n id (Option.map report (d.entry id)) st a most) in
    Trace-told_all id (counted st n) most' (omega (arith, split)) trace
    ∙ ap (λ o. told_all id o rest) went
