-- ===== src/Registry/Service/Concurrent.antt =====
-- Register in two steps: the read of the flag, and the call on the table. Between them other handlers
-- and Shutdown may run.
use Prim.Native.String as String
use d_ro_cm.Base.{
  ℕ, zero, suc, ◌≤◌, String, ◌≡◌, refl, ◌∙◌, false, Bool-cases, if_intro, inl, inr, List, [], ◌∷◌,
  ◌++◌, Option, none, some, length, if◌then◌else◌, eq_iff, eq_refl, arith,
}
use d_ro_cm.Base.Maps.{find}
use d_ro_cm.Base.Maps.Laws.{contains-find, find-modify, find-erase}
use d_ro_cm.Proto.{NodeInfo, RegisterRequest, empty_register_response}
use d_ro_cm.Registry.NodeTable.{
  get_node, beat, fresh_entry, register_node, update_heartbeat, deregister_node,
}
use d_ro_cm.Registry.NodeTable.Invariant.{IsValid}
use d_ro_cm.Registry.Service.{
  RegistryService, register, register_request, heartbeat, deregister, discover, shutdown,
}
use d_ro_cm.Registry.Service.Shutdown
use d_ro_cm.Registry.Service.Shutdown.{Request, serve, serve-is_running}
use d_ro_cm.Registry.Service.Outcomes.{IsAcceptable}
use d_ro_cm.Registry.Service.Refinement.{serve-IsValid}

-- The requests whose handler has read the flag as set, and has not yet called the table.
pub record System : Type 0 where
  pub service : RegistryService
  pub in_flight : List RegisterRequest

-- A handler reads the flag; the one at a position goes on to the table; Shutdown; another request is
-- served whole.
pub data Step : Type 0 where
  begin : RegisterRequest → Step
  finish : ℕ → String → ℕ → Step
  stop : Step
  other : Request → Step

abbrev pub take_at {ℓ} : {A : Type ℓ} → ℕ → List A → Option (A × List A)
take_at i [] = none
take_at zero (x ∷ xs) = some (x, xs)
take_at (suc i) (x ∷ xs) = elim (take_at i xs) [ none ↦ none | some r ↦ some (r.0, x ∷ r.1) ]

abbrev pub finish_at :
    System → Option (RegisterRequest × List RegisterRequest) → String → ℕ → System
finish_at s none roll now = s
finish_at s (some (request, rest)) roll now = record {
  service = (register_request s.service request.node_info empty_register_response roll now).0;
  in_flight = rest;
}

abbrev pub step : System → Step → System
step s (begin request) =
    if s.service.is_running then record s { in_flight = s.in_flight ++ request ∷ [] } else s
step s (finish i roll now) = finish_at s (take_at i s.in_flight) roll now
step s stop = record s { service = shutdown s.service }
step s (other r) = record s { service = serve s.service r }

abbrev pub run : System → List Step → System
run s [] = s
run s (c ∷ cs) = run (step s c) cs

-- With nothing in between the two steps are the handler.
pub begin_then_finish :
    (s : RegistryService) (request : RegisterRequest) (roll : String) (now : ℕ)
    → (run
        (record { service = s; in_flight = [] })
        (begin request ∷ finish 0 roll now ∷ [])).service
      ≡ (register s request empty_register_response roll now).0
unfolding register
begin_then_finish s request roll now = elim (Bool-cases s.is_running) [
  | inl on ↦ rw on refl
  | inr off ↦ rw off refl
]

abbrev AtMost {ℓ} : {A : Type ℓ} → ℕ → Option (A × List A) → Type 0
AtMost n none = Unit
AtMost n (some r) = length r.1 ≤ n

later-AtMost {ℓ} :
    {A : Type ℓ} (x : A) (n : ℕ) (o : Option (A × List A))
    → AtMost n o
    → AtMost (suc n) (elim o [ none ↦ none | some r ↦ some (r.0, x ∷ r.1) ])
later-AtMost x n none h = tt
later-AtMost x n (some r) h = omega (arith, h)

take_at-AtMost {ℓ} : {A : Type ℓ} (i : ℕ) (xs : List A) → AtMost (length xs) (take_at i xs)
take_at-AtMost i [] = tt
take_at-AtMost zero (x ∷ xs) = omega arith
take_at-AtMost (suc i) (x ∷ xs) = later-AtMost x (length xs) (take_at i xs) (take_at-AtMost i xs)

-- The service is shut down, and `n` handlers at most are past their read of the flag.
pub record Draining (n : ℕ) (s : System) : Type 0 where
  pub stopped : s.service.is_running ≡ false
  pub few : length s.in_flight ≤ n

pub register_request-is_running :
    (s : RegistryService) (info : Option NodeInfo) (roll : String) (now : ℕ)
    → (register_request s info empty_register_response roll now).0.is_running ≡ s.is_running
register_request-is_running s none roll now = refl
register_request-is_running s (some info) roll now = ground arith

finish_at-Draining :
    (n : ℕ) (s : System) (o : Option (RegisterRequest × List RegisterRequest)) (roll : String)
    (now : ℕ)
    → AtMost n o
    → Draining n s
    → Draining n (finish_at s o roll now)
finish_at-Draining n s none roll now h d = d
finish_at-Draining n s (some r) roll now h d = record {
  stopped = register_request-is_running s.service r.0.node_info roll now ∙ d.stopped;
  few = h;
}

AtMost-weaken {ℓ} :
    {A : Type ℓ} (m n : ℕ) (o : Option (A × List A)) → m ≤ n → AtMost m o → AtMost n o
AtMost-weaken m n none h a = tt
AtMost-weaken m n (some r) h a = omega (arith, h, a)

step-Draining : (n : ℕ) (s : System) (c : Step) → Draining n s → Draining n (step s c)
unfolding shutdown
step-Draining n s (begin request) d =
    if_intro (Draining n) s.service.is_running (λ on. cc (d.stopped)) (λ _. d)
step-Draining n s (finish i roll now) d =
    finish_at-Draining n s (take_at i s.in_flight) roll now
      (AtMost-weaken (length s.in_flight) n (take_at i s.in_flight) d.few
        (take_at-AtMost i s.in_flight))
      d
step-Draining n s stop d = record { stopped = refl; few = d.few }
step-Draining n s (other r) d = record {
  stopped = serve-is_running s.service r ∙ d.stopped;
  few = d.few;
}

-- Served after a shutdown, no request brings in a node that is not there.
serve_absent :
    (s : RegistryService) (r : Request) (id : String)
    → s.is_running ≡ false
    → IsValid s.node_table
    → get_node s.node_table id ≡ none
    → get_node (serve s r).node_table id ≡ none
unfolding serve register heartbeat deregister discover update_heartbeat deregister_node get_node
serve_absent s (Shutdown.register_request request response roll now) id off v h = rw off h
serve_absent s (Shutdown.heartbeat_request request response now) id off v h =
    let f = beat now request.cpu_usage request.memory_usage in
    ground (arith, h, find-modify request.node_id id f s.node_table.nodes)
serve_absent s (Shutdown.deregister_request request response) id off v h =
    ground (arith, h, find-erase request.node_id id s.node_table.nodes v.unique)
serve_absent s (Shutdown.discover_request request response) id off v h = h

-- Once the service is shut down, its table is valid and no Register handler is past its read of the
-- flag, no interleaving of handlers' steps brings in a node that is not in the table.
pub drained_admits_none :
    (s : System) (cs : List Step) (id : String)
    → Draining 0 s
    → IsValid s.service.node_table
    → get_node s.service.node_table id ≡ none
    → get_node (run s cs).service.node_table id ≡ none
unfolding shutdown
drained_admits_none s [] id d v h = h
drained_admits_none s (c ∷ cs) id d v h =
    let (v', h') = kept c in drained_admits_none (step s c) cs id (step-Draining 0 s c d) v' h'
  where
    kept :
        (c' : Step)
        → IsValid (step s c').service.node_table
          × (get_node (step s c').service.node_table id ≡ none)
    kept (begin request) = rw (d.stopped) (v, h)
    kept (finish i roll now) = nothing i roll now s.in_flight d.few
      where
        nothing :
            (i' : ℕ) (roll' : String) (now' : ℕ) (xs : List RegisterRequest)
            → length xs ≤ 0
            → IsValid (finish_at s (take_at i' xs) roll' now').service.node_table
              × (get_node (finish_at s (take_at i' xs) roll' now').service.node_table id ≡ none)
        nothing i' roll' now' [] e = (v, h)
        nothing i' roll' now' (x ∷ xs) e = absurd (omega arith)
    kept stop = (v, h)
    kept (other r) = (serve-IsValid s.service r v, serve_absent s.service r id d.stopped v h)

-- From a shutdown on, the handlers past their read of the flag become no more, whatever is served.
pub shutdown_drains :
    (s : System) (cs : List Step)
    → s.service.is_running ≡ false
    → ((run s cs).service.is_running ≡ false) × (length (run s cs).in_flight ≤ length s.in_flight)
shutdown_drains s cs off =
    let d = all (length s.in_flight) s cs (record { stopped = off; few = omega arith }) in
    (d.stopped, d.few)
  where
    all : (n : ℕ) (x : System) (ds : List Step) → Draining n x → Draining n (run x ds)
    all n x [] d = d
    all n x (c ∷ ds) d = all n (step x c) ds (step-Draining n x c d)

-- An acceptable registration whose handler has read the flag before Shutdown is carried out after
-- it: the node enters the table of a service that is shut down.
pub late_registration :
    (s : RegistryService) (request : RegisterRequest) (roll : String) (now : ℕ) (info : NodeInfo)
    → request.node_info ≡ some info
    → IsAcceptable s (some info)
    → let begun : System = record { service = s; in_flight = [] } in
      let after = (run begun (begin request ∷ stop ∷ finish 0 roll now ∷ [])).service in
      (after.is_running ≡ false)
      × (get_node after.node_table info.node_id
          ≡ some (fresh_entry info (String.◌++◌ info.node_id (String.◌++◌ "_" roll)) now))
unfolding shutdown register_node get_node find
late_registration s request roll now info e (running, named, room) =
    rw (running, e)
      (
        ground (arith, eq_iff info.node_id "", contains-find info.node_id s.node_table.nodes),
        ground (
          arith,
          eq_iff info.node_id "",
          eq_refl info.node_id,
          contains-find info.node_id s.node_table.nodes,
        ),
      )
