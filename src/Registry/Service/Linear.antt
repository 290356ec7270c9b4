-- ===== src/Registry/Service/Linear.antt =====
-- Interleaved handlers, with Register in its two steps, against handlers one after the other.
use d_ro_cm.Base.{
  ℕ, String, ◌≡◌, refl, sym, subst, ap, ◌∙◌, Bool, true, false, Bool-cases, inl, inr, List, [], ◌∷◌,
  ◌++◌, Option, none, some, if◌then◌else◌,
}
use d_ro_cm.Proto.{RegisterRequest, empty_register_response}
use d_ro_cm.Registry.NodeTable.History
use d_ro_cm.Registry.Service.Calls.{calls, info_calls, serve_calls, register_request_calls}
use d_ro_cm.Registry.Service.{RegistryService, register_request, shutdown}
use d_ro_cm.Registry.Service.Shutdown
use d_ro_cm.Registry.Service.Shutdown.{Request, serve, serve_all, serve-is_running}
use d_ro_cm.Registry.Service.Concurrent.{
  System, Step, begin, finish, stop, other, take_at, finish_at, step, run,
  register_request-is_running,
}

-- Does the request reach the table of a service whose flag is as given?
abbrev pub reaches : Bool → Request → Bool
reaches flag (Shutdown.register_request request response roll now) = flag
reaches flag _ = true

-- The requests of the steps, each where its handler calls the table; `flag` and `in_flight` are the
-- service's flag and the handlers that have read it.
abbrev pub in_order : Bool → List RegisterRequest → List Step → List Request
in_order flag in_flight [] = []
in_order flag in_flight (begin request ∷ cs) =
    in_order flag (if flag then in_flight ++ request ∷ [] else in_flight) cs
in_order flag in_flight (finish i roll now ∷ cs) = elim (take_at i in_flight) [
  | none ↦ in_order flag in_flight cs
  | some (request, rest) ↦
      Shutdown.register_request request empty_register_response roll now ∷ in_order flag rest cs
]
in_order flag in_flight (stop ∷ cs) = in_order false in_flight cs
in_order flag in_flight (other r ∷ cs) =
    let rest = in_order flag in_flight cs in if reaches flag r then r ∷ rest else rest

-- The services have the same table, and the second takes registrations.
abbrev Matches : RegistryService → RegistryService → Type 0
Matches s t = (s.node_table ≡ t.node_table) × (t.is_running ≡ true)

calls_reached : (flag : Bool) (r : Request) → reaches flag r ≡ true → calls flag r ≡ calls true r
calls_reached true (Shutdown.register_request request response roll now) h = refl
calls_reached false (Shutdown.register_request request response roll now) h = cc
calls_reached flag (Shutdown.heartbeat_request request response now) h = refl
calls_reached flag (Shutdown.deregister_request request response) h = refl
calls_reached flag (Shutdown.discover_request request response) h = refl

calls_unreached : (flag : Bool) (r : Request) → reaches flag r ≡ false → calls flag r ≡ []
calls_unreached true (Shutdown.register_request request response roll now) h = cc
calls_unreached false (Shutdown.register_request request response roll now) h = refl
calls_unreached flag (Shutdown.heartbeat_request request response now) h = cc
calls_unreached flag (Shutdown.deregister_request request response) h = cc
calls_unreached flag (Shutdown.discover_request request response) h = refl

-- A request served at both services, and one that does not reach the table of the first.
both :
    (s t : RegistryService) (r : Request)
    → Matches s t
    → reaches s.is_running r ≡ true
    → Matches (serve s r) (serve t r)
both s t r (same, on) h = (
  serve_calls s r
      ∙ ap (History.run s.node_table) (calls_reached s.is_running r h)
      ∙ ap (λ x. History.run x (calls true r)) same
      ∙ ap (λ b. History.run t.node_table (calls b r)) (sym on)
      ∙ sym (serve_calls t r),
  serve-is_running t r ∙ on,
)

one :
    (s t : RegistryService) (r : Request)
    → Matches s t
    → reaches s.is_running r ≡ false
    → Matches (serve s r) t
unfolding History.run
one s t r (same, on) h =
    (serve_calls s r ∙ ap (History.run s.node_table) (calls_unreached s.is_running r h) ∙ same, on)

-- A handler that goes on to the table, and the whole handler.
late :
    (s t : RegistryService) (request : RegisterRequest) (roll : String) (now : ℕ)
    → Matches s t
    → Matches
        (register_request s request.node_info empty_register_response roll now).0
        (serve t (Shutdown.register_request request empty_register_response roll now))
late s t request roll now (same, on) =
    let whole = Shutdown.register_request request empty_register_response roll now in
    let o = request.node_info in
    (
      register_request_calls s o empty_register_response roll now
          ∙ ap (λ x. History.run x (info_calls o roll now)) same
          ∙ ap (λ b. History.run t.node_table (calls b whole)) (sym on)
          ∙ sym (serve_calls t whole),
      serve-is_running t whole ∙ on,
    )

-- The table after the steps, and after the requests in order.
abbrev Ends : System → RegistryService → List Step → Type 0
Ends s t cs =
    (run s cs).service.node_table
    ≡ (serve_all t (in_order s.service.is_running s.in_flight cs)).node_table

-- The same, for a flag that is known to be the one before.
at_flag :
    (s : System) (t : RegistryService) (cs : List Step) (flag : Bool)
    → s.service.is_running ≡ flag
    → Ends s t cs
    → (run s cs).service.node_table ≡ (serve_all t (in_order flag s.in_flight cs)).node_table
at_flag s t cs flag e h = h ∙ ap (λ b. (serve_all t (in_order b s.in_flight cs)).node_table) e

finish-Ends :
    (s : System) (t : RegistryService) (o : Option (RegisterRequest × List RegisterRequest))
    (roll : String) (now : ℕ) (cs : List Step)
    → Matches s.service t
    → ((s' : System) (t' : RegistryService) → Matches s'.service t' → Ends s' t' cs)
    → (run (finish_at s o roll now) cs).service.node_table
      ≡ (serve_all t (elim o [
        | none ↦ in_order s.service.is_running s.in_flight cs
        | some (request, rest) ↦
            Shutdown.register_request request empty_register_response roll now
            ∷ in_order s.service.is_running rest cs
      ])).node_table
unfolding serve_all
finish-Ends s t none roll now cs m ih = ih s t m
finish-Ends s t (some (request, rest)) roll now cs m ih =
    let s' = finish_at s (some (request, rest)) roll now in
    let t' = serve t (Shutdown.register_request request empty_register_response roll now) in
    at_flag s' t' cs s.service.is_running
      (register_request-is_running s.service request.node_info roll now)
      (ih s' t' (late s.service t request roll now m))

step_begin :
    (s : System) (request : RegisterRequest)
    → ((step s (begin request)).service ≡ s.service)
      × ((step s (begin request)).in_flight
          ≡ (if s.service.is_running then s.in_flight ++ request ∷ [] else s.in_flight))
step_begin s request = elim (Bool-cases s.service.is_running) [
  | inl on ↦ (rw on refl, rw on refl)
  | inr off ↦ (rw off refl, rw off refl)
]

run_in_order :
    (s : System) (t : RegistryService) (cs : List Step) → Matches s.service t → Ends s t cs
unfolding serve_all shutdown
run_in_order s t [] m = m.0
run_in_order s t (begin request ∷ cs) m =
    let s' = step s (begin request) in
    let (same, waiting) = step_begin s request in
    at_flag s' t cs s.service.is_running (ap (λ (x : RegistryService). x.is_running) same)
      (run_in_order s' t cs (subst (λ x. Matches x t) (sym same) m))
    ∙ ap (λ l. (serve_all t (in_order s.service.is_running l cs)).node_table) waiting
run_in_order s t (finish i roll now ∷ cs) m =
    finish-Ends s t (take_at i s.in_flight) roll now cs m (λ s' t' m'. run_in_order s' t' cs m')
run_in_order s t (stop ∷ cs) m = run_in_order (step s stop) t cs m
run_in_order s t (other r ∷ cs) m =
    let s' = step s (other r) in
    let same = serve-is_running s.service r in
    elim (Bool-cases (reaches s.service.is_running r)) [
      | inl on ↦ rw on (
          at_flag s' (serve t r) cs s.service.is_running same
            (run_in_order s' (serve t r) cs (both s.service t r m on)))
      | inr off ↦ rw off (
          at_flag s' t cs s.service.is_running same
            (run_in_order s' t cs (one s.service t r m off)))
    ]

-- Whatever the interleaving of handlers, with Register in its two steps, and of Shutdown: the table
-- is the same as after the whole requests, one after the other at a service that takes
-- registrations, each where its handler calls the table; a Register that reads the flag after
-- Shutdown is none of them.
pub run-in_order :
    (s : System) (cs : List Step)
    → (run s cs).service.node_table
      ≡ (serve_all
          (record s.service { is_running = true })
          (in_order s.service.is_running s.in_flight cs)).node_table
run-in_order s cs = run_in_order s (record s.service { is_running = true }) cs (refl, refl)
