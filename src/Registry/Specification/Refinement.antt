-- ===== src/Registry/Specification/Refinement.antt =====
-- The service of registry_service.cpp, with its table and the health checker's two calls, against the
-- specification, over any sequence of steps.
use d_ro_cm.Base.{ℕ, refl, List, [], ◌∷◌}
use d_ro_cm.Registry.NodeTable.{new_table, get_node}
use d_ro_cm.Base.Maps.{find}
use d_ro_cm.Registry.NodeTable.Invariant.{new_table-IsValid}
use d_ro_cm.Registry.Service.{RegistryService, new_service}
use d_ro_cm.Registry.Service.Shutdown.{
  register_request, heartbeat_request, deregister_request, discover_request,
}
use d_ro_cm.Registry.Specification.{
  Step, Answer, Trace, idle, step, serve, increment, remove_stale, shutdown,
}
use d_ro_cm.Registry.Specification.Fates.{Directory, empty_directory}
use d_ro_cm.Registry.Specification.Represents.{respond, Represents, Refines}
use d_ro_cm.Registry.Specification.Steps.{
  register_lem, heartbeat_lem, deregister_lem, discover_lem, increment_lem, remove_stale_lem,
  shutdown_lem,
}

respond-Refines :
    (s : RegistryService) (d : Directory) (st : Step) → Represents s d → Refines d st (respond s st)
respond-Refines s d (serve (register_request request response roll now)) r =
    register_lem s d r request request.node_info response roll now
respond-Refines s d (serve (heartbeat_request request response now)) r =
    heartbeat_lem s d r request response now
respond-Refines s d (serve (deregister_request request response)) r =
    deregister_lem s d r request response
respond-Refines s d (serve (discover_request request response)) r =
    discover_lem s d r request response
respond-Refines s d increment r = increment_lem s d r
respond-Refines s d (remove_stale max) r = remove_stale_lem s d r max
respond-Refines s d shutdown r = shutdown_lem s d r

-- The steps of the program, each with its answer, and the service that they leave.
unfoldable pub respond_all : RegistryService → List Step → List (Step × Answer) × RegistryService
unfolding respond
respond_all s [] = ([], s)
respond_all s (st ∷ steps) =
    let (s', answer) = respond s st in
    let (rest, last) = respond_all s' steps in ((st, answer) ∷ rest, last)

-- From a service that stands for a directory, which knows each id's entry, their number, the
-- capacity and whether registrations are taken, whatever requests, steps of the health checker and
-- shutdowns come: each answer, status and response message, is one that the specification allows at
-- that point, and the service stands for the directory that it leaves.
pub respond_all-Trace :
    (s : RegistryService) (d : Directory) (steps : List Step)
    → Represents s d
    → (d' : Directory) × Trace d (respond_all s steps).0 d' × Represents (respond_all s steps).1 d'
unfolding respond_all
respond_all-Trace s d [] r = (d, idle d, r)
respond_all-Trace s d (st ∷ steps) r =
    let (d', allowed, r') = respond-Refines s d st r in
    let (d'', trace, r'') = respond_all-Trace (respond s st).0 d' steps r' in
    (d'', step st (respond s st).1 allowed trace, r'')

pub new_service-Represents :
    (max_nodes : ℕ) → Represents (new_service max_nodes) (empty_directory max_nodes)
unfolding new_service new_table get_node find
new_service-Represents max_nodes = record {
  valid = new_table-IsValid max_nodes;
  entries = λ id. refl;
  counted = refl;
  same_capacity = refl;
  same_flag = refl;
}
