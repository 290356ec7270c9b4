-- ===== src/Registry/Specification/Discovery.antt =====
-- What Discover lists, as the requests and answers so far tell it: of each node the metadata of its
-- last accepted registration and the heartbeats it has missed since it was last heard.
use mathlib.Core.Option
use d_ro_cm.Base.{
  ℕ, String, ◌≡◌, refl, sym, subst, ◌∙◌, ap, ◌↔◌, ◌⊎◌, List, [], Option, none, some, Elem, ◌<◌,
  u32_mod, arith,
}
use d_ro_cm.Proto.{NodeInfo, DiscoverRequest, empty_discover_response}
use d_ro_cm.Registry.NodeTable.{NodeEntry}
use d_ro_cm.Registry.NodeTable.Discover.{SharesService}
use d_ro_cm.Registry.Service.{RegistryService, new_service, discover}
use d_ro_cm.Registry.Specification.{Step}
use d_ro_cm.Registry.Specification.Fates.{Directory, empty_directory}
use d_ro_cm.Registry.Specification.Told.{
  Report, report, told_all, checks, Trace-told_all, steps_of-respond_all,
}
use d_ro_cm.Registry.Specification.Represents.{Represents}
use d_ro_cm.Registry.Specification.Steps.{infos-Finds}
use d_ro_cm.Registry.Specification.Refinement.{
  respond_all, respond_all-Trace, new_service-Represents,
}

reported :
    (o : Option NodeEntry) (r : Report)
    → Option.map report o ≡ some r
    → (e : NodeEntry) × (o ≡ some e) × (report e ≡ r)
reported none r h = cc
reported (some e) r h = (e, refl, cc)

-- The filter is empty or names one of the services.
abbrev pub Wants : List String → NodeInfo → Type 0
Wants filter info = (filter ≡ []) ⊎ SharesService filter info.services

discovered_iff :
    (s : RegistryService) (d : Directory) (ask : DiscoverRequest) (info : NodeInfo)
    → Represents s d
    → Elem info (discover s ask empty_discover_response).1.nodes ↔ (
        (Option.map report (d.entry info.node_id) ≡ some (info, 0)) × Wants ask.service_filter info)
unfolding discover
discovered_iff s d ask info r =
    let filter = ask.service_filter in
    let found = (infos-Finds s d r filter).offered info in
    (
      (λ h.
          let (e, held, (none_missed, wanted), same) = found.0 h in
          let at : d.entry info.node_id ≡ some e =
            subst (λ (i : NodeInfo). d.entry i.node_id ≡ some e) same held in
          (rw (at, same, none_missed) refl, subst (Wants filter) same wanted)),
      (λ h.
          let (e, at, same_report) = reported (d.entry info.node_id) (info, 0) h.0 in
          let same : e.info ≡ info = ap (λ (x : Report). x.0) same_report in
          found.1 (
            e,
            subst (λ (i : NodeInfo). d.entry i.node_id ≡ some e) (sym same) at,
            (ap (λ (x : Report). x.1) same_report, subst (Wants filter) (sym same) h.1),
            same,
          )),
    )

-- At a service that has been through any requests, checker steps and shutdowns since it was new,
-- with fewer than 2^32 checks (beyond which a node's counter can wrap), Discover lists exactly the
-- metadata with which a node was last accepted by Register, if it was neither deregistered nor
-- removed since, no check has counted a miss since its last registration or accepted heartbeat, and
-- the filter is empty or names one of its services.
pub discovered_from_answers :
    (max_nodes : ℕ) (steps : List Step) (ask : DiscoverRequest) (info : NodeInfo)
    → checks steps < u32_mod
    → let (history, s) = respond_all (new_service max_nodes) steps in
      Elem info (discover s ask empty_discover_response).1.nodes
      ↔ ((told_all info.node_id none history ≡ some (info, 0)) × Wants ask.service_filter info)
discovered_from_answers max_nodes steps ask info few =
    let (d, trace, r) =
      respond_all-Trace (new_service max_nodes) (empty_directory max_nodes) steps
        (new_service-Represents max_nodes) in
    let s = (respond_all (new_service max_nodes) steps).1 in
    let listed = discovered_iff s d ask info r in
    let bound = ap checks (steps_of-respond_all (new_service max_nodes) steps) in
    let same = Trace-told_all info.node_id 0 tt (omega (arith, bound)) trace in
    (
      (λ h. let (at, wanted) = listed.0 h in (sym same ∙ at, wanted)),
      (λ h. listed.1 (same ∙ h.0, h.1)),
    )
