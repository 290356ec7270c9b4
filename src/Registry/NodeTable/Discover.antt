-- ===== src/Registry/NodeTable/Discover.antt =====
-- What NodeTable::get_nodes_by_service and get_all_nodes return, against the table seen as a map.
use d_ro_cm.Proto.{NodeInfo}
use d_ro_cm.Base.{
  Bool, none, ap, subst, All, All-Elem, Elem-map_inv, map, keep_if, if_intro, sym, ◌∙◌, ◌≢◌, String,
  ◌≡◌, refl, ◌⊎◌, inl, inr, ◌↔◌, true, List, [], ◌∷◌, some, Bool-cases, Elem, Elem-keep_if,
  contains_string, contains_string_iff, eq_iff, arith,
}
use d_ro_cm.Base.Maps.{UnorderedMap, find, values, IsUnique}
use d_ro_cm.Registry.NodeTable.{
  NodeEntry, NodeTable, get_node, get_all_nodes, get_nodes_by_service, select, is_selected,
  provides,
}
use d_ro_cm.Registry.NodeTable.Invariant.{IsValid, Entries}

-- Some service of the node is named in the filter.
abbrev pub SharesService : List String → List String → Type 0
SharesService filter services = (svc : String) × Elem svc services × Elem svc filter

provides_iff :
    (filter services : List String)
    → (provides filter services ≡ true) ↔ SharesService filter services
unfolding provides
provides_iff filter [] = ((λ h. cc), (λ h. absurd h.1))
provides_iff filter (svc ∷ services) =
    let ih = provides_iff filter services in
    let found = contains_string_iff filter svc in (there ih found, back ih found)
  where
    there :
        (provides filter services ≡ true) ↔ SharesService filter services
        → (contains_string filter svc ≡ true) ↔ Elem svc filter
        → provides filter (svc ∷ services) ≡ true
        → SharesService filter (svc ∷ services)
    there ih found h = elim (Bool-cases (contains_string filter svc)) [
      | inl c ↦ (svc, inl refl, found.0 c)
      | inr c ↦ let (s, offered, named) = ih.0 (rw (c, provides) at h) in (s, inr offered, named)
    ]

    back :
        (provides filter services ≡ true) ↔ SharesService filter services
        → (contains_string filter svc ≡ true) ↔ Elem svc filter
        → SharesService filter (svc ∷ services)
        → provides filter (svc ∷ services) ≡ true
    back ih found (s, inl e, named) = rw (found.1 (rw e named))
    back ih found (s, inr offered, named) = ground (arith, ih.1 (s, offered, named))

-- An entry is listed if and only if the table holds it under its own id.
Elem-values :
    (e : NodeEntry) (m : UnorderedMap NodeEntry)
    → IsUnique m
    → Entries m
    → Elem e (values m) ↔ (find e.info.node_id m ≡ some e)
unfolding values find
Elem-values e [] u h = ((λ a. absurd a), (λ p. cc))
Elem-values e ((j, d) ∷ m) u h =
    let ih = Elem-values e m u.1 h.1 in
    (
      (λ p. ground (arith, eq_iff j e.info.node_id, ih.0)),
      (λ p. ground (arith, eq_iff j e.info.node_id, ih.1)),
    )

-- What the discovery asks of an entry, apart from being in the table.
abbrev pub IsOffered : List String → NodeEntry → Type 0
IsOffered filter e =
    (e.missed_heartbeats ≡ 0) × ((filter ≡ []) ⊎ SharesService filter e.info.services)

pub is_selected_iff :
    (filter : List String) (e : NodeEntry) → (is_selected filter e ≡ true) ↔ IsOffered filter e
unfolding is_selected
is_selected_iff [] e = ((λ h. (ground arith, inl refl)), (λ h. ground arith))
is_selected_iff (s ∷ filter) e =
    let offered = provides_iff (s ∷ filter) e.info.services in (there offered, back offered)
  where
    there :
        (provides (s ∷ filter) e.info.services ≡ true) ↔ SharesService (s ∷ filter) e.info.services
        → is_selected (s ∷ filter) e ≡ true
        → IsOffered (s ∷ filter) e
    there offered h = (ground arith, inr (offered.0 (ground arith)))

    back :
        (provides (s ∷ filter) e.info.services ≡ true) ↔ SharesService (s ∷ filter) e.info.services
        → IsOffered (s ∷ filter) e
        → is_selected (s ∷ filter) e ≡ true
    back offered (healthy, inl p) = cc
    back offered (healthy, inr shared) = ground (arith, offered.1 shared)

-- In a valid table, discovery returns exactly the entries of the table that have missed no
-- heartbeat and, if the filter is not empty, provide one of its services.
pub Elem-get_nodes_by_service :
    (t : NodeTable) (filter : List String) (e : NodeEntry)
    → IsValid t
    → Elem e (get_nodes_by_service t filter)
      ↔ ((get_node t e.info.node_id ≡ some e) × IsOffered filter e)
unfolding get_nodes_by_service select get_node
Elem-get_nodes_by_service t filter e v =
    let kept = Elem-keep_if (is_selected filter) e (values t.nodes) in
    let listed = Elem-values e t.nodes v.unique v.entries in
    let chosen = is_selected_iff filter e in
    (
      (λ h. let (a, b) = kept.0 h in (listed.0 a, chosen.0 b)),
      (λ h. kept.1 (listed.1 h.0, chosen.1 h.1)),
    )

-- The snapshot lists exactly the entries of the table.
pub Elem-get_all_nodes :
    (t : NodeTable) (e : NodeEntry)
    → IsValid t
    → Elem e (get_all_nodes t) ↔ (get_node t e.info.node_id ≡ some e)
unfolding get_all_nodes get_node
Elem-get_all_nodes t e v = Elem-values e t.nodes v.unique v.entries

-- No two nodes of the list have the same id.
abbrev pub Distinct : List NodeInfo → Type 0
Distinct [] = Unit
Distinct (info ∷ infos) = All (λ (i : NodeInfo). info.node_id ≢ i.node_id) infos × Distinct infos

abbrev pub infos : List NodeEntry → List NodeInfo
infos entries = map (λ (e : NodeEntry). e.info) entries

apart :
    (j : String) (i : NodeInfo) (p : NodeEntry → Bool) (m : UnorderedMap NodeEntry)
    → IsUnique m
    → Entries m
    → find j m ≡ none
    → Elem i (infos (keep_if p (values m)))
    → j ≢ i.node_id
apart j i p m u h absent at same =
    let (e, kept, is) = Elem-map_inv (λ (e : NodeEntry). e.info) i (keep_if p (values m)) at in
    let held = (Elem-values e m u h).0 ((Elem-keep_if p e (values m)).0 kept).0 in
    let own : e.info.node_id ≡ j = ap (λ (n : NodeInfo). n.node_id) is ∙ sym same in
    let found : find j m ≡ some e = subst (λ k. find k m ≡ some e) own held in cc

infos-Distinct :
    (p : NodeEntry → Bool) (m : UnorderedMap NodeEntry)
    → IsUnique m
    → Entries m
    → Distinct (infos (keep_if p (values m)))
unfolding values
infos-Distinct p [] u h = tt
infos-Distinct p ((j, e) ∷ m) u h =
    let rest = infos-Distinct p m u.1 h.1 in
    if_intro (λ (l : List NodeEntry). Distinct (infos l)) (p e)
      (λ _. (
        All-Elem _ (infos (keep_if p (values m)))
            (λ i at same. apart j i p m u.1 h.1 u.0 at (sym h.0.0 ∙ same)),
        rest,
      ))
      (λ _. rest)

-- Discovery lists no node twice.
pub get_nodes_by_service-Distinct :
    (t : NodeTable) (filter : List String)
    → IsValid t
    → Distinct (infos (get_nodes_by_service t filter))
unfolding get_nodes_by_service select
get_nodes_by_service-Distinct t filter v =
    infos-Distinct (is_selected filter) t.nodes v.unique v.entries

keep_if-all : (l : List NodeEntry) → keep_if (λ _. true) l ≡ l
keep_if-all [] = refl
keep_if-all (e ∷ l) = ap (λ r. e ∷ r) (keep_if-all l)

-- Nor does the snapshot.
pub get_all_nodes-Distinct : (t : NodeTable) → IsValid t → Distinct (infos (get_all_nodes t))
unfolding get_all_nodes
get_all_nodes-Distinct t v =
    subst (λ l. Distinct (infos l)) (keep_if-all (values t.nodes))
      (infos-Distinct (λ _. true) t.nodes v.unique v.entries)
