-- ===== src/Registry/NodeTable/Interface/Listing.antt =====
-- The lists that the ledger answers: the entries of its ids, and the discovery's filter.
use d_ro_cm.Base.{
  String, ◌≡◌, ◌≢◌, refl, sym, ap, subst, ◌∙◌, ◌↔◌, ◌⊎◌, inl, inr, true, Option, none, some, List,
  [], ◌∷◌, length, Elem, All, All-Elem, contains_string, contains_string_iff, Bool-cases, arith,
}
use d_ro_cm.Base.Keyed.{Apart}
use d_ro_cm.Registry.NodeTable.{NodeEntry}
use d_ro_cm.Registry.NodeTable.Discover.{SharesService, IsOffered}
use d_ro_cm.Registry.NodeTable.Interface.{is_some, entry_id}
use d_ro_cm.Registry.NodeTable.Interface.Ledger.{AtHome, collect, prepend, names_one, is_offered}

Elem-prepend :
    (e : NodeEntry) (k : String) (o : Option NodeEntry) (rest : List NodeEntry)
    → Elem e (prepend o rest) ↔ ((o ≡ some e) ⊎ Elem e rest)
Elem-prepend e k none rest = ((λ h. inr h), (λ h. ground arith))
Elem-prepend e k (some x) rest = ((λ h. ground arith), (λ h. ground arith))

All-at_id : (k : String) (ks : List String) {j : String} → All (λ i. k ≢ i) ks → Elem j ks → k ≢ j
All-at_id k [] h at = absurd at
All-at_id k (i ∷ ks) h (inl e) = subst (λ j. k ≢ j) e h.0
All-at_id k (i ∷ ks) h (inr at) = All-at_id k ks h.1 at

Apart-prepend :
    (k : String) (o : Option NodeEntry) (rest : List NodeEntry)
    → AtHome k o
    → All (λ x. k ≢ entry_id x) rest
    → Apart entry_id rest
    → Apart entry_id (prepend o rest)
Apart-prepend k none rest home all apart = apart
Apart-prepend k (some e) rest home all apart =
    (subst (λ j. All (λ x. j ≢ entry_id x) rest) (sym home) all, apart)

module _ (entry : String → Option NodeEntry) (own : (k : String) → AtHome k (entry k)) where
  named : (k : String) (e : NodeEntry) → entry k ≡ some e → entry_id e ≡ k
  named k e h = subst (AtHome k) h (own k)

  collect_forth :
      (e : NodeEntry) (k : String) (ks : List String)
      → (Elem e (collect entry ks) → Elem (entry_id e) ks × (entry (entry_id e) ≡ some e))
      → (entry k ≡ some e) ⊎ Elem e (collect entry ks)
      → Elem (entry_id e) (k ∷ ks) × (entry (entry_id e) ≡ some e)
  collect_forth e k ks ih (inl h) = let at = named k e h in (inl (sym at), ap entry at ∙ h)
  collect_forth e k ks ih (inr h) = (inr (ih h).0, (ih h).1)

  collect_back :
      (e : NodeEntry) (k : String) (ks : List String)
      → (Elem (entry_id e) ks × (entry (entry_id e) ≡ some e) → Elem e (collect entry ks))
      → Elem (entry_id e) (k ∷ ks)
      → entry (entry_id e) ≡ some e
      → (entry k ≡ some e) ⊎ Elem e (collect entry ks)
  collect_back e k ks ih (inl at) h = inl (ap entry at ∙ h)
  collect_back e k ks ih (inr at) h = inr (ih (at, h))

  pub Elem-collect :
      (e : NodeEntry) (ks : List String)
      → Elem e (collect entry ks) ↔ (Elem (entry_id e) ks × (entry (entry_id e) ≡ some e))
  Elem-collect e [] = ((λ h. absurd h), (λ h. h.0))
  Elem-collect e (k ∷ ks) =
      let ih = Elem-collect e ks in
      let split = Elem-prepend e k (entry k) (collect entry ks) in
      (
        (λ h. collect_forth e k ks ih.0 (split.0 h)),
        (λ h. split.1 (collect_back e k ks ih.1 h.0 h.1)),
      )

  pub Apart-collect :
      (ks : List String) → Apart (λ (k : String). k) ks → Apart entry_id (collect entry ks)
  Apart-collect [] h = tt
  Apart-collect (k ∷ ks) h =
      Apart-prepend k (entry k) (collect entry ks) (own k)
        (All-Elem (λ x. k ≢ entry_id x) (collect entry ks)
          (λ e at. All-at_id k ks h.0 ((Elem-collect e ks).0 at).0))
        (Apart-collect ks h.1)

  pub length-collect :
      (ks : List String)
      → ((k : String) → Elem k ks → is_some (entry k) ≡ true)
      → length ks ≡ length (collect entry ks)
  length-collect [] h = refl
  length-collect (k ∷ ks) h =
      ground (arith, h k (inl refl), length-collect ks (λ j at. h j (inr at)))

names_one_iff :
    (filter services : List String)
    → (names_one filter services ≡ true) ↔ SharesService filter services
names_one_iff [] services = ((λ h. cc), (λ h. absurd h.2))
names_one_iff (svc ∷ filter) services =
    let ih = names_one_iff filter services in
    let found = contains_string_iff services svc in
    (
      (λ h. elim (Bool-cases (contains_string services svc)) [
        | inl c ↦ (svc, found.0 c, inl refl)
        | inr c ↦ let (s, offered, later) = ih.0 (ground (arith, h)) in (s, offered, inr later)
      ]),
      (λ (s, offered, at). elim at [
        | inl same ↦ ground (arith, found.1 (subst (λ i. Elem i services) (sym same) offered))
        | inr later ↦ ground (arith, ih.1 (s, offered, later))
      ]),
    )

pub is_offered_iff :
    (filter : List String) (e : NodeEntry) → (is_offered filter e ≡ true) ↔ IsOffered filter e
is_offered_iff [] e = ((λ h. (ground arith, inl refl)), (λ h. ground arith))
is_offered_iff (svc ∷ filter) e =
    let wanted = names_one_iff (svc ∷ filter) e.info.services in
    (
      (λ h. (ground arith, inr (wanted.0 (ground arith)))),
      (λ (healthy, choice). elim choice [
        | inl p ↦ cc
        | inr shared ↦ ground (arith, wanted.1 shared)
      ]),
    )
