-- ===== src/Registry/NodeTable/Interface/Answers.antt =====
-- Any two classes that keep the promises of Interface answer their clients alike.
use d_ro_cm.Base.{
  ℕ, ◌<◌, String, ◌≡◌, refl, subst, sym, ap, ◌∙◌, ◌↔◌, Bool, List, [], ◌∷◌, Option, some, leb,
  length, Elem, u32_mod,
}
use d_ro_cm.Base.Keyed.{Apart, Apart-length}
use d_ro_cm.Registry.NodeTable.{NodeEntry}
use d_ro_cm.Registry.NodeTable.Discover.{IsOffered}
use d_ro_cm.Registry.NodeTable.Sweep.{IsStale}
use d_ro_cm.Registry.NodeTable.History
use d_ro_cm.Registry.NodeTable.History.{Call, next_entry}
use d_ro_cm.Registry.NodeTable.Interface.{Operations, Meaning, Keeps, after, entry_id}

-- A call of any of the methods.
pub data Question : Type 0 where
  call : Call → Question
  all_nodes : Question
  nodes_by_service : List String → Question
  node : String → Question
  node_count : Question
  has_node : String → Question

pub data Answer : Type 0 where
  success : Bool → Answer
  ids : List String → Answer
  done : Answer
  entries : List NodeEntry → Answer
  entry : Option NodeEntry → Answer
  count : ℕ → Answer

module _ {T : Type 0} (c : Operations T) where
  abbrev pub answer_call : T → Call → Answer
  answer_call t (History.register info session_id now) =
      success (c.register_node t info session_id now).1
  answer_call t (History.deregister node_id) = success (c.deregister_node t node_id).1
  answer_call t (History.heartbeat node_id cpu mem connections now) =
      success (c.update_heartbeat t node_id cpu mem connections now).1
  answer_call t History.increment = done
  answer_call t (History.remove_stale max) = ids (c.remove_stale_nodes t max).1

  abbrev pub answer : T → Question → Answer
  answer t (call k) = answer_call t k
  answer t all_nodes = entries (c.get_all_nodes t)
  answer t (nodes_by_service filter) = entries (c.get_nodes_by_service t filter)
  answer t (node id) = entry (c.get_node t id)
  answer t node_count = count (c.get_node_count t)
  answer t (has_node id) = success (c.has_node t id)

  abbrev pub next : T → Question → T
  next t (call k) = after c t k
  next t _ = t

  unfoldable pub answers : T → List Question → List Answer
  answers t [] = []
  answers t (q ∷ qs) = answer t q ∷ answers (next t q) qs

-- The same elements, in whatever order.
abbrev pub SameElements : {A : Type 0} → List A → List A → Type 0
SameElements xs ys = ((a : _) → Elem a xs ↔ Elem a ys) × (length xs ≡ length ys)

abbrev pub Same : Answer → Answer → Type 0
Same (ids xs) (ids ys) = SameElements xs ys
Same (entries xs) (entries ys) = SameElements xs ys
Same a b = a ≡ b

abbrev pub AllSame : List Answer → List Answer → Type 0
AllSame [] [] = Unit
AllSame (a ∷ rest) (b ∷ rest') = Same a b × AllSame rest rest'
AllSame _ _ = ⊥

-- Lists without repetition whose elements are described alike.
same_by :
    {A : Type 0} (key : A → String) (P Q : A → Type 0) (xs ys : List A)
    → Apart key xs
    → Apart key ys
    → ((a : A) → Elem a xs ↔ P a)
    → ((a : A) → Elem a ys ↔ Q a)
    → ((a : A) → P a ↔ Q a)
    → SameElements xs ys
same_by {A} key P Q xs ys apart apart' l r same =
    let both : (a : A) → Elem a xs ↔ Elem a ys =
      λ a. ((λ h. (r a).1 ((same a).0 ((l a).0 h))), (λ h. (l a).1 ((same a).1 ((r a).0 h)))) in
    (both, Apart-length key xs ys apart apart' both)

module _ {T U : Type 0} {c : Operations T} {m : Meaning T} {d : Operations U} {n : Meaning U}
    (left : Keeps c m) (right : Keeps d n) where
  -- Two tables in order with the same entries and capacity.
  record Alike (t : T) (u : U) : Type 0 where
    good : m.IsGood t
    good' : n.IsGood u
    capacity : m.max_nodes t ≡ n.max_nodes u
    held : (id : String) → c.get_node t id ≡ d.get_node u id

  module _ (t : T) (u : U) (a : Alike t u) where
    all_same : SameElements (c.get_all_nodes t) (d.get_all_nodes u)
    all_same =
        let p = left.promises t a.good in
        let q = right.promises u a.good' in
        same_by entry_id (λ e. c.get_node t (entry_id e) ≡ some e)
          (λ e. d.get_node u (entry_id e) ≡ some e) (c.get_all_nodes t) (d.get_all_nodes u)
          p.listed_once q.listed_once p.listed q.listed
          (λ e. ((λ h. sym (a.held (entry_id e)) ∙ h), (λ h. a.held (entry_id e) ∙ h)))

    selected_same :
        (filter : List String)
        → SameElements (c.get_nodes_by_service t filter) (d.get_nodes_by_service u filter)
    selected_same filter =
        let p = left.promises t a.good in
        let q = right.promises u a.good' in
        same_by entry_id (λ e. (c.get_node t (entry_id e) ≡ some e) × IsOffered filter e)
          (λ e. (d.get_node u (entry_id e) ≡ some e) × IsOffered filter e)
          (c.get_nodes_by_service t filter) (d.get_nodes_by_service u filter)
          (p.selected_once filter) (q.selected_once filter) (p.selected filter) (q.selected filter)
          (λ e. (
            (λ h. (sym (a.held (entry_id e)) ∙ h.0, h.1)),
            (λ h. (a.held (entry_id e) ∙ h.0, h.1)),
          ))

    removed_same :
        (max : ℕ) → SameElements (c.remove_stale_nodes t max).1 (d.remove_stale_nodes u max).1
    removed_same max =
        let p = left.promises t a.good in
        let q = right.promises u a.good' in
        same_by (λ id. id) (λ id. IsStale max (c.get_node t id))
          (λ id. IsStale max (d.get_node u id)) (c.remove_stale_nodes t max).1
          (d.remove_stale_nodes u max).1 (p.removed_once max) (q.removed_once max) (p.removed max)
          (q.removed max)
          (λ id. (
            (λ h. subst (IsStale max) (a.held id) h),
            (λ h. subst (IsStale max) (sym (a.held id)) h),
          ))

    count_same : c.get_node_count t ≡ d.get_node_count u
    count_same =
        (left.promises t a.good).counted ∙ all_same.1 ∙ sym (right.promises u a.good').counted

    full_same : leb (m.max_nodes t) (c.get_node_count t) ≡ leb (n.max_nodes u) (d.get_node_count u)
    full_same = cc (count_same, a.capacity)

    call-Same : (k : Call) → Same (answer_call c t k) (answer_call d u k)
    call-Same (History.register info session_id now) =
        let l = (left.promises t a.good).registered info session_id now in
        let r = (right.promises u a.good').registered info session_id now in
        cc (l, r, full_same, a.held info.node_id)
    call-Same (History.deregister id) = cc (
      (left.promises t a.good).deregistered id,
      (right.promises u a.good').deregistered id,
      a.held id,
    )
    call-Same (History.heartbeat id cpu mem connections now) = cc (
      (left.promises t a.good).beaten id cpu mem connections now,
      (right.promises u a.good').beaten id cpu mem connections now,
      a.held id,
    )
    call-Same History.increment = refl
    call-Same (History.remove_stale max) = removed_same max

    question-Same : (q : Question) → Same (answer c t q) (answer d u q)
    question-Same (call k) = call-Same k
    question-Same all_nodes = all_same
    question-Same (nodes_by_service filter) = selected_same filter
    question-Same (node id) = ap entry (a.held id)
    question-Same node_count = ap count count_same
    question-Same (has_node id) =
        cc ((left.promises t a.good).has id, (right.promises u a.good').has id, a.held id)

    call-Alike : (k : Call) → Alike (after c t k) (after d u k)
    call-Alike k = record {
      good = (left.promises t a.good).kept k;
      good' = (right.promises u a.good').kept k;
      capacity =
          (left.promises t a.good).capacity k
          ∙ a.capacity
          ∙ sym ((right.promises u a.good').capacity k);
      held = λ id.
          (left.promises t a.good).entries k id
          ∙ cc (full_same, a.held id)
          ∙ sym ((right.promises u a.good').entries k id);
    }

    next-Alike : (q : Question) → Alike (next c t q) (next d u q)
    next-Alike (call k) = call-Alike k
    next-Alike all_nodes = a
    next-Alike (nodes_by_service filter) = a
    next-Alike (node id) = a
    next-Alike node_count = a
    next-Alike (has_node id) = a

  answers_same :
      (t : T) (u : U) (qs : List Question) → Alike t u → AllSame (answers c t qs) (answers d u qs)
  unfolding answers
  answers_same t u [] a = tt
  answers_same t u (q ∷ qs) a =
      (question-Same t u a q, answers_same (next c t q) (next d u q) qs (next-Alike t u a q))

  pub answers_agree :
      (max_nodes : ℕ) (qs : List Question)
      → max_nodes < u32_mod
      → AllSame (answers c (c.make max_nodes) qs) (answers d (d.make max_nodes) qs)
  answers_agree max_nodes qs fits = answers_same (c.make max_nodes) (d.make max_nodes) qs (record {
    good = left.made max_nodes fits;
    good' = right.made max_nodes fits;
    capacity = left.made_capacity max_nodes ∙ sym (right.made_capacity max_nodes);
    held = λ id. left.made_empty max_nodes id ∙ sym (right.made_empty max_nodes id);
  })
