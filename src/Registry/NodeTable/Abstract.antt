-- ===== src/Registry/NodeTable/Abstract.antt =====
-- The table without its order: valid tables up to the order of iteration, as a quotient.
use mathlib.Core.Quot
use mathlib.Core.Quot.{Quot, Quot-set}
use mathlib.Core.List.{Permᴰ}
use mathlib.Core.List.Permᴰ
use d_ro_cm.Base.{
  ℕ, ◌+◌, ◌<◌, String, ◌≡◌, refl, ◌≢◌, ap, ◌∙◌, sym, true, false, Bool-cases, inl, inr, ◌∷◌, length,
  eq_iff, arith,
}
use d_ro_cm.Base.Maps.{contains, try_emplace}
use d_ro_cm.Proto.{NodeInfo}
use d_ro_cm.Registry.NodeTable.{NodeTable, register_node, fresh_entry}
use d_ro_cm.Registry.NodeTable.History.{Call, register, apply}
use d_ro_cm.Registry.NodeTable.Invariant.{IsValid, apply-IsValid}
use d_ro_cm.Registry.NodeTable.Order.{SameTable, apply-SameTable}

abbrev pub ValidTable : Type 0
ValidTable = (t : NodeTable) × IsValid t

abbrev pub Same : ValidTable → ValidTable → Type 0
Same s t = SameTable s.0 t.0

abbrev pub AbstractTable : Type 0
AbstractTable = Quot Same

-- A call on the abstract table: that it respects the relation is that the order does not matter.
unfoldable pub abstract_apply : Call → AbstractTable → AbstractTable
abstract_apply c =
    Quot.lift Quot-set (λ t. Quot.mk (apply t.0 c, apply-IsValid t.0 c t.1))
      (λ s t h. Quot.sound (apply-SameTable s.0 t.0 c s.1.unique h))

-- The table with a fresh entry.
abbrev with_entry : NodeTable → NodeInfo → String → ℕ → NodeTable
with_entry t info sid now = record t { nodes = (info.node_id, fresh_entry info sid now) ∷ t.nodes }

-- A registration at a table with room: of a node that is there, and of one that is not.
register-held :
    (t : NodeTable) (info : NodeInfo) (sid : String) (now : ℕ)
    → length t.nodes < t.max_nodes
    → contains info.node_id t.nodes ≡ true
    → apply t (register info sid now) ≡ t
unfolding apply register_node try_emplace
register-held t info sid now room held = ground (arith, held)

register-entered :
    (t : NodeTable) (info : NodeInfo) (sid : String) (now : ℕ)
    → length t.nodes < t.max_nodes
    → contains info.node_id t.nodes ≡ false
    → apply t (register info sid now) ≡ with_entry t info sid now
unfolding apply register_node try_emplace
register-entered t info sid now room absent = ground (arith, absent)

contains-with_entry :
    (t : NodeTable) (info : NodeInfo) (sid : String) (now : ℕ) (id : String)
    → info.node_id ≢ id
    → contains id (with_entry t info sid now).nodes ≡ contains id t.nodes
unfolding contains
contains-with_entry t info sid now id apart = ground (arith, eq_iff info.node_id id)

in_turn :
    (t s r : NodeTable) (c c' : Call) → apply t c ≡ s → apply s c' ≡ r → apply (apply t c) c' ≡ r
in_turn t s r c c' e e' = ap (λ x. apply x c') e ∙ e'

same : (l r t s : NodeTable) → l ≡ t → r ≡ s → SameTable t s → SameTable l r
same l r t s e e' h = rw (e, e') h

registrations_commute :
    (t : NodeTable) (a b : NodeInfo) (sid sid' : String) (now now' : ℕ)
    → a.node_id ≢ b.node_id
    → length t.nodes + 1 < t.max_nodes
    → SameTable
        (apply (apply t (register a sid now)) (register b sid' now'))
        (apply (apply t (register b sid' now')) (register a sid now))
registrations_commute t a b sid sid' now now' apart room =
    let ta = with_entry t a sid now in
    let tb = with_entry t b sid' now' in
    let ra = register a sid now in
    let rb = register b sid' now' in
    let one : length t.nodes < t.max_nodes = omega arith in
    let two : length t.nodes + 1 < t.max_nodes = room in
    let b_in = contains-with_entry t a sid now b.node_id apart in
    let a_in = contains-with_entry t b sid' now' a.node_id (λ e. apart (sym e)) in
    elim (Bool-cases (contains a.node_id t.nodes)) [
      | inl ea ↦ elim (Bool-cases (contains b.node_id t.nodes)) [
        | inl eb ↦
            same _ _ t t
              (in_turn t t t ra rb (register-held t a sid now one ea)
                (register-held t b sid' now' one eb))
              (in_turn t t t rb ra (register-held t b sid' now' one eb)
                (register-held t a sid now one ea))
              (record { capacity = refl; entries = Permᴰ.refl _ })
        | inr eb ↦
            same _ _ tb tb
              (in_turn t t tb ra rb (register-held t a sid now one ea)
                (register-entered t b sid' now' one eb))
              (in_turn t tb tb rb ra (register-entered t b sid' now' one eb)
                (register-held tb a sid now (omega arith) (a_in ∙ ea)))
              (record { capacity = refl; entries = Permᴰ.refl _ })
      ]
      | inr ea ↦ elim (Bool-cases (contains b.node_id t.nodes)) [
        | inl eb ↦
            same _ _ ta ta
              (in_turn t ta ta ra rb (register-entered t a sid now one ea)
                (register-held ta b sid' now' (omega arith) (b_in ∙ eb)))
              (in_turn t t ta rb ra (register-held t b sid' now' one eb)
                (register-entered t a sid now one ea))
              (record { capacity = refl; entries = Permᴰ.refl _ })
        | inr eb ↦
            same _ _ (with_entry ta b sid' now') (with_entry tb a sid now)
              (in_turn t ta _ ra rb (register-entered t a sid now one ea)
                (register-entered ta b sid' now' (omega arith) (b_in ∙ eb)))
              (in_turn t tb _ rb ra (register-entered t b sid' now' one eb)
                (register-entered tb a sid now (omega arith) (a_in ∙ ea)))
              (record { capacity = refl; entries = Permᴰ.swap refl refl })
      ]
    ]

-- On the abstract table, which is a valid table up to the order of iteration, the registrations of
-- two nodes of different ids commute if there is room for both.
pub abstract_apply_comm :
    (t : ValidTable) (a b : NodeInfo) (sid sid' : String) (now now' : ℕ)
    → a.node_id ≢ b.node_id
    → length t.0.nodes + 1 < t.0.max_nodes
    → let first = register a sid now in
      let second = register b sid' now' in
      abstract_apply second (abstract_apply first (Quot.mk t))
      ≡ abstract_apply first (abstract_apply second (Quot.mk t))
unfolding abstract_apply
abstract_apply_comm t a b sid sid' now now' apart room =
    Quot.sound (registrations_commute t.0 a b sid sid' now now' apart room)
