-- ===== src/Base/Maps/Order.antt =====
-- The order of iteration of `std::unordered_map`: two lists of the same entries are one map.
use Prim.Native.String.{String}
use mathlib.Core.Path.{◌≡◌, refl, sym, ap, subst, ◌∙◌}
use mathlib.Core.List.{List, [], ◌∷◌, Permᴰ}
use mathlib.Core.List.Permᴰ
use mathlib.Core.Option.{Option, some}
use native.Mathlib.Omega.{arith}
use text.Mathlib.Text.{◌==◌}
use text.Mathlib.TextEquality.{eq_iff}
use mathlib.Core.Bool.{Bool, true, false}
use mathlib.Core.Logic.{inl, inr}
use d_ro_cm.Base.Tests.{if◌then◌else◌, Bool-cases}
use Prim.Native.Nat.{suc}
use d_ro_cm.Base.Lists.{length, keep_if}
use d_ro_cm.Base.Maps.{UnorderedMap, find, erase, modify, modify_all, values, IsUnique}

-- A relation between the branches, in both branches.
pub if_intro₂ {ℓ κ} :
    {A : Type ℓ} (R : A → A → Type κ) (b : Bool) {x y x' y' : A}
    → R x x'
    → R y y'
    → R (if b then x else y) (if b then x' else y')
if_intro₂ R true h h' = h
if_intro₂ R false h h' = h'

module _ {ℓ} {V : Type ℓ} where
  -- The second map is unique too, and finds the same.
  abbrev pub SameMap : UnorderedMap V → UnorderedMap V → Type ℓ
  SameMap m m' = IsUnique m' × ((k : String) → find k m ≡ find k m')

  SameMap-cons :
      (a : String × V) (m m' : UnorderedMap V)
      → IsUnique (a ∷ m)
      → SameMap m m'
      → SameMap (a ∷ m) (a ∷ m')
  unfolding find
  SameMap-cons a m m' u h = (
    (sym (h.1 a.0) ∙ u.0, h.0),
    (λ k. ap (λ (o : Option V). if a.0 == k then some a.1 else o) (h.1 k)),
  )

  SameMap-swap :
      (a b : String × V) (m : UnorderedMap V)
      → IsUnique (a ∷ b ∷ m)
      → SameMap (a ∷ b ∷ m) (b ∷ a ∷ m)
  unfolding find
  SameMap-swap a b m u = (
    (ground (arith, u, eq_iff a.0 b.0, eq_iff b.0 a.0), (ground (arith, u, eq_iff b.0 a.0), u.1.1)),
    (λ k. ground (arith, u, eq_iff a.0 k, eq_iff b.0 k, eq_iff b.0 a.0)),
  )

  pub Permᴰ-SameMap : {m m' : UnorderedMap V} → Permᴰ m m' → IsUnique m → SameMap m m'
  Permᴰ-SameMap Permᴰ.nil u = (tt, (λ k. refl))
  Permᴰ-SameMap (Permᴰ.cons {a} {b} {l₁} {l₂} e p) u =
      subst (λ x. SameMap (a ∷ l₁) (x ∷ l₂)) e (SameMap-cons a l₁ l₂ u (Permᴰ-SameMap p u.1))
  Permᴰ-SameMap (Permᴰ.swap {a} {b} {a'} {b'} {l} e e') u =
      subst (λ x. SameMap (a ∷ b ∷ l) (a' ∷ x ∷ l)) e
        (subst (λ x. SameMap (a ∷ b ∷ l) (x ∷ a ∷ l)) e' (SameMap-swap a b l u))
  Permᴰ-SameMap (Permᴰ.trans p q) u =
      let h = Permᴰ-SameMap p u in let h' = Permᴰ-SameMap q h.0 in (h'.0, (λ k. h.1 k ∙ h'.1 k))

  -- A function of maps that gives permuted maps on a swap and on equal heads respects the order.
  pub respects {κ} :
      {B : Type κ} (f : UnorderedMap V → List B)
      → ((a : String × V) (m m' : UnorderedMap V)
          → IsUnique (a ∷ m)
          → Permᴰ m m'
          → Permᴰ (f m) (f m')
          → Permᴰ (f (a ∷ m)) (f (a ∷ m')))
      → ((a b : String × V) (m : UnorderedMap V)
          → IsUnique (a ∷ b ∷ m)
          → Permᴰ (f (a ∷ b ∷ m)) (f (b ∷ a ∷ m)))
      → {m m' : UnorderedMap V} → Permᴰ m m'
      → IsUnique m
      → Permᴰ (f m) (f m')
  respects f on_cons on_swap Permᴰ.nil u = Permᴰ.refl (f [])
  respects f on_cons on_swap (Permᴰ.cons {a} {b} {l₁} {l₂} e p) u =
      subst (λ x. Permᴰ (f (a ∷ l₁)) (f (x ∷ l₂))) e
        (on_cons a l₁ l₂ u p (respects f on_cons on_swap p u.1))
  respects f on_cons on_swap (Permᴰ.swap {a} {b} {a'} {b'} {l} e e') u =
      subst (λ x. Permᴰ (f (a ∷ b ∷ l)) (f (a' ∷ x ∷ l))) e
        (subst (λ x. Permᴰ (f (a ∷ b ∷ l)) (f (x ∷ a ∷ l))) e' (on_swap a b l u))
  respects f on_cons on_swap (Permᴰ.trans p q) u =
      Permᴰ.trans (respects f on_cons on_swap p u)
        (respects f on_cons on_swap q (Permᴰ-SameMap p u).0)

  erase-swap :
      (k : String) (a b : String × V) (m : UnorderedMap V)
      → IsUnique (a ∷ b ∷ m)
      → Permᴰ (erase k (a ∷ b ∷ m)) (erase k (b ∷ a ∷ m))
  unfolding erase find
  erase-swap k a b m u = elim (Bool-cases (a.0 == k)) [
    | inl e ↦ elim (Bool-cases (b.0 == k)) [
      | inl e' ↦ absurd (ground (arith, u, eq_iff a.0 k, eq_iff b.0 k, eq_iff b.0 a.0))
      | inr e' ↦ rw (e, e') (Permᴰ.refl (b ∷ m))
    ]
    | inr e ↦ elim (Bool-cases (b.0 == k)) [
      | inl e' ↦ rw (e, e') (Permᴰ.refl (a ∷ m))
      | inr e' ↦ rw (e, e') (Permᴰ.swap refl refl)
    ]
  ]

  pub erase-Permᴰ :
      (k : String) {m m' : UnorderedMap V}
      → Permᴰ m m'
      → IsUnique m
      → Permᴰ (erase k m) (erase k m')
  unfolding erase
  erase-Permᴰ k =
      respects (erase k) (λ a m m' u p h. if_intro₂ Permᴰ (a.0 == k) p (Permᴰ.cons refl h))
        (erase-swap k)

  modify-swap :
      (k : String) (f : V → V) (a b : String × V) (m : UnorderedMap V)
      → IsUnique (a ∷ b ∷ m)
      → Permᴰ (modify k f (a ∷ b ∷ m)) (modify k f (b ∷ a ∷ m))
  unfolding modify find
  modify-swap k f a b m u = elim (Bool-cases (a.0 == k)) [
    | inl e ↦ elim (Bool-cases (b.0 == k)) [
      | inl e' ↦ absurd (ground (arith, u, eq_iff a.0 k, eq_iff b.0 k, eq_iff b.0 a.0))
      | inr e' ↦ rw (e, e') (Permᴰ.swap refl refl)
    ]
    | inr e ↦ elim (Bool-cases (b.0 == k)) [
      | inl e' ↦ rw (e, e') (Permᴰ.swap refl refl)
      | inr e' ↦ rw (e, e') (Permᴰ.swap refl refl)
    ]
  ]

  pub modify-Permᴰ :
      (k : String) (f : V → V) {m m' : UnorderedMap V}
      → Permᴰ m m'
      → IsUnique m
      → Permᴰ (modify k f m) (modify k f m')
  unfolding modify
  modify-Permᴰ k f =
      respects (modify k f)
        (λ a m m' u p h. if_intro₂ Permᴰ (a.0 == k) (Permᴰ.cons refl p) (Permᴰ.cons refl h))
        (modify-swap k f)

  pub modify_all-Permᴰ :
      (f : V → V) {m m' : UnorderedMap V}
      → Permᴰ m m'
      → IsUnique m
      → Permᴰ (modify_all f m) (modify_all f m')
  unfolding modify_all
  modify_all-Permᴰ f =
      respects (modify_all f) (λ a m m' u p h. Permᴰ.cons refl h) (λ a b m u. Permᴰ.swap refl refl)

  pub values-Permᴰ :
      {m m' : UnorderedMap V} → Permᴰ m m' → IsUnique m → Permᴰ (values m) (values m')
  unfolding values
  values-Permᴰ =
      respects values (λ a m m' u p h. Permᴰ.cons refl h) (λ a b m u. Permᴰ.swap refl refl)

-- Lists without keys.
module _ {ℓ} {A : Type ℓ} where
  pub length-Permᴰ : {xs ys : List A} → Permᴰ xs ys → length xs ≡ length ys
  length-Permᴰ Permᴰ.nil = refl
  length-Permᴰ (Permᴰ.cons e p) = ap suc (length-Permᴰ p)
  length-Permᴰ (Permᴰ.swap e e') = refl
  length-Permᴰ (Permᴰ.trans p q) = length-Permᴰ p ∙ length-Permᴰ q

  keep_if-swap :
      (p : A → Bool) (a b : A) (xs : List A)
      → Permᴰ (keep_if p (a ∷ b ∷ xs)) (keep_if p (b ∷ a ∷ xs))
  keep_if-swap p a b xs = elim (Bool-cases (p a)) [
    | inl e ↦ elim (Bool-cases (p b)) [
      | inl e' ↦ rw (e, e') (Permᴰ.swap refl refl)
      | inr e' ↦ rw (e, e') (Permᴰ.refl _)
    ]
    | inr e ↦ elim (Bool-cases (p b)) [
      | inl e' ↦ rw (e, e') (Permᴰ.refl _)
      | inr e' ↦ rw (e, e') (Permᴰ.refl _)
    ]
  ]

  pub keep_if-Permᴰ :
      (p : A → Bool) {xs ys : List A} → Permᴰ xs ys → Permᴰ (keep_if p xs) (keep_if p ys)
  keep_if-Permᴰ p Permᴰ.nil = Permᴰ.nil
  keep_if-Permᴰ p (Permᴰ.cons {a} {b} {l₁} {l₂} e h) =
      subst (λ x. Permᴰ (keep_if p (a ∷ l₁)) (keep_if p (x ∷ l₂))) e
        (if_intro₂ Permᴰ (p a) (Permᴰ.cons refl (keep_if-Permᴰ p h)) (keep_if-Permᴰ p h))
  keep_if-Permᴰ p (Permᴰ.swap {a} {b} {a'} {b'} {l} e e') =
      subst (λ x. Permᴰ (keep_if p (a ∷ b ∷ l)) (keep_if p (a' ∷ x ∷ l))) e
        (subst (λ x. Permᴰ (keep_if p (a ∷ b ∷ l)) (keep_if p (x ∷ a ∷ l))) e'
          (keep_if-swap p a b l))
  keep_if-Permᴰ p (Permᴰ.trans h h') = Permᴰ.trans (keep_if-Permᴰ p h) (keep_if-Permᴰ p h')
