-- ===== src/Base/Lists.antt =====
-- Lists measured by native numbers, predicates on lists by recursion, and options.
use Prim.Native.Nat.{ℕ, suc, ◌+◌, ◌≤◌}
use Prim.Native.String.{String}
use mathlib.Core.Path.{◌≡◌, refl, ap}
use mathlib.Core.Logic.{◌↔◌, ◌⊎◌, inl, inr}
use mathlib.Core.Bool.{Bool, true, false, ◌||◌}
use mathlib.Core.List.{List, [], ◌∷◌, ◌++◌, map}
use native.Mathlib.Omega.{arith}
use text.Mathlib.Text.{◌==◌}
use text.Mathlib.TextEquality.{eq_iff}
use d_ro_cm.Base.Tests.{if◌then◌else◌}

module _ {ℓ} {A : Type ℓ} where
  abbrev pub length : List A → ℕ
  length [] = 0
  length (x ∷ xs) = suc (length xs)

  pub length-append : (xs ys : List A) → length (xs ++ ys) ≡ length xs + length ys
  length-append [] ys = omega arith
  length-append (x ∷ xs) ys = omega (arith, length-append xs ys)

  -- `push_back` of each entry that passes the test, in order.
  abbrev pub keep_if : (A → Bool) → List A → List A
  keep_if p [] = []
  keep_if p (x ∷ xs) = if p x then x ∷ keep_if p xs else keep_if p xs

  pub length-keep_if-le : (p : A → Bool) (xs : List A) → length (keep_if p xs) ≤ length xs
  length-keep_if-le p [] = omega arith
  length-keep_if-le p (x ∷ xs) = ground (arith, length-keep_if-le p xs)

pub length-map {ℓ κ} :
    {A : Type ℓ} {B : Type κ} (f : A → B) (xs : List A) → length (map f xs) ≡ length xs
length-map f [] = refl
length-map f (x ∷ xs) = ap suc (length-map f xs)

abbrev pub All {ℓ κ} : {A : Type ℓ} → (A → Type κ) → List A → Type κ
All P [] = Unit
All P (x ∷ xs) = P x × All P xs

-- `a` occurs in the list.
abbrev pub Elem : {A : Type 0} → A → List A → Type 0
Elem a [] = ⊥
Elem a (x ∷ xs) = (x ≡ a) ⊎ Elem a xs

-- std::find(xs.begin(), xs.end(), a) != xs.end()
unfoldable pub contains_string : List String → String → Bool
contains_string [] a = false
contains_string (x ∷ xs) a = x == a || contains_string xs a

pub contains_string_iff :
    (xs : List String) (a : String) → (contains_string xs a ≡ true) ↔ Elem a xs
unfolding contains_string
contains_string_iff [] a = (λ h. cc, λ h. absurd h)
contains_string_iff (x ∷ xs) a =
    let ih = contains_string_iff xs a in
    ((λ h. ground (arith, eq_iff x a, ih.0)), (λ h. ground (arith, eq_iff x a, ih.1)))

-- An entry is kept if and only if it is in the list and passes the test.
pub Elem-keep_if :
    {A : Type 0} (p : A → Bool) (a : A) (xs : List A)
    → Elem a (keep_if p xs) ↔ (Elem a xs × (p a ≡ true))
Elem-keep_if p a [] = (λ h. absurd h, λ h. h.0)
Elem-keep_if p a (x ∷ xs) =
    let ih = Elem-keep_if p a xs in ((λ h. ground (arith, ih.0)), (λ h. ground (arith, ih.1)))

pub All-append {ℓ κ} :
    {A : Type ℓ} (P : A → Type κ) (xs ys : List A) → All P xs → All P ys → All P (xs ++ ys)
All-append P [] ys hx hy = hy
All-append P (x ∷ xs) ys hx hy = (hx.0, All-append P xs ys hx.1 hy)

pub All-mono {ℓ κ} :
    {A : Type ℓ} (P Q : A → Type κ) → ((a : A) → P a → Q a) → (xs : List A) → All P xs → All Q xs
All-mono P Q f [] h = tt
All-mono P Q f (x ∷ xs) h = (f x h.0, All-mono P Q f xs h.1)

pub Elem-map : {A B : Type 0} (f : A → B) (a : A) (xs : List A) → Elem a xs → Elem (f a) (map f xs)
Elem-map f a [] h = h
Elem-map f a (x ∷ xs) (inl e) = inl (ap f e)
Elem-map f a (x ∷ xs) (inr h) = inr (Elem-map f a xs h)

pub Elem-map_inv :
    {A B : Type 0} (f : A → B) (b : B) (xs : List A)
    → Elem b (map f xs)
    → (a : A) × Elem a xs × (f a ≡ b)
Elem-map_inv f b [] h = absurd h
Elem-map_inv f b (x ∷ xs) (inl e) = (x, inl refl, e)
Elem-map_inv f b (x ∷ xs) (inr h) = let (a, at, e) = Elem-map_inv f b xs h in (a, inr at, e)

pub All-Elem {κ} :
    {A : Type 0} (P : A → Type κ) (xs : List A) → ((a : A) → Elem a xs → P a) → All P xs
All-Elem P [] f = tt
All-Elem P (x ∷ xs) f = (f x (inl refl), All-Elem P xs (λ a h. f a (inr h)))
