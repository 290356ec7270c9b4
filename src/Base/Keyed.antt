-- ===== src/Base/Keyed.antt =====
-- Lists whose elements have different keys, and their lengths.
use d_ro_cm.Base.{
  suc, ◌≤◌, String, ◌≡◌, ◌≢◌, refl, ◌↔◌, inl, inr, Bool, List, [], ◌∷◌, if◌then◌else◌, subst, sym,
  ◌==◌, eq_iff, length, All, All-Elem, Elem, keep_if, Elem-keep_if, if_intro, arith,
}

module _ {A : Type 0} (key : A → String) where
  abbrev pub Apart : List A → Type 0
  Apart [] = Unit
  Apart (x ∷ xs) = All (λ y. key x ≢ key y) xs × Apart xs

  -- The list without the first element of that key.
  unfoldable drop_key : String → List A → List A
  drop_key k [] = []
  drop_key k (x ∷ xs) = if key x == k then xs else x ∷ drop_key k xs

  length-drop_key :
      (a : A) (xs : List A) → Elem a xs → length xs ≡ suc (length (drop_key (key a) xs))
  unfolding drop_key
  length-drop_key a [] h = absurd h
  length-drop_key a (x ∷ xs) (inl e) = ground (arith, eq_iff (key x) (key a))
  length-drop_key a (x ∷ xs) (inr h) = ground (arith, length-drop_key a xs h)

  Elem-drop_key :
      (k : String) (a : A) (xs : List A) → key a ≢ k → Elem a xs → Elem a (drop_key k xs)
  unfolding drop_key
  Elem-drop_key k a [] ne h = h
  Elem-drop_key k a (x ∷ xs) ne (inl e) = ground (arith, eq_iff (key x) k)
  Elem-drop_key k a (x ∷ xs) ne (inr h) = ground (arith, Elem-drop_key k a xs ne h)

  All-at : (P : A → Type 0) (a : A) (xs : List A) → All P xs → Elem a xs → P a
  All-at P a [] all h = absurd h
  All-at P a (x ∷ xs) all (inl e) = subst P e all.0
  All-at P a (x ∷ xs) all (inr h) = All-at P a xs all.1 h

  -- Such a list is at most as long as a list that holds its elements.
  pub Apart-length-le :
      (xs ys : List A) → Apart xs → ((a : A) → Elem a xs → Elem a ys) → length xs ≤ length ys
  Apart-length-le [] ys apart sub = omega arith
  Apart-length-le (x ∷ xs) ys apart sub =
      let rest = Apart-length-le xs (drop_key (key x) ys) apart.1 (λ a h.
        Elem-drop_key (key x) a ys (λ e. All-at (λ y. key x ≢ key y) a xs apart.0 h (sym e))
          (sub a (inr h))) in
      omega (arith, rest, length-drop_key x ys (sub x (inl refl)))

  pub Apart-length :
      (xs ys : List A)
      → Apart xs
      → Apart ys
      → ((a : A) → Elem a xs ↔ Elem a ys)
      → length xs ≡ length ys
  Apart-length xs ys p q same =
      omega (
        arith,
        Apart-length-le xs ys p (λ a. (same a).0),
        Apart-length-le ys xs q (λ a. (same a).1),
      )

  pub Apart-keep_if : (p : A → Bool) (xs : List A) → Apart xs → Apart (keep_if p xs)
  Apart-keep_if p [] h = tt
  Apart-keep_if p (x ∷ xs) h =
      if_intro Apart (p x)
        (λ _. (
          All-Elem (λ y. key x ≢ key y) (keep_if p xs)
              (λ a at. All-at (λ y. key x ≢ key y) a xs h.0 ((Elem-keep_if p a xs).0 at).0),
          Apart-keep_if p xs h.1,
        ))
        (λ _. Apart-keep_if p xs h.1)
