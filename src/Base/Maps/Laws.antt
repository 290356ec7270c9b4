-- ===== src/Base/Maps/Laws.antt =====
-- Laws of `std::unordered_map`: what `find` returns after each operation, uniqueness and size.
use Prim.Native.Nat.{◌+◌}
use Prim.Native.String.{String}
use mathlib.Core.Path.{◌≡◌, refl}
use mathlib.Core.Bool.{true, false}
use mathlib.Core.List.{[], ◌∷◌}
use mathlib.Core.Option
use mathlib.Core.Option.{Option, none, some}
use native.Mathlib.Omega.{arith}
use text.Mathlib.Text.{◌==◌}
use text.Mathlib.TextEquality.{eq_iff}
use d_ro_cm.Base.Tests.{if◌then◌else◌}
use d_ro_cm.Base.Lists.{length}
use d_ro_cm.Base.Maps.{
  UnorderedMap, find, contains, try_emplace, erase, modify, modify_all, IsUnique,
}

module _ {ℓ} {V : Type ℓ} where
  pub contains-find :
      (k : String) (m : UnorderedMap V)
      → contains k m ≡ (elim (find k m) [ none ↦ false | some _ ↦ true ])
  unfolding contains find
  contains-find k [] = refl
  contains-find k ((j, v) ∷ m) = ground (arith, contains-find k m)

  pub find-erase :
      (k j : String) (m : UnorderedMap V)
      → IsUnique m
      → find j (erase k m) ≡ (if k == j then none else find j m)
  unfolding find erase
  find-erase k j [] u = ground arith
  find-erase k j ((i, v) ∷ m) u =
      ground (arith, eq_iff k j, eq_iff i k, eq_iff i j, find-erase k j m u.1)

  pub find-modify :
      (k j : String) (f : V → V) (m : UnorderedMap V)
      → find j (modify k f m) ≡ (if k == j then Option.map f (find j m) else find j m)
  unfolding find modify
  find-modify k j f [] = ground arith
  find-modify k j f ((i, v) ∷ m) =
      ground (arith, eq_iff k j, eq_iff i k, eq_iff i j, find-modify k j f m)

  pub find-modify_all :
      (j : String) (f : V → V) (m : UnorderedMap V)
      → find j (modify_all f m) ≡ Option.map f (find j m)
  unfolding find modify_all
  find-modify_all j f [] = refl
  find-modify_all j f ((i, v) ∷ m) = ground (arith, find-modify_all j f m)

  pub erase-IsUnique : (k : String) (m : UnorderedMap V) → IsUnique m → IsUnique (erase k m)
  unfolding erase
  erase-IsUnique k [] u = tt
  erase-IsUnique k ((i, v) ∷ m) u = ground (arith, erase-IsUnique k m u.1, find-erase k i m u.1)

  pub modify-IsUnique :
      (k : String) (f : V → V) (m : UnorderedMap V) → IsUnique m → IsUnique (modify k f m)
  unfolding modify
  modify-IsUnique k f [] u = tt
  modify-IsUnique k f ((i, v) ∷ m) u =
      ground (arith, modify-IsUnique k f m u.1, find-modify k i f m)

  pub modify_all-IsUnique :
      (f : V → V) (m : UnorderedMap V) → IsUnique m → IsUnique (modify_all f m)
  unfolding modify_all
  modify_all-IsUnique f [] u = tt
  modify_all-IsUnique f ((i, v) ∷ m) u =
      ground (arith, modify_all-IsUnique f m u.1, find-modify_all i f m)

  pub try_emplace-IsUnique :
      (k : String) (v : V) (m : UnorderedMap V) → IsUnique m → IsUnique (try_emplace k v m).0
  unfolding try_emplace
  try_emplace-IsUnique k v m u = ground (arith, contains-find k m)

  pub length-erase :
      (k : String) (m : UnorderedMap V)
      → length (erase k m) + (if contains k m then 1 else 0) ≡ length m
  unfolding erase contains
  length-erase k [] = refl
  length-erase k ((i, v) ∷ m) = ground (arith, length-erase k m)

  pub length-modify :
      (k : String) (f : V → V) (m : UnorderedMap V) → length (modify k f m) ≡ length m
  unfolding modify
  length-modify k f [] = refl
  length-modify k f ((i, v) ∷ m) = ground (arith, length-modify k f m)

  pub length-modify_all : (f : V → V) (m : UnorderedMap V) → length (modify_all f m) ≡ length m
  unfolding modify_all
  length-modify_all f [] = refl
  length-modify_all f ((i, v) ∷ m) = ground (arith, length-modify_all f m)
