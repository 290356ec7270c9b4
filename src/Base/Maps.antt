-- ===== src/Base/Maps.antt =====
-- std::unordered_map<std::string, V>: the entries in the order of iteration. The C++ standard
-- leaves that order open; what is proved of the maps holds for any list of entries.
pub mod Laws
pub mod Order
use Prim.Native.Nat.{ℕ}
use Prim.Native.String.{String}
use mathlib.Core.Path.{◌≡◌}
use mathlib.Core.Bool.{Bool, true, false}
use mathlib.Core.List.{List, [], ◌∷◌, map}
use mathlib.Core.Option.{Option, none, some}
use text.Mathlib.Text.{◌==◌}
use d_ro_cm.Base.Tests.{if◌then◌else◌}
use d_ro_cm.Base.Lists.{length}

abbrev pub UnorderedMap {ℓ} : Type ℓ → Type ℓ
UnorderedMap V = List (String × V)

module _ {ℓ} {V : Type ℓ} where
  -- `find(k)`, with `end()` as `none`
  unfoldable pub find : String → UnorderedMap V → Option V
  find k [] = none
  find k ((j, v) ∷ m) = if j == k then some v else find k m

  unfoldable pub contains : String → UnorderedMap V → Bool
  contains k [] = false
  contains k ((j, v) ∷ m) = if j == k then true else contains k m

  -- `try_emplace(k, v)`: the map, and whether an entry was made
  unfoldable pub try_emplace : String → V → UnorderedMap V → UnorderedMap V × Bool
  unfolding contains
  try_emplace k v m = if contains k m then (m, false) else ((k, v) ∷ m, true)

  -- `erase(find(k))`
  unfoldable pub erase : String → UnorderedMap V → UnorderedMap V
  erase k [] = []
  erase k ((j, v) ∷ m) = if j == k then m else (j, v) ∷ erase k m

  -- a write through `find(k)->second`
  unfoldable pub modify : String → (V → V) → UnorderedMap V → UnorderedMap V
  modify k f [] = []
  modify k f ((j, v) ∷ m) = if j == k then (j, f v) ∷ m else (j, v) ∷ modify k f m

  -- `for (auto& [id, v] : m) f(v)`
  unfoldable pub modify_all : (V → V) → UnorderedMap V → UnorderedMap V
  modify_all f [] = []
  modify_all f ((j, v) ∷ m) = (j, f v) ∷ modify_all f m

  -- the entries' values, in the order of iteration
  unfoldable pub values : UnorderedMap V → List V
  values [] = []
  values ((j, v) ∷ m) = v ∷ values m

  abbrev pub keys : UnorderedMap V → List String
  keys [] = []
  keys ((j, v) ∷ m) = j ∷ keys m

  -- No key has two entries: the class invariant of `std::unordered_map`.
  abbrev pub IsUnique : UnorderedMap V → Type ℓ
  IsUnique [] = Unit
  IsUnique ((j, v) ∷ m) = (find j m ≡ none) × IsUnique m
