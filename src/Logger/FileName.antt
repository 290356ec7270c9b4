-- ===== src/Logger/FileName.antt =====
-- The file name that the logging macros print: what follows the last separator of __FILE__.
use d_ro_cm.Base.{
  ℕ, zero, suc, ◌≡◌, refl, ap, ◌⊎◌, inl, inr, Bool, Bool-cases, true, false, ◌||◌, [], ◌∷◌, ◌++◌,
  Option, none, some, All, if◌then◌else◌, eqb,
}
use d_ro_cm.Base.Bytes.{Bytes}

abbrev pub is_separator : ℕ → Bool
is_separator c = eqb c b'/' || eqb c b'\\'

abbrev shifted : Option ℕ → Bool → Option ℕ
shifted (some i) here = some (suc i)
shifted none here = if here then some 0 else none

-- std::string::find_last_of("/\\"), none for npos.
abbrev pub find_last_of : Bytes → Option ℕ
find_last_of [] = none
find_last_of (c ∷ s) = shifted (find_last_of s) (is_separator c)

-- std::string::substr(pos), none where it throws.
abbrev pub substr : Bytes → ℕ → Option Bytes
substr s zero = some s
substr [] (suc n) = none
substr (c ∷ s) (suc n) = substr s n

abbrev pub behind : Option ℕ → ℕ
behind none = 0
behind (some i) = suc i

unfoldable pub file_name : Bytes → Option Bytes
file_name path = substr path (behind (find_last_of path))

abbrev pub IsPlainByte : ℕ → Type 0
IsPlainByte c = is_separator c ≡ false

abbrev pub EndsInSeparator : Bytes → Type 0
EndsInSeparator [] = ⊥
EndsInSeparator (c ∷ []) = is_separator c ≡ true
EndsInSeparator (c ∷ d ∷ s) = EndsInSeparator (d ∷ s)

EndsInSeparator-cons : (c : ℕ) (s : Bytes) → EndsInSeparator s → EndsInSeparator (c ∷ s)
EndsInSeparator-cons c [] h = absurd h
EndsInSeparator-cons c (d ∷ s) h = h

-- What the position found says of a text.
abbrev Parts : Bytes → Option ℕ → Type 0
Parts s none = All IsPlainByte s
Parts s (some i) =
    (directory : Bytes) × (name : Bytes) × (s ≡ directory ++ name)
    × (substr s (suc i) ≡ some name)
    × EndsInSeparator directory
    × All IsPlainByte name

shifted-Parts :
    (c : ℕ) (s : Bytes) (o : Option ℕ) → Parts s o → Parts (c ∷ s) (shifted o (is_separator c))
shifted-Parts c s (some i) (directory, name, whole, found, ends, plain) = (
  c ∷ directory,
  name,
  ap (λ x. c ∷ x) whole,
  found,
  EndsInSeparator-cons c directory ends,
  plain,
)
shifted-Parts c s none plain = elim (Bool-cases (is_separator c)) [
  | inl here ↦ rw here (c ∷ [], s, refl, refl, here, plain)
  | inr other ↦ rw other (other, plain)
]

find_last_of-Parts : (s : Bytes) → Parts s (find_last_of s)
find_last_of-Parts [] = tt
find_last_of-Parts (c ∷ s) = shifted-Parts c s (find_last_of s) (find_last_of-Parts s)

named :
    (path : Bytes) (o : Option ℕ)
    → Parts path o
    → (directory : Bytes) × (name : Bytes) × (substr path (behind o) ≡ some name)
      × (path ≡ directory ++ name)
      × ((directory ≡ []) ⊎ EndsInSeparator directory)
      × All IsPlainByte name
named path none plain = ([], path, refl, refl, inl refl, plain)
named path (some i) (directory, name, whole, found, ends, plain) =
    (directory, name, found, whole, inr ends, plain)

-- The macros' file name always exists: it is the longest end of the path without a separator, and
-- what is before it is empty or ends in one.
pub file_name_lem :
    (path : Bytes)
    → (directory : Bytes) × (name : Bytes) × (file_name path ≡ some name)
      × (path ≡ directory ++ name)
      × ((directory ≡ []) ⊎ EndsInSeparator directory)
      × All IsPlainByte name
unfolding file_name
file_name_lem path = named path (find_last_of path) (find_last_of-Parts path)
