-- ===== src/Base/Bytes.antt =====
-- Text as the program writes it to a socket: a list of bytes. What is searched for in it, and the
-- decimal numbers of std::to_string and operator<<.
pub mod Decimal
use Prim.Native.Nat.{ℕ, suc, ◌-◌}
use Prim.Native.Char.{code}
use Prim.Native.String.{String}
use mathlib.Core.Bool.{Bool, true, false, ◌&&◌}
use mathlib.Core.List.{List, [], ◌∷◌, ◌++◌}
use mathlib.Core.Option.{Option, none, some}
use d_ro_cm.Base.Tests.{eqb, leb, if◌then◌else◌}

abbrev pub Bytes : Type 0
Bytes = List ℕ

-- The bytes of a literal, which is ASCII in the program.
abbrev pub codes : String → Bytes
codes String.[] = []
codes (String.◌∷◌ c s) = code c ∷ codes s

-- Pieces written to a stream, or joined by `+`.
abbrev pub written : List Bytes → Bytes
written [] = []
written (p ∷ ps) = p ++ written ps

abbrev pub is_digit : ℕ → Bool
is_digit c = leb b'0' c && leb c b'9'

-- What follows `pat`, if the text starts with it.
abbrev pub strip_prefix : Bytes → Bytes → Option Bytes
strip_prefix [] s = some s
strip_prefix (p ∷ ps) [] = none
strip_prefix (p ∷ ps) (c ∷ s) = if eqb c p then strip_prefix ps s else none

abbrev or_else : Option Bytes → Option Bytes → Option Bytes
or_else none o = o
or_else (some r) o = some r

-- What follows the first occurrence of `pat`.
abbrev pub after_first : Bytes → Bytes → Option Bytes
after_first pat [] = none
after_first pat (c ∷ s) = or_else (strip_prefix pat (c ∷ s)) (after_first pat s)

abbrev before : ℕ → Option (Bytes × Bytes) → Option (Bytes × Bytes)
before c none = none
before c (some (xs, ys)) = some (c ∷ xs, ys)

abbrev or_before : ℕ → Option Bytes → Option (Bytes × Bytes) → Option (Bytes × Bytes)
or_before c none o = before c o
or_before c (some r) o = some ([], r)

-- What stands before the first occurrence of `pat`, and what follows it.
abbrev pub cut_at : Bytes → Bytes → Option (Bytes × Bytes)
cut_at pat [] = none
cut_at pat (c ∷ s) = or_before c (strip_prefix pat (c ∷ s)) (cut_at pat s)
