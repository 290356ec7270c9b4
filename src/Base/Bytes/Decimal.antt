-- ===== src/Base/Bytes/Decimal.antt =====
-- Decimal numbers: the digits that std::to_string writes, and reading them back.
use Prim.Native.Nat.{ℕ, zero, suc, ◌+◌, ◌-◌, ◌*◌, ◌/◌, ◌%◌, ◌<◌}
use mathlib.Core.Path.{◌≡◌, refl, ap, ◌∙◌}
use mathlib.Core.Bool.{true, false}
use mathlib.Core.List.{[], ◌∷◌, ◌++◌}
use mathlib.Core.Option.{Option, none, some}
use native.Mathlib.Omega.{arith}
use d_ro_cm.Base.Tests.{ltb, if◌then◌else◌, Bool-cases}
use d_ro_cm.Base.Lists.{All}
use mathlib.Core.Logic.{inl, inr}
use d_ro_cm.Base.Bytes.{Bytes, is_digit}

-- The digits of `n` in front of `out`, in `fuel` rounds at most.
unfoldable digits : ℕ → ℕ → Bytes → Bytes
digits zero n out = out
digits (suc fuel) n out =
    let rest = digits fuel (n / 10) ((b'0' + n % 10) ∷ out) in
    if ltb n 10 then (b'0' + n) ∷ out else rest

-- std::to_string: `n + 1` rounds are enough for `n`.
unfoldable pub to_string : ℕ → Bytes
unfolding digits
to_string n = digits (suc n) n []

-- The number that the digits at the front spell, behind `n`; and what follows them.
abbrev pub read_digits : Bytes → ℕ → ℕ × Bytes
read_digits [] n = (n, [])
read_digits (c ∷ s) n =
    let rest = read_digits s (n * 10 + (c - b'0')) in if is_digit c then rest else (n, c ∷ s)

-- A number of at least one digit.
abbrev pub read_number : Bytes → Option (ℕ × Bytes)
read_number [] = none
read_number (c ∷ s) = if is_digit c then some (read_digits (c ∷ s) 0) else none

read_digits-digits :
    (fuel n : ℕ) (out : Bytes) → n < fuel → read_digits (digits fuel n out) 0 ≡ read_digits out n
unfolding digits
read_digits-digits zero n out h = absurd (omega arith)
read_digits-digits (suc fuel) n out h = elim (Bool-cases (ltb n 10)) [
  | inl small ↦ ground (arith, small)
  | inr large ↦
      let ih = read_digits-digits fuel (n / 10) ((b'0' + n % 10) ∷ out) (ground arith) in
      ground (arith, large, ih)
]

abbrev pub AreDigits : Bytes → Type 0
AreDigits = All (λ c. is_digit c ≡ true)

digits-append :
    (fuel n : ℕ) (out tail : Bytes) → digits fuel n out ++ tail ≡ digits fuel n (out ++ tail)
unfolding digits
digits-append zero n out tail = refl
digits-append (suc fuel) n out tail =
    ground (arith, digits-append fuel (n / 10) ((b'0' + n % 10) ∷ out) tail)

digits-AreDigits : (fuel n : ℕ) (out : Bytes) → AreDigits out → AreDigits (digits fuel n out)
unfolding digits
digits-AreDigits zero n out h = h
digits-AreDigits (suc fuel) n out h =
    ground (arith, h, digits-AreDigits fuel (n / 10) ((b'0' + n % 10) ∷ out))

pub to_string-AreDigits : (n : ℕ) → AreDigits (to_string n)
unfolding to_string
to_string-AreDigits n = digits-AreDigits (suc n) n [] tt

-- No digit follows.
abbrev pub IsEnd : Bytes → Type 0
IsEnd [] = Unit
IsEnd (c ∷ s) = is_digit c ≡ false

abbrev pub HasDigit : Bytes → Type 0
HasDigit [] = ⊥
HasDigit (c ∷ s) = is_digit c ≡ true

digits_keeps : (fuel n : ℕ) (out : Bytes) → HasDigit out → HasDigit (digits fuel n out)
unfolding digits
digits_keeps zero n out h = h
digits_keeps (suc fuel) n out h =
    ground (arith, digits_keeps fuel (n / 10) ((b'0' + n % 10) ∷ out) (ground arith))

digits-HasDigit : (fuel n : ℕ) (out : Bytes) → HasDigit (digits (suc fuel) n out)
unfolding digits
digits-HasDigit fuel n out =
    ground (arith, digits_keeps fuel (n / 10) ((b'0' + n % 10) ∷ out) (ground arith))

read_number-HasDigit : (s : Bytes) → HasDigit s → read_number s ≡ some (read_digits s 0)
read_number-HasDigit [] h = absurd h
read_number-HasDigit (c ∷ s) h = ground (arith, h)

read_digits-IsEnd : (s : Bytes) (n : ℕ) → IsEnd s → read_digits s n ≡ (n, s)
read_digits-IsEnd [] n h = refl
read_digits-IsEnd (c ∷ s) n h = ground (arith, h)

-- A number is read back from its digits, whatever follows that is not a digit.
pub read_number-to_string :
    (n : ℕ) (tail : Bytes) → IsEnd tail → read_number (to_string n ++ tail) ≡ some (n, tail)
unfolding to_string
read_number-to_string n tail h = rw (digits-append (suc n) n [] tail) (
    read_number-HasDigit _ (digits-HasDigit n n tail)
    ∙ ap some (read_digits-digits (suc n) n tail (omega arith) ∙ read_digits-IsEnd tail n h))

pub to_string-HasDigit : (n : ℕ) (tail : Bytes) → HasDigit (to_string n ++ tail)
unfolding to_string
to_string-HasDigit n tail = rw (digits-append (suc n) n [] tail) (digits-HasDigit n n tail)
