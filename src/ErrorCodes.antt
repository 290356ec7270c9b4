-- ===== src/ErrorCodes.antt =====
-- src/core/error_codes.h: ErrorCode and its texts; Result is the child. The enumeration has the
-- underlying type int, so a value need not be one of the enumerators; a negative one is treated as any
-- other that has no name.
pub mod Result
use d_ro_cm.Base.{
  ℕ, String, ◌≡◌, refl, ◌≢◌, ◌↔◌, Bool, true, false, List, [], ◌∷◌, Option, none, some,
  if◌then◌else◌, eqb, Elem, arith, ◌==◌,
}

pub data Enumerator : Type 0 where
  ok invalid_argument node_not_found node_already_exists session_expired : Enumerator
  service_unavailable rate_limited internal_error table_full serialization_failed : Enumerator

abbrev pub value : Enumerator → ℕ
value Enumerator.ok = 0
value Enumerator.invalid_argument = 1001
value Enumerator.node_not_found = 1002
value Enumerator.node_already_exists = 1003
value Enumerator.session_expired = 1004
value Enumerator.service_unavailable = 1005
value Enumerator.rate_limited = 1006
value Enumerator.internal_error = 2001
value Enumerator.table_full = 2002
value Enumerator.serialization_failed = 2003

-- A value of the type ErrorCode.
abbrev pub ErrorCode : Type 0
ErrorCode = ℕ

-- The cases of the switch, in order.
abbrev pub cases : List (Enumerator × String)
cases =
    (Enumerator.ok, "OK")
    ∷ (Enumerator.invalid_argument, "Invalid argument")
    ∷ (Enumerator.node_not_found, "Node not found")
    ∷ (Enumerator.node_already_exists, "Node already registered")
    ∷ (Enumerator.session_expired, "Session expired")
    ∷ (Enumerator.service_unavailable, "Service unavailable")
    ∷ (Enumerator.rate_limited, "Rate limited")
    ∷ (Enumerator.internal_error, "Internal error")
    ∷ (Enumerator.table_full, "Node table full")
    ∷ (Enumerator.serialization_failed, "Serialization failed")
    ∷ []

abbrev pub switch : List (Enumerator × String) → ErrorCode → String
switch [] code = "Unknown error"
switch ((e, text) ∷ rest) code = if eqb code (value e) then text else switch rest code

unfoldable pub error_code_to_string : ErrorCode → String
error_code_to_string code = switch cases code

-- A reader of the texts.
abbrev pub of_text : List (Enumerator × String) → String → Option Enumerator
of_text [] s = none
of_text ((e, text) ∷ rest) s = if s == text then some e else of_text rest s

-- The enumerator with this value.
abbrev pub of_value : List (Enumerator × String) → ErrorCode → Option Enumerator
of_value [] code = none
of_value ((e, text) ∷ rest) code = if eqb code (value e) then some e else of_value rest code

of_text-named : (e : Enumerator) → of_text cases (switch cases (value e)) ≡ some e
of_text-named Enumerator.ok = refl
of_text-named _ = refl

of_value-some :
    (es : List (Enumerator × String)) (code : ErrorCode) (e : Enumerator)
    → of_value es code ≡ some e
    → code ≡ value e
of_value-some [] code e h = cc
of_value-some ((d, text) ∷ rest) code e h = ground (arith, of_value-some rest code e)

of_value-none :
    (es : List (Enumerator × String)) (code : ErrorCode)
    → of_value es code ≡ none
    → switch es code ≡ "Unknown error"
of_value-none [] code h = refl
of_value-none ((d, text) ∷ rest) code h = ground (arith, of_value-none rest code)

read_back :
    (code : ErrorCode) (o : Option Enumerator)
    → of_value cases code ≡ o
    → of_text cases (switch cases code) ≡ o
read_back code none h = rw (of_value-none cases code h) refl
read_back code (some e) h = rw (of_value-some cases code e h) (of_text-named e)

-- Read back, the text of a code names the enumerator with that value, and nothing if there is none.
pub of_text-error_code_to_string :
    (code : ErrorCode) → of_text cases (error_code_to_string code) ≡ of_value cases code
unfolding error_code_to_string
of_text-error_code_to_string code = read_back code (of_value cases code) refl
