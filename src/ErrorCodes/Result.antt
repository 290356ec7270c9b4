-- ===== src/ErrorCodes/Result.antt =====
-- Result<T> and Result<void> of src/core/error_codes.h. T{} is an argument.
use d_ro_cm.Base.{String, ◌≡◌, refl, ◌↔◌, Bool, true, eqb, arith}
use d_ro_cm.ErrorCodes.{ErrorCode, Enumerator, value}

pub record Result (T : Type 0) : Type 0 where
  pub code : ErrorCode
  pub value : T
  pub message : String

pub record VoidResult : Type 0 where
  pub code : ErrorCode
  pub message : String

abbrev pub ok : {T : Type 0} → T → String → Result T
ok val msg = record { code = value Enumerator.ok; value = val; message = msg }

abbrev pub error : {T : Type 0} → T → ErrorCode → String → Result T
error empty code msg = record { code = code; value = empty; message = msg }

abbrev pub is_ok : {T : Type 0} → Result T → Bool
is_ok r = eqb r.code (value Enumerator.ok)

abbrev pub ok_void : String → VoidResult
ok_void msg = record { code = value Enumerator.ok; message = msg }

abbrev pub error_void : ErrorCode → String → VoidResult
error_void code msg = record { code = code; message = msg }

abbrev pub is_ok_void : VoidResult → Bool
is_ok_void r = eqb r.code (value Enumerator.ok)

-- A result made by `ok` is one, and a result made by `error` is one exactly if it is given the code OK.
pub is_ok_lem :
    {T : Type 0} (val empty : T) (code : ErrorCode) (msg : String)
    → (is_ok (ok val msg) ≡ true)
      × ((is_ok (error empty code msg) ≡ true) ↔ (code ≡ value Enumerator.ok))
      × (is_ok_void (ok_void msg) ≡ true)
      × ((is_ok_void (error_void code msg) ≡ true) ↔ (code ≡ value Enumerator.ok))
is_ok_lem val empty code msg =
    (refl, (ground arith, ground arith), refl, (ground arith, ground arith))
