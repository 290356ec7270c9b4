-- ===== src/Version.antt =====
-- src/core/version.h and version.cpp: the three numbers and their text.
use d_ro_cm.Base.{ℕ, String, ◌≡◌, refl, [], ◌∷◌}
use d_ro_cm.Base.Bytes.{codes, written}
use d_ro_cm.Base.Bytes.Decimal

abbrev pub major : ℕ
major = 0

abbrev pub minor : ℕ
minor = 1

abbrev pub patch : ℕ
patch = 0

-- VersionInfo::toString
unfoldable pub to_string : String
to_string = "D-RoCM v0.1.0"

-- The text names the three numbers.
to_string_lem :
    codes to_string
    ≡ written (
        codes "D-RoCM v"
        ∷ Decimal.to_string major
        ∷ codes "."
        ∷ Decimal.to_string minor
        ∷ codes "."
        ∷ Decimal.to_string patch
        ∷ [])
unfolding to_string Decimal.to_string
to_string_lem = refl
