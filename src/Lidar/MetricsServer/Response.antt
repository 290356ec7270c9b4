-- ===== src/Lidar/MetricsServer/Response.antt =====
-- A client that reads the response of the metrics thread by its Content-Length.
use d_ro_cm.Base.{
  ℕ, ◌≡◌, refl, [], ◌∷◌, ◌++◌, Option, none, some, if◌then◌else◌, eqb, length, arith,
}
use mathlib.Core.List.{append-nil}
use d_ro_cm.Base.Bytes.{Bytes, codes, after_first, cut_at}
use d_ro_cm.Base.Bytes.Decimal.{
  to_string, read_number, read_number-to_string, to_string-AreDigits, AreDigits,
}
use d_ro_cm.Lidar.MetricsServer.{response}

-- The body, if as many bytes as announced have come.
abbrev complete : Option (ℕ × Bytes) → Bytes → Option Bytes
complete none body = none
complete (some (n, rest)) body = if eqb n (length body) then some body else none

abbrev announced : Option Bytes → Bytes → Option Bytes
announced none body = none
announced (some field) body = complete (read_number field) body

abbrev split : Option (Bytes × Bytes) → Option Bytes
split none = none
split (some (head, body)) = announced (after_first (codes "Content-Length: ") head) body

-- The header ends at the first empty line; the length is behind its field name.
abbrev pub read_body : Bytes → Option Bytes
read_body message = split (cut_at (codes "\r\n\r\n") message)

-- No empty line begins in a number.
cut_at-AreDigits :
    (s tail xs ys : Bytes)
    → AreDigits s
    → cut_at (codes "\r\n\r\n") tail ≡ some (xs, ys)
    → cut_at (codes "\r\n\r\n") (s ++ tail) ≡ some (s ++ xs, ys)
cut_at-AreDigits [] tail xs ys d h = h
cut_at-AreDigits (c ∷ s) tail xs ys d h = ground (arith, d.0, cut_at-AreDigits s tail xs ys d.1 h)

length_same :
    (body : Bytes) → complete (some (length body, codes "\r\nConnection: close")) body ≡ some body
length_same body = ground arith

-- A client that cuts the response at its first empty line, reads the number behind Content-Length
-- in the part before it and compares that number with the length of the rest gets the body back,
-- whatever the body.
pub read_body-response : (body : Bytes) → read_body (response body) ≡ some body
unfolding response
read_body-response body =
    let cut =
      cut_at-AreDigits (to_string (length body)) (codes "\r\nConnection: close\r\n\r\n" ++ body)
        (codes "\r\nConnection: close") body (to_string-AreDigits (length body)) refl in
    rw
      (
        append-nil body,
        cut,
        read_number-to_string (length body) (codes "\r\nConnection: close") refl,
      )
      (length_same body)
