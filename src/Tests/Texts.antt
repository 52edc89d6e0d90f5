-- ===== src/Tests/Texts.antt =====
-- Runs of internal/common/base.go.
use ro_proxy.Prelude.{◌≡◌, [], ◌∷◌, ◌++◌, arith}
use ro_proxy.Common.Base.{Bytes, to_le, read_uint32_le, read_null_terminated_string, string_to_hex}
use ro_proxy.Common.Base.Readers.{
  read_uint32_le-to_le, read_null_terminated_string-append, from_hex, from_hex-string_to_hex,
}

abbrev before : Bytes
before = 1 ∷ 2 ∷ []

abbrev name : Bytes
name = b'g' ∷ b'e' ∷ b'f' ∷ []

read_uint32_le-to_le_example : read_uint32_le (before ++ (to_le 4 150_000 ++ (7 ∷ []))) 2 ≡ 150_000
read_uint32_le-to_le_example = read_uint32_le-to_le before (7 ∷ []) 150_000 (omega arith)

read_null_terminated_string-append_example :
    read_null_terminated_string (before ++ (name ++ (0 ∷ 9 ∷ []))) 2 ≡ name
read_null_terminated_string-append_example =
    read_null_terminated_string-append before name (9 ∷ [])
      (omega arith, (omega arith, (omega arith, tt)))

from_hex-string_to_hex_example : from_hex (string_to_hex name) ≡ name
from_hex-string_to_hex_example =
    from_hex-string_to_hex name (omega arith, (omega arith, (omega arith, tt)))
