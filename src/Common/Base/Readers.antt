-- ===== src/Common/Base/Readers.antt =====
-- internal/common/base.go: the readers give back what stands in the bytes, and zero values elsewhere.
use ro_proxy.Prelude.{
  ℕ, ◌+◌, ◌-◌, ◌*◌, ◌/◌, ◌%◌, ◌^◌, ◌<◌, ◌≡◌, ◌≢◌, refl, [], ◌∷◌, ◌++◌, All, arith,
}
use ro_proxy.Prelude.{
  length, ltb, ==_iff, if◌then◌else◌, length-append, take-append_self, drop-append_self,
}
use ro_proxy.Common.Base.{
  Bytes, to_le, read_uint32_le, read_uint16_le, until_zero, read_null_terminated_string, hex_digit,
  string_to_hex, IsByte,
}
use ro_proxy.Common.Base.Bytes.{length-to_le, of_le-to_le}

-- A number below 2^32, written at the offset in four bytes, is read, whatever is before and behind it.
pub read_uint32_le-to_le :
    (before after : Bytes) (x : ℕ)
    → x < 256 ^ 4
    → read_uint32_le (before ++ (to_le 4 x ++ after)) (length before) ≡ x
unfolding read_uint32_le
read_uint32_le-to_le before after x h =
    rw
      (
        drop-append_self (length before) before (to_le 4 x ++ after) refl,
        take-append_self 4 (to_le 4 x) after (length-to_le 4 x),
        of_le-to_le 4 x h,
      )
      (ground (
        arith,
        length-append before (to_le 4 x ++ after),
        length-append (to_le 4 x) after,
        length-to_le 4 x,
      ))

-- A number of two bytes at the offset is read, whatever is before and behind it.
read_uint16_le-to_le :
    (before after : Bytes) (x : ℕ)
    → x < 256 ^ 2
    → read_uint16_le (before ++ (to_le 2 x ++ after)) (length before) ≡ x
unfolding read_uint16_le
read_uint16_le-to_le before after x h =
    rw
      (
        drop-append_self (length before) before (to_le 2 x ++ after) refl,
        take-append_self 2 (to_le 2 x) after (length-to_le 2 x),
        of_le-to_le 2 x h,
      )
      (ground (
        arith,
        length-append before (to_le 2 x ++ after),
        length-append (to_le 2 x) after,
        length-to_le 2 x,
      ))

until_zero-append : (s after : Bytes) → All (λ b. b ≢ 0) s → until_zero (s ++ (0 ∷ after)) ≡ s
unfolding until_zero
until_zero-append [] after h = ground arith
until_zero-append (b ∷ bs) after (h, hs) = ground (arith, until_zero-append bs after hs, ==_iff b 0)

-- A text without zero bytes that ends with one is read back at its offset.
pub read_null_terminated_string-append :
    (before s after : Bytes)
    → All (λ b. b ≢ 0) s
    → read_null_terminated_string (before ++ (s ++ (0 ∷ after))) (length before) ≡ s
unfolding read_null_terminated_string
read_null_terminated_string-append before s after h =
    rw
      (drop-append_self (length before) before (s ++ (0 ∷ after)) refl, until_zero-append s after h)
      (ground (arith, length-append before (s ++ (0 ∷ after)), length-append s (0 ∷ after)))

-- The value of a hexadecimal digit.
unfoldable pub digit_value : ℕ → ℕ
digit_value c = if ltb c 58 then c - 48 else c - 87

unfoldable pub from_hex : Bytes → Bytes
unfolding digit_value
from_hex [] = []
from_hex (a ∷ []) = []
from_hex (a ∷ b ∷ cs) = (16 * digit_value a + digit_value b) ∷ from_hex cs

digit_value-hex_digit : (d : ℕ) → d < 16 → digit_value (hex_digit d) ≡ d
unfolding digit_value hex_digit
digit_value-hex_digit d h = ground arith

-- The hexadecimal text of a list of bytes gives the bytes back.
pub from_hex-string_to_hex : (s : Bytes) → All IsByte s → from_hex (string_to_hex s) ≡ s
unfolding from_hex string_to_hex
from_hex-string_to_hex [] h = refl
from_hex-string_to_hex (b ∷ bs) (h, hs) = ground (
  arith,
  from_hex-string_to_hex bs hs,
  digit_value-hex_digit (b / 16) (omega arith),
  digit_value-hex_digit (b % 16) (omega arith),
)
