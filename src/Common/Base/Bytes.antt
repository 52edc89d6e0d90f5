-- ===== src/Common/Base/Bytes.antt =====
-- Laws of little-endian numbers.
use ro_proxy.Prelude.{ℕ, zero, suc, ◌/◌, ◌^◌, ◌<◌, ◌≡◌, refl, ap, arith}
use ro_proxy.Prelude.{length}
use ro_proxy.Common.Base.{of_le, to_le}
use native.Mathlib.Nat.{pow-suc}

pub length-to_le : (n x : ℕ) → length (to_le n x) ≡ n
unfolding to_le
length-to_le zero x = refl
length-to_le (suc n) x = ap suc (length-to_le n (x / 256))

pub of_le-to_le : (n x : ℕ) → x < 256 ^ n → of_le (to_le n x) ≡ x
unfolding of_le to_le
of_le-to_le zero x h = omega arith
of_le-to_le (suc n) x h = omega (arith, of_le-to_le n (x / 256), pow-suc 256 n)
