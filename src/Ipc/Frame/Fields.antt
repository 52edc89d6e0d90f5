-- ===== src/Ipc/Frame/Fields.antt =====
-- internal/ipc/frame.go: each field of a frame is read back, with the bytes behind it.
use ro_proxy.Prelude.{
  ℕ, ◌^◌, ◌<◌, ◌≡◌, refl, [], ◌∷◌, ◌++◌, ok, length, length-append, take-append_self,
  drop-append_self, append-nil, arith,
}
use ro_proxy.Prelude.Int.{ℤ, pos, negsuc, to_u64, of_u64, IsI64}
use ro_proxy.Common.Base.{Bytes, to_le}
use ro_proxy.Common.Base.Bytes.{length-to_le, of_le-to_le}
use ro_proxy.Ipc.Frame.{Frame, encode_body, frame_len, read_byte, read_bytes, read_le}

pub of_u64-to_u64 : (z : ℤ) → IsI64 z → of_u64 (to_u64 z) ≡ z
of_u64-to_u64 (pos n) h = ground arith
of_u64-to_u64 (negsuc n) h = ground arith

pub to_u64_bound : (z : ℤ) → IsI64 z → to_u64 z < 2 ^ 64
to_u64_bound (pos n) h = omega arith
to_u64_bound (negsuc n) h = omega arith

pub read_byte-cons : (b : ℕ) (rest : Bytes) → read_byte (b ∷ rest) ≡ ok (b, rest)
unfolding read_byte
read_byte-cons b rest = refl

pub read_bytes-append :
    (n : ℕ) (bytes rest : Bytes)
    → length bytes ≡ n
    → read_bytes n (bytes ++ rest) ≡ ok (bytes, rest)
unfolding read_bytes
read_bytes-append n bytes rest h = ground (
  arith,
  length-append bytes rest,
  take-append_self n bytes rest h,
  drop-append_self n bytes rest h,
)

pub read_le-to_le :
    (n x : ℕ) (rest : Bytes) → x < 256 ^ n → read_le n (to_le n x ++ rest) ≡ ok (x, rest)
unfolding read_le
read_le-to_le n x rest h =
    rw (read_bytes-append n (to_le n x) rest (length-to_le n x)) (rw (of_le-to_le n x h))

-- `frameLen` is the length of the body.
pub length-encode_body : (f : Frame) → length (encode_body f) ≡ frame_len f
unfolding encode_body
length-encode_body f = simp (length-append, length-to_le) (omega arith)

pub read_bytes-whole : (bytes : Bytes) → read_bytes (length bytes) bytes ≡ ok (bytes, [])
read_bytes-whole bytes = rw append-nil at (read_bytes-append (length bytes) bytes [] refl)
