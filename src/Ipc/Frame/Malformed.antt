-- ===== src/Ipc/Frame/Malformed.antt =====
-- internal/ipc/frame.go: what `DecodeFrame` does with bytes that `Encode` did not write.
use ro_proxy.Prelude.{
  ℕ, ◌+◌, ◌≤◌, ◌<◌, ◌≡◌, refl, ◌∙◌, Option, some, none, not, [], ◌∷◌, ◌++◌, Run, ok, panic, ◌>>=◌,
  length, take, drop, get_or, ltb, ◌==◌, if◌then◌else◌, length-take, length-drop, arith,
}
use ro_proxy.Common.Base.{Bytes, of_le}
use ro_proxy.Ipc.Frame.{
  Frame, decode_body, decode_frame, Decoded, decoded, failed, panicked, FrameError, read_error,
  invalid_magic, invalid_version, read_byte, read_bytes, read_le, finish, magic_number, version,
}
use ro_proxy.Ipc.Frame.RoundTrip.{header, decode_frame-header}

-- A read of `n` bytes in front of a continuation that panics on fewer than `k` bytes panics on fewer
-- than `n + k`.
read_byte_short :
    (k : ℕ) (bytes : Bytes) (f : ℕ × Bytes → Run Frame)
    → length bytes < 1 + k
    → ((p : ℕ × Bytes) → length p.1 < k → f p ≡ panic)
    → (read_byte bytes >>= f) ≡ panic
unfolding read_byte
read_byte_short k [] f h next = refl
read_byte_short k (b ∷ bs) f h next = next (b, bs) (omega arith)

read_bytes_short :
    (n k : ℕ) (bytes : Bytes) (f : Bytes × Bytes → Run Frame)
    → length bytes < n + k
    → ((p : Bytes × Bytes) → length p.1 < k → f p ≡ panic)
    → (read_bytes n bytes >>= f) ≡ panic
unfolding read_bytes
read_bytes_short n k bytes f h next =
    ground (arith, next (take n bytes, drop n bytes), length-drop n bytes)

read_le_short :
    (n k : ℕ) (bytes : Bytes) (f : ℕ × Bytes → Run Frame)
    → length bytes < n + k
    → ((p : ℕ × Bytes) → length p.1 < k → f p ≡ panic)
    → (read_le n bytes >>= f) ≡ panic
unfolding read_le read_bytes
read_le_short n k bytes f h next =
    ground (arith, next (of_le (take n bytes), drop n bytes), length-drop n bytes)

-- The fixed fields of a body take 24 bytes: below that some index is out of range.
decode_body_short : (body : Bytes) → length body < 24 → decode_body body ≡ panic
unfolding decode_body
decode_body_short body h = read_byte_short 23 body _ h λ a ha. read_le_short 8 15 a.1 _ ha λ b hb.
    read_le_short 8 7 b.1 _ hb λ c hc. read_byte_short 6 c.1 _ hc λ d hd.
      read_byte_short 5 d.1 _ hd λ e he. read_bytes_short e.0 5 e.1 _ (omega arith) λ f hf.
        read_byte_short 4 f.1 _ hf λ g hg.
          read_bytes_short g.0 4 g.1 _ (omega arith)
            λ i hi. read_le_short 4 0 i.1 _ hi λ j hj. absurd (omega arith)

-- A header that announces fewer than 24 bytes, and gets them, makes `DecodeFrame` panic.
pub decode_frame_short_body :
    (n : ℕ) (rest : Bytes) → n < 24 → n ≤ length rest → decode_frame (header n ++ rest) ≡ panicked
decode_frame_short_body n rest h long =
    decode_frame-header n rest (omega arith)
    ∙ ground (arith, decode_body_short (take n rest), length-take n rest)

-- What is wrong with the bytes on the stream, before any field of the body is read.
unfoldable pub fault : Bytes → Option FrameError
fault bytes =
    if ltb (length bytes) 7
    then some read_error
    else if not (of_le (take 2 bytes) == magic_number)
    then some invalid_magic
    else if not (get_or bytes 2 0 == version)
    then some invalid_version
    else if ltb (length bytes) (7 + of_le (take 4 (drop 3 bytes)))
    then some read_error
    else none

unfoldable pub error_of : Decoded → Option FrameError
error_of (decoded f rest) = none
error_of (failed e) = some e
error_of panicked = none

error_of-finish : (rest : Bytes) (r : Run Frame) → error_of (finish rest r) ≡ none
unfolding error_of
error_of-finish rest (ok f) = refl
error_of-finish rest panic = refl

-- `DecodeFrame` returns an error exactly where a test on the header fails or the body is not there in
-- full, and the error is that of the first such test: too few bytes for a header, the magic number, the
-- version, too few bytes for the body. No content of the body gives an error.
pub decode_frame_errors : (bytes : Bytes) → error_of (decode_frame bytes) ≡ fault bytes
unfolding decode_frame fault error_of
decode_frame_errors bytes = ground (
  arith,
  length-drop 7 bytes,
  error_of-finish (drop (7 + of_le (take 4 (drop 3 bytes))) bytes)
      (decode_body (take (of_le (take 4 (drop 3 bytes))) (drop 7 bytes))),
)
