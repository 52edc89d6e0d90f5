-- ===== src/Ipc/Frame/RoundTrip.antt =====
-- internal/ipc/frame.go: `DecodeFrame` reads what `Encode` wrote.
use ro_proxy.Prelude.{
  ℕ, ◌%◌, ◌^◌, ◌<◌, ◌≡◌, refl, ap, ◌∙◌, ◌∷◌, ◌++◌, ok, length, ◌==◌, if◌then◌else◌, length-append,
  take-append_self, drop-append_self, arith,
}
use ro_proxy.Prelude.Int.{IsI64, to_u64}
use ro_proxy.Common.Base.{Bytes, PacketDirection, server_to_client, client_to_server, of_le, to_le}
use ro_proxy.Common.Base.Bytes.{of_le-to_le}
use ro_proxy.Ipc.Frame.{
  Frame, encode_body, encode, frame_len, decode_body, decode_frame, decoded, direction_byte,
  read_body, magic_number, version,
}
use ro_proxy.Ipc.Frame.Fields.{
  of_u64-to_u64, to_u64_bound, read_byte-cons, read_bytes-append, read_le-to_le, read_bytes-whole,
  length-encode_body,
}
use native.Mathlib.Nat.{mod-eq_of_lt}

-- The values of Go's field types, with addresses that fit their length byte and a body that fits its
-- length field.
pub record IsFrame (f : Frame) : Type 0 where
  pub type_byte : f.type < 2 ^ 8
  pub id_word : f.connection_id < 2 ^ 64
  pub time_word : IsI64 f.timestamp
  pub client_fits : length f.client_addr < 2 ^ 8
  pub server_fits : length f.server_addr < 2 ^ 8
  pub body_fits : frame_len f < 2 ^ 32

direction_byte-back :
    (d : PacketDirection)
    → (if direction_byte d == 0x01 then server_to_client else client_to_server) ≡ d
direction_byte-back server_to_client = refl
direction_byte-back client_to_server = refl

decode_body-encode_body : (f : Frame) → IsFrame f → decode_body (encode_body f) ≡ ok f
unfolding decode_body encode_body
decode_body-encode_body f v = rw (
  read_byte-cons,
  read_le-to_le 8 f.connection_id _ (omega arith),
  read_le-to_le 8 (to_u64 f.timestamp) _ (to_u64_bound f.timestamp v.time_word),
  read_byte-cons (direction_byte f.direction),
  read_byte-cons (length f.client_addr % 256),
  mod-eq_of_lt v.client_fits,
  read_bytes-append (length f.client_addr) f.client_addr _ refl,
  read_byte-cons (length f.server_addr % 256),
  mod-eq_of_lt v.server_fits,
  read_bytes-append (length f.server_addr) f.server_addr _ refl,
  mod-eq_of_lt {n = length f.bytes} {m = 2 ^ 32} (omega (arith, v.body_fits)),
  read_le-to_le 4 (length f.bytes) f.bytes (omega (arith, v.body_fits)),
  read_bytes-whole f.bytes,
  of_u64-to_u64 f.timestamp v.time_word,
  direction_byte-back f.direction,
)

-- The seven bytes in front of the body.
abbrev pub header : ℕ → Bytes
header n = to_le 2 magic_number ++ (version ∷ to_le 4 n)

-- A header with the right magic number and version is followed by its body.
pub decode_frame-header :
    (n : ℕ) (rest : Bytes) → n < 2 ^ 32 → decode_frame (header n ++ rest) ≡ read_body n rest
unfolding decode_frame to_le of_le
decode_frame-header n rest h =
    let e : of_le (to_le 4 n) ≡ n = of_le-to_le 4 n h in
    ground (arith, ap (λ k. read_body k rest) e)

read_body-whole :
    (n : ℕ) (body rest : Bytes) (f : Frame)
    → length body ≡ n
    → decode_body body ≡ ok f
    → read_body n (body ++ rest) ≡ decoded f rest
read_body-whole n body rest f h e =
    ground (
      arith,
      length-append body rest,
      take-append_self n body rest h,
      drop-append_self n body rest h,
    )

pub encode-header :
    (f : Frame) (rest : Bytes)
    → IsFrame f
    → encode f ++ rest ≡ header (frame_len f) ++ (encode_body f ++ rest)
unfolding encode to_le
encode-header f rest v = rw (mod-eq_of_lt v.body_fits)

-- A frame whose addresses fit a length byte and whose body fits 32 bits comes back from its bytes
-- unchanged, and the reader is left in front of whatever follows.
pub decode_frame-encode :
    (f : Frame) (rest : Bytes) → IsFrame f → decode_frame (encode f ++ rest) ≡ decoded f rest
decode_frame-encode f rest v =
    ap decode_frame (encode-header f rest v)
    ∙ decode_frame-header (frame_len f) (encode_body f ++ rest) v.body_fits
    ∙ read_body-whole (frame_len f) (encode_body f) rest f (length-encode_body f)
        (decode_body-encode_body f v)
