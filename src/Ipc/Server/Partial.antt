-- ===== src/Ipc/Server/Partial.antt =====
-- internal/ipc: a frame of which only a part was written, and the end of the server's loop.
use ro_proxy.Prelude.{
  ℕ, zero, suc, ◌+◌, ◌-◌, ◌≤◌, ◌<◌, ◌≡◌, ◌≢◌, refl, ap, sym, ◌∙◌, List, [], ◌∷◌, ◌++◌, Run, ok,
  panic, inl, inr,
}
use ro_proxy.Prelude.{
  length, take, drop, ltb, length-append, length-drop, length-take, append-nil, Bool-cases, arith,
}
use ro_proxy.Common.Base.{Bytes, of_le, to_le}
use ro_proxy.Ipc.Frame.{
  Frame, encode, encode_body, frame_len, Decoded, decoded, failed, panicked, read_error,
  decode_frame, read_body, finish, decode_body,
}
use ro_proxy.Ipc.Frame.Fields.{length-encode_body}
use ro_proxy.Ipc.Frame.RoundTrip.{IsFrame, header, encode-header, decode_frame-header}
use ro_proxy.Ipc.Server.{
  Served, take_frames, offer, handle_connection, next_take, later_takes, out_of_fuel,
}

decode_frame_short : (bytes : Bytes) → length bytes < 7 → decode_frame bytes ≡ failed read_error
unfolding decode_frame
decode_frame_short bytes h = ground arith

take-append_right {ℓ} :
    {A : Type ℓ} (k : ℕ) (xs ys : List A)
    → length xs ≤ k
    → take k (xs ++ ys) ≡ xs ++ take (k - length xs) ys
take-append_right k [] ys h = let e : k - 0 ≡ k = omega arith in rw e
take-append_right zero (x ∷ xs) ys h = absurd (omega arith)
take-append_right (suc k) (x ∷ xs) ys h =
    let e : suc k - suc (length xs) ≡ k - length xs = omega arith in
    rw e (ap (λ t. x ∷ t) (take-append_right k xs ys (omega arith)))

read_body_short : (n : ℕ) (rest : Bytes) → length rest < n → read_body n rest ≡ failed read_error
read_body_short n rest h = ground arith

length-header : (n : ℕ) → length (header n) ≡ 7
unfolding to_le
length-header n = refl

-- A frame that fits its length fields and of which not all bytes arrive is a read error, wherever it is
-- cut off.
pub decode_frame-take-encode :
    (f : Frame) (k : ℕ)
    → IsFrame f
    → k < length (encode f)
    → decode_frame (take k (encode f)) ≡ failed read_error
decode_frame-take-encode f k v h =
    let whole : encode f ≡ header (frame_len f) ++ encode_body f =
      sym (append-nil (encode f))
      ∙ encode-header f [] v
      ∙ ap (λ t. header (frame_len f) ++ t) (append-nil (encode_body f)) in
    let size : length (encode f) ≡ 7 + frame_len f =
      ap length whole
      ∙ length-append (header (frame_len f)) (encode_body f)
      ∙ omega (arith, length-header (frame_len f), length-encode_body f) in
    elim (Bool-cases (ltb k 7)) [
      | inl short ↦
          decode_frame_short (take k (encode f)) (ground (arith, length-take k (encode f)))
      | inr long ↦
          ap (λ t. decode_frame (take k t)) whole
          ∙ ap decode_frame (
              take-append_right k (header (frame_len f)) (encode_body f)
                (ground (arith, length-header (frame_len f))))
          ∙ decode_frame-header (frame_len f) _ v.body_fits
          ∙ read_body_short (frame_len f) _ (
              ground (
                arith,
                length-take (k - length (header (frame_len f))) (encode_body f),
                size,
                length-header (frame_len f),
              ))
    ]

abbrev rest_of : Decoded → Bytes
rest_of (decoded f rest) = rest
rest_of (failed e) = []
rest_of panicked = []

rest_of-finish : (rest : Bytes) (r : Run Frame) → length (rest_of (finish rest r)) ≤ length rest
rest_of-finish rest (ok f) = omega arith
rest_of-finish rest panic = omega arith

rest_of-read_body : (n : ℕ) (body : Bytes) → length (rest_of (read_body n body)) ≤ length body
rest_of-read_body n body =
    ground (arith, rest_of-finish (drop n body) (decode_body (take n body)), length-drop n body)

rest_of-decode_frame : (bytes : Bytes) → length (rest_of (decode_frame bytes)) ≤ length bytes - 7
unfolding decode_frame
rest_of-decode_frame bytes =
    ground
      (arith, rest_of-read_body (of_le (take 4 (drop 3 bytes))) (drop 7 bytes), length-drop 7 bytes)

-- A frame that is decoded takes at least the header from the stream.
decode_frame-length :
    (bytes rest : Bytes) (f : Frame)
    → decode_frame bytes ≡ decoded f rest
    → length rest < length bytes
decode_frame-length bytes rest f e = elim (Bool-cases (ltb (length bytes) 7)) [
  | inl short ↦ absurd (let p = decode_frame_short bytes (ground arith) in cc)
  | inr long ↦ ground (arith, rw e at (rest_of-decode_frame bytes))
]

-- The loop of `handleConnection` ends once the connection is closed: each frame takes bytes off what
-- was delivered.
pub handle_connection-ne-out_of_fuel :
    (fuel : ℕ) (takes : List ℕ) (bytes : Bytes) (s : Served)
    → length bytes < fuel
    → (handle_connection fuel takes bytes s).0 ≢ out_of_fuel
unfolding handle_connection
handle_connection-ne-out_of_fuel zero takes bytes s h = absurd (omega arith)
handle_connection-ne-out_of_fuel (suc fuel) takes bytes s h =
    go (decode_frame bytes) refl
      (λ rest. handle_connection-ne-out_of_fuel fuel (later_takes takes) rest)
  where
    go :
        (d : Decoded)
        → decode_frame bytes ≡ d
        → ((rest : Bytes) (t : Served)
            → length rest < fuel
            → (handle_connection fuel (later_takes takes) rest t).0 ≢ out_of_fuel)
        → (handle_connection (suc fuel) takes bytes s).0 ≢ out_of_fuel
    go (decoded f rest) e ih =
        rw (e, handle_connection)
          (ih rest (offer f (take_frames (next_take takes) s))
            (omega (arith, decode_frame-length bytes rest f e)))
    go (failed r) e ih = rw (e, handle_connection) (λ p. cc)
    go panicked e ih = rw (e, handle_connection) (λ p. cc)
