-- ===== src/Tests/Frames.antt =====
-- Runs of internal/ipc/frame.go.
use ro_proxy.Prelude.{◌≡◌, refl, some, [], ◌∷◌, ◌++◌, length, take, arith}
use ro_proxy.Prelude.Int.{negsuc}
use ro_proxy.Common.Base.{Bytes, client_to_server, of_le, to_le}
use ro_proxy.Ipc.Frame.{
  Frame, new_data_frame, encode, encode_body, decode_frame, decoded, panicked, failed, read_error,
  invalid_magic,
}
use ro_proxy.Ipc.Frame.RoundTrip.{IsFrame, header, decode_frame-encode}
use ro_proxy.Ipc.Server.Partial.{decode_frame-take-encode}
use ro_proxy.Ipc.Frame.Malformed.{fault, error_of, decode_frame_short_body, decode_frame_errors}

abbrev frame : Frame
frame = new_data_frame 7 (negsuc 4) client_to_server (b'a' ∷ []) (b'b' ∷ b'c' ∷ []) (1 ∷ 2 ∷ 3 ∷ [])

frame-IsFrame : IsFrame frame
frame-IsFrame = omega arith

length-encode : length (encode frame) ≡ 37
unfolding encode encode_body to_le
length-encode = refl

decode_frame-encode_example : decode_frame (encode frame ++ (9 ∷ [])) ≡ decoded frame (9 ∷ [])
decode_frame-encode_example = decode_frame-encode frame (9 ∷ []) frame-IsFrame

decode_frame-take-encode_example : decode_frame (take 20 (encode frame)) ≡ failed read_error
decode_frame-take-encode_example =
    decode_frame-take-encode frame 20 frame-IsFrame (omega (arith, length-encode))

decode_frame_short_body_example : decode_frame (header 3 ++ (1 ∷ 2 ∷ 3 ∷ [])) ≡ panicked
decode_frame_short_body_example =
    decode_frame_short_body 3 (1 ∷ 2 ∷ 3 ∷ []) (omega arith) (omega arith)

abbrev wrong : Bytes
wrong = 0x52 ∷ 0x4f ∷ 1 ∷ 0 ∷ 0 ∷ 0 ∷ 0 ∷ []

decode_frame_errors_example : error_of (decode_frame wrong) ≡ fault wrong
decode_frame_errors_example = decode_frame_errors wrong

fault-wrong : fault wrong ≡ some invalid_magic
unfolding fault of_le
fault-wrong = refl
