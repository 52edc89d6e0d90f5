-- ===== src/Ipc/Frame.antt =====
-- internal/ipc/frame.go: the frames between the proxy and the analyzer, and their bytes.
pub mod Fields
pub mod RoundTrip
pub mod Malformed
use ro_proxy.Prelude.{
  ℕ, zero, suc, ◌+◌, ◌%◌, ◌^◌, Bool, List, [], ◌∷◌, ◌++◌, Run, ok, panic, ◌>>=◌, Option, some, none,
}
use ro_proxy.Prelude.{length, take, drop, get_or, leb, ltb, ◌==◌, if◌then◌else◌}
use ro_proxy.Prelude.Int.{ℤ, pos, to_u64, of_u64}
use ro_proxy.Common.Base.{Bytes, PacketDirection, server_to_client, client_to_server, of_le, to_le}
use ro_proxy.Packets.Parser.{RawChunk}

abbrev pub magic_number : ℕ
magic_number = 0x524F

abbrev pub version : ℕ
version = 0x01

-- `FrameType` is a byte; these are its four constants.
abbrev pub frame_type_data : ℕ
frame_type_data = 0x00

abbrev pub frame_type_conn_open : ℕ
frame_type_conn_open = 0x01

abbrev pub frame_type_conn_close : ℕ
frame_type_conn_close = 0x02

abbrev pub frame_type_ipc_disconnect : ℕ
frame_type_ipc_disconnect = 0x03

pub record Frame : Type 0 where
  pub type : ℕ
  pub connection_id : ℕ
  pub timestamp : ℤ
  pub direction : PacketDirection
  pub client_addr : Bytes
  pub server_addr : Bytes
  pub bytes : Bytes

abbrev pub new_data_frame : ℕ → ℤ → PacketDirection → Bytes → Bytes → Bytes → Frame
new_data_frame conn_id timestamp direction client_addr server_addr bytes = record {
  type = frame_type_data;
  connection_id = conn_id;
  timestamp = timestamp;
  direction = direction;
  client_addr = client_addr;
  server_addr = server_addr;
  bytes = bytes;
}

-- The zero value of `Direction` is `ServerToClient`.
abbrev pub new_conn_open_frame : ℕ → ℤ → Bytes → Bytes → Frame
new_conn_open_frame conn_id timestamp client_addr server_addr = record {
  type = frame_type_conn_open;
  connection_id = conn_id;
  timestamp = timestamp;
  direction = server_to_client;
  client_addr = client_addr;
  server_addr = server_addr;
  bytes = [];
}

abbrev pub new_conn_close_frame : ℕ → ℤ → Frame
new_conn_close_frame conn_id timestamp = record {
  type = frame_type_conn_close;
  connection_id = conn_id;
  timestamp = timestamp;
  direction = server_to_client;
  client_addr = [];
  server_addr = [];
  bytes = [];
}

abbrev pub to_raw_chunk : Frame → RawChunk
to_raw_chunk f = record {
  connection_id = f.connection_id;
  timestamp = f.timestamp;
  direction = f.direction;
  bytes = f.bytes;
}

abbrev pub direction_byte : PacketDirection → ℕ
direction_byte server_to_client = 0x01
direction_byte client_to_server = 0x00

-- The frame without magic number, version and length.
unfoldable pub encode_body : Frame → Bytes
encode_body f =
    f.type
    ∷ (to_le 8 f.connection_id
        ++ (to_le 8 (to_u64 f.timestamp)
            ++ (direction_byte f.direction
                ∷ (length f.client_addr % 256)
                ∷ (f.client_addr
                    ++ ((length f.server_addr % 256)
                        ∷ (f.server_addr ++ (to_le 4 (length f.bytes % 2 ^ 32) ++ f.bytes)))))))

-- `frameLen` as `Encode` computes it.
abbrev pub frame_len : Frame → ℕ
frame_len f =
    1 + 8 + 8 + 1 + (1 + length f.client_addr) + (1 + length f.server_addr) + (4 + length f.bytes)

-- The bytes fill the buffer from the front, so they are written one field after the other.
unfoldable pub encode : Frame → Bytes
encode f = to_le 2 magic_number ++ (version ∷ (to_le 4 (frame_len f % 2 ^ 32) ++ encode_body f))

pub data FrameError : Type 0 where
  read_error invalid_magic invalid_version : FrameError

-- What `DecodeFrame` does with the bytes that a reader still holds: a frame and the bytes behind it,
-- an error, or a panic on an index out of range.
pub data Decoded : Type 0 where
  decoded : Frame → Bytes → Decoded
  failed : FrameError → Decoded
  panicked : Decoded

-- `body[offset]`, and the bytes behind.
unfoldable pub read_byte : Bytes → Run (ℕ × Bytes)
read_byte [] = panic
read_byte (b ∷ bs) = ok (b, bs)

-- `body[offset : offset+n]`, and the bytes behind. The slices lie in `body`, whose capacity is its
-- length.
unfoldable pub read_bytes : ℕ → Bytes → Run (Bytes × Bytes)
read_bytes n bytes = if leb n (length bytes) then ok (take n bytes, drop n bytes) else panic

-- `binary.LittleEndian.Uint64(body[offset:])` and `Uint32`, with `n` for 8 and 4.
unfoldable pub read_le : ℕ → Bytes → Run (ℕ × Bytes)
read_le n bytes = do (front, rest) ← read_bytes n bytes; ok (of_le front, rest)

-- The fields of the frame from its body; what stands behind them in the body is ignored.
unfoldable pub decode_body : Bytes → Run Frame
decode_body body = do
  (type, body) ← read_byte body
  (connection_id, body) ← read_le 8 body
  (timestamp, body) ← read_le 8 body
  (direction, body) ← read_byte body
  (client_len, body) ← read_byte body
  (client_addr, body) ← read_bytes client_len body
  (server_len, body) ← read_byte body
  (server_addr, body) ← read_bytes server_len body
  (bytes_len, body) ← read_le 4 body
  (bytes, _) ← read_bytes bytes_len body
  ok (record {
    type = type;
    connection_id = connection_id;
    timestamp = of_u64 timestamp;
    direction = if direction == 0x01 then server_to_client else client_to_server;
    client_addr = client_addr;
    server_addr = server_addr;
    bytes = bytes;
  })

-- The body is read whole, and the bytes behind it are left.
abbrev pub finish : Bytes → Run Frame → Decoded
finish rest (ok f) = decoded f rest
finish rest panic = panicked

abbrev pub read_body : ℕ → Bytes → Decoded
read_body n rest =
    if leb n (length rest)
    then finish (drop n rest) (decode_body (take n rest))
    else failed read_error

unfoldable pub decode_frame : Bytes → Decoded
decode_frame bytes =
    if ltb (length bytes) 7
    then failed read_error
    else if of_le (take 2 bytes) == magic_number
    then if get_or bytes 2 0 == version
      then read_body (of_le (take 4 (drop 3 bytes))) (drop 7 bytes)
      else failed invalid_version
    else failed invalid_magic
