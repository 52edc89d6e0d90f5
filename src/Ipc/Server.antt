-- ===== src/Ipc/Server.antt =====
-- internal/ipc/server.go: a connection of the proxy, read frame by frame into the channel that the
-- processor takes frames out of.
pub mod Delivery
pub mod Partial
use ro_proxy.Prelude.{ℕ, zero, suc, List, [], ◌∷◌, ◌++◌, length, take, drop, ltb, if◌then◌else◌}
use ro_proxy.Prelude.Int.{pos}
use ro_proxy.Common.Base.{Bytes, server_to_client}
use ro_proxy.Ipc.Frame.{
  Frame, Decoded, decoded, failed, panicked, decode_frame, frame_type_ipc_disconnect,
}

abbrev pub frame_capacity : ℕ
frame_capacity = 10000

-- `&Frame{Type: FrameTypeIPCDisconnect}`
abbrev pub disconnect_frame : Frame
disconnect_frame = record {
  type = frame_type_ipc_disconnect;
  connection_id = 0;
  timestamp = pos 0;
  direction = server_to_client;
  client_addr = [];
  server_addr = [];
  bytes = [];
}

-- The channel, oldest frame first, and the frames that the processor has taken out, in order.
pub record Served : Type 0 where
  pub taken : List Frame
  pub waiting : List Frame

-- The processor takes up to `n` frames out of the channel.
abbrev pub take_frames : ℕ → Served → Served
take_frames n s = record { taken = s.taken ++ take n s.waiting; waiting = drop n s.waiting }

-- The send in `select`, which drops the frame where the channel is full.
abbrev pub offer : Frame → Served → Served
offer f s =
    if ltb (length s.waiting) frame_capacity then record s { waiting = s.waiting ++ f ∷ [] } else s

-- How the goroutine of a connection ends: it returns after the disconnect frame, or `DecodeFrame`
-- panics, which nothing recovers. The third is no behaviour of the code.
pub data Ended : Type 0 where
  returned crashed out_of_fuel : Ended

-- The number of frames that the processor takes before the next send; where the list ends, it takes
-- none.
abbrev pub next_take : List ℕ → ℕ
next_take [] = 0
next_take (n ∷ ns) = n

abbrev pub later_takes : List ℕ → List ℕ
later_takes [] = []
later_takes (n ∷ ns) = ns

-- `handleConnection` on the bytes that the connection delivers until it is closed.
unfoldable pub handle_connection : ℕ → List ℕ → Bytes → Served → Ended × Served
handle_connection zero takes bytes s = (out_of_fuel, s)
handle_connection (suc fuel) takes bytes s = elim (decode_frame bytes) [
  | decoded f rest ↦
      handle_connection fuel (later_takes takes) rest (offer f (take_frames (next_take takes) s))
  | failed e ↦ (returned, offer disconnect_frame (take_frames (next_take takes) s))
  | panicked ↦ (crashed, s)
]
