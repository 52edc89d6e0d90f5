-- ===== src/Analyzer/Worker/Bounds.antt =====
-- internal/analyzer/worker.go: what one round of the parser takes, and that its loop ends.
use ro_proxy.Prelude.{ℕ, ◌-◌, ◌≤◌, ◌≡◌, true, some}
use ro_proxy.Prelude.{[], ◌∷◌, length, arith}
use ro_proxy.Prelude.Int.{ℤ, pos, negsuc}
use ro_proxy.Common.Base.{Bytes, PacketDirection, server_to_client, client_to_server, PacketSpec}
use ro_proxy.Common.Base.{PacketSizeType, fixed, fixed_min, indicated_in_packet, unknown, http}
use ro_proxy.Packets.Sizes.{CoversOpcode, send_covers, receive_covers}
use ro_proxy.Analyzer.Worker.{
  find_spec, uint16_at_front, parse_http_packet, complete, packet_extent, skip, packet, next_round,
  read_checksum,
}
use ro_proxy.Analyzer.Worker.{starts_with_delimiter}

delimiter_length : (buffer : Bytes) → starts_with_delimiter buffer ≡ true → 4 ≤ length buffer
unfolding starts_with_delimiter
delimiter_length [] h = cc
delimiter_length (a ∷ []) h = cc
delimiter_length (a ∷ b ∷ []) h = cc
delimiter_length (a ∷ b ∷ c ∷ []) h = cc
delimiter_length (a ∷ b ∷ c ∷ d ∷ rest) h = omega arith

parse_http_packet_bounds :
    (buffer : Bytes) (n : ℕ) → parse_http_packet buffer ≡ some n → (4 ≤ n) × (n ≤ length buffer)
unfolding parse_http_packet
parse_http_packet_bounds [] n e = cc
parse_http_packet_bounds (b ∷ bs) n e =
    ground (arith, delimiter_length (b ∷ bs), parse_http_packet_bounds bs (n - 1))

-- A complete packet lies in the buffer and is at least as long as its opcode.
packet_extent_bounds :
    (t : PacketSizeType) (size : ℤ) (buffer : Bytes) (n : ℕ)
    → CoversOpcode t size
    → packet_extent t size buffer ≡ complete n
    → (2 ≤ n) × (n ≤ length buffer)
unfolding packet_extent
packet_extent_bounds fixed (pos k) buffer n s e = ground arith
packet_extent_bounds fixed (negsuc k) buffer n s e = cc
packet_extent_bounds fixed_min (pos k) buffer n s e = ground arith
packet_extent_bounds fixed_min (negsuc k) buffer n s e = cc
packet_extent_bounds indicated_in_packet z buffer n s e = ground arith
packet_extent_bounds http z buffer n s e = ground (arith, parse_http_packet_bounds buffer n)
packet_extent_bounds unknown z buffer n s e = cc

find_spec_covers :
    (direction : PacketDirection) (opcode : ℕ) (s : PacketSpec)
    → find_spec direction opcode ≡ some s
    → CoversOpcode s.type s.size
unfolding find_spec
find_spec_covers server_to_client opcode s e = receive_covers opcode s e
find_spec_covers client_to_server opcode s e = send_covers opcode s e

-- What a round says of the packet that it takes.
next_round_packet :
    (direction : PacketDirection) (buffer : Bytes) (opcode : ℕ) (s : PacketSpec) (n : ℕ)
    → next_round direction buffer ≡ packet opcode s n
    → (opcode ≡ uint16_at_front buffer)
      × (find_spec direction opcode ≡ some s)
      × (packet_extent s.type s.size buffer ≡ complete n)
unfolding next_round
next_round_packet direction buffer opcode s n e = ground arith

pub next_round_bounds :
    (direction : PacketDirection) (buffer : Bytes) (opcode : ℕ) (s : PacketSpec) (n : ℕ)
    → next_round direction buffer ≡ packet opcode s n
    → (2 ≤ n) × (n ≤ length buffer)
next_round_bounds direction buffer opcode s n e =
    let (_, found, extent) = next_round_packet direction buffer opcode s n e in
    packet_extent_bounds s.type s.size buffer n (find_spec_covers direction opcode s found) extent

pub next_round_skip :
    (direction : PacketDirection) (buffer : Bytes)
    → next_round direction buffer ≡ skip
    → 2 ≤ length buffer
unfolding next_round
next_round_skip direction buffer e = ground arith

pub length-read_checksum :
    (direction : PacketDirection) (bytes : Bytes)
    → length (read_checksum direction bytes).1 ≤ length bytes
unfolding read_checksum
length-read_checksum server_to_client bytes = omega arith
length-read_checksum client_to_server [] = omega arith
length-read_checksum client_to_server (b ∷ []) = omega arith
length-read_checksum client_to_server (b ∷ c ∷ []) = omega arith
length-read_checksum client_to_server (b ∷ c ∷ d ∷ rest) = ground arith
