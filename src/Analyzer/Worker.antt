-- ===== src/Analyzer/Worker.antt =====
-- internal/analyzer/worker.go: how the bytes of one connection are cut into packets.
pub mod Addresses
pub mod Bounds
pub mod Steps
pub mod Append
pub mod Loop
pub mod Stream
pub mod Panics
pub mod Checksum
pub mod RoundTrip
pub mod Rest
pub mod CutOff
pub mod Reassembly
pub mod Handled
use ro_proxy.Prelude.{
  ℕ, zero, suc, ◌+◌, ◌-◌, ◌<◌, ◌≡◌, Bool, true, false, ◌&&◌, Option, none, some, min,
}
use ro_proxy.Prelude.{List, [], ◌∷◌, length, take, drop, leb, ltb, ◌==◌, if◌then◌else◌}
use ro_proxy.Prelude.Int.{ℤ, pos, negsuc}
use ro_proxy.Common.Base.{Bytes, PacketDirection, server_to_client, client_to_server, PacketSpec}
use ro_proxy.Common.Base.{
  PacketSizeType, fixed, fixed_min, indicated_in_packet, unknown, http, of_le,
}
use ro_proxy.Packets.Parser.{ParsedPacket}
use ro_proxy.Packets.Receive
use ro_proxy.Packets.Send
use Addresses.{Endpoints, parse_network_addresses}

-- The fields of `Worker` that parsing reads.
pub record Worker : Type 0 where
  pub connection_id : ℕ
  pub client_addr : Bytes
  pub server_addr : Bytes

-- The database of the direction, looked up.
unfoldable pub find_spec : PacketDirection → ℕ → Option PacketSpec
find_spec server_to_client opcode = Receive.packet_database opcode
find_spec client_to_server opcode = Send.packet_database opcode

-- `binary.LittleEndian.Uint16(bytes[0:2])`
abbrev pub uint16_at_front : Bytes → ℕ
uint16_at_front bytes = of_le (take 2 bytes)

pub starts_with_delimiter : Bytes → Bool
starts_with_delimiter (a ∷ b ∷ c ∷ d ∷ _) = a == 0x0d && b == 0x0a && c == 0x0d && d == 0x0a
starts_with_delimiter _ = false

-- The index just behind the first `\r\n\r\n`, which is where `parseHTTPPacket` ends the packet.
pub parse_http_packet : Bytes → Option ℕ
parse_http_packet [] = none
parse_http_packet (b ∷ bs) =
    let rest = parse_http_packet bs in
    if starts_with_delimiter (b ∷ bs)
    then some 4
    else elim rest [ none ↦ none | some n ↦ some (suc n) ]

-- What the `switch` on the size type decides: the packet's size is known and the buffer holds the
-- packet, bytes are missing, one byte is passed over, or the size is negative, where `valid` is true
-- and `make([]byte, packetSize)` panics.
pub data Extent : Type 0 where
  complete : ℕ → Extent
  incomplete pass_over negative : Extent

abbrev pub known_size : ℤ → ℕ → Extent
known_size (pos n) available = if leb n available then complete n else incomplete
known_size (negsuc n) available = negative

-- The indicated size; one that is below 2 counts as 2. A `uint16` cannot exceed 10 MB.
abbrev pub indicated_size : Bytes → ℕ
indicated_size buffer = let size = uint16_at_front (drop 2 buffer) in if ltb size 2 then 2 else size

unfoldable pub packet_extent : PacketSizeType → ℤ → Bytes → Extent
packet_extent fixed size buffer = known_size size (length buffer)
packet_extent fixed_min size buffer = known_size size (length buffer)
packet_extent indicated_in_packet size buffer =
    if leb 4 (length buffer)
    then if leb (indicated_size buffer) (length buffer)
      then complete (indicated_size buffer)
      else incomplete
    else incomplete
packet_extent http size buffer = elim (parse_http_packet buffer) [
  | none ↦ incomplete
  | some n ↦ complete n
]
packet_extent unknown size buffer = pass_over

-- One round of the loop up to the test of `valid`.
pub data Round : Type 0 where
  wait skip crash : Round
  packet : (opcode : ℕ) (s : PacketSpec) (size : ℕ) → Round

abbrev pub round_of : ℕ → PacketSpec → Extent → Round
round_of opcode s (complete n) = packet opcode s n
round_of opcode s incomplete = wait
round_of opcode s pass_over = skip
round_of opcode s negative = crash

unfoldable pub next_round : PacketDirection → Bytes → Round
next_round direction buffer =
    if ltb (length buffer) 2 then wait else elim (find_spec direction (uint16_at_front buffer)) [
      | none ↦ skip
      | some s ↦ round_of (uint16_at_front buffer) s (packet_extent s.type s.size buffer)
    ]

abbrev pub is_send_opcode : Bytes → Bool
is_send_opcode bytes = elim (Send.packet_database (uint16_at_front bytes)) [
  | none ↦ false
  | some _ ↦ true
]

-- The byte that may follow a client's packet: the checksum, and the buffer behind it.
unfoldable pub read_checksum : PacketDirection → Bytes → Option ℕ × Bytes
read_checksum server_to_client bytes = (none, bytes)
read_checksum client_to_server [] = (none, [])
read_checksum client_to_server (b ∷ []) = (some b, [])
read_checksum client_to_server (b ∷ c ∷ []) = (none, b ∷ c ∷ [])
read_checksum client_to_server (b ∷ c ∷ d ∷ rest) =
    if is_send_opcode (b ∷ c ∷ d ∷ rest)
    then (none, b ∷ c ∷ d ∷ rest)
    else if is_send_opcode (c ∷ d ∷ rest)
    then (some b, c ∷ d ∷ rest)
    else (none, b ∷ c ∷ d ∷ rest)

-- `startData`: the opcode, and the length field where the specification's size is -1.
abbrev pub start_data : ℤ → ℕ
start_data (pos n) = 2
start_data (negsuc zero) = 4
start_data (negsuc (suc n)) = 2

unfoldable pub make_packet :
    Worker → PacketDirection → ℤ → ℕ → PacketSpec → Bytes → Option ℕ → ParsedPacket
make_packet w direction timestamp opcode s packet_data checksum =
    let ends : Endpoints = parse_network_addresses w.client_addr w.server_addr direction in
    record {
      connection_id = w.connection_id;
      timestamp = timestamp;
      direction = direction;
      opcode = opcode;
      payload = drop (min (start_data s.size) (length packet_data)) packet_data;
      checksum = checksum;
      source_ip = ends.source_ip;
      source_port = ends.source_port;
      dest_ip = ends.dest_ip;
      dest_port = ends.dest_port;
    }

-- The packets that a call of `tryParsePackets` returns with what stays in the buffer, a panic, or
-- no end within the fuel, which is no behaviour of the code.
pub data Parse : Type 0 where
  parsed : List ParsedPacket → Bytes → Parse
  panicked out_of_fuel : Parse

abbrev pub add_packet : ParsedPacket → Parse → Parse
add_packet p (parsed ps rest) = parsed (p ∷ ps) rest
add_packet p panicked = panicked
add_packet p out_of_fuel = out_of_fuel

module _ (w : Worker) (direction : PacketDirection) (timestamp : ℤ) where
  unfoldable pub parse_loop : ℕ → Bytes → Parse
  parse_loop zero buffer = out_of_fuel
  parse_loop (suc fuel) buffer = elim (next_round direction buffer) [
    | wait ↦ parsed [] buffer
    | skip ↦ parse_loop fuel (drop 1 buffer)
    | crash ↦ panicked
    | packet opcode s size ↦
        let (checksum, rest) = read_checksum direction (drop size buffer) in
        add_packet (make_packet w direction timestamp opcode s (take size buffer) checksum)
          (parse_loop fuel rest)
  ]

  -- Every round but the last takes a byte at least from the buffer.
  unfoldable pub try_parse_packets : Bytes → Parse
  try_parse_packets buffer = parse_loop (suc (length buffer)) buffer
