-- ===== src/Analyzer/Worker/RoundTrip.antt =====
-- internal/analyzer/worker.go: the parser cuts a stream of whole server packets into those packets.
use ro_proxy.Prelude.{
  ℕ, zero, suc, ◌+◌, ◌^◌, ◌≤◌, ◌<◌, ◌≡◌, refl, ap, ◌∙◌, List, [], ◌∷◌, ◌++◌, map, some, none,
}
use ro_proxy.Prelude.{
  length, drop, min, length-append, take-append_self, drop-append_self, drop-min, All, arith,
}
use ro_proxy.Prelude.Int.{ℤ, pos, negsuc}
use ro_proxy.Common.Base.{Bytes, server_to_client, PacketSpec, PacketSizeType, to_le, of_le}
use ro_proxy.Common.Base.{fixed, fixed_min, indicated_in_packet, unknown, http}
use ro_proxy.Packets.Parser.{ParsedPacket}
use ro_proxy.Analyzer.Worker.{
  Worker, find_spec, uint16_at_front, complete, packet_extent, packet, next_round, read_checksum,
  make_packet, start_data,
}
use ro_proxy.Analyzer.Worker.{parsed, add_packet, try_parse_packets}
use ro_proxy.Analyzer.Worker.Steps.{try_parse_packets_nil, parse_loop_packet, parse_loop_fuel}

-- A packet as the server sends it: the specification of its opcode, and its content.
pub record Message : Type 0 where
  pub opcode : ℕ
  pub s : PacketSpec
  pub body : Bytes

-- The bytes of a packet: the opcode, the total length where the type asks for it, the content.
abbrev pub message_bytes : PacketSizeType → ℕ → Bytes → Bytes
message_bytes fixed opcode body = to_le 2 opcode ++ body
message_bytes indicated_in_packet opcode body =
    to_le 2 opcode ++ (to_le 2 (length body + 4) ++ body)
message_bytes fixed_min opcode body = to_le 2 opcode ++ body
message_bytes http opcode body = to_le 2 opcode ++ body
message_bytes unknown opcode body = to_le 2 opcode ++ body

-- The contents that a packet of the type and size can have.
abbrev pub Fits : PacketSizeType → ℤ → Bytes → Type 0
Fits fixed (pos n) body = length body + 2 ≡ n
Fits fixed_min (pos n) body = length body + 2 ≡ n
Fits indicated_in_packet (negsuc zero) body = length body + 4 < 2 ^ 16
Fits _ _ _ = ⊥

abbrev pub IsMessage : Message → Type 0
IsMessage m =
    (m.opcode < 2 ^ 16)
    × (find_spec server_to_client m.opcode ≡ some m.s)
    × Fits m.s.type m.s.size m.body

abbrev pub bytes_of : Message → Bytes
bytes_of m = message_bytes m.s.type m.opcode m.body

abbrev pub stream_of : List Message → Bytes
stream_of [] = []
stream_of (m ∷ ms) = bytes_of m ++ stream_of ms

message_extent :
    (t : PacketSizeType) (z : ℤ) (opcode : ℕ) (body rest : Bytes)
    → Fits t z body
    → packet_extent t z (message_bytes t opcode body ++ rest)
      ≡ complete (length (message_bytes t opcode body))
unfolding packet_extent to_le of_le
message_extent fixed (pos n) opcode body rest h = ground (arith, length-append body rest)
message_extent fixed (negsuc n) opcode body rest h = absurd h
message_extent fixed_min (pos n) opcode body rest h = ground (arith, length-append body rest)
message_extent fixed_min (negsuc n) opcode body rest h = absurd h
message_extent indicated_in_packet (pos n) opcode body rest h = absurd h
message_extent indicated_in_packet (negsuc zero) opcode body rest h =
    ground (arith, length-append body rest)
message_extent indicated_in_packet (negsuc (suc n)) opcode body rest h = absurd h
message_extent http z opcode body rest h = absurd h
message_extent unknown z opcode body rest h = absurd h

message_opcode :
    (t : PacketSizeType) (opcode : ℕ) (body rest : Bytes)
    → opcode < 2 ^ 16
    → uint16_at_front (message_bytes t opcode body ++ rest) ≡ opcode
unfolding to_le of_le
message_opcode fixed opcode body rest h = omega arith
message_opcode fixed_min opcode body rest h = omega arith
message_opcode indicated_in_packet opcode body rest h = omega arith
message_opcode http opcode body rest h = omega arith
message_opcode unknown opcode body rest h = omega arith

message_length :
    (t : PacketSizeType) (opcode : ℕ) (body : Bytes) → 2 ≤ length (message_bytes t opcode body)
unfolding to_le
message_length fixed opcode body = omega arith
message_length fixed_min opcode body = omega arith
message_length indicated_in_packet opcode body = omega arith
message_length http opcode body = omega arith
message_length unknown opcode body = omega arith

-- The content of a packet is what `make_packet` takes for its payload.
message_payload :
    (t : PacketSizeType) (z : ℤ) (opcode : ℕ) (body : Bytes)
    → Fits t z body
    → drop (min (start_data z) (length (message_bytes t opcode body))) (message_bytes t opcode body)
      ≡ body
unfolding to_le
message_payload fixed (pos n) opcode body h = drop-min 2 (message_bytes fixed opcode body)
message_payload fixed (negsuc n) opcode body h = absurd h
message_payload fixed_min (pos n) opcode body h = drop-min 2 (message_bytes fixed_min opcode body)
message_payload fixed_min (negsuc n) opcode body h = absurd h
message_payload indicated_in_packet (pos n) opcode body h = absurd h
message_payload indicated_in_packet (negsuc zero) opcode body h =
    drop-min 4 (message_bytes indicated_in_packet opcode body)
message_payload indicated_in_packet (negsuc (suc n)) opcode body h = absurd h
message_payload http z opcode body h = absurd h
message_payload unknown z opcode body h = absurd h

-- The packet that the parser makes of a message.
abbrev pub packet_of : Worker → ℤ → Message → ParsedPacket
packet_of w timestamp m = record (make_packet w server_to_client timestamp m.opcode m.s [] none) {
  payload = m.body;
}

module _ (m : Message) (rest : Bytes) (h : IsMessage m) where
  message_round :
      next_round server_to_client (bytes_of m ++ rest) ≡ packet m.opcode m.s (length (bytes_of m))
  unfolding next_round
  message_round = ground (
    arith,
    length-append (bytes_of m) rest,
    message_length m.s.type m.opcode m.body,
    message_opcode m.s.type m.opcode m.body rest h.0,
    message_extent m.s.type m.s.size m.opcode m.body rest h.2,
    h.1,
  )

  message_packet :
      (w : Worker) (timestamp : ℤ)
      → make_packet w server_to_client timestamp m.opcode m.s (bytes_of m) none
        ≡ packet_of w timestamp m
  unfolding make_packet
  message_packet w timestamp = rw (message_payload m.s.type m.s.size m.opcode m.body h.2)

module _ (w : Worker) (timestamp : ℤ) where
  -- The parser takes a message off the front of the buffer.
  parse_message :
      (m : Message) (rest : Bytes)
      → IsMessage m
      → try_parse_packets w server_to_client timestamp (bytes_of m ++ rest)
        ≡ add_packet (packet_of w timestamp m) (try_parse_packets w server_to_client timestamp rest)
  unfolding try_parse_packets read_checksum
  parse_message m rest h =
      parse_loop_packet w server_to_client timestamp _ (bytes_of m ++ rest) m.opcode m.s
        (length (bytes_of m)) (message_round m rest h)
      ∙ rw
          (
            take-append_self (length (bytes_of m)) (bytes_of m) rest refl,
            drop-append_self (length (bytes_of m)) (bytes_of m) rest refl,
            message_packet m rest h w timestamp,
          )
          (ap (add_packet (packet_of w timestamp m)) (
            parse_loop_fuel w server_to_client timestamp _ _ rest
              (omega
                (arith, length-append (bytes_of m) rest, message_length m.s.type m.opcode m.body))
              (omega arith)))

  -- Whatever packets the server sends, one after the other, each with the size of its specification
  -- or its indicated length: the parser hands on exactly these packets, and no byte is left.
  pub try_parse_packets-stream_of :
      (ms : List Message)
      → All IsMessage ms
      → try_parse_packets w server_to_client timestamp (stream_of ms)
        ≡ parsed (map (packet_of w timestamp) ms) []
  try_parse_packets-stream_of [] h = try_parse_packets_nil w server_to_client timestamp
  try_parse_packets-stream_of (m ∷ ms) (h, hs) =
      parse_message m (stream_of ms) h
      ∙ ap (add_packet (packet_of w timestamp m)) (try_parse_packets-stream_of ms hs)
