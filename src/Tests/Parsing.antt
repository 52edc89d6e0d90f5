-- ===== src/Tests/Parsing.antt =====
-- Runs of internal/analyzer/worker.go.
use ro_proxy.Prelude.{
  ◌≡◌, ◌≢◌, ◌↔◌, refl, ◌≤◌, List, [], ◌∷◌, some, none, replicate, All, true, false, arith,
}
use ro_proxy.Prelude.Int.{pos, negsuc}
use ro_proxy.Common.Base.{
  Bytes, PacketSpec, spec, fixed, indicated_in_packet, server_to_client, client_to_server, of_le,
  map_changed, system_chat,
}
use ro_proxy.Packets.Parser.{RawChunk}
use ro_proxy.Packets.Receive
use ro_proxy.Packets.Send
use ro_proxy.Packets.Sizes.{send_sizes, receive_sizes}
use ro_proxy.Analyzer.Worker.{
  Worker, find_spec, parsed, panicked, out_of_fuel, crash, packet, next_round, try_parse_packets,
  make_packet, uint16_at_front, add_packet, parse_loop, packet_extent, read_checksum,
  is_send_opcode,
}
use ro_proxy.Analyzer.Worker.Addresses.{parse_network_addresses}
use ro_proxy.Analyzer.Worker.Loop.{no_bytes, process_chunks}
use ro_proxy.Analyzer.Worker.Steps.{next_round_nil, try_parse_packets-ne-out_of_fuel}
use ro_proxy.Analyzer.Worker.Reassembly.{server_view, process_chunks_reassembles}
use ro_proxy.Analyzer.Worker.CutOff.{IsCutOff, rest-IsCutOff}
use ro_proxy.Analyzer.Worker.RoundTrip.{
  Message, stream_of, packet_of, IsMessage, try_parse_packets-stream_of,
}
use ro_proxy.Analyzer.Worker.Panics.{client_parse-ne-panicked, server_round_crash_iff}
use ro_proxy.Analyzer.Worker.Checksum.{lone_byte_taken, next_opcode_kept}

-- Connection 7 between "1.2:80" and "3.4:6900".
abbrev worker : Worker
worker = record {
  connection_id = 7;
  client_addr = b'1' ∷ b'.' ∷ b'2' ∷ b':' ∷ b'8' ∷ b'0' ∷ [];
  server_addr = b'3' ∷ b'.' ∷ b'4' ∷ b':' ∷ b'6' ∷ b'9' ∷ b'0' ∷ b'0' ∷ [];
}

-- "Map Change", of 22 bytes.
abbrev map_change : Message
map_change = record {
  opcode = 0x0091;
  s = spec "Map Change" (pos 22) fixed (some map_changed) false;
  body = replicate 20 5;
}

-- "System Chat", with its length.
abbrev chat : Message
chat = record {
  opcode = 0x009a;
  s = spec "System Chat" (negsuc 0) indicated_in_packet (some system_chat) false;
  body = b'h' ∷ b'i' ∷ [];
}

map_change_found : find_spec server_to_client 0x0091 ≡ some map_change.s
unfolding find_spec Receive.packet_database
map_change_found = refl

chat_found : find_spec server_to_client 0x009a ≡ some chat.s
unfolding find_spec Receive.packet_database
chat_found = refl

messages-IsMessage : All IsMessage (map_change ∷ chat ∷ [])
messages-IsMessage =
    ((omega arith, map_change_found, refl), ((omega arith, chat_found, omega arith), tt))

try_parse_packets-stream_of_example :
    try_parse_packets worker server_to_client (pos 9) (stream_of (map_change ∷ chat ∷ []))
    ≡ parsed (packet_of worker (pos 9) map_change ∷ packet_of worker (pos 9) chat ∷ []) []
try_parse_packets-stream_of_example =
    try_parse_packets-stream_of worker (pos 9) (map_change ∷ chat ∷ []) messages-IsMessage

-- The chat packet in two chunks, with bytes of the client between them.
abbrev chunks : List RawChunk
chunks =
    record { connection_id = 7; timestamp = pos 1; direction = server_to_client; bytes = 0x9a ∷ [] }
    ∷ record {
      connection_id = 7;
      timestamp = pos 2;
      direction = client_to_server;
      bytes = 0x7d ∷ 0 ∷ [];
    }
    ∷ record {
      connection_id = 7;
      timestamp = pos 3;
      direction = server_to_client;
      bytes = 0 ∷ 6 ∷ 0 ∷ b'h' ∷ b'i' ∷ [];
    }
    ∷ []

process_chunks_reassembles_example :
    server_view (process_chunks worker chunks no_bytes)
    ≡ try_parse_packets worker server_to_client (pos 0) (0x9a ∷ 0 ∷ 6 ∷ 0 ∷ b'h' ∷ b'i' ∷ [])
process_chunks_reassembles_example =
    process_chunks_reassembles worker chunks no_bytes (next_round_nil server_to_client)

chat_parsed :
    try_parse_packets worker server_to_client (pos 0) (0x9a ∷ 0 ∷ 6 ∷ 0 ∷ b'h' ∷ b'i' ∷ 0x9a ∷ [])
    ≡ parsed (packet_of worker (pos 0) chat ∷ []) (0x9a ∷ [])
unfolding try_parse_packets parse_loop next_round find_spec Receive.packet_database packet_extent
    of_le read_checksum make_packet parse_network_addresses
chat_parsed = refl

try_parse_packets-ne-out_of_fuel_example :
    try_parse_packets worker server_to_client (pos 0) (1 ∷ 2 ∷ 3 ∷ []) ≢ out_of_fuel
try_parse_packets-ne-out_of_fuel_example =
    try_parse_packets-ne-out_of_fuel worker server_to_client (pos 0) (1 ∷ 2 ∷ 3 ∷ [])

client_parse-ne-panicked_example :
    try_parse_packets worker client_to_server (pos 0) (0x77 ∷ 1 ∷ 0 ∷ []) ≢ panicked
client_parse-ne-panicked_example = client_parse-ne-panicked worker (pos 0) (0x77 ∷ 1 ∷ 0 ∷ [])

server_round_crash_iff_example :
    (next_round server_to_client (0x77 ∷ 1 ∷ 0 ∷ []) ≡ crash)
    ↔ (uint16_at_front (0x77 ∷ 1 ∷ 0 ∷ []) ≡ 0x0177)
server_round_crash_iff_example = server_round_crash_iff (0x77 ∷ 1 ∷ 0 ∷ []) (omega arith)

-- Five of eight bytes.
abbrev started : Bytes
started = 0x9a ∷ 0 ∷ 8 ∷ 0 ∷ 1 ∷ []

started_parsed : try_parse_packets worker server_to_client (pos 0) started ≡ parsed [] started
unfolding try_parse_packets parse_loop next_round find_spec Receive.packet_database packet_extent
    of_le
started_parsed = refl

rest-IsCutOff_example : IsCutOff server_to_client started
rest-IsCutOff_example =
    rest-IsCutOff worker server_to_client (pos 0) started [] started started_parsed

-- The client's "Map Loaded" is its opcode alone.
abbrev map_loaded_spec : PacketSpec
map_loaded_spec = spec "Map Loaded" (pos 2) fixed none false

map_loaded_whole : next_round client_to_server (0x7d ∷ 0 ∷ []) ≡ packet 0x007d map_loaded_spec 2
unfolding next_round find_spec Send.packet_database packet_extent of_le
map_loaded_whole = refl

lone_byte_taken_example :
    try_parse_packets worker client_to_server (pos 0) (0x7d ∷ 0 ∷ 0x89 ∷ [])
    ≡ parsed
        (make_packet worker client_to_server
            (pos 0)
            0x007d
            map_loaded_spec
            (0x7d ∷ 0 ∷ [])
            (some 0x89)
          ∷ [])
        []
lone_byte_taken_example =
    lone_byte_taken worker (pos 0) (0x7d ∷ 0 ∷ []) 0x007d map_loaded_spec map_loaded_whole 0x89

sync_opcode : is_send_opcode (0x7e ∷ 0 ∷ []) ≡ true
unfolding Send.packet_database of_le
sync_opcode = refl

next_opcode_kept_example :
    try_parse_packets worker client_to_server (pos 0) (0x7d ∷ 0 ∷ 0x7e ∷ 0 ∷ 1 ∷ [])
    ≡ add_packet
        (make_packet worker client_to_server (pos 0) 0x007d map_loaded_spec (0x7d ∷ 0 ∷ []) none)
        (try_parse_packets worker client_to_server (pos 0) (0x7e ∷ 0 ∷ 1 ∷ []))
next_opcode_kept_example =
    next_opcode_kept worker (pos 0) (0x7d ∷ 0 ∷ []) 0x007d map_loaded_spec map_loaded_whole 0x7e 0 1
      [] sync_opcode

map_loaded_sent : Send.packet_database 0x007d ≡ some map_loaded_spec
unfolding Send.packet_database
map_loaded_sent = refl

send_sizes_example : 2 ≤ 2
send_sizes_example = send_sizes 0x007d map_loaded_spec map_loaded_sent

map_change_received : Receive.packet_database 0x0091 ≡ some map_change.s
unfolding Receive.packet_database
map_change_received = refl

receive_sizes_example : 2 ≤ 22
receive_sizes_example = receive_sizes 0x0091 map_change.s map_change_received (omega arith)
