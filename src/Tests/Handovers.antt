-- ===== src/Tests/Handovers.antt =====
-- Runs of the handlers in internal/packets/receive.
use ro_proxy.Prelude.{◌≡◌, ◌↔◌, refl, [], ◌∷◌, ◌++◌, some, none, replicate, ok, panic, false, arith}
use ro_proxy.Prelude.{Option}
use ro_proxy.Prelude.Int.{pos}
use ro_proxy.Common.Base.{
  Bytes, until_zero, server_to_client, of_le, read_uint16_le, read_null_terminated_string,
}
use ro_proxy.Packets.Parser.{ParsedPacket}
use ro_proxy.Packets.Context.{Pending, get_connection_map, get_pending_map_change}
use ro_proxy.Packets.Handlers.{map_changed, map_loaded, received_char_id_and_map}
use ro_proxy.Analyzer.Worker.Addresses.{split, atoi}
use ro_proxy.Packets.Context.{
  get_pending_map_by_destination, set_pending_map_by_destination, set_connection_map_char, text_eq,
}
use ro_proxy.Packets.Handlers.NextServer.{map_loaded-received_char_id_and_map}
use ro_proxy.Packets.Handlers.Handover.{
  has_colon, map_loaded-map_changed, received_char_id_and_map_panic_iff,
}

-- The map "gef" at (5, 6).
abbrev change : ParsedPacket
change = record {
  connection_id = 3;
  timestamp = pos 1;
  direction = server_to_client;
  opcode = 0x0091;
  payload = (b'g' ∷ b'e' ∷ b'f' ∷ []) ++ (replicate 13 0 ++ (5 ∷ 0 ∷ 6 ∷ 0 ∷ []));
  checksum = none;
  source_ip = b'a' ∷ [];
  source_port = pos 5121;
  dest_ip = b'c' ∷ [];
  dest_port = pos 80;
}

-- The same place, on the next connection.
abbrev loaded : ParsedPacket
loaded = record change {
  connection_id = 4;
  opcode = 0x02eb;
  payload = replicate 4 0 ++ (1 ∷ 64 ∷ 96 ∷ replicate 4 0);
}

map_loaded-map_changed_example :
    (q : Pending) × (map_loaded loaded (pos 2) (map_changed change (pos 1) []) ≡ ok q)
    × (get_connection_map 4 q ≡ some (read_null_terminated_string change.payload 0))
unfolding of_le read_uint16_le get_pending_map_change
map_loaded-map_changed_example =
    map_loaded-map_changed change loaded (pos 1) (pos 2) [] (λ e. cc) refl (omega arith) refl refl
      refl

received_char_id_and_map_panic_iff_example :
    (received_char_id_and_map (λ host. none) change (pos 1) [] ≡ panic)
    ↔ (has_colon (read_null_terminated_string change.payload 26) ≡ false)
received_char_id_and_map_panic_iff_example =
    received_char_id_and_map_panic_iff (λ host. none) change (pos 1) []

-- The character 1 goes on to "h:69", on the map "gef".
abbrev sent : ParsedPacket
sent = record change {
  opcode = 0x0ac5;
  payload =
      (1 ∷ 0 ∷ 0 ∷ 0 ∷ b'g' ∷ b'e' ∷ b'f' ∷ [])
      ++ (replicate 19 0 ++ (b'h' ∷ b':' ∷ b'6' ∷ b'9' ∷ 0 ∷ []));
}

abbrev arrived : ParsedPacket
arrived = record loaded { source_ip = b'q' ∷ []; source_port = pos 69 }

abbrev to_q : Bytes → Option Bytes
to_q host = some (b'q' ∷ [])

map_loaded-received_char_id_and_map_example :
    (p q : Pending) × (received_char_id_and_map to_q sent (pos 1) [] ≡ ok p)
    × (map_loaded arrived (pos 2) p ≡ ok q)
    × (get_connection_map 4 q ≡ some (read_null_terminated_string sent.payload 4))
unfolding split read_null_terminated_string until_zero atoi get_pending_map_by_destination
    get_pending_map_change set_pending_map_by_destination set_connection_map_char text_eq
map_loaded-received_char_id_and_map_example =
    map_loaded-received_char_id_and_map to_q sent arrived (pos 1) (pos 2) [] (b'h' ∷ []) (b'q' ∷ [])
      (b'6' ∷ b'9' ∷ []) [] refl refl (λ e. cc) refl refl (omega arith) refl refl
