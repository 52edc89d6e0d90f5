-- ===== src/Analyzer/Worker/Handled.antt =====
-- internal/analyzer/worker.go: the packets that `tryParsePackets` hands to `spawnDeserializer` are long
-- enough for their handlers where the table fixes their size.
use ro_proxy.Prelude.{ℕ, ◌+◌, ◌-◌, ◌≤◌, ◌≡◌, ◌≢◌, refl, ◌∙◌, Bool, true, Option, some, none, min}
use ro_proxy.Prelude.{length, leb, if◌then◌else◌, length-drop, does_return, arith}
use ro_proxy.Prelude.Int.{ℤ, pos}
use ro_proxy.Common.Base.{
  Bytes, PacketSpec, PacketSizeType, fixed, Handler, server_to_client, received_char_id_and_map,
  map_changed, vender_found, map_loaded, offline_clone_found, vender_items_lists, actor_info,
  servers_list, special_item_obtain, upgrade_item_broadcast, system_chat, char_emblem_update,
  map_login,
}
use ro_proxy.Packets.Parser.{ParsedPacket}
use ro_proxy.Packets.Context.{Pending}
use ro_proxy.Packets.Database.{all_rows, find_row_all}
use ro_proxy.Packets.Receive
use ro_proxy.Packets.Handlers.Actors.{is_extended}
use ro_proxy.Packets.Deserialize.{deserialize}
use ro_proxy.Packets.Deserialize.Panics.{is_enough, deserialize_returns}
use ro_proxy.Analyzer.Worker.{Worker, find_spec, make_packet}

-- The length of payload from which on a handler does not index out of range.
abbrev min_payload : Handler → ℕ → ℕ
min_payload map_loaded opcode = 7
min_payload offline_clone_found opcode = 13
min_payload vender_items_lists opcode = 13
min_payload actor_info opcode = if is_extended opcode then 66 else 0
min_payload special_item_obtain opcode = 6
min_payload system_chat opcode = 1
min_payload _ opcode = 0

is_enough-min_payload :
    (h : Handler) (p : ParsedPacket)
    → h ≢ received_char_id_and_map
    → min_payload h p.opcode ≤ length p.payload
    → is_enough h p ≡ true
unfolding is_enough
is_enough-min_payload received_char_id_and_map p other h = absurd (other refl)
is_enough-min_payload map_changed p other h = refl
is_enough-min_payload vender_found p other h = refl
is_enough-min_payload map_loaded p other h = ground arith
is_enough-min_payload offline_clone_found p other h = ground arith
is_enough-min_payload vender_items_lists p other h = ground arith
is_enough-min_payload actor_info p other h = ground arith
is_enough-min_payload servers_list p other h = refl
is_enough-min_payload special_item_obtain p other h = ground arith
is_enough-min_payload upgrade_item_broadcast p other h = refl
is_enough-min_payload system_chat p other h = ground arith
is_enough-min_payload char_emblem_update p other h = refl
is_enough-min_payload map_login p other h = refl

-- A fixed size leaves the handler its payload behind the opcode.
abbrev handler_fits : ℕ → Option Handler → PacketSizeType → ℤ → Bool
handler_fits opcode (some h) fixed (pos n) = leb (min_payload h opcode + 2) n
handler_fits opcode _ _ _ = true

handlers_fit : all_rows (λ k s. handler_fits k s.handler s.type s.size) Receive.rows ≡ true
unfolding all_rows Receive.rows
handlers_fit = refl

row_fits :
    (opcode : ℕ) (s : PacketSpec)
    → find_spec server_to_client opcode ≡ some s
    → handler_fits opcode s.handler s.type s.size ≡ true
unfolding find_spec Receive.packet_database
row_fits opcode s e =
    find_row_all (λ k s. handler_fits k s.handler s.type s.size) Receive.rows opcode s handlers_fit
      e

module _ (w : Worker) (timestamp : ℤ) (opcode n : ℕ) (s : PacketSpec) (h : Handler) (bytes : Bytes)
    (found : find_spec server_to_client opcode ≡ some s) (type : s.type ≡ fixed)
    (size : s.size ≡ pos n) (handled : s.handler ≡ some h) (whole : length bytes ≡ n) where
  cut : ParsedPacket
  unfolding make_packet
  cut = make_packet w server_to_client timestamp opcode s bytes none

  length-cut : length cut.payload ≡ n - 2
  unfolding cut make_packet
  length-cut = rw size (ground (arith, length-drop (min 2 (length bytes)) bytes, whole))

  room : min_payload h opcode + 2 ≤ n
  room =
      let e : leb (min_payload h opcode + 2) n ≡ true =
        rw (handled, type, size) at (row_fits opcode s found) in
      ground arith

  enough : min_payload h cut.opcode ≤ length cut.payload
  unfolding cut make_packet
  enough = omega (arith, room, length-cut)

  -- A packet of the server that the parser cut off with the fixed size of its specification never makes
  -- its handler panic, unless the handler is that of `ReceivedCharIdAndMap`, which needs a colon in
  -- the address.
  pub fixed_packet_returns :
      (lookup_ip : Bytes → Option Bytes) (now : ℤ) (ps : Pending)
      → h ≢ received_char_id_and_map
      → does_return (
          deserialize lookup_ip
            (make_packet w server_to_client timestamp opcode s bytes none)
            now
            ps
            h)
        ≡ true
  unfolding cut
  fixed_packet_returns lookup_ip now ps other =
      deserialize_returns lookup_ip h cut now ps ∙ is_enough-min_payload h cut other enough
