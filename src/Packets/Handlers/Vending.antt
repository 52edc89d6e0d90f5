-- ===== src/Packets/Handlers/Vending.antt =====
-- internal/packets/receive: vender_found.go, offline_clone_found.go, char_emblem_update.go,
-- upgrade_item_broadcast.go, special_item_obtain.go and servers_list.go.
use ro_proxy.Prelude.{
  ℕ, zero, suc, ◌+◌, ◌%◌, ◌^◌, Option, some, none, List, [], ◌∷◌, Run, ok, ◌>>=◌,
}
use ro_proxy.Prelude.{length, leb, ◌==◌, if◌then◌else◌}
use ro_proxy.Common.Base.{
  Bytes, read_uint32_le, read_uint16_le, read_null_terminated_string, string_to_hex,
}
use ro_proxy.Packets.Parser.{ParsedPacket}
use ro_proxy.Packets.Context.{Pending, get_connection_map}
use ro_proxy.Packets.Handlers.Reports.{
  Report, shop, offline_clone, update_emblem, upgrade_item, special_item, byte_at,
}

-- `VenderFound`: nothing is sent for a connection whose map is not known.
abbrev pub shop_on : ParsedPacket → Option Bytes → Option Report
shop_on p none = none
shop_on p (some map_name) = some (
    shop (read_uint32_le p.payload 0) (string_to_hex (read_null_terminated_string p.payload 4))
      (string_to_hex map_name))

unfoldable pub vender_found : ParsedPacket → Pending → Option Report
vender_found p ps = shop_on p (get_connection_map p.connection_id ps)

-- `OfflineCloneFound`
abbrev pub clone_on : ParsedPacket → ℕ → Option Bytes → Option Report
clone_on p sex none = none
clone_on p sex (some map_name) = some (
    offline_clone (read_uint32_le p.payload 0) (read_uint32_le p.payload 4) sex
      (string_to_hex (read_null_terminated_string p.payload 35)) (string_to_hex map_name)
      (read_uint16_le p.payload 8) (read_uint16_le p.payload 10))

unfoldable pub offline_clone_found : ParsedPacket → Pending → Run (Option Report)
offline_clone_found p ps = do
  sex ← byte_at p.payload 12
  ok (clone_on p sex (get_connection_map p.connection_id ps))

unfoldable pub char_emblem_update : ParsedPacket → Report
char_emblem_update p =
    update_emblem (read_uint32_le p.payload 0) (read_uint32_le p.payload 4)
      (read_uint32_le p.payload 8)

unfoldable pub upgrade_item_broadcast : ParsedPacket → Report
upgrade_item_broadcast p =
    upgrade_item (string_to_hex (read_null_terminated_string p.payload 0))
      (read_uint32_le p.payload 24) (read_uint16_le p.payload 28) (read_uint16_le p.payload 30)

-- `strings.ReplaceAll(monsterCode, "\x1C", "")`
unfoldable pub without_1c : Bytes → Bytes
without_1c [] = []
without_1c (b ∷ bs) = let rest = without_1c bs in if b == 0x1c then rest else b ∷ rest

-- `6 + sio.Payload[5] + 1` is computed in a byte.
abbrev pub source_at : ℕ → ℕ
source_at name_len = (6 + name_len + 1) % 2 ^ 8

-- What the item came from: an item, a monster, or neither.
abbrev pub from_source : ParsedPacket → ℕ → Report
from_source p item_type =
    special_item item_type (read_uint32_le p.payload 1) 0 []
      (string_to_hex (read_null_terminated_string p.payload 6))

abbrev pub from_item : ParsedPacket → ℕ → ℕ → Report
from_item p item_type at =
    special_item item_type (read_uint32_le p.payload 1) (read_uint32_le p.payload at) []
      (string_to_hex (read_null_terminated_string p.payload 6))

abbrev pub from_monster : ParsedPacket → ℕ → ℕ → Report
from_monster p item_type at =
    special_item item_type (read_uint32_le p.payload 1) 0
      (string_to_hex (without_1c (read_null_terminated_string p.payload at)))
      (string_to_hex (read_null_terminated_string p.payload 6))

unfoldable pub special_item_obtain : ParsedPacket → Run Report
unfolding without_1c
special_item_obtain p = byte_at p.payload 0 >>= λ item_type.
    if item_type == 0
    then (byte_at p.payload 5 >>= λ n. ok (from_item p item_type (source_at n)))
    else if item_type == 1
    then (byte_at p.payload 5 >>= λ n. ok (from_monster p item_type (source_at n)))
    else ok (from_source p item_type)

-- A line of the table that `ServersList` logs.
pub record ServerLine : Type 0 where
  pub name : Bytes
  pub players : ℕ
  pub url : Bytes

abbrev pub server_line : Bytes → ℕ → ServerLine
server_line payload i = record {
  name = read_null_terminated_string payload (i + 10);
  players = read_uint32_le payload (i + 30);
  url = read_null_terminated_string payload (i + 36);
}

-- The loop of `ServersList` from the offset `i` on; it takes 165 bytes in each round.
unfoldable pub server_lines : ℕ → Bytes → ℕ → List ServerLine
server_lines zero payload i = []
server_lines (suc fuel) payload i =
    let rest = server_lines fuel payload (i + 165) in
    if leb (i + 165) (length payload) then server_line payload i ∷ rest else []

unfoldable pub servers_list : ParsedPacket → List ServerLine
unfolding server_lines
servers_list p = server_lines (suc (length p.payload)) p.payload 56
