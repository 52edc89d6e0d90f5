-- ===== src/Packets/Handlers/Items.antt =====
-- internal/packets/receive/vender_items_lists.go.
pub mod Bounds
use ro_proxy.Prelude.{
  ℕ, zero, suc, ◌+◌, ◌-◌, ◌*◌, ◌^◌, Option, some, none, List, [], ◌∷◌, Run, ok, panic, ◌>>=◌,
}
use ro_proxy.Prelude.{length, take, drop, leb, ltb, ◌==◌, if◌then◌else◌}
use ro_proxy.Common.Base.{Bytes, read_uint32_le, read_uint16_le, string_to_hex}
use ro_proxy.Packets.Parser.{ParsedPacket}
use ro_proxy.Packets.Context.{Pending, get_connection_map}
use ro_proxy.Packets.Handlers.Reports.{Report, VenderItem, items, byte_at}

-- Three bytes, the lowest first.
abbrev pub uint24_at : Bytes → ℕ → Run ℕ
uint24_at payload i = do
  a ← byte_at payload i
  b ← byte_at payload (i + 1)
  c ← byte_at payload (i + 2)
  ok (a + b * 2 ^ 8 + c * 2 ^ 16)

-- The item at the offset `i`: `cs` is `i + 14`, `es` is `i + 30`, `uk` is `i + 50` and `r` is `i + 61`.
-- The 11 bytes of the unknown part end with the payload, and so does the refinement.
unfoldable pub item_at : Bytes → ℕ → Run VenderItem
item_at payload i = do
  type ← byte_at payload (i + 8)
  v1 ← uint24_at payload (i + 33)
  v2 ← uint24_at payload (i + 38)
  v3 ← uint24_at payload (i + 43)
  v4 ← uint24_at payload (i + 48)
  ok (record {
    price = read_uint32_le payload i;
    quantity = read_uint16_le payload (i + 4);
    position = read_uint16_le payload (i + 6);
    type = type;
    item_id = read_uint32_le payload (i + 9);
    unknown_value = read_uint16_le payload (i + 13);
    card_slots = (
      read_uint32_le payload (i + 15),
      read_uint32_le payload (i + 19),
      read_uint32_le payload (i + 23),
      read_uint32_le payload (i + 27),
    );
    enchant_slots = (
      (read_uint16_le payload (i + 31), v1),
      (read_uint16_le payload (i + 36), v2),
      (read_uint16_le payload (i + 41), v3),
      (read_uint16_le payload (i + 46), v4),
    );
    unknown_part = string_to_hex (take 11 (drop (i + 51) payload));
    refine = if ltb (i + 63) (length payload) then read_uint16_le payload (i + 62) else 0;
  })

-- The loop over the items; a round asks for 63 bytes and takes 64.
unfoldable pub items_from : ℕ → Bytes → ℕ → Run (List VenderItem)
items_from zero payload i = ok []
items_from (suc fuel) payload i =
    let rest = items_from fuel payload (i + 64) in
    if leb (i + 63) (length payload)
    then (item_at payload i >>= λ item. rest >>= λ more. ok (item ∷ more))
    else ok []

-- Nothing is sent for a connection whose map is not known.
abbrev pub items_on : Option Bytes → Report → Option Report
items_on none r = none
items_on (some map_name) r = some r

-- `VenderItemsLists`: the fourth version has a flag and a date in front of the items.
unfoldable pub vender_items_lists : ParsedPacket → Pending → Run (Option Report)
unfolding items_from
vender_items_lists p ps =
    let vendor_id = read_uint32_le p.payload 4 in
    let vendor_cid = read_uint32_le p.payload 8 in
    let fuel = suc (length p.payload) in
    let known = get_connection_map p.connection_id ps in
    if p.opcode == 0x0b62
    then (byte_at p.payload 12 >>= λ flag. items_from fuel p.payload 17 >>= λ list.
        ok (items_on known (items vendor_id vendor_cid flag (read_uint32_le p.payload 13) list)))
    else if p.opcode == 0x0b3d
    then (items_from fuel p.payload 12 >>= λ list.
        ok (items_on known (items vendor_id vendor_cid 0 0 list)))
    else ok none
