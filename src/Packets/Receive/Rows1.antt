-- ===== src/Packets/Receive/Rows1.antt =====
-- internal/packets/receive/receive_packets.go, lines 8 to 153: the entries of `PacketDatabase`, in the order of the source.
use ro_proxy.Prelude.{false, none, some, true, List, [], ◌∷◌}
use ro_proxy.Prelude.Int.{negsuc, pos}
use ro_proxy.Common.Base.{
  PacketSpec, spec, fixed, fixed_min, http, indicated_in_packet, unknown, actor_info,
  char_emblem_update, map_changed, map_loaded, offline_clone_found, received_char_id_and_map,
  servers_list, special_item_obtain, system_chat, upgrade_item_broadcast, vender_found,
  vender_items_lists,
}
use Prim.Native.Nat.{ℕ}

unfoldable pub receive_rows1 : List (ℕ × PacketSpec)
receive_rows1 =
    (
      0x0ac5,
      spec "Received Character Id And Map" (pos 156) fixed (some received_char_id_and_map) false,
    )
    ∷ (0x0091, spec "Map Change" (pos 22) fixed (some map_changed) false)
    ∷ (0x0ac7, spec "Map Changed" (pos 156) fixed (some map_changed) false)
    ∷ (0x0131, spec "Vender Found" (pos 86) fixed (some vender_found) false)
    ∷ (0x02eb, spec "Map Loaded" (pos 13) fixed (some map_loaded) false)
    ∷ (0x0b05, spec "Offline Clone Found" (pos 63) fixed (some offline_clone_found) false)
    ∷ (
      0x0b3d,
      spec "Vender Items List 03" (negsuc 0) indicated_in_packet (some vender_items_lists) false,
    )
    ∷ (
      0x0b62,
      spec "Vender Items List 04" (negsuc 0) indicated_in_packet (some vender_items_lists) false,
    )
    ∷ (0x09fd, spec "Actor Moved" (negsuc 0) indicated_in_packet (some actor_info) false)
    ∷ (0x09fe, spec "Actor Connected" (negsuc 0) indicated_in_packet (some actor_info) false)
    ∷ (0x09ff, spec "Actor Exists" (negsuc 0) indicated_in_packet (some actor_info) false)
    ∷ (0x0a30, spec "Actor Info" (pos 106) fixed (some actor_info) false)
    ∷ (0x0c32, spec "Servers list" (negsuc 0) indicated_in_packet (some servers_list) false)
    ∷ (
      0x07fd,
      spec "Special Item Obtain" (negsuc 0) indicated_in_packet (some special_item_obtain) false,
    )
    ∷ (0x0b5e, spec "Upgrade Item Obtain" (pos 33) fixed (some upgrade_item_broadcast) false)
    ∷ (0x009a, spec "System Chat" (negsuc 0) indicated_in_packet (some system_chat) false)
    ∷ (0x0b47, spec "Char Emblem Update" (pos 14) fixed (some char_emblem_update) false)
    ∷ (0x5448, spec "HTTP Response" (negsuc 0) http none false)
    ∷ (0x0000, spec "Empty" (pos 2) fixed none false)
    ∷ (0x00b0, spec "Stat Info" (pos 8) fixed none false)
    ∷ (0x0187, spec "Sync Request" (pos 6) fixed none false)
    ∷ (0x019b, spec "Unit Levelup" (pos 10) fixed none false)
    ∷ (0x0229, spec "Character Status" (pos 15) fixed none false)
    ∷ (0x099d, spec "Received Characters" (negsuc 0) indicated_in_packet none false)
    ∷ (0x0071, spec "Received Character Id And Map" (pos 28) fixed none false)
    ∷ (0x0acb, spec "Stat Info" (pos 12) fixed none false)
    ∷ (0x0acc, spec "Exp" (pos 18) fixed none false)
    ∷ (0x0152, spec "Guild Emblem" (negsuc 0) indicated_in_packet none false)
    ∷ (0x01b4, spec "Guild Emblem Update" (pos 12) fixed none false)
    ∷ (0x09e5, spec "Shop Sold Long" (pos 18) fixed none false)
    ∷ (0x01a2, spec "Pet Info" (pos 37) fixed none false)
    ∷ (0x01a4, spec "Pet Info2" (pos 11) fixed none false)
    ∷ (0x0800, spec "Vender Items List 01" (negsuc 0) indicated_in_packet none false)
    ∷ (0x0069, spec "Account Server Info" (negsuc 0) indicated_in_packet none false)
    ∷ (0x006a, spec "Login Error" (pos 23) fixed none false)
    ∷ (0x006b, spec "Received Characters Info" (negsuc 0) indicated_in_packet none false)
    ∷ (0x006c, spec "Login Error Game Login Server" (negsuc 0) unknown none true)
    ∷ (0x006d, spec "Character Creation Successful" (pos 2) fixed_min none true)
    ∷ (0x006e, spec "Character Creation Failed" (pos 3) fixed none false)
    ∷ (0x006f, spec "Character Deletion Successful" (negsuc 0) unknown none true)
    ∷ (0x0070, spec "Character Deletion Failed" (negsuc 0) unknown none true)
    ∷ (0x0072, spec "Received Characters" (negsuc 0) indicated_in_packet none false)
    ∷ (0x0073, spec "Map Loaded" (pos 11) fixed none false)
    ∷ (0x0074, spec "Map Load Error" (pos 3) fixed none false)
    ∷ (0x0075, spec "Changetoingamestate" (negsuc 0) unknown none false)
    ∷ (0x0077, spec "Changetoingamestate" (negsuc 0) unknown none true)
    ∷ (0x0078, spec "Actor Exists " (pos 54) fixed none true)
    ∷ (0x0079, spec "Actor Connected " (pos 53) fixed none false)
    ∷ (0x007a, spec "Changetoingamestate" (negsuc 0) unknown none true)
    ∷ (0x007b, spec "Actor Moved " (pos 60) fixed none false)
    ∷ (0x007c, spec "Actor Spawned " (pos 41) fixed none true)
    ∷ (0x007f, spec "Received Sync" (pos 6) fixed none false)
    ∷ (0x0080, spec "Actor Died Or Disappeared" (pos 7) fixed none false)
    ∷ (0x0081, spec "Errors" (pos 3) fixed none false)
    ∷ (0x0086, spec "Actor Display" (pos 16) fixed none false)
    ∷ (0x0087, spec "Character Moves" (pos 12) fixed none false)
    ∷ (0x0088, spec "Actor Movement Interrupted" (pos 10) fixed none false)
    ∷ (0x008a, spec "Actor Action" (pos 29) fixed none false)
    ∷ (0x008d, spec "Public Chat" (negsuc 0) indicated_in_packet none false)
    ∷ (0x008e, spec "Self Chat" (negsuc 0) indicated_in_packet none false)
    ∷ (0x0092, spec "Map Changed" (pos 28) fixed none false)
    ∷ (0x0095, spec "Actor Info" (pos 30) fixed none false)
    ∷ (0x0097, spec "Private Message" (negsuc 0) indicated_in_packet none false)
    ∷ (0x0098, spec "Private Message Sent" (pos 3) fixed none false)
    ∷ (0x009c, spec "Actor Look At" (pos 9) fixed none false)
    ∷ (0x009d, spec "Item Exists" (pos 19) fixed none false)
    ∷ (0x009e, spec "Item Appeared" (pos 17) fixed none true)
    ∷ (0x00a0, spec "Inventory Item Added" (pos 23) fixed none true)
    ∷ (0x00a1, spec "Item Disappeared" (pos 6) fixed none false)
    ∷ (0x00a3, spec "Inventory Items Stackable" (negsuc 0) indicated_in_packet none false)
    ∷ (0x00a4, spec "Inventory Items Nonstackable" (negsuc 0) indicated_in_packet none false)
    ∷ (0x00a5, spec "Storage Items Stackable" (negsuc 0) indicated_in_packet none false)
    ∷ (0x00a6, spec "Storage Items Nonstackable" (negsuc 0) indicated_in_packet none false)
    ∷ (0x00a8, spec "Use Item" (pos 7) fixed none false)
    ∷ (0x00aa, spec "Equip Item" (pos 9) fixed none false)
    ∷ (0x00ac, spec "Unequip Item" (pos 7) fixed none false)
    ∷ (0x00af, spec "Inventory Item Removed" (pos 6) fixed none false)
    ∷ (0x00b1, spec "Stat Info" (pos 8) fixed none false)
    ∷ (0x00b3, spec "Switch Character" (pos 3) fixed none false)
    ∷ (0x00b4, spec "Npc Talk" (negsuc 0) indicated_in_packet none false)
    ∷ (0x00b5, spec "Npc Talk Continue" (pos 6) fixed none false)
    ∷ (0x00b6, spec "Npc Talk Close" (pos 6) fixed none false)
    ∷ (0x00b7, spec "Npc Talk Responses" (negsuc 0) indicated_in_packet none false)
    ∷ (0x00bc, spec "Stats Added" (pos 6) fixed none false)
    ∷ (0x00bd, spec "Stats Info" (pos 44) fixed none false)
    ∷ (0x00be, spec "Stat Info" (pos 5) fixed none false)
    ∷ (0x00c0, spec "Emoticon" (pos 7) fixed none false)
    ∷ (0x00c2, spec "Users Online" (pos 6) fixed none false)
    ∷ (0x00c3, spec "Sprite Change" (pos 8) fixed none false)
    ∷ (0x00c4, spec "Npc Store Begin" (pos 6) fixed none false)
    ∷ (0x00c6, spec "Npc Store Info" (negsuc 0) indicated_in_packet none false)
    ∷ (0x00c7, spec "Npc Sell List" (negsuc 0) indicated_in_packet none false)
    ∷ (0x00ca, spec "Buy Result" (pos 3) fixed none false)
    ∷ (0x00cb, spec "Sell Result" (pos 3) fixed none false)
    ∷ (0x00d1, spec "Ignore Player Result" (pos 4) fixed none false)
    ∷ (0x00d2, spec "Ignore All Result" (pos 4) fixed none false)
    ∷ (0x00d4, spec "Whisper List" (negsuc 0) unknown none false)
    ∷ (0x00d6, spec "Chat Created" (pos 3) fixed none false)
    ∷ (0x00d7, spec "Chat Info" (negsuc 0) indicated_in_packet none false)
    ∷ (0x00d8, spec "Chat Removed" (pos 6) fixed none false)
    ∷ (0x00da, spec "Chat Join Result" (pos 3) fixed none false)
    ∷ (0x00db, spec "Chat Users" (negsuc 0) indicated_in_packet none false)
    ∷ (0x00dc, spec "Chat User Join" (pos 28) fixed none false)
    ∷ (0x00dd, spec "Chat User Leave" (pos 29) fixed none false)
    ∷ (0x00df, spec "Chat Modified" (negsuc 0) indicated_in_packet none false)
    ∷ (0x00e1, spec "Chat Newowner" (pos 30) fixed none false)
    ∷ (0x00e5, spec "Deal Request" (pos 26) fixed none false)
    ∷ (0x00e7, spec "Deal Begin" (pos 3) fixed none false)
    ∷ (0x00e9, spec "Deal Add Other" (pos 19) fixed none true)
    ∷ (0x00ea, spec "Deal Add You" (pos 5) fixed none false)
    ∷ (0x00ec, spec "Deal Finalize" (pos 3) fixed none false)
    ∷ (0x00ee, spec "Deal Cancelled" (negsuc 0) unknown none true)
    ∷ (0x00f0, spec "Deal Complete" (negsuc 0) unknown none true)
    ∷ (0x00f2, spec "Storage Opened" (pos 6) fixed none false)
    ∷ (0x00f4, spec "Storage Item Added" (pos 21) fixed none true)
    ∷ (0x00f6, spec "Storage Item Removed" (pos 8) fixed none false)
    ∷ (0x00f8, spec "Storage Closed" (negsuc 0) unknown none true)
    ∷ (0x00fa, spec "Party Organize Result" (pos 3) fixed none false)
    ∷ (0x00fb, spec "Party Users Info" (negsuc 0) indicated_in_packet none false)
    ∷ (0x00fd, spec "Party Invite Result" (pos 27) fixed none false)
    ∷ (0x00fe, spec "Party Invite" (pos 30) fixed none false)
    ∷ (0x0101, spec "Party Exp" (pos 6) fixed none false)
    ∷ (0x0104, spec "Party Join" (pos 79) fixed none false)
    ∷ (0x0105, spec "Party Leave" (pos 31) fixed none false)
    ∷ (0x0106, spec "Party Hp Info" (pos 10) fixed none false)
    ∷ (0x0107, spec "Party Location" (pos 10) fixed none false)
    ∷ (0x0108, spec "Item Upgrade" (pos 8) fixed none true)
    ∷ (0x0109, spec "Party Chat" (negsuc 0) indicated_in_packet none false)
    ∷ (0x010a, spec "Mvp Item" (pos 4) fixed none true)
    ∷ (0x010b, spec "Mvp You" (pos 6) fixed none false)
    ∷ (0x010c, spec "Mvp Other" (pos 6) fixed none false)
    ∷ (0x010e, spec "Skill Update" (pos 11) fixed none false)
    ∷ (0x010f, spec "Skills List" (negsuc 0) unknown none false)
    ∷ (0x0110, spec "Skill Use Failed" (pos 14) fixed none false)
    ∷ (0x0111, spec "Skill Add" (pos 39) fixed none false)
    ∷ (0x0114, spec "Skill Use" (pos 31) fixed none false)
    ∷ (0x0117, spec "Skill Use Location" (pos 18) fixed none false)
    ∷ (0x0119, spec "Character Status" (pos 13) fixed none false)
    ∷ (0x011a, spec "Skill Used No Damage" (pos 15) fixed none false)
    ∷ (0x011c, spec "Warp Portal List" (pos 68) fixed none false)
    ∷ (0x011e, spec "Memo Success" (pos 3) fixed none false)
    ∷ (0x011f, spec "Area Spell" (pos 16) fixed none false)
    ∷ (0x0120, spec "Area Spell Disappears" (pos 6) fixed none false)
    ∷ (0x0121, spec "Cart Info" (pos 14) fixed none false)
    ∷ (0x0122, spec "Cart Items Nonstackable" (negsuc 0) indicated_in_packet none false)
    ∷ []
