-- ===== src/Packets/Receive/Rows2.antt =====
-- internal/packets/receive/receive_packets.go, lines 154 to 298: the entries of `PacketDatabase`, in the order of the source.
use ro_proxy.Prelude.{false, none, true, List, [], ◌∷◌}
use ro_proxy.Prelude.Int.{negsuc, pos}
use ro_proxy.Common.Base.{PacketSpec, spec, fixed, fixed_min, indicated_in_packet, unknown}
use Prim.Native.Nat.{ℕ}

unfoldable pub receive_rows2 : List (ℕ × PacketSpec)
receive_rows2 =
    (0x0123, spec "Cart Items Stackable" (negsuc 0) indicated_in_packet none false)
    ∷ (0x0124, spec "Cart Item Added" (pos 21) fixed none true)
    ∷ (0x0125, spec "Cart Item Removed" (pos 8) fixed none false)
    ∷ (0x012b, spec "Cart Off" (negsuc 0) unknown none true)
    ∷ (0x012c, spec "Cart Add Failed" (pos 3) fixed none false)
    ∷ (0x012d, spec "Shop Skill" (pos 4) fixed none false)
    ∷ (0x0132, spec "Vender Lost" (pos 6) fixed none false)
    ∷ (0x0133, spec "Vender Items List" (negsuc 0) indicated_in_packet none false)
    ∷ (0x0135, spec "Vender Buy Fail" (pos 7) fixed none false)
    ∷ (0x0136, spec "Vending Start" (negsuc 0) indicated_in_packet none false)
    ∷ (0x0137, spec "Shop Sold" (pos 6) fixed none false)
    ∷ (0x0139, spec "Monster Ranged Attack" (pos 16) fixed none false)
    ∷ (0x013a, spec "Attack Range" (pos 4) fixed none false)
    ∷ (0x013b, spec "Arrow None" (pos 4) fixed none false)
    ∷ (0x013c, spec "Arrow Equipped" (pos 4) fixed none false)
    ∷ (0x013d, spec "Hp Sp Changed" (pos 6) fixed none false)
    ∷ (0x013e, spec "Skill Cast" (pos 24) fixed none false)
    ∷ (0x0141, spec "Stat Info2" (pos 14) fixed none false)
    ∷ (0x0142, spec "Npc Talk Number" (pos 6) fixed none false)
    ∷ (0x0144, spec "Minimap Indicator" (pos 23) fixed none false)
    ∷ (0x0145, spec "Npc Image" (pos 19) fixed none false)
    ∷ (0x0147, spec "Item Skill" (pos 39) fixed none false)
    ∷ (0x0148, spec "Resurrection" (pos 8) fixed none false)
    ∷ (0x014a, spec "Manner Message" (pos 6) fixed none false)
    ∷ (0x014b, spec "Gm Silence" (pos 27) fixed none false)
    ∷ (0x014c, spec "Guild Allies Enemy List" (negsuc 0) indicated_in_packet none false)
    ∷ (0x014e, spec "Guild Master Member" (pos 6) fixed none false)
    ∷ (0x0150, spec "Guild Info" (pos 114) fixed none true)
    ∷ (0x0154, spec "Guild Members List" (negsuc 0) indicated_in_packet none false)
    ∷ (0x0156, spec "Guild Update Member Position" (negsuc 0) indicated_in_packet none false)
    ∷ (0x015a, spec "Guild Leave" (pos 66) fixed none false)
    ∷ (0x015c, spec "Guild Expulsion" (pos 90) fixed none false)
    ∷ (0x015e, spec "Guild Broken" (pos 6) fixed none false)
    ∷ (0x0160, spec "Guild Member Setting List" (negsuc 0) unknown none false)
    ∷ (0x0162, spec "Guild Skills List" (negsuc 0) indicated_in_packet none false)
    ∷ (0x0163, spec "Guild Expulsion List" (negsuc 0) indicated_in_packet none false)
    ∷ (0x0166, spec "Guild Members Title List" (negsuc 0) indicated_in_packet none false)
    ∷ (0x0167, spec "Guild Create Result" (pos 3) fixed none false)
    ∷ (0x0169, spec "Guild Invite Result" (pos 3) fixed none false)
    ∷ (0x016a, spec "Guild Request" (pos 30) fixed none false)
    ∷ (0x016c, spec "Guild Name" (pos 43) fixed none false)
    ∷ (0x016d, spec "Guild Member Online Status" (pos 14) fixed none false)
    ∷ (0x016f, spec "Guild Notice" (pos 182) fixed none false)
    ∷ (0x0171, spec "Guild Ally Request" (pos 30) fixed none false)
    ∷ (0x0173, spec "Guild Alliance" (pos 3) fixed none false)
    ∷ (0x0174, spec "Guild Position Changed" (negsuc 0) indicated_in_packet none false)
    ∷ (0x0177, spec "Identify List" (negsuc 0) fixed none false)
    ∷ (0x0179, spec "Identify" (pos 5) fixed none false)
    ∷ (0x017b, spec "Card Merge List" (negsuc 0) unknown none false)
    ∷ (0x017d, spec "Card Merge Status" (pos 7) fixed none false)
    ∷ (0x017f, spec "Guild Chat" (negsuc 0) indicated_in_packet none false)
    ∷ (0x0181, spec "Guild Opposition Result" (pos 3) fixed none false)
    ∷ (0x0182, spec "Guild Member Add" (pos 106) fixed none false)
    ∷ (0x0184, spec "Guild Unally" (pos 10) fixed none false)
    ∷ (0x0185, spec "Guild Alliance Added" (pos 34) fixed none false)
    ∷ (0x0188, spec "Item Upgrade" (pos 8) fixed none false)
    ∷ (0x0189, spec "No Teleport" (pos 4) fixed none false)
    ∷ (0x018b, spec "Quit Response" (pos 4) fixed none false)
    ∷ (0x018c, spec "Sense Result" (pos 29) fixed none false)
    ∷ (0x018d, spec "Makable Item List" (negsuc 0) indicated_in_packet none false)
    ∷ (0x018f, spec "Refine Result" (pos 6) fixed none true)
    ∷ (0x0191, spec "Talkie Box" (pos 86) fixed none false)
    ∷ (0x0192, spec "Map Change Cell" (pos 24) fixed none false)
    ∷ (0x0194, spec "Character Name" (pos 30) fixed none false)
    ∷ (0x0195, spec "Actor Info" (pos 102) fixed none false)
    ∷ (0x0196, spec "Actor Status Active" (pos 9) fixed none false)
    ∷ (0x0199, spec "Map Property" (pos 4) fixed none false)
    ∷ (0x019a, spec "Pvp Rank" (pos 14) fixed none false)
    ∷ (0x019e, spec "Pet Capture Process" (negsuc 0) unknown none true)
    ∷ (0x01a0, spec "Pet Capture Result" (pos 3) fixed none false)
    ∷ (0x01a3, spec "Pet Food" (pos 5) fixed none false)
    ∷ (0x01a6, spec "Egg List" (negsuc 0) unknown none false)
    ∷ (0x01aa, spec "Pet Emotion" (pos 10) fixed none false)
    ∷ (0x01ab, spec "Stat Info" (pos 12) fixed none false)
    ∷ (0x01ac, spec "Actor Trapped" (pos 6) fixed none false)
    ∷ (0x01ad, spec "Arrowcraft List" (negsuc 0) unknown none false)
    ∷ (0x01b0, spec "Monster Typechange" (pos 11) fixed none false)
    ∷ (0x01b3, spec "Npc Image" (pos 67) fixed none false)
    ∷ (0x01b5, spec "Account Payment Info" (pos 10) fixed none true)
    ∷ (0x01b6, spec "Guild Info" (pos 114) fixed none false)
    ∷ (0x01b9, spec "Cast Cancelled" (pos 6) fixed none false)
    ∷ (0x01c1, spec "Remain Time Info" (pos 14) fixed none false)
    ∷ (0x01c3, spec "Local Broadcast" (negsuc 0) indicated_in_packet none false)
    ∷ (0x01c4, spec "Storage Item Added" (pos 22) fixed none true)
    ∷ (0x01c5, spec "Cart Item Added" (pos 22) fixed none true)
    ∷ (0x01c8, spec "Item Used" (pos 15) fixed none false)
    ∷ (0x01c9, spec "Area Spell" (pos 97) fixed none false)
    ∷ (0x01cd, spec "Sage Autospell" (pos 2) fixed_min none true)
    ∷ (0x01cf, spec "Devotion" (pos 28) fixed none false)
    ∷ (0x01d0, spec "Revolving Entity" (pos 8) fixed none false)
    ∷ (0x01d1, spec "Blade Stop" (pos 14) fixed none false)
    ∷ (0x01d2, spec "Combo Delay" (pos 10) fixed none false)
    ∷ (0x01d3, spec "Sound Effect" (pos 35) fixed none false)
    ∷ (0x01d4, spec "Npc Talk Text" (pos 6) fixed none false)
    ∷ (0x01d6, spec "Map Property2" (pos 4) fixed none false)
    ∷ (0x01d7, spec "Sprite Change" (pos 15) fixed none false)
    ∷ (0x01d8, spec "Actor Exists" (pos 54) fixed none true)
    ∷ (0x01d9, spec "Actor Connected" (pos 53) fixed none true)
    ∷ (0x01da, spec "Actor Moved" (pos 60) fixed none true)
    ∷ (0x01dc, spec "Secure Login Key" (pos 4) fixed_min none true)
    ∷ (0x01de, spec "Skill Use" (pos 33) fixed none false)
    ∷ (0x01e0, spec "Gm Req Acc Name" (pos 30) fixed none false)
    ∷ (0x01e1, spec "Revolving Entity" (pos 8) fixed none false)
    ∷ (0x01e6, spec "Marriage Partner Name" (pos 26) fixed none false)
    ∷ (0x01e9, spec "Party Join" (pos 83) fixed none true)
    ∷ (0x01ea, spec "Married" (pos 6) fixed none false)
    ∷ (0x01eb, spec "Guild Location" (pos 10) fixed none false)
    ∷ (0x01ec, spec "Guild Member Map Change" (pos 26) fixed none false)
    ∷ (0x01ee, spec "Inventory Items Stackable" (negsuc 0) indicated_in_packet none false)
    ∷ (0x01ef, spec "Cart Items Stackable" (negsuc 0) indicated_in_packet none false)
    ∷ (0x01f0, spec "Storage Items Stackable" (negsuc 0) indicated_in_packet none false)
    ∷ (0x01f2, spec "Guild Member Online Status" (pos 20) fixed none false)
    ∷ (0x01f3, spec "Misc Effect" (pos 10) fixed none false)
    ∷ (0x01f4, spec "Deal Request" (pos 32) fixed none false)
    ∷ (0x01f5, spec "Deal Begin" (pos 9) fixed none false)
    ∷ (0x01f6, spec "Adopt Request" (pos 34) fixed none false)
    ∷ (0x01fc, spec "Repair List" (negsuc 0) unknown none false)
    ∷ (0x01fe, spec "Repair Result" (pos 5) fixed none false)
    ∷ (0x01ff, spec "High Jump" (pos 10) fixed none false)
    ∷ (0x0201, spec "Friend List" (negsuc 0) indicated_in_packet none false)
    ∷ (0x0205, spec "Divorced" (pos 26) fixed none false)
    ∷ (0x0206, spec "Friend Logon" (pos 35) fixed none false)
    ∷ (0x0207, spec "Friend Request" (pos 34) fixed none false)
    ∷ (0x0209, spec "Friend Response" (pos 36) fixed none false)
    ∷ (0x020a, spec "Friend Removed" (pos 10) fixed none false)
    ∷ (0x020d, spec "Character Ban List" (negsuc 0) indicated_in_packet none false)
    ∷ (0x020e, spec "Taekwon Packets" (pos 32) fixed none false)
    ∷ (0x020f, spec "Pvp Point" (pos 10) fixed none true)
    ∷ (0x0215, spec "Gospel Buff Aligned" (pos 6) fixed none false)
    ∷ (0x0216, spec "Adopt Reply" (pos 6) fixed none false)
    ∷ (0x0219, spec "Top10 Blacksmith Rank" (negsuc 0) unknown none true)
    ∷ (0x021a, spec "Top10 Alchemist Rank" (negsuc 0) unknown none true)
    ∷ (0x021b, spec "Blacksmith Points" (pos 10) fixed none false)
    ∷ (0x021c, spec "Alchemist Point" (pos 10) fixed none false)
    ∷ (0x0221, spec "Upgrade List" (negsuc 0) indicated_in_packet none false)
    ∷ (0x0223, spec "Upgrade Message" (pos 8) fixed none true)
    ∷ (0x0224, spec "Taekwon Rank" (pos 10) fixed none false)
    ∷ (0x0226, spec "Top10 Taekwon Rank" (negsuc 0) unknown none true)
    ∷ (0x0227, spec "Gameguard Request" (negsuc 0) unknown none true)
    ∷ (0x022a, spec "Actor Exists" (pos 58) fixed none true)
    ∷ (0x022b, spec "Actor Connected" (pos 57) fixed none true)
    ∷ (0x022c, spec "Actor Moved" (pos 64) fixed none true)
    ∷ (0x022e, spec "Homunculus Property" (pos 73) fixed none false)
    ∷ (0x022f, spec "Homunculus Food" (pos 7) fixed none false)
    ∷ (0x0230, spec "Homunculus Info" (pos 12) fixed none false)
    ∷ []
