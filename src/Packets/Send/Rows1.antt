-- ===== src/Packets/Send/Rows1.antt =====
-- internal/packets/send/send_packets.go, lines 8 to 153: the entries of `PacketDatabase`, in the order of the source.
use ro_proxy.Prelude.{false, none, some, List, [], ◌∷◌}
use ro_proxy.Prelude.Int.{negsuc, pos}
use ro_proxy.Common.Base.{PacketSpec, spec, fixed, indicated_in_packet, map_login}
use Prim.Native.Nat.{ℕ}

unfoldable pub send_rows1 : List (ℕ × PacketSpec)
send_rows1 =
    (0x0436, spec "Map Login" (pos 23) fixed (some map_login) false)
    ∷ (0x0064, spec "Master Login" (pos 55) fixed none false)
    ∷ (0x0065, spec "Game Login" (pos 17) fixed none false)
    ∷ (0x0066, spec "Char Login" (pos 3) fixed none false)
    ∷ (0x0067, spec "Char Create" (pos 37) fixed none false)
    ∷ (0x0068, spec "Char Delete" (pos 46) fixed none false)
    ∷ (0x0072, spec "Map Login" (pos 19) fixed none false)
    ∷ (0x007d, spec "Map Loaded" (pos 2) fixed none false)
    ∷ (0x007e, spec "Sync" (pos 6) fixed none false)
    ∷ (0x0085, spec "Character Move" (pos 5) fixed none false)
    ∷ (0x0089, spec "Actor Action" (pos 7) fixed none false)
    ∷ (0x008c, spec "Public Chat" (negsuc 0) indicated_in_packet none false)
    ∷ (0x0090, spec "Npc Talk" (pos 7) fixed none false)
    ∷ (0x0094, spec "Actor Info Request" (pos 6) fixed none false)
    ∷ (0x0096, spec "Private Message" (negsuc 0) indicated_in_packet none false)
    ∷ (0x0099, spec "Gm Broadcast" (negsuc 0) indicated_in_packet none false)
    ∷ (0x009b, spec "Actor Look At" (pos 5) fixed none false)
    ∷ (0x009f, spec "Item Take" (pos 6) fixed none false)
    ∷ (0x00a2, spec "Item Drop" (pos 6) fixed none false)
    ∷ (0x00a7, spec "Item Use" (pos 8) fixed none false)
    ∷ (0x00a9, spec "Send Equip" (pos 6) fixed none false)
    ∷ (0x00ab, spec "Send Unequip Item" (pos 4) fixed none false)
    ∷ (0x00b2, spec "Restart" (pos 3) fixed none false)
    ∷ (0x00b8, spec "Npc Talk Response" (pos 7) fixed none false)
    ∷ (0x00b9, spec "Npc Talk Continue" (pos 6) fixed none false)
    ∷ (0x00bb, spec "Send Add Status Point" (pos 6) fixed none false)
    ∷ (0x00bf, spec "Send Emotion" (pos 3) fixed none false)
    ∷ (0x00c1, spec "Request User Count" (pos 2) fixed none false)
    ∷ (0x00c5, spec "Request Buy Sell List" (pos 7) fixed none false)
    ∷ (0x00c8, spec "Buy Bulk" (negsuc 0) indicated_in_packet none false)
    ∷ (0x00c9, spec "Sell Bulk" (negsuc 0) indicated_in_packet none false)
    ∷ (0x00cc, spec "Gm Kick" (pos 6) fixed none false)
    ∷ (0x00ce, spec "Gm Kick All" (pos 2) fixed none false)
    ∷ (0x00cf, spec "Ignore Player" (pos 27) fixed none false)
    ∷ (0x00d0, spec "Ignore All" (pos 3) fixed none false)
    ∷ (0x00d3, spec "Get Ignore List" (pos 2) fixed none false)
    ∷ (0x00d5, spec "Chat Room Create" (negsuc 0) indicated_in_packet none false)
    ∷ (0x00d9, spec "Chat Room Join" (pos 14) fixed none false)
    ∷ (0x00de, spec "Chat Room Change" (negsuc 0) indicated_in_packet none false)
    ∷ (0x00e0, spec "Chat Room Bestow" (pos 30) fixed none false)
    ∷ (0x00e2, spec "Chat Room Kick" (pos 26) fixed none false)
    ∷ (0x00e3, spec "Chat Room Leave" (pos 2) fixed none false)
    ∷ (0x00e4, spec "Deal Initiate" (pos 6) fixed none false)
    ∷ (0x00e6, spec "Deal Reply" (pos 3) fixed none false)
    ∷ (0x00e8, spec "Deal Item Add" (pos 8) fixed none false)
    ∷ (0x00eb, spec "Deal Finalize" (pos 2) fixed none false)
    ∷ (0x00ed, spec "Deal Cancel" (pos 2) fixed none false)
    ∷ (0x00ef, spec "Deal Trade" (pos 2) fixed none false)
    ∷ (0x00f3, spec "Storage Item Add" (pos 8) fixed none false)
    ∷ (0x00f5, spec "Storage Item Remove" (pos 8) fixed none false)
    ∷ (0x00f7, spec "Storage Close" (pos 2) fixed none false)
    ∷ (0x00fc, spec "Party Join Request" (pos 6) fixed none false)
    ∷ (0x00ff, spec "Party Join" (pos 10) fixed none false)
    ∷ (0x0100, spec "Party Leave" (pos 2) fixed none false)
    ∷ (0x0102, spec "Party Setting" (pos 6) fixed none false)
    ∷ (0x0103, spec "Party Kick" (pos 30) fixed none false)
    ∷ (0x0108, spec "Party Chat" (negsuc 0) indicated_in_packet none false)
    ∷ (0x0112, spec "Send Add Skill Point" (pos 4) fixed none false)
    ∷ (0x0113, spec "Skill Use" (pos 10) fixed none false)
    ∷ (0x0116, spec "Skill Use Location" (pos 10) fixed none false)
    ∷ (0x011b, spec "Warp Select" (pos 20) fixed none false)
    ∷ (0x011d, spec "Memo Request" (pos 2) fixed none false)
    ∷ (0x0126, spec "Cart Add" (pos 8) fixed none false)
    ∷ (0x0127, spec "Cart Get" (pos 8) fixed none false)
    ∷ (0x0128, spec "Storage To Cart" (pos 8) fixed none false)
    ∷ (0x0129, spec "Cart To Storage" (pos 8) fixed none false)
    ∷ (0x012a, spec "Companion Release" (pos 2) fixed none false)
    ∷ (0x012e, spec "Shop Close" (pos 2) fixed none false)
    ∷ (0x0130, spec "Send Entering Vending" (pos 6) fixed none false)
    ∷ (0x0134, spec "Buy Bulk Vender" (negsuc 0) indicated_in_packet none false)
    ∷ (0x013f, spec "Gm Item Mob Create" (pos 26) fixed none false)
    ∷ (0x0140, spec "Gm Move To Map" (pos 22) fixed none false)
    ∷ (0x0143, spec "Npc Talk Number" (pos 10) fixed none false)
    ∷ (0x0146, spec "Npc Talk Cancel" (pos 6) fixed none false)
    ∷ (0x0149, spec "Alignment" (pos 9) fixed none false)
    ∷ (0x014d, spec "Guild Check" (pos 2) fixed none false)
    ∷ (0x014f, spec "Guild Info Request" (pos 6) fixed none false)
    ∷ (0x0151, spec "Guild Emblem Request" (pos 6) fixed none false)
    ∷ (0x0159, spec "Guild Leave" (pos 54) fixed none false)
    ∷ (0x015b, spec "Guild Kick" (pos 54) fixed none false)
    ∷ (0x015d, spec "Guild Break" (pos 6) fixed none false)
    ∷ (0x0165, spec "Guild Create" (pos 30) fixed none false)
    ∷ (0x0168, spec "Guild Join Request" (pos 14) fixed none false)
    ∷ (0x016b, spec "Guild Join" (pos 10) fixed none false)
    ∷ (0x016e, spec "Guild Notice" (pos 186) fixed none false)
    ∷ (0x0170, spec "Guild Alliance Request" (pos 14) fixed none false)
    ∷ (0x0172, spec "Guild Alliance Reply" (pos 10) fixed none false)
    ∷ (0x0178, spec "Identify" (pos 4) fixed none false)
    ∷ (0x017a, spec "Card Merge Request" (pos 4) fixed none false)
    ∷ (0x017c, spec "Card Merge" (pos 6) fixed none false)
    ∷ (0x017e, spec "Guild Chat" (negsuc 0) indicated_in_packet none false)
    ∷ (0x0187, spec "Ban Check" (pos 6) fixed none false)
    ∷ (0x018a, spec "Quit Request" (pos 4) fixed none false)
    ∷ (0x018e, spec "Make Item Request" (pos 10) fixed none false)
    ∷ (0x0190, spec "Skill Use Location Text" (pos 92) fixed none false)
    ∷ (0x0193, spec "Actor Name Request" (pos 6) fixed none false)
    ∷ (0x0197, spec "Gm Reset State Skill" (pos 4) fixed none false)
    ∷ (0x0198, spec "Gm Change Cell Type" (pos 8) fixed none false)
    ∷ (0x019c, spec "Gm Broadcast Local" (negsuc 0) indicated_in_packet none false)
    ∷ (0x019d, spec "Gm Change Effect State" (pos 6) fixed none false)
    ∷ (0x019f, spec "Pet Capture" (pos 6) fixed none false)
    ∷ (0x01a1, spec "Pet Menu" (pos 3) fixed none false)
    ∷ (0x01a5, spec "Pet Name" (pos 26) fixed none false)
    ∷ (0x01a7, spec "Pet Hatch" (pos 4) fixed none false)
    ∷ (0x01a9, spec "Pet Emotion" (pos 6) fixed none false)
    ∷ (0x01ae, spec "Make Arrow" (pos 4) fixed none false)
    ∷ (0x01af, spec "Change Cart" (pos 4) fixed none false)
    ∷ (0x01b2, spec "Shop Open" (negsuc 0) indicated_in_packet none false)
    ∷ (0x01ba, spec "Gm Remove" (pos 26) fixed none false)
    ∷ (0x01bb, spec "Gm Shift" (pos 26) fixed none false)
    ∷ (0x01bc, spec "Gm Recall" (pos 26) fixed none false)
    ∷ (0x01bd, spec "Gm Summon Player" (pos 26) fixed none false)
    ∷ (0x01c0, spec "Request Remain Time" (pos 2) fixed none false)
    ∷ (0x01ce, spec "Auto Spell" (pos 6) fixed none false)
    ∷ (0x01d5, spec "Npc Talk Text" (negsuc 0) indicated_in_packet none false)
    ∷ (0x01db, spec "Secure Login Key Request" (pos 2) fixed none false)
    ∷ (0x01dd, spec "Master Login" (pos 47) fixed none false)
    ∷ (0x01df, spec "Gm Request Account Name" (pos 6) fixed none false)
    ∷ (0x01e7, spec "Novice Dori Dori" (pos 2) fixed none false)
    ∷ (0x01ed, spec "Novice Explosion Spirits" (pos 2) fixed none false)
    ∷ (0x01f7, spec "Adopt Reply Request" (pos 14) fixed none false)
    ∷ (0x01f9, spec "Adopt Request" (pos 6) fixed none false)
    ∷ (0x01fa, spec "Master Login" (pos 48) fixed none false)
    ∷ (0x01fd, spec "Repair Item" (pos 15) fixed none false)
    ∷ (0x0202, spec "Friend Request" (negsuc 0) indicated_in_packet none false)
    ∷ (0x0203, spec "Friend Remove" (pos 10) fixed none false)
    ∷ (0x0204, spec "Client Hash" (pos 18) fixed none false)
    ∷ (0x0208, spec "Friend Response" (pos 14) fixed none false)
    ∷ (0x0212, spec "Manner By Name" (pos 26) fixed none false)
    ∷ (0x0213, spec "Gm Request Status" (pos 26) fixed none false)
    ∷ (0x0217, spec "Rank Blacksmith" (pos 2) fixed none false)
    ∷ (0x0218, spec "Rank Alchemist" (pos 2) fixed none false)
    ∷ (0x021d, spec "Less Effect" (pos 2) fixed none false)
    ∷ (0x0222, spec "Refine Item" (pos 6) fixed none false)
    ∷ (0x0225, spec "Rank Taekwon" (pos 2) fixed none false)
    ∷ (0x022d, spec "Homunculus Command" (pos 5) fixed none false)
    ∷ (0x0231, spec "Homunculus Name" (pos 26) fixed none false)
    ∷ (0x0232, spec "Actor Move" (pos 9) fixed none false)
    ∷ (0x0233, spec "Slave Attack" (pos 11) fixed none false)
    ∷ (0x0234, spec "Slave Move To Master" (pos 6) fixed none false)
    ∷ (0x0237, spec "Rank Killer" (pos 2) fixed none false)
    ∷ (0x023b, spec "Storage Password" (negsuc 0) indicated_in_packet none false)
    ∷ (0x023f, spec "Mailbox Open" (pos 2) fixed none false)
    ∷ (0x0241, spec "Mail Read" (pos 6) fixed none false)
    ∷ (0x0243, spec "Mail Delete" (pos 6) fixed none false)
    ∷ []
