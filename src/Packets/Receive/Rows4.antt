-- ===== src/Packets/Receive/Rows4.antt =====
-- internal/packets/receive/receive_packets.go, lines 444 to 588: the entries of `PacketDatabase`, in the order of the source.
use ro_proxy.Prelude.{false, none, true, List, [], ◌∷◌}
use ro_proxy.Prelude.Int.{negsuc, pos}
use ro_proxy.Common.Base.{PacketSpec, spec, fixed, fixed_min, indicated_in_packet, unknown}
use Prim.Native.Nat.{ℕ}

unfoldable pub receive_rows4 : List (ℕ × PacketSpec)
receive_rows4 =
    (0x083d, spec "Search Store Pos" (pos 6) fixed none false)
    ∷ (0x083e, spec "Login Error" (pos 26) fixed none false)
    ∷ (0x0845, spec "Cash Shop Open Result" (pos 10) fixed none true)
    ∷ (0x0849, spec "Cash Shop Buy Result" (pos 12) fixed none false)
    ∷ (0x084b, spec "Item Appeared" (pos 19) fixed none true)
    ∷ (0x0856, spec "Actor Moved" (negsuc 0) indicated_in_packet none false)
    ∷ (0x0857, spec "Actor Exists" (negsuc 0) indicated_in_packet none false)
    ∷ (0x0858, spec "Actor Connected" (negsuc 0) indicated_in_packet none false)
    ∷ (0x0859, spec "Show Eq" (negsuc 0) indicated_in_packet none false)
    ∷ (0x08b3, spec "Show Script" (negsuc 0) indicated_in_packet none false)
    ∷ (0x08b4, spec "Pet Capture Process" (negsuc 0) unknown none true)
    ∷ (0x08b6, spec "Pet Capture Result" (pos 3) fixed none false)
    ∷ (0x08b9, spec "Login Pin Code Request" (pos 12) fixed none false)
    ∷ (0x08bb, spec "Login Pin New Code Result" (pos 8) fixed none false)
    ∷ (0x08c7, spec "Area Spell" (pos 19) fixed none true)
    ∷ (0x08c8, spec "Actor Action" (pos 34) fixed none false)
    ∷ (0x08ca, spec "Cash Shop List" (negsuc 0) indicated_in_packet none false)
    ∷ (0x08cb, spec "Rates Info" (negsuc 0) indicated_in_packet none false)
    ∷ (0x08cd, spec "Actor Movement Interrupted" (pos 10) fixed none false)
    ∷ (0x08cf, spec "Revolving Entity" (pos 10) fixed none false)
    ∷ (0x08d2, spec "High Jump" (pos 10) fixed none false)
    ∷ (0x08e2, spec "Navigate To" (pos 27) fixed none false)
    ∷ (0x08fe, spec "Quest Update Mission Hunt" (negsuc 0) indicated_in_packet none false)
    ∷ (0x08ff, spec "Actor Status Active" (pos 24) fixed none false)
    ∷ (0x0900, spec "Inventory Items Stackable" (negsuc 0) indicated_in_packet none false)
    ∷ (0x0901, spec "Inventory Items Nonstackable" (negsuc 0) indicated_in_packet none false)
    ∷ (0x0902, spec "Cart Items Stackable" (negsuc 0) indicated_in_packet none false)
    ∷ (0x0903, spec "Cart Items Nonstackable" (negsuc 0) indicated_in_packet none false)
    ∷ (0x0906, spec "Show Eq" (negsuc 0) indicated_in_packet none false)
    ∷ (0x0908, spec "Inventory Item Favorite" (pos 5) fixed none false)
    ∷ (0x090f, spec "Actor Connected" (negsuc 0) indicated_in_packet none false)
    ∷ (0x0914, spec "Actor Moved" (negsuc 0) indicated_in_packet none false)
    ∷ (0x0915, spec "Actor Exists" (negsuc 0) indicated_in_packet none false)
    ∷ (0x096d, spec "Merge Item Open" (pos 4) fixed_min none true)
    ∷ (0x096f, spec "Merge Item Result" (pos 7) fixed none false)
    ∷ (0x0975, spec "Storage Items Stackable" (negsuc 0) indicated_in_packet none false)
    ∷ (0x0976, spec "Storage Items Nonstackable" (negsuc 0) indicated_in_packet none false)
    ∷ (0x0977, spec "Monster Hp Info" (pos 14) fixed none false)
    ∷ (0x097a, spec "Quest All List" (negsuc 0) indicated_in_packet none false)
    ∷ (0x097b, spec "Rates Info2" (negsuc 0) indicated_in_packet none false)
    ∷ (0x097d, spec "Top10" (pos 4) fixed_min none true)
    ∷ (0x097e, spec "Rank Points" (pos 12) fixed none false)
    ∷ (0x0983, spec "Actor Status Active" (pos 29) fixed none false)
    ∷ (0x0984, spec "Actor Status Active" (pos 28) fixed none false)
    ∷ (0x0985, spec "Skill Post Delaylist" (negsuc 0) indicated_in_packet none false)
    ∷ (0x0988, spec "Clan User" (pos 6) fixed none false)
    ∷ (0x098a, spec "Clan Info" (negsuc 0) indicated_in_packet none false)
    ∷ (0x098d, spec "Clan Leave" (negsuc 0) unknown none false)
    ∷ (0x098e, spec "Clan Chat" (negsuc 0) indicated_in_packet none false)
    ∷ (0x0990, spec "Inventory Item Added" (pos 31) fixed none true)
    ∷ (0x0991, spec "Inventory Items Stackable" (negsuc 0) indicated_in_packet none false)
    ∷ (0x0992, spec "Inventory Items Nonstackable" (negsuc 0) indicated_in_packet none false)
    ∷ (0x0993, spec "Cart Items Stackable" (negsuc 0) indicated_in_packet none false)
    ∷ (0x0994, spec "Cart Items Nonstackable" (negsuc 0) indicated_in_packet none false)
    ∷ (0x0995, spec "Storage Items Stackable" (negsuc 0) indicated_in_packet none false)
    ∷ (0x0996, spec "Storage Items Nonstackable" (negsuc 0) indicated_in_packet none false)
    ∷ (0x0997, spec "Show Eq" (negsuc 0) indicated_in_packet none false)
    ∷ (0x0999, spec "Equip Item" (pos 11) fixed none false)
    ∷ (0x099a, spec "Unequip Item" (pos 9) fixed none false)
    ∷ (0x099b, spec "Map Property3" (pos 8) fixed none false)
    ∷ (0x099f, spec "Area Spell Multiple2" (negsuc 0) indicated_in_packet none false)
    ∷ (0x09a0, spec "Sync Received Characters" (pos 6) fixed none false)
    ∷ (0x09a6, spec "Banking Check" (pos 12) fixed none false)
    ∷ (0x09a8, spec "Banking Deposit" (pos 16) fixed none false)
    ∷ (0x09aa, spec "Banking Withdraw" (pos 16) fixed none false)
    ∷ (0x09bb, spec "Storage Opened" (pos 6) fixed none false)
    ∷ (0x09bf, spec "Storage Closed" (negsuc 0) unknown none true)
    ∷ (0x09ca, spec "Area Spell Multiple3" (negsuc 0) indicated_in_packet none false)
    ∷ (0x09cb, spec "Skill Used No Damage" (pos 17) fixed none false)
    ∷ (0x09cd, spec "Message String" (pos 8) fixed none false)
    ∷ (0x09cf, spec "Gameguard Request" (negsuc 0) indicated_in_packet none false)
    ∷ (0x09d1, spec "Progress Bar Unit" (pos 14) fixed none false)
    ∷ (0x09d5, spec "Npc Market Info" (negsuc 0) indicated_in_packet none false)
    ∷ (0x09d7, spec "Npc Market Purchase Result" (negsuc 0) indicated_in_packet none false)
    ∷ (0x09da, spec "Guild Storage Log" (negsuc 0) indicated_in_packet none false)
    ∷ (0x09db, spec "Actor Moved" (negsuc 0) indicated_in_packet none false)
    ∷ (0x09dc, spec "Actor Connected" (negsuc 0) indicated_in_packet none false)
    ∷ (0x09dd, spec "Actor Exists" (negsuc 0) indicated_in_packet none false)
    ∷ (0x09de, spec "Private Message" (negsuc 0) indicated_in_packet none false)
    ∷ (0x09df, spec "Private Message Sent" (pos 7) fixed none false)
    ∷ (0x09e7, spec "Unread Rodex" (pos 3) fixed none false)
    ∷ (0x09eb, spec "Rodex Read Mail" (negsuc 0) indicated_in_packet none false)
    ∷ (0x09ed, spec "Rodex Write Result" (pos 3) fixed none false)
    ∷ (0x09f0, spec "Rodex Mail List" (negsuc 0) indicated_in_packet none false)
    ∷ (0x09f2, spec "Rodex Get Zeny" (pos 12) fixed none false)
    ∷ (0x09f4, spec "Rodex Get Item" (pos 12) fixed none false)
    ∷ (0x09f6, spec "Rodex Delete" (pos 11) fixed none false)
    ∷ (0x09f7, spec "Homunculus Property" (pos 77) fixed none false)
    ∷ (0x09f8, spec "Quest All List" (negsuc 0) indicated_in_packet none false)
    ∷ (0x09f9, spec "Quest Add" (pos 17) fixed_min none true)
    ∷ (0x09fa, spec "Quest Update Mission Hunt" (negsuc 0) indicated_in_packet none false)
    ∷ (0x09fc, spec "Pet Evolution Result" (negsuc 0) indicated_in_packet none true)
    ∷ (0x0a00, spec "Hotkeys" (pos 13) fixed_min none true)
    ∷ (0x0a05, spec "Rodex Add Item" (pos 53) fixed none true)
    ∷ (0x0a07, spec "Rodex Remove Item" (pos 9) fixed none false)
    ∷ (0x0a09, spec "Deal Add Other" (pos 45) fixed none true)
    ∷ (0x0a0a, spec "Storage Item Added" (pos 57) fixed none false)
    ∷ (0x0a0b, spec "Cart Item Added" (pos 47) fixed none true)
    ∷ (0x0a0c, spec "Inventory Item Added" (pos 56) fixed none true)
    ∷ (0x0a0d, spec "Inventory Items Nonstackable" (negsuc 0) indicated_in_packet none false)
    ∷ (0x0a0f, spec "Cart Items Nonstackable" (negsuc 0) indicated_in_packet none false)
    ∷ (0x0a10, spec "Storage Items Nonstackable" (negsuc 0) indicated_in_packet none false)
    ∷ (0x0a12, spec "Rodex Open Write" (pos 27) fixed none false)
    ∷ (0x0a14, spec "Rodex Check Player" (pos 10) fixed none false)
    ∷ (0x0a15, spec "Gold Pc Cafe Point" (pos 12) fixed none false)
    ∷ (0x0a17, spec "Dynamicnpc Create Result" (pos 6) fixed none false)
    ∷ (0x0a18, spec "Map Loaded" (pos 14) fixed none false)
    ∷ (0x0a1a, spec "Roulette Window" (pos 23) fixed none true)
    ∷ (0x0a1c, spec "Roulette Info" (negsuc 0) indicated_in_packet none false)
    ∷ (0x0a20, spec "Roulette Window Update" (pos 21) fixed none true)
    ∷ (0x0a22, spec "Roulette Recv Item" (pos 5) fixed none true)
    ∷ (0x0a23, spec "Achievement List" (negsuc 0) indicated_in_packet none false)
    ∷ (0x0a24, spec "Achievement Update" (pos 66) fixed none false)
    ∷ (0x0a26, spec "Achievement Reward Ack" (pos 7) fixed none false)
    ∷ (0x0a27, spec "Hp Sp Changed" (pos 8) fixed none false)
    ∷ (0x0a28, spec "Open Store Status" (pos 3) fixed none false)
    ∷ (0x0a2d, spec "Show Eq" (negsuc 0) indicated_in_packet none false)
    ∷ (0x0a2f, spec "Change Title" (pos 7) fixed none false)
    ∷ (0x0a34, spec "Senbei Amount" (pos 6) fixed none false)
    ∷ (0x0a36, spec "Monster Hp Info Tiny" (pos 7) fixed none false)
    ∷ (0x0a37, spec "Inventory Item Added" (pos 69) fixed none false)
    ∷ (0x0a38, spec "Open Ui" (pos 3) fixed none false)
    ∷ (0x0a3b, spec "Hat Effect" (negsuc 0) indicated_in_packet none false)
    ∷ (0x0a43, spec "Party Join" (pos 85) fixed none false)
    ∷ (0x0a44, spec "Party Users Info" (negsuc 0) indicated_in_packet none false)
    ∷ (0x0a47, spec "Stylist Res" (pos 3) fixed none false)
    ∷ (0x0a4a, spec "Private Airship Type" (pos 6) fixed none false)
    ∷ (0x0a4b, spec "Map Change" (pos 22) fixed none false)
    ∷ (0x0a4c, spec "Map Changed" (pos 28) fixed none false)
    ∷ (0x0a51, spec "Rodex Check Player" (pos 34) fixed none false)
    ∷ (0x0a53, spec "Captcha Upload Request" (pos 10) fixed none false)
    ∷ (0x0a55, spec "Captcha Upload Request Status" (negsuc 0) unknown none true)
    ∷ (0x0a57, spec "Macro Reporter Status" (pos 6) fixed none false)
    ∷ (0x0a58, spec "Macro Detector" (pos 8) fixed none false)
    ∷ (0x0a59, spec "Macro Detector Image" (negsuc 0) indicated_in_packet none false)
    ∷ (0x0a5b, spec "Macro Detector Show" (pos 7) fixed none false)
    ∷ (0x0a5d, spec "Macro Detector Status" (pos 6) fixed none false)
    ∷ (0x0a6a, spec "Captcha Preview" (pos 12) fixed none false)
    ∷ (0x0a6b, spec "Captcha Preview Image" (negsuc 0) indicated_in_packet none false)
    ∷ (0x0a6d, spec "Macro Reporter Select" (negsuc 0) indicated_in_packet none false)
    ∷ (0x0a6f, spec "Message String" (negsuc 0) indicated_in_packet none false)
    ∷ (0x0a7b, spec "Eac Key" (negsuc 0) unknown none false)
    ∷ (0x0a7d, spec "Rodex Mail List" (negsuc 0) indicated_in_packet none false)
    ∷ (0x0a82, spec "Guild Expulsion" (pos 46) fixed none false)
    ∷ (0x0a83, spec "Guild Leave" (pos 46) fixed none false)
    ∷ []
