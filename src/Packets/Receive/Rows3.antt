-- ===== src/Packets/Receive/Rows3.antt =====
-- internal/packets/receive/receive_packets.go, lines 299 to 443: the entries of `PacketDatabase`, in the order of the source.
use ro_proxy.Prelude.{false, none, true, List, [], ◌∷◌}
use ro_proxy.Prelude.Int.{negsuc, pos}
use ro_proxy.Common.Base.{PacketSpec, spec, fixed, fixed_min, indicated_in_packet, unknown}
use Prim.Native.Nat.{ℕ}

unfoldable pub receive_rows3 : List (ℕ × PacketSpec)
receive_rows3 =
    (0x0235, spec "Skills List" (negsuc 0) unknown none false)
    ∷ (0x0238, spec "Top10 Pk Rank" (negsuc 0) unknown none true)
    ∷ (0x0239, spec "Skill Update" (pos 11) fixed none false)
    ∷ (0x023a, spec "Storage Password Request" (pos 4) fixed none false)
    ∷ (0x023c, spec "Storage Password Result" (pos 6) fixed none false)
    ∷ (0x023e, spec "Storage Password Request" (pos 4) fixed none true)
    ∷ (0x0240, spec "Mail Refreshinbox" (pos 8) fixed none true)
    ∷ (0x0242, spec "Mail Read" (negsuc 0) indicated_in_packet none false)
    ∷ (0x0245, spec "Mail Getattachment" (pos 3) fixed none false)
    ∷ (0x0249, spec "Mail Send" (pos 3) fixed none false)
    ∷ (0x024a, spec "Mail New" (pos 70) fixed none false)
    ∷ (0x0250, spec "Auction Result" (pos 3) fixed none false)
    ∷ (0x0252, spec "Auction Item Request Search" (pos 12) fixed none true)
    ∷ (0x0253, spec "Starplace" (pos 3) fixed none false)
    ∷ (0x0255, spec "Mail Setattachment" (pos 5) fixed none false)
    ∷ (0x0256, spec "Auction Add Item" (pos 5) fixed none false)
    ∷ (0x0257, spec "Mail Delete" (pos 8) fixed none false)
    ∷ (0x0259, spec "Gameguard Grant" (pos 3) fixed none false)
    ∷ (0x025a, spec "Cooking List" (negsuc 0) indicated_in_packet none false)
    ∷ (0x025d, spec "Auction My Sell Stop" (pos 6) fixed none false)
    ∷ (0x025f, spec "Auction Windows" (pos 12) fixed none true)
    ∷ (0x0260, spec "Mail Window" (pos 4) fixed none true)
    ∷ (0x0274, spec "Mail Return" (pos 8) fixed none false)
    ∷ (0x0276, spec "Account Server Info" (negsuc 0) indicated_in_packet none false)
    ∷ (0x027b, spec "Premium Rates Info" (pos 14) fixed none false)
    ∷ (0x0283, spec "Account Id" (pos 6) fixed none false)
    ∷ (0x0284, spec "Gansi Rank" (pos 2) fixed none true)
    ∷ (0x0287, spec "Cash Dealer" (negsuc 0) indicated_in_packet none false)
    ∷ (0x0289, spec "Cash Buy Fail" (pos 12) fixed none true)
    ∷ (0x028a, spec "Character Status" (pos 18) fixed none false)
    ∷ (0x0291, spec "Message String" (pos 4) fixed none false)
    ∷ (0x0293, spec "Boss Map Info" (pos 43) fixed none true)
    ∷ (0x0294, spec "Book Read" (pos 10) fixed none false)
    ∷ (0x0295, spec "Inventory Items Nonstackable" (negsuc 0) indicated_in_packet none false)
    ∷ (0x0296, spec "Storage Items Nonstackable" (negsuc 0) indicated_in_packet none false)
    ∷ (0x0297, spec "Cart Items Nonstackable" (negsuc 0) indicated_in_packet none false)
    ∷ (0x0298, spec "Rental Time" (pos 10) fixed none false)
    ∷ (0x0299, spec "Rental Expired" (pos 8) fixed none false)
    ∷ (0x029a, spec "Inventory Item Added" (pos 27) fixed none true)
    ∷ (0x029b, spec "Mercenary Init" (pos 80) fixed none false)
    ∷ (0x029d, spec "Skills List" (negsuc 0) unknown none false)
    ∷ (0x02a2, spec "Stat Info" (pos 8) fixed none false)
    ∷ (0x02a6, spec "Gameguard Request" (negsuc 0) unknown none false)
    ∷ (0x02aa, spec "Cash Password Request" (pos 4) fixed none false)
    ∷ (0x02ac, spec "Cash Password Result" (pos 6) fixed none false)
    ∷ (0x02ad, spec "Login Pin Code Request" (pos 8) fixed none false)
    ∷ (0x02ae, spec "Initialize Message Id Encryption" (pos 10) fixed none true)
    ∷ (0x02b1, spec "Quest All List" (negsuc 0) indicated_in_packet none false)
    ∷ (0x02b2, spec "Quest All Mission" (negsuc 0) indicated_in_packet none false)
    ∷ (0x02b3, spec "Quest Add" (pos 17) fixed_min none true)
    ∷ (0x02b4, spec "Quest Delete" (pos 6) fixed none false)
    ∷ (0x02b5, spec "Quest Update Mission Hunt" (negsuc 0) indicated_in_packet none false)
    ∷ (0x02b7, spec "Quest Active" (pos 7) fixed none false)
    ∷ (0x02b8, spec "Party Show Picker" (pos 32) fixed none false)
    ∷ (0x02b9, spec "Hotkeys" (pos 2) fixed_min none true)
    ∷ (0x02c1, spec "Npc Chat" (negsuc 0) indicated_in_packet none false)
    ∷ (0x02c5, spec "Party Invite Result" (pos 30) fixed none false)
    ∷ (0x02c6, spec "Party Invite" (pos 30) fixed none false)
    ∷ (0x02c9, spec "Party Allow Invite" (pos 3) fixed none false)
    ∷ (0x02ca, spec "Login Error Game Login Server" (pos 3) fixed none false)
    ∷ (0x02cb, spec "Instance Window Start" (pos 65) fixed none false)
    ∷ (0x02cc, spec "Instance Window Queue" (pos 3) fixed none true)
    ∷ (0x02cd, spec "Instance Window Join" (pos 71) fixed none false)
    ∷ (0x02ce, spec "Instance Window Leave" (pos 10) fixed none false)
    ∷ (0x02d0, spec "Inventory Items Nonstackable" (negsuc 0) indicated_in_packet none false)
    ∷ (0x02d1, spec "Storage Items Nonstackable" (negsuc 0) indicated_in_packet none false)
    ∷ (0x02d2, spec "Cart Items Nonstackable" (negsuc 0) indicated_in_packet none false)
    ∷ (0x02d4, spec "Inventory Item Added" (pos 29) fixed none true)
    ∷ (0x02d5, spec "Isvr Disconnect" (negsuc 0) unknown none true)
    ∷ (0x02d7, spec "Show Eq" (negsuc 0) indicated_in_packet none false)
    ∷ (0x02d9, spec "Misc Config Reply" (pos 10) fixed none false)
    ∷ (0x02da, spec "Show Eq Msg Self" (pos 3) fixed none false)
    ∷ (0x02dc, spec "Battleground Message" (negsuc 0) indicated_in_packet none false)
    ∷ (0x02dd, spec "Battleground Emblem" (pos 32) fixed none false)
    ∷ (0x02de, spec "Battleground Score" (pos 6) fixed none false)
    ∷ (0x02df, spec "Battleground Position" (pos 36) fixed none false)
    ∷ (0x02e0, spec "Battleground Hp" (pos 34) fixed none false)
    ∷ (0x02e1, spec "Actor Action" (pos 33) fixed none false)
    ∷ (0x02e7, spec "Map Property" (negsuc 0) indicated_in_packet none false)
    ∷ (0x02e8, spec "Inventory Items Stackable" (negsuc 0) indicated_in_packet none false)
    ∷ (0x02e9, spec "Cart Items Stackable" (negsuc 0) indicated_in_packet none false)
    ∷ (0x02ea, spec "Storage Items Stackable" (negsuc 0) indicated_in_packet none false)
    ∷ (0x02ec, spec "Actor Exists" (pos 71) fixed none false)
    ∷ (0x02ed, spec "Actor Connected" (pos 59) fixed none true)
    ∷ (0x02ee, spec "Actor Moved" (pos 64) fixed none false)
    ∷ (0x02ef, spec "Font" (pos 8) fixed none false)
    ∷ (0x02f0, spec "Progress Bar" (pos 10) fixed none false)
    ∷ (0x02f2, spec "Progress Bar Stop" (negsuc 0) unknown none true)
    ∷ (0x02f7, spec "Guild Name" (pos 47) fixed none true)
    ∷ (0x040c, spec "Local Broadcast" (negsuc 0) indicated_in_packet none true)
    ∷ (0x043d, spec "Skill Post Delay" (pos 8) fixed none false)
    ∷ (0x043e, spec "Skill Post Delaylist" (negsuc 0) indicated_in_packet none false)
    ∷ (0x043f, spec "Actor Status Active" (pos 25) fixed none false)
    ∷ (0x0440, spec "Millenium Shield" (pos 10) fixed none false)
    ∷ (0x0441, spec "Skill Delete" (pos 4) fixed none false)
    ∷ (0x0442, spec "Sage Autospell" (pos 8) fixed_min none true)
    ∷ (0x0444, spec "Cash Item List" (negsuc 0) indicated_in_packet none false)
    ∷ (0x0446, spec "Minimap Indicator" (pos 14) fixed none false)
    ∷ (0x0449, spec "Hack Shield Alarm" (negsuc 0) unknown none true)
    ∷ (0x07d8, spec "Party Exp" (pos 8) fixed none false)
    ∷ (0x07d9, spec "Hotkeys" (pos 2) fixed_min none true)
    ∷ (0x07db, spec "Stat Info" (pos 8) fixed none false)
    ∷ (0x07e1, spec "Skill Update" (pos 15) fixed none false)
    ∷ (0x07e2, spec "Message String" (pos 8) fixed none false)
    ∷ (0x07e3, spec "Skill Exchange Item" (pos 10) fixed none true)
    ∷ (0x07e6, spec "Skill Msg" (pos 8) fixed none false)
    ∷ (0x07e8, spec "Captcha Image" (negsuc 0) indicated_in_packet none false)
    ∷ (0x07e9, spec "Captcha Answer" (pos 5) fixed none false)
    ∷ (0x07f6, spec "Exp" (pos 14) fixed none false)
    ∷ (0x07f7, spec "Actor Exists" (negsuc 0) indicated_in_packet none false)
    ∷ (0x07f8, spec "Actor Connected" (negsuc 0) indicated_in_packet none false)
    ∷ (0x07f9, spec "Actor Moved" (negsuc 0) indicated_in_packet none false)
    ∷ (0x07fa, spec "Inventory Item Removed" (pos 8) fixed none false)
    ∷ (0x07fb, spec "Skill Cast" (pos 25) fixed none false)
    ∷ (0x07fc, spec "Party Leader" (pos 10) fixed none false)
    ∷ (0x07fe, spec "Sound Effect" (pos 26) fixed none false)
    ∷ (0x07ff, spec "Define Check" (negsuc 0) indicated_in_packet none true)
    ∷ (0x0803, spec "Booking Register Request" (pos 4) fixed none false)
    ∷ (0x0805, spec "Booking Search Request" (pos 5) fixed_min none true)
    ∷ (0x0807, spec "Booking Delete Request" (pos 4) fixed none false)
    ∷ (0x0809, spec "Booking Insert" (pos 50) fixed none false)
    ∷ (0x080a, spec "Booking Update" (pos 18) fixed none false)
    ∷ (0x080b, spec "Booking Delete" (pos 6) fixed none false)
    ∷ (0x080e, spec "Party Hp Info" (pos 14) fixed none false)
    ∷ (0x080f, spec "Deal Add Other" (pos 30) fixed none false)
    ∷ (0x0810, spec "Open Buying Store" (pos 3) fixed none false)
    ∷ (0x0812, spec "Open Buying Store Fail" (pos 4) fixed none true)
    ∷ (0x0813, spec "Open Buying Store Item List" (negsuc 0) indicated_in_packet none false)
    ∷ (0x0814, spec "Buying Store Found" (pos 86) fixed none false)
    ∷ (0x0816, spec "Buying Store Lost" (pos 6) fixed none false)
    ∷ (0x0818, spec "Buying Store Items List" (negsuc 0) indicated_in_packet none false)
    ∷ (0x081a, spec "Buying Buy Fail" (pos 4) fixed none false)
    ∷ (0x081b, spec "Buying Store Update" (pos 10) fixed none true)
    ∷ (0x081c, spec "Buying Store Item Delete" (pos 10) fixed none false)
    ∷ (0x081d, spec "Elemental Info" (pos 22) fixed none false)
    ∷ (0x081e, spec "Stat Info" (pos 8) fixed none false)
    ∷ (0x0824, spec "Buying Store Fail" (pos 6) fixed none true)
    ∷ (0x0828, spec "Char Delete2 Result" (pos 14) fixed none false)
    ∷ (0x082a, spec "Char Delete2 Accept Result" (pos 10) fixed none false)
    ∷ (0x082c, spec "Char Delete2 Cancel Result" (pos 10) fixed none false)
    ∷ (0x082d, spec "Received Characters Info" (negsuc 0) indicated_in_packet none false)
    ∷ (0x0836, spec "Search Store Result" (negsuc 0) indicated_in_packet none false)
    ∷ (0x0837, spec "Search Store Fail" (pos 3) fixed none false)
    ∷ (0x0839, spec "Guild Expulsion" (pos 66) fixed none false)
    ∷ (0x083a, spec "Search Store Open" (pos 5) fixed none false)
    ∷ []
