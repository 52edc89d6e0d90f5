-- ===== src/Packets/Send/Rows2.antt =====
-- internal/packets/send/send_packets.go, lines 154 to 298: the entries of `PacketDatabase`, in the order of the source.
use ro_proxy.Prelude.{false, none, List, [], ◌∷◌}
use ro_proxy.Prelude.Int.{negsuc, pos}
use ro_proxy.Common.Base.{PacketSpec, spec, fixed, indicated_in_packet}
use Prim.Native.Nat.{ℕ}

unfoldable pub send_rows2 : List (ℕ × PacketSpec)
send_rows2 =
    (0x0244, spec "Mail Attachment Get" (pos 6) fixed none false)
    ∷ (0x0246, spec "Mail Remove" (pos 4) fixed none false)
    ∷ (0x0247, spec "Mail Attachment Set" (pos 8) fixed none false)
    ∷ (0x0248, spec "Mail Send" (negsuc 0) indicated_in_packet none false)
    ∷ (0x024b, spec "Auction Add Item Cancel" (pos 4) fixed none false)
    ∷ (0x024c, spec "Auction Add Item" (pos 8) fixed none false)
    ∷ (0x024d, spec "Auction Create" (pos 12) fixed none false)
    ∷ (0x024e, spec "Auction Cancel" (pos 6) fixed none false)
    ∷ (0x024f, spec "Auction Buy" (pos 10) fixed none false)
    ∷ (0x0251, spec "Auction Search" (pos 34) fixed none false)
    ∷ (0x0254, spec "Starplace Agree" (pos 3) fixed none false)
    ∷ (0x025b, spec "Cook Request" (pos 6) fixed none false)
    ∷ (0x025c, spec "Auction Info Self" (pos 4) fixed none false)
    ∷ (0x025d, spec "Auction Sell Stop" (pos 6) fixed none false)
    ∷ (0x0273, spec "Mail Return" (pos 30) fixed none false)
    ∷ (0x0275, spec "Game Login" (pos 37) fixed none false)
    ∷ (0x0288, spec "Cash Dealer Buy" (pos 10) fixed none false)
    ∷ (0x0292, spec "Auto Revive" (pos 2) fixed none false)
    ∷ (0x029f, spec "Mercenary Command" (pos 3) fixed none false)
    ∷ (0x02b0, spec "Master Login" (pos 86) fixed none false)
    ∷ (0x02b6, spec "Send Quest State" (pos 7) fixed none false)
    ∷ (0x02ba, spec "Hotkey Change" (pos 11) fixed none false)
    ∷ (0x02c4, spec "Party Join Request By Name" (pos 26) fixed none false)
    ∷ (0x02c7, spec "Party Join Request By Name Reply" (pos 7) fixed none false)
    ∷ (0x02cf, spec "Memorial Dungeon Command" (pos 6) fixed none false)
    ∷ (0x02d6, spec "View Player Equip Request" (pos 6) fixed none false)
    ∷ (0x02d8, spec "Misc Config Set" (pos 10) fixed none false)
    ∷ (0x02db, spec "Battleground Chat" (negsuc 0) indicated_in_packet none false)
    ∷ (0x02f1, spec "Notify Progress Bar Complete" (pos 2) fixed none false)
    ∷ (0x035f, spec "Character Move" (pos 5) fixed none false)
    ∷ (0x0360, spec "Sync" (pos 6) fixed none false)
    ∷ (0x0361, spec "Actor Look At" (pos 5) fixed none false)
    ∷ (0x0362, spec "Item Take" (pos 6) fixed none false)
    ∷ (0x0363, spec "Item Drop" (pos 6) fixed none false)
    ∷ (0x0364, spec "Storage Item Add" (pos 8) fixed none false)
    ∷ (0x0365, spec "Storage Item Remove" (pos 8) fixed none false)
    ∷ (0x0366, spec "Skill Use Location" (pos 10) fixed none false)
    ∷ (0x0367, spec "Skill Use Location Text" (pos 92) fixed none false)
    ∷ (0x0368, spec "Actor Info Request" (pos 6) fixed none false)
    ∷ (0x0369, spec "Actor Name Request" (pos 6) fixed none false)
    ∷ (0x0437, spec "Actor Action" (pos 7) fixed none false)
    ∷ (0x0438, spec "Skill Use" (pos 10) fixed none false)
    ∷ (0x0439, spec "Item Use" (pos 8) fixed none false)
    ∷ (0x0443, spec "Skill Select" (pos 8) fixed none false)
    ∷ (0x0447, spec "Blocking Play Cancel" (pos 2) fixed none false)
    ∷ (0x044a, spec "Client Version" (pos 6) fixed none false)
    ∷ (0x07d7, spec "Party Setting" (pos 8) fixed none false)
    ∷ (0x07da, spec "Party Leader" (pos 6) fixed none false)
    ∷ (0x07e4, spec "Item List Window Selected" (negsuc 0) indicated_in_packet none false)
    ∷ (0x07e7, spec "Captcha Answer" (pos 32) fixed none false)
    ∷ (0x0801, spec "Buy Bulk Vender" (negsuc 0) indicated_in_packet none false)
    ∷ (0x0802, spec "Booking Register" (pos 18) fixed none false)
    ∷ (0x0804, spec "Booking Search" (pos 12) fixed none false)
    ∷ (0x0806, spec "Booking Delete" (pos 2) fixed none false)
    ∷ (0x0808, spec "Booking Update" (pos 14) fixed none false)
    ∷ (0x0811, spec "Buy Bulk Openshop" (negsuc 0) indicated_in_packet none false)
    ∷ (0x0815, spec "Buy Bulk Closeshop" (pos 2) fixed none false)
    ∷ (0x0817, spec "Buy Bulk Request" (pos 6) fixed none false)
    ∷ (0x0819, spec "Buy Bulk Buyer" (negsuc 0) indicated_in_packet none false)
    ∷ (0x0825, spec "Token Login" (negsuc 0) indicated_in_packet none false)
    ∷ (0x0827, spec "Char Delete2" (pos 6) fixed none false)
    ∷ (0x0829, spec "Char Delete2 Accept" (pos 12) fixed none false)
    ∷ (0x082b, spec "Char Delete2 Cancel" (pos 6) fixed none false)
    ∷ (0x0835, spec "Search Store Info" (negsuc 0) indicated_in_packet none false)
    ∷ (0x0838, spec "Search Store Request Next Page" (pos 2) fixed none false)
    ∷ (0x083b, spec "Search Store Close" (pos 2) fixed none false)
    ∷ (0x083c, spec "Search Store Select" (pos 12) fixed none false)
    ∷ (0x0841, spec "Select Accessible Mapname" (pos 4) fixed none false)
    ∷ (0x0842, spec "Recall Sso" (pos 6) fixed none false)
    ∷ (0x0843, spec "Remove Aid Sso" (pos 6) fixed none false)
    ∷ (0x0844, spec "Cash Shop Open" (pos 2) fixed none false)
    ∷ (0x0846, spec "Req Cash Tabcode" (pos 4) fixed none false)
    ∷ (0x084a, spec "Cash Shop Close" (pos 2) fixed none false)
    ∷ (0x08b5, spec "Pet Capture" (pos 6) fixed none false)
    ∷ (0x08b8, spec "Send Pin Password" (negsuc 0) indicated_in_packet none false)
    ∷ (0x08ba, spec "New Pin Password" (negsuc 0) indicated_in_packet none false)
    ∷ (0x08be, spec "Change Pin Password" (negsuc 0) indicated_in_packet none false)
    ∷ (0x08c1, spec "Macro Start" (pos 2) fixed none false)
    ∷ (0x08c2, spec "Macro Stop" (pos 2) fixed none false)
    ∷ (0x08c9, spec "Request Cashitems" (pos 2) fixed none false)
    ∷ (0x096e, spec "Merge Item Request" (negsuc 0) indicated_in_packet none false)
    ∷ (0x0970, spec "Char Create" (pos 31) fixed none false)
    ∷ (0x0974, spec "Merge Item Cancel" (pos 2) fixed none false)
    ∷ (0x097c, spec "Rank General" (pos 4) fixed none false)
    ∷ (0x0987, spec "Master Login" (pos 63) fixed none false)
    ∷ (0x098d, spec "Clan Chat" (negsuc 0) indicated_in_packet none false)
    ∷ (0x098f, spec "Char Delete2 Accept" (negsuc 0) indicated_in_packet none false)
    ∷ (0x0998, spec "Send Equip" (pos 8) fixed none false)
    ∷ (0x09a1, spec "Sync Received Characters" (pos 2) fixed none false)
    ∷ (0x09a7, spec "Banking Deposit Request" (pos 10) fixed none false)
    ∷ (0x09a9, spec "Banking Withdraw Request" (pos 10) fixed none false)
    ∷ (0x09ab, spec "Banking Check Request" (pos 6) fixed none false)
    ∷ (0x09d0, spec "Gameguard Reply" (pos 2) fixed none false)
    ∷ (0x09d4, spec "Sell Buy Complete" (pos 2) fixed none false)
    ∷ (0x09d6, spec "Buy Bulk Market" (negsuc 0) indicated_in_packet none false)
    ∷ (0x09d8, spec "Market Close" (pos 2) fixed none false)
    ∷ (0x09e1, spec "Guild Storage Item Add" (pos 8) fixed none false)
    ∷ (0x09e2, spec "Guild Storage Item Remove" (pos 8) fixed none false)
    ∷ (0x09e3, spec "Cart To Guild Storage" (pos 8) fixed none false)
    ∷ (0x09e4, spec "Guild Storage To Cart" (pos 8) fixed none false)
    ∷ (0x09e8, spec "Rodex Open Mailbox" (pos 11) fixed none false)
    ∷ (0x09e9, spec "Rodex Close Mailbox" (pos 2) fixed none false)
    ∷ (0x09ea, spec "Rodex Read Mail" (pos 11) fixed none false)
    ∷ (0x09ee, spec "Rodex Next Maillist" (pos 11) fixed none false)
    ∷ (0x09ef, spec "Rodex Refresh Maillist" (pos 11) fixed none false)
    ∷ (0x09f1, spec "Rodex Request Zeny" (pos 11) fixed none false)
    ∷ (0x09f3, spec "Rodex Request Items" (pos 11) fixed none false)
    ∷ (0x09f5, spec "Rodex Delete Mail" (pos 11) fixed none false)
    ∷ (0x09fb, spec "Pet Evolution" (negsuc 0) indicated_in_packet none false)
    ∷ (0x0a03, spec "Rodex Cancel Write Mail" (pos 2) fixed none false)
    ∷ (0x0a04, spec "Rodex Add Item" (pos 6) fixed none false)
    ∷ (0x0a06, spec "Rodex Remove Item" (pos 6) fixed none false)
    ∷ (0x0a08, spec "Rodex Open Write Mail" (pos 26) fixed none false)
    ∷ (0x0a13, spec "Rodex Checkname" (pos 26) fixed none false)
    ∷ (0x0a16, spec "Dynamicnpc Create Request" (pos 26) fixed none false)
    ∷ (0x0a19, spec "Roulette Window Open" (pos 2) fixed none false)
    ∷ (0x0a1b, spec "Roulette Info Request" (pos 2) fixed none false)
    ∷ (0x0a1d, spec "Roulette Close" (pos 2) fixed none false)
    ∷ (0x0a1f, spec "Roulette Start" (pos 2) fixed none false)
    ∷ (0x0a21, spec "Roulette Claim Prize" (pos 2) fixed none false)
    ∷ (0x0a25, spec "Achievement Get Reward" (pos 6) fixed none false)
    ∷ (0x0a2e, spec "Send Change Title" (pos 6) fixed none false)
    ∷ (0x0a39, spec "Char Create" (pos 36) fixed none false)
    ∷ (0x0a46, spec "Stylist Change" (pos 14) fixed none false)
    ∷ (0x0a49, spec "Private Airship Request" (pos 20) fixed none false)
    ∷ (0x0a52, spec "Captcha Register" (pos 20) fixed none false)
    ∷ (0x0a54, spec "Captcha Upload Request Ack" (negsuc 0) indicated_in_packet none false)
    ∷ (0x0a56, spec "Macro Reporter Ack" (pos 6) fixed none false)
    ∷ (0x0a5a, spec "Macro Detector Download" (pos 2) fixed none false)
    ∷ (0x0a5c, spec "Macro Detector Answer" (pos 18) fixed none false)
    ∷ (0x0a68, spec "Open Ui Request" (pos 3) fixed none false)
    ∷ (0x0a69, spec "Captcha Preview Request" (pos 6) fixed none false)
    ∷ (0x0a6c, spec "Macro Reporter Select" (pos 7) fixed none false)
    ∷ (0x0a6e, spec "Rodex Send Mail" (negsuc 0) indicated_in_packet none false)
    ∷ (0x0a76, spec "Master Login" (pos 80) fixed none false)
    ∷ (0x0a97, spec "Equip Switch Add" (pos 8) fixed none false)
    ∷ (0x0a99, spec "Equip Switch Remove" (pos 4) fixed none false)
    ∷ (0x0a9c, spec "Equip Switch Run" (pos 2) fixed none false)
    ∷ (0x0aa1, spec "Refineui Select" (pos 4) fixed none false)
    ∷ (0x0aa3, spec "Refineui Refine" (pos 7) fixed none false)
    ∷ (0x0aa4, spec "Refineui Close" (pos 2) fixed none false)
    ∷ (0x0aac, spec "Master Login" (pos 69) fixed none false)
    ∷ (0x0ac0, spec "Rodex Open Mailbox" (pos 27) fixed none false)
    ∷ (0x0ac1, spec "Rodex Refresh Maillist" (pos 27) fixed none false)
    ∷ (0x0ace, spec "Equip Switch Single" (pos 4) fixed none false)
    ∷ []
