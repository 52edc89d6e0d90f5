-- ===== src/Packets/Receive/Rows5.antt =====
-- internal/packets/receive/receive_packets.go, lines 589 to 733: the entries of `PacketDatabase`, in the order of the source.
use ro_proxy.Prelude.{false, none, true, List, [], ◌∷◌}
use ro_proxy.Prelude.Int.{negsuc, pos}
use ro_proxy.Common.Base.{PacketSpec, spec, fixed, fixed_min, indicated_in_packet, unknown}
use Prim.Native.Nat.{ℕ}

unfoldable pub receive_rows5 : List (ℕ × PacketSpec)
receive_rows5 =
    (0x0a84, spec "Guild Info" (pos 94) fixed none false)
    ∷ (0x0a89, spec "Offline Clone Found" (pos 57) fixed none true)
    ∷ (0x0a8a, spec "Offline Clone Lost" (pos 6) fixed none false)
    ∷ (0x0a8d, spec "Vender Items List" (negsuc 0) indicated_in_packet none false)
    ∷ (0x0a91, spec "Buying Store Items List" (negsuc 0) indicated_in_packet none false)
    ∷ (0x0a95, spec "Misc Config" (pos 4) fixed none false)
    ∷ (0x0a96, spec "Deal Add Other" (pos 61) fixed none false)
    ∷ (0x0a98, spec "Equip Item Switch" (pos 10) fixed none false)
    ∷ (0x0a9a, spec "Unequip Item Switch" (pos 9) fixed none true)
    ∷ (0x0a9b, spec "Equip Switch Log" (negsuc 0) indicated_in_packet none false)
    ∷ (0x0a9d, spec "Equip Switch Run Res" (pos 4) fixed none false)
    ∷ (0x0aa0, spec "Refineui Opene" (negsuc 0) unknown none true)
    ∷ (0x0aa2, spec "Refineui Info" (negsuc 0) indicated_in_packet none false)
    ∷ (0x0aa5, spec "Guild Members List" (negsuc 0) indicated_in_packet none false)
    ∷ (0x0aa8, spec "Misc Config" (pos 5) fixed none false)
    ∷ (0x0ab2, spec "Party Dead" (pos 7) fixed none false)
    ∷ (0x0ab8, spec "Move Interrupt" (negsuc 0) unknown none true)
    ∷ (0x0ab9, spec "Item Preview" (pos 39) fixed none true)
    ∷ (0x0abd, spec "Partylv Info" (pos 10) fixed none false)
    ∷ (0x0abe, spec "Warp Portal List" (negsuc 0) indicated_in_packet none false)
    ∷ (0x0ac2, spec "Rodex Mail List" (negsuc 0) indicated_in_packet none false)
    ∷ (0x0ac4, spec "Account Server Info" (negsuc 0) indicated_in_packet none false)
    ∷ (0x0ac9, spec "Account Server Info" (negsuc 0) indicated_in_packet none false)
    ∷ (0x0aca, spec "Errors" (pos 3) fixed none false)
    ∷ (0x0acd, spec "Login Error" (pos 23) fixed none false)
    ∷ (0x0ada, spec "Refine Status" (pos 32) fixed none false)
    ∷ (0x0adc, spec "Misc Config" (pos 6) fixed none false)
    ∷ (0x0add, spec "Item Appeared" (pos 24) fixed none false)
    ∷ (0x0ade, spec "Overweight Percent" (pos 6) fixed none false)
    ∷ (0x0adf, spec "Actor Info" (pos 58) fixed none false)
    ∷ (0x0ae0, spec "Login Error" (pos 30) fixed none false)
    ∷ (0x0ae2, spec "Open Ui" (pos 7) fixed none false)
    ∷ (0x0ae3, spec "Received Login Token" (negsuc 0) indicated_in_packet none false)
    ∷ (0x0ae4, spec "Party Join" (pos 89) fixed none false)
    ∷ (0x0ae5, spec "Party Users Info" (negsuc 0) indicated_in_packet none false)
    ∷ (0x0af0, spec "Action Ui" (pos 7) fixed none true)
    ∷ (0x0af7, spec "Character Name" (pos 32) fixed none false)
    ∷ (0x0afb, spec "Sage Autospell" (negsuc 0) indicated_in_packet none false)
    ∷ (0x0afd, spec "Guild Position" (negsuc 0) indicated_in_packet none false)
    ∷ (0x0afe, spec "Quest Update Mission Hunt" (negsuc 0) indicated_in_packet none false)
    ∷ (0x0aff, spec "Quest All List" (negsuc 0) indicated_in_packet none false)
    ∷ (0x0b03, spec "Show Eq" (negsuc 0) indicated_in_packet none false)
    ∷ (0x0b08, spec "Item List Start" (negsuc 0) indicated_in_packet none false)
    ∷ (0x0b09, spec "Item List Stackable" (negsuc 0) indicated_in_packet none false)
    ∷ (0x0b0a, spec "Item List Nonstackable" (negsuc 0) indicated_in_packet none false)
    ∷ (0x0b0b, spec "Item List End" (pos 4) fixed none false)
    ∷ (0x0b0c, spec "Quest Add" (pos 155) fixed none false)
    ∷ (0x0b13, spec "Item Preview" (pos 48) fixed none false)
    ∷ (0x0b18, spec "Inventory Expansion Result" (pos 6) fixed none false)
    ∷ (0x0b1a, spec "Skill Cast" (pos 29) fixed none false)
    ∷ (0x0b1b, spec "Load Confirm" (pos 2) fixed none false)
    ∷ (0x0b1d, spec "Ping" (pos 2) fixed none false)
    ∷ (0x0b20, spec "Hotkeys" (pos 271) fixed none false)
    ∷ (0x0b2f, spec "Homunculus Property" (pos 73) fixed none false)
    ∷ (0x0b31, spec "Skill Add" (pos 17) fixed none false)
    ∷ (0x0b32, spec "Skills List" (negsuc 0) indicated_in_packet none false)
    ∷ (0x0b33, spec "Skill Update" (pos 17) fixed none false)
    ∷ (0x0b39, spec "Item List Nonstackable" (negsuc 0) indicated_in_packet none false)
    ∷ (0x0b41, spec "Inventory Item Added" (pos 70) fixed none false)
    ∷ (0x0b44, spec "Storage Item Added" (pos 58) fixed none false)
    ∷ (0x0b45, spec "Cart Item Added" (pos 58) fixed none false)
    ∷ (0x0b5f, spec "Rodex Mail List" (negsuc 0) indicated_in_packet none false)
    ∷ (0x0b60, spec "Account Server Info" (negsuc 0) indicated_in_packet none false)
    ∷ (0x0b6f, spec "Character Creation Successful" (pos 2) fixed_min none true)
    ∷ (0x0b72, spec "Received Characters" (negsuc 0) indicated_in_packet none false)
    ∷ (0x0b73, spec "Revolving Entity" (pos 8) fixed none false)
    ∷ (0x0b76, spec "Homunculus Property" (pos 77) fixed none false)
    ∷ (0x0b77, spec "Npc Store Info" (negsuc 0) indicated_in_packet none false)
    ∷ (0x0b7b, spec "Guild Info" (pos 118) fixed none false)
    ∷ (0x0b7c, spec "Guild Expulsion List" (negsuc 0) indicated_in_packet none false)
    ∷ (0x0b7d, spec "Guild Members List" (negsuc 0) indicated_in_packet none false)
    ∷ (0x0b7e, spec "Guild Member Add" (pos 60) fixed none false)
    ∷ (0x0b8d, spec "Repute Info" (negsuc 0) indicated_in_packet none false)
    ∷ (0x0ba4, spec "Homunculus Property" (pos 85) fixed none false)
    ∷ (0x0871, spec "Unknown" (pos 2) fixed none false)
    ∷ (0x0b4d, spec "Unknown" (negsuc 0) indicated_in_packet none false)
    ∷ (0x086f, spec "Unknown" (pos 2) fixed none false)
    ∷ (0x0100, spec "Unknown" (pos 2) fixed none false)
    ∷ (0x0877, spec "Unknown" (pos 2) fixed none false)
    ∷ (0x087e, spec "Unknown" (pos 2) fixed none false)
    ∷ (0x0437, spec "Unknown" (pos 7) fixed none false)
    ∷ (0x0438, spec "Unknown" (pos 10) fixed none false)
    ∷ (0x035f, spec "Unknown" (pos 5) fixed none false)
    ∷ (0x0360, spec "Unknown" (pos 6) fixed none false)
    ∷ (0x0361, spec "Unknown" (pos 5) fixed none false)
    ∷ (0x0362, spec "Unknown" (pos 6) fixed none false)
    ∷ (0x0363, spec "Unknown" (pos 6) fixed none false)
    ∷ (0x0364, spec "Unknown" (pos 8) fixed none false)
    ∷ (0x0365, spec "Unknown" (pos 8) fixed none false)
    ∷ (0x0366, spec "Unknown" (pos 10) fixed none false)
    ∷ (0x0367, spec "Unknown" (pos 90) fixed none false)
    ∷ (0x0368, spec "Unknown" (pos 6) fixed none false)
    ∷ (0x0369, spec "Unknown" (pos 6) fixed none false)
    ∷ (0x083c, spec "Unknown" (pos 14) fixed none false)
    ∷ (0x0838, spec "Unknown" (pos 2) fixed none false)
    ∷ (0x0835, spec "Unknown" (negsuc 0) indicated_in_packet none false)
    ∷ (0x0819, spec "Unknown" (negsuc 0) indicated_in_packet none false)
    ∷ (0x0817, spec "Unknown" (pos 6) fixed none false)
    ∷ (0x0815, spec "Unknown" (pos 2) fixed none false)
    ∷ (0x0811, spec "Unknown" (negsuc 0) indicated_in_packet none false)
    ∷ (0x0802, spec "Unknown" (pos 18) fixed none false)
    ∷ (0x07ec, spec "Unknown" (pos 8) fixed none false)
    ∷ (0x07e4, spec "Unknown" (negsuc 0) indicated_in_packet none false)
    ∷ (0x0436, spec "Unknown" (pos 19) fixed none false)
    ∷ (0x02c4, spec "Unknown" (pos 26) fixed none false)
    ∷ (0x0281, spec "Unknown" (pos 4) fixed none false)
    ∷ (0x0202, spec "Unknown" (pos 26) fixed none false)
    ∷ (0x022d, spec "Unknown" (pos 5) fixed none false)
    ∷ (0x023b, spec "Unknown" (pos 36) fixed none false)
    ∷ (0x085a, spec "Unknown" (pos 2) fixed none false)
    ∷ (0x085b, spec "Unknown" (pos 2) fixed none false)
    ∷ (0x085c, spec "Unknown" (pos 2) fixed none false)
    ∷ (0x085d, spec "Unknown" (pos 2) fixed none false)
    ∷ (0x085e, spec "Unknown" (pos 2) fixed none false)
    ∷ (0x085f, spec "Unknown" (pos 2) fixed none false)
    ∷ (0x0860, spec "Unknown" (pos 2) fixed none false)
    ∷ (0x0861, spec "Unknown" (pos 2) fixed none false)
    ∷ (0x0862, spec "Unknown" (pos 2) fixed none false)
    ∷ (0x0863, spec "Unknown" (pos 2) fixed none false)
    ∷ (0x0864, spec "Unknown" (pos 2) fixed none false)
    ∷ (0x0865, spec "Unknown" (pos 2) fixed none false)
    ∷ (0x0866, spec "Unknown" (pos 2) fixed none false)
    ∷ (0x0867, spec "Unknown" (pos 2) fixed none false)
    ∷ (0x0868, spec "Unknown" (pos 2) fixed none false)
    ∷ (0x0869, spec "Unknown" (pos 2) fixed none false)
    ∷ (0x086a, spec "Unknown" (pos 2) fixed none false)
    ∷ (0x086b, spec "Unknown" (pos 2) fixed none false)
    ∷ (0x086c, spec "Unknown" (pos 2) fixed none false)
    ∷ (0x086d, spec "Unknown" (pos 2) fixed none false)
    ∷ (0x086e, spec "Unknown" (pos 2) fixed none false)
    ∷ (0x0870, spec "Unknown" (pos 2) fixed none false)
    ∷ (0x0872, spec "Unknown" (pos 2) fixed none false)
    ∷ (0x0873, spec "Unknown" (pos 2) fixed none false)
    ∷ (0x0874, spec "Unknown" (pos 2) fixed none false)
    ∷ (0x0875, spec "Unknown" (pos 2) fixed none false)
    ∷ (0x0876, spec "Unknown" (pos 2) fixed none false)
    ∷ (0x0878, spec "Unknown" (pos 2) fixed none false)
    ∷ (0x0879, spec "Unknown" (pos 2) fixed none false)
    ∷ (0x087a, spec "Unknown" (pos 2) fixed none false)
    ∷ (0x087b, spec "Unknown" (pos 2) fixed none false)
    ∷ (0x087c, spec "Unknown" (pos 2) fixed none false)
    ∷ (0x087d, spec "Unknown" (pos 2) fixed none false)
    ∷ (0x087f, spec "Unknown" (pos 2) fixed none false)
    ∷ (0x0880, spec "Unknown" (pos 2) fixed none false)
    ∷ (0x0881, spec "Unknown" (pos 2) fixed none false)
    ∷ []
