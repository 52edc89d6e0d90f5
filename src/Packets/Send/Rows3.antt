-- ===== src/Packets/Send/Rows3.antt =====
-- internal/packets/send/send_packets.go, lines 299 to 311: the entries of `PacketDatabase`, in the order of the source.
use ro_proxy.Prelude.{false, none, List, [], ◌∷◌}
use ro_proxy.Prelude.Int.{pos}
use ro_proxy.Common.Base.{PacketSpec, spec, fixed}
use Prim.Native.Nat.{ℕ}

unfoldable pub send_rows3 : List (ℕ × PacketSpec)
send_rows3 =
    (0x0acf, spec "Master Login" (pos 68) fixed none false)
    ∷ (0x0ae8, spec "Change Dress" (pos 2) fixed none false)
    ∷ (0x0aef, spec "Attendance Reward Request" (pos 2) fixed none false)
    ∷ (0x0af4, spec "Skill Use Location" (pos 11) fixed none false)
    ∷ (0x0b10, spec "Start Skill Use" (pos 10) fixed none false)
    ∷ (0x0b11, spec "Stop Skill Use" (pos 4) fixed none false)
    ∷ (0x0b14, spec "Inventory Expansion Request" (pos 2) fixed none false)
    ∷ (0x0b19, spec "Inventory Expansion Rejected" (pos 2) fixed none false)
    ∷ (0x0b1c, spec "Ping" (pos 2) fixed none false)
    ∷ (0x0b21, spec "Hotkey Change" (pos 13) fixed none false)
    ∷ (0x0baf, spec "Use Packageitem" (pos 16) fixed none false)
    ∷ (0x0c23, spec "Send Otp Login" (pos 9) fixed none false)
    ∷ (0x0c26, spec "Master Login" (pos 94) fixed none false)
    ∷ []
