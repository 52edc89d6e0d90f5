-- ===== src/Packets/Receive/Rows8.antt =====
-- internal/packets/receive/receive_packets.go, lines 1024 to 1168: the entries of `PacketDatabase`, in the order of the source.
use ro_proxy.Prelude.{false, none, List, [], ◌∷◌}
use ro_proxy.Prelude.Int.{negsuc, pos}
use ro_proxy.Common.Base.{PacketSpec, spec, fixed, indicated_in_packet}
use Prim.Native.Nat.{ℕ}

unfoldable pub receive_rows8 : List (ℕ × PacketSpec)
receive_rows8 =
    (0x0282, spec "Unknown" (pos 284) fixed none false)
    ∷ (0x0280, spec "Unknown" (pos 12) fixed none false)
    ∷ (0x0285, spec "Unknown" (pos 6) fixed none false)
    ∷ (0x0286, spec "Unknown" (pos 4) fixed none false)
    ∷ (0x021d, spec "Unknown" (pos 6) fixed none false)
    ∷ (0x021e, spec "Unknown" (pos 6) fixed none false)
    ∷ (0x021f, spec "Unknown" (pos 66) fixed none false)
    ∷ (0x0222, spec "Unknown" (pos 6) fixed none false)
    ∷ (0x0220, spec "Unknown" (pos 10) fixed none false)
    ∷ (0x0076, spec "Unknown" (pos 9) fixed none false)
    ∷ (0x0083, spec "Unknown" (pos 2) fixed none false)
    ∷ (0x0084, spec "Unknown" (pos 2) fixed none false)
    ∷ (0x008b, spec "Unknown" (pos 23) fixed none false)
    ∷ (0x0093, spec "Unknown" (pos 2) fixed none false)
    ∷ (0x00ae, spec "Unknown" (negsuc 0) indicated_in_packet none false)
    ∷ (0x00cd, spec "Unknown" (pos 3) fixed none false)
    ∷ (0x00f1, spec "Unknown" (pos 2) fixed none false)
    ∷ (0x010d, spec "Unknown" (pos 2) fixed none false)
    ∷ (0x0115, spec "Unknown" (pos 35) fixed none false)
    ∷ (0x01b8, spec "Unknown" (pos 3) fixed none false)
    ∷ (0x01cc, spec "Unknown" (pos 9) fixed none false)
    ∷ (0x01e2, spec "Unknown" (pos 34) fixed none false)
    ∷ (0x01e4, spec "Unknown" (pos 2) fixed none false)
    ∷ (0x0254, spec "Unknown" (pos 3) fixed none false)
    ∷ (0x01f8, spec "Unknown" (pos 2) fixed none false)
    ∷ (0x0228, spec "Unknown" (pos 18) fixed none false)
    ∷ (0x0232, spec "Unknown" (pos 9) fixed none false)
    ∷ (0x0233, spec "Unknown" (pos 11) fixed none false)
    ∷ (0x0234, spec "Unknown" (pos 6) fixed none false)
    ∷ (0x027d, spec "Unknown" (pos 62) fixed none false)
    ∷ (0x0231, spec "Unknown" (pos 26) fixed none false)
    ∷ (0x0237, spec "Unknown" (pos 2) fixed none false)
    ∷ (0x0236, spec "Unknown" (pos 10) fixed none false)
    ∷ (0x023d, spec "Unknown" (pos 6) fixed none false)
    ∷ (0x023f, spec "Unknown" (pos 2) fixed none false)
    ∷ (0x0241, spec "Unknown" (pos 6) fixed none false)
    ∷ (0x0243, spec "Unknown" (pos 6) fixed none false)
    ∷ (0x0244, spec "Unknown" (pos 6) fixed none false)
    ∷ (0x0246, spec "Unknown" (pos 4) fixed none false)
    ∷ (0x0247, spec "Unknown" (pos 8) fixed none false)
    ∷ (0x0248, spec "Unknown" (negsuc 0) indicated_in_packet none false)
    ∷ (0x024b, spec "Unknown" (pos 4) fixed none false)
    ∷ (0x024c, spec "Unknown" (pos 8) fixed none false)
    ∷ (0x024d, spec "Unknown" (pos 12) fixed none false)
    ∷ (0x024e, spec "Unknown" (pos 6) fixed none false)
    ∷ (0x024f, spec "Unknown" (pos 10) fixed none false)
    ∷ (0x0251, spec "Unknown" (pos 34) fixed none false)
    ∷ (0x0258, spec "Unknown" (pos 2) fixed none false)
    ∷ (0x025c, spec "Unknown" (pos 4) fixed none false)
    ∷ (0x025e, spec "Unknown" (pos 4) fixed none false)
    ∷ (0x0261, spec "Unknown" (pos 11) fixed none false)
    ∷ (0x0262, spec "Unknown" (pos 11) fixed none false)
    ∷ (0x0263, spec "Unknown" (pos 11) fixed none false)
    ∷ (0x0264, spec "Unknown" (pos 20) fixed none false)
    ∷ (0x0265, spec "Unknown" (pos 20) fixed none false)
    ∷ (0x0266, spec "Unknown" (pos 30) fixed none false)
    ∷ (0x0267, spec "Unknown" (pos 4) fixed none false)
    ∷ (0x0268, spec "Unknown" (pos 4) fixed none false)
    ∷ (0x0269, spec "Unknown" (pos 4) fixed none false)
    ∷ (0x026a, spec "Unknown" (pos 4) fixed none false)
    ∷ (0x026b, spec "Unknown" (pos 4) fixed none false)
    ∷ (0x026c, spec "Unknown" (pos 4) fixed none false)
    ∷ (0x026d, spec "Unknown" (pos 4) fixed none false)
    ∷ (0x026f, spec "Unknown" (pos 2) fixed none false)
    ∷ (0x0270, spec "Unknown" (pos 2) fixed none false)
    ∷ (0x0271, spec "Unknown" (pos 40) fixed none false)
    ∷ (0x0272, spec "Unknown" (pos 44) fixed none false)
    ∷ (0x0273, spec "Unknown" (pos 30) fixed none false)
    ∷ (0x0275, spec "Unknown" (pos 37) fixed none false)
    ∷ (0x0277, spec "Unknown" (pos 84) fixed none false)
    ∷ (0x0278, spec "Unknown" (pos 2) fixed none false)
    ∷ (0x0279, spec "Unknown" (pos 2) fixed none false)
    ∷ (0x027a, spec "Unknown" (negsuc 0) indicated_in_packet none false)
    ∷ (0x027c, spec "Unknown" (pos 60) fixed none false)
    ∷ (0x027e, spec "Unknown" (negsuc 0) indicated_in_packet none false)
    ∷ (0x027f, spec "Unknown" (pos 8) fixed none false)
    ∷ (0x0288, spec "Unknown" (pos 8) fixed none false)
    ∷ (0x0445, spec "Unknown" (pos 8) fixed none false)
    ∷ (0x028b, spec "Unknown" (negsuc 0) indicated_in_packet none false)
    ∷ (0x028c, spec "Unknown" (pos 46) fixed none false)
    ∷ (0x028d, spec "Unknown" (pos 34) fixed none false)
    ∷ (0x028e, spec "Unknown" (pos 4) fixed none false)
    ∷ (0x028f, spec "Unknown" (pos 6) fixed none false)
    ∷ (0x0290, spec "Unknown" (pos 4) fixed none false)
    ∷ (0x0292, spec "Unknown" (pos 2) fixed none false)
    ∷ (0x029c, spec "Unknown" (pos 66) fixed none false)
    ∷ (0x029e, spec "Unknown" (pos 11) fixed none false)
    ∷ (0x029f, spec "Unknown" (pos 3) fixed none false)
    ∷ (0x02a5, spec "Unknown" (pos 8) fixed none false)
    ∷ (0x02a7, spec "Unknown" (negsuc 0) indicated_in_packet none false)
    ∷ (0x02ab, spec "Unknown" (pos 36) fixed none false)
    ∷ (0x02b0, spec "Unknown" (pos 85) fixed none false)
    ∷ (0x02bb, spec "Unknown" (pos 8) fixed none false)
    ∷ (0x02ba, spec "Unknown" (pos 11) fixed none false)
    ∷ (0x02bc, spec "Unknown" (pos 6) fixed none false)
    ∷ (0x02b6, spec "Unknown" (pos 7) fixed none false)
    ∷ (0x02c2, spec "Unknown" (negsuc 0) indicated_in_packet none false)
    ∷ (0x02c8, spec "Unknown" (pos 3) fixed none false)
    ∷ (0x02c7, spec "Unknown" (pos 7) fixed none false)
    ∷ (0x02cf, spec "Unknown" (pos 6) fixed none false)
    ∷ (0x02d3, spec "Unknown" (pos 4) fixed none false)
    ∷ (0x02d6, spec "Unknown" (pos 6) fixed none false)
    ∷ (0x02d8, spec "Unknown" (pos 10) fixed none false)
    ∷ (0x02db, spec "Unknown" (negsuc 0) indicated_in_packet none false)
    ∷ (0x02e2, spec "Unknown" (pos 8) fixed none false)
    ∷ (0x02e3, spec "Unknown" (pos 10) fixed none false)
    ∷ (0x02e4, spec "Unknown" (pos 6) fixed none false)
    ∷ (0x02e5, spec "Unknown" (pos 5) fixed none false)
    ∷ (0x02e6, spec "Unknown" (pos 6) fixed none false)
    ∷ (0x02f1, spec "Unknown" (pos 2) fixed none false)
    ∷ (0x035c, spec "Unknown" (pos 2) fixed none false)
    ∷ (0x035d, spec "Unknown" (negsuc 0) indicated_in_packet none false)
    ∷ (0x035e, spec "Unknown" (pos 2) fixed none false)
    ∷ (0x03dd, spec "Unknown" (pos 18) fixed none false)
    ∷ (0x03de, spec "Unknown" (pos 18) fixed none false)
    ∷ (0x0439, spec "Unknown" (pos 8) fixed none false)
    ∷ (0x0443, spec "Unknown" (pos 8) fixed none false)
    ∷ (0x0448, spec "Unknown" (negsuc 0) indicated_in_packet none false)
    ∷ (0x044a, spec "Unknown" (pos 6) fixed none false)
    ∷ (0x044b, spec "Unknown" (pos 2) fixed none false)
    ∷ (0x0447, spec "Unknown" (pos 2) fixed none false)
    ∷ (0x07d7, spec "Unknown" (pos 8) fixed none false)
    ∷ (0x07da, spec "Unknown" (pos 6) fixed none false)
    ∷ (0x07dc, spec "Unknown" (pos 6) fixed none false)
    ∷ (0x07dd, spec "Unknown" (pos 54) fixed none false)
    ∷ (0x07de, spec "Unknown" (pos 30) fixed none false)
    ∷ (0x07df, spec "Unknown" (pos 54) fixed none false)
    ∷ (0x07e0, spec "Unknown" (pos 58) fixed none false)
    ∷ (0x07e5, spec "Unknown" (pos 4) fixed none false)
    ∷ (0x07e7, spec "Unknown" (pos 32) fixed none false)
    ∷ (0x07ea, spec "Unknown" (pos 2) fixed none false)
    ∷ (0x07eb, spec "Unknown" (negsuc 0) indicated_in_packet none false)
    ∷ (0x07ed, spec "Unknown" (pos 10) fixed none false)
    ∷ (0x07ee, spec "Unknown" (pos 6) fixed none false)
    ∷ (0x07ef, spec "Unknown" (pos 8) fixed none false)
    ∷ (0x07f0, spec "Unknown" (pos 6) fixed none false)
    ∷ (0x07f1, spec "Unknown" (pos 18) fixed none false)
    ∷ (0x07f2, spec "Unknown" (pos 8) fixed none false)
    ∷ (0x07f3, spec "Unknown" (pos 6) fixed none false)
    ∷ (0x07f4, spec "Unknown" (pos 3) fixed none false)
    ∷ (0x07f5, spec "Unknown" (pos 6) fixed none false)
    ∷ (0x0801, spec "Unknown" (negsuc 0) indicated_in_packet none false)
    ∷ (0x0804, spec "Unknown" (pos 14) fixed none false)
    ∷ (0x0806, spec "Unknown" (pos 2) fixed none false)
    ∷ (0x0808, spec "Unknown" (pos 14) fixed none false)
    ∷ []
