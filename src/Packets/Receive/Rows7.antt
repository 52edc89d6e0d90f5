-- ===== src/Packets/Receive/Rows7.antt =====
-- internal/packets/receive/receive_packets.go, lines 879 to 1023: the entries of `PacketDatabase`, in the order of the source.
use ro_proxy.Prelude.{false, none, List, [], ◌∷◌}
use ro_proxy.Prelude.Int.{negsuc, pos}
use ro_proxy.Common.Base.{PacketSpec, spec, fixed, indicated_in_packet}
use Prim.Native.Nat.{ℕ}

unfoldable pub receive_rows7 : List (ℕ × PacketSpec)
receive_rows7 =
    (0x0082, spec "Unknown" (pos 2) fixed none false)
    ∷ (0x0085, spec "Unknown" (pos 5) fixed none false)
    ∷ (0x0089, spec "Unknown" (pos 7) fixed none false)
    ∷ (0x008c, spec "Unknown" (negsuc 0) indicated_in_packet none false)
    ∷ (0x007e, spec "Unknown" (pos 6) fixed none false)
    ∷ (0x007d, spec "Unknown" (pos 2) fixed none false)
    ∷ (0x0090, spec "Unknown" (pos 7) fixed none false)
    ∷ (0x0099, spec "Unknown" (negsuc 0) indicated_in_packet none false)
    ∷ (0x019c, spec "Unknown" (negsuc 0) indicated_in_packet none false)
    ∷ (0x009b, spec "Unknown" (pos 5) fixed none false)
    ∷ (0x00cc, spec "Unknown" (pos 6) fixed none false)
    ∷ (0x00ce, spec "Unknown" (pos 2) fixed none false)
    ∷ (0x009f, spec "Unknown" (pos 6) fixed none false)
    ∷ (0x00a2, spec "Unknown" (pos 6) fixed none false)
    ∷ (0x00a7, spec "Unknown" (pos 8) fixed none false)
    ∷ (0x00a9, spec "Unknown" (pos 6) fixed none false)
    ∷ (0x00ab, spec "Unknown" (pos 4) fixed none false)
    ∷ (0x00b8, spec "Unknown" (pos 7) fixed none false)
    ∷ (0x00b9, spec "Unknown" (pos 6) fixed none false)
    ∷ (0x00b2, spec "Unknown" (pos 3) fixed none false)
    ∷ (0x00ba, spec "Unknown" (pos 2) fixed none false)
    ∷ (0x00bb, spec "Unknown" (pos 5) fixed none false)
    ∷ (0x00bf, spec "Unknown" (pos 3) fixed none false)
    ∷ (0x00c1, spec "Unknown" (pos 2) fixed none false)
    ∷ (0x00c5, spec "Unknown" (pos 7) fixed none false)
    ∷ (0x00c8, spec "Unknown" (negsuc 0) indicated_in_packet none false)
    ∷ (0x00c9, spec "Unknown" (negsuc 0) indicated_in_packet none false)
    ∷ (0x0096, spec "New Character" (pos 93) fixed none false)
    ∷ (0x00cf, spec "Unknown" (pos 27) fixed none false)
    ∷ (0x00d0, spec "Unknown" (pos 3) fixed none false)
    ∷ (0x00d3, spec "Unknown" (pos 2) fixed none false)
    ∷ (0x00d5, spec "Unknown" (negsuc 0) indicated_in_packet none false)
    ∷ (0x00d9, spec "Unknown" (pos 14) fixed none false)
    ∷ (0x00de, spec "Unknown" (negsuc 0) indicated_in_packet none false)
    ∷ (0x00e0, spec "Unknown" (pos 30) fixed none false)
    ∷ (0x00e2, spec "Unknown" (pos 26) fixed none false)
    ∷ (0x00e3, spec "Unknown" (pos 2) fixed none false)
    ∷ (0x00e4, spec "Unknown" (pos 6) fixed none false)
    ∷ (0x00e6, spec "Unknown" (pos 3) fixed none false)
    ∷ (0x00e8, spec "Unknown" (pos 8) fixed none false)
    ∷ (0x00eb, spec "Unknown" (pos 2) fixed none false)
    ∷ (0x00ed, spec "Unknown" (pos 2) fixed none false)
    ∷ (0x00ef, spec "Unknown" (pos 2) fixed none false)
    ∷ (0x00f3, spec "Unknown" (pos 8) fixed none false)
    ∷ (0x00f5, spec "Unknown" (pos 8) fixed none false)
    ∷ (0x00f7, spec "Unknown" (pos 2) fixed none false)
    ∷ (0x00f9, spec "Unknown" (pos 26) fixed none false)
    ∷ (0x01e8, spec "Unknown" (pos 28) fixed none false)
    ∷ (0x00fc, spec "Unknown" (pos 6) fixed none false)
    ∷ (0x00ff, spec "Unknown" (pos 10) fixed none false)
    ∷ (0x0102, spec "Unknown" (pos 6) fixed none false)
    ∷ (0x0103, spec "Unknown" (pos 30) fixed none false)
    ∷ (0x0112, spec "Unknown" (pos 4) fixed none false)
    ∷ (0x0113, spec "Unknown" (pos 10) fixed none false)
    ∷ (0x0116, spec "Unknown" (pos 10) fixed none false)
    ∷ (0x0118, spec "Unknown" (pos 2) fixed none false)
    ∷ (0x011b, spec "Unknown" (pos 20) fixed none false)
    ∷ (0x011d, spec "Unknown" (pos 2) fixed none false)
    ∷ (0x0126, spec "Unknown" (pos 8) fixed none false)
    ∷ (0x0127, spec "Unknown" (pos 8) fixed none false)
    ∷ (0x0128, spec "Unknown" (pos 8) fixed none false)
    ∷ (0x0129, spec "Unknown" (pos 8) fixed none false)
    ∷ (0x012a, spec "Unknown" (pos 2) fixed none false)
    ∷ (0x012e, spec "Unknown" (pos 2) fixed none false)
    ∷ (0x012f, spec "Unknown" (negsuc 0) indicated_in_packet none false)
    ∷ (0x01b2, spec "Unknown" (negsuc 0) indicated_in_packet none false)
    ∷ (0x0134, spec "Unknown" (negsuc 0) indicated_in_packet none false)
    ∷ (0x0130, spec "Unknown" (pos 6) fixed none false)
    ∷ (0x0138, spec "Unknown" (pos 3) fixed none false)
    ∷ (0x013f, spec "Unknown" (pos 26) fixed none false)
    ∷ (0x0140, spec "Unknown" (pos 22) fixed none false)
    ∷ (0x0143, spec "Unknown" (pos 10) fixed none false)
    ∷ (0x0146, spec "Unknown" (pos 6) fixed none false)
    ∷ (0x0178, spec "Unknown" (pos 4) fixed none false)
    ∷ (0x017a, spec "Unknown" (pos 4) fixed none false)
    ∷ (0x017c, spec "Unknown" (pos 6) fixed none false)
    ∷ (0x01fd, spec "Unknown" (pos 25) fixed none false)
    ∷ (0x018a, spec "Unknown" (pos 4) fixed none false)
    ∷ (0x018e, spec "Unknown" (pos 18) fixed none false)
    ∷ (0x0190, spec "Unknown" (pos 90) fixed none false)
    ∷ (0x0197, spec "Unknown" (pos 4) fixed none false)
    ∷ (0x0198, spec "Unknown" (pos 8) fixed none false)
    ∷ (0x01ae, spec "Unknown" (pos 6) fixed none false)
    ∷ (0x025b, spec "Unknown" (pos 8) fixed none false)
    ∷ (0x01af, spec "Unknown" (pos 4) fixed none false)
    ∷ (0x01ce, spec "Unknown" (pos 6) fixed none false)
    ∷ (0x0094, spec "Unknown" (pos 6) fixed none false)
    ∷ (0x0193, spec "Unknown" (pos 6) fixed none false)
    ∷ (0x0175, spec "Unknown" (pos 6) fixed none false)
    ∷ (0x0176, spec "Unknown" (pos 106) fixed none false)
    ∷ (0x019d, spec "Unknown" (pos 6) fixed none false)
    ∷ (0x014d, spec "Unknown" (pos 2) fixed none false)
    ∷ (0x014f, spec "Unknown" (pos 6) fixed none false)
    ∷ (0x0151, spec "Unknown" (pos 6) fixed none false)
    ∷ (0x0153, spec "Unknown" (negsuc 0) indicated_in_packet none false)
    ∷ (0x0155, spec "Unknown" (negsuc 0) indicated_in_packet none false)
    ∷ (0x0157, spec "Unknown" (pos 6) fixed none false)
    ∷ (0x0159, spec "Unknown" (pos 54) fixed none false)
    ∷ (0x015b, spec "Unknown" (pos 54) fixed none false)
    ∷ (0x015d, spec "Unknown" (pos 42) fixed none false)
    ∷ (0x015f, spec "Unknown" (pos 42) fixed none false)
    ∷ (0x0161, spec "Unknown" (negsuc 0) indicated_in_packet none false)
    ∷ (0x0164, spec "Unknown" (negsuc 0) indicated_in_packet none false)
    ∷ (0x0165, spec "Unknown" (pos 30) fixed none false)
    ∷ (0x0168, spec "Unknown" (pos 14) fixed none false)
    ∷ (0x016b, spec "Unknown" (pos 10) fixed none false)
    ∷ (0x0149, spec "Unknown" (pos 9) fixed none false)
    ∷ (0x016e, spec "Unknown" (pos 186) fixed none false)
    ∷ (0x017e, spec "Unknown" (negsuc 0) indicated_in_packet none false)
    ∷ (0x0170, spec "Unknown" (pos 14) fixed none false)
    ∷ (0x0172, spec "Unknown" (pos 10) fixed none false)
    ∷ (0x0180, spec "Unknown" (pos 6) fixed none false)
    ∷ (0x0183, spec "Unknown" (pos 10) fixed none false)
    ∷ (0x019f, spec "Unknown" (pos 6) fixed none false)
    ∷ (0x01a1, spec "Unknown" (pos 3) fixed none false)
    ∷ (0x01a5, spec "Unknown" (pos 26) fixed none false)
    ∷ (0x01a7, spec "Unknown" (pos 4) fixed none false)
    ∷ (0x01a8, spec "Unknown" (pos 4) fixed none false)
    ∷ (0x01a9, spec "Unknown" (pos 6) fixed none false)
    ∷ (0x01ca, spec "Unknown" (pos 3) fixed none false)
    ∷ (0x01b1, spec "Unknown" (pos 7) fixed none false)
    ∷ (0x01ba, spec "Unknown" (pos 26) fixed none false)
    ∷ (0x01bb, spec "Unknown" (pos 26) fixed none false)
    ∷ (0x01bc, spec "Unknown" (pos 26) fixed none false)
    ∷ (0x01bd, spec "Unknown" (pos 26) fixed none false)
    ∷ (0x01c0, spec "Unknown" (pos 2) fixed none false)
    ∷ (0x01c2, spec "Unknown" (pos 10) fixed none false)
    ∷ (0x01d5, spec "Unknown" (negsuc 0) indicated_in_packet none false)
    ∷ (0x01df, spec "Unknown" (pos 6) fixed none false)
    ∷ (0x01ed, spec "Unknown" (pos 2) fixed none false)
    ∷ (0x01e7, spec "Unknown" (pos 2) fixed none false)
    ∷ (0x01b7, spec "Unknown" (pos 6) fixed none false)
    ∷ (0x01f7, spec "Unknown" (pos 14) fixed none false)
    ∷ (0x01e3, spec "Unknown" (pos 14) fixed none false)
    ∷ (0x01cb, spec "Unknown" (pos 9) fixed none false)
    ∷ (0x01f9, spec "Unknown" (pos 6) fixed none false)
    ∷ (0x01e5, spec "Unknown" (pos 6) fixed none false)
    ∷ (0x0203, spec "Unknown" (pos 10) fixed none false)
    ∷ (0x0208, spec "Unknown" (pos 14) fixed none false)
    ∷ (0x0212, spec "Unknown" (pos 26) fixed none false)
    ∷ (0x0213, spec "Unknown" (pos 26) fixed none false)
    ∷ (0x0214, spec "Unknown" (pos 42) fixed none false)
    ∷ (0x0217, spec "Unknown" (pos 2) fixed none false)
    ∷ (0x0218, spec "Unknown" (pos 2) fixed none false)
    ∷ (0x0225, spec "Unknown" (pos 2) fixed none false)
    ∷ []
