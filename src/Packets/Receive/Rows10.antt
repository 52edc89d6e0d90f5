-- ===== src/Packets/Receive/Rows10.antt =====
-- internal/packets/receive/receive_packets.go, lines 1314 to 1458: the entries of `PacketDatabase`, in the order of the source.
use ro_proxy.Prelude.{false, none, List, [], ◌∷◌}
use ro_proxy.Prelude.Int.{negsuc, pos}
use ro_proxy.Common.Base.{PacketSpec, spec, fixed, indicated_in_packet}
use Prim.Native.Nat.{ℕ}

unfoldable pub receive_rows10 : List (ℕ × PacketSpec)
receive_rows10 =
    (0x09c8, spec "Unknown" (negsuc 0) indicated_in_packet none false)
    ∷ (0x09c9, spec "Unknown" (negsuc 0) indicated_in_packet none false)
    ∷ (0x09cc, spec "Unknown" (negsuc 0) indicated_in_packet none false)
    ∷ (0x09ce, spec "Unknown" (pos 102) fixed none false)
    ∷ (0x09d0, spec "Unknown" (negsuc 0) indicated_in_packet none false)
    ∷ (0x09d2, spec "Unknown" (negsuc 0) indicated_in_packet none false)
    ∷ (0x09d3, spec "Unknown" (negsuc 0) indicated_in_packet none false)
    ∷ (0x09d4, spec "Unknown" (pos 2) fixed none false)
    ∷ (0x09d6, spec "Unknown" (negsuc 0) indicated_in_packet none false)
    ∷ (0x09d8, spec "Unknown" (pos 2) fixed none false)
    ∷ (0x09d9, spec "Unknown" (pos 4) fixed none false)
    ∷ (0x09e0, spec "Unknown" (negsuc 0) indicated_in_packet none false)
    ∷ (0x09e1, spec "Unknown" (pos 8) fixed none false)
    ∷ (0x09e2, spec "Unknown" (pos 8) fixed none false)
    ∷ (0x09e3, spec "Unknown" (pos 8) fixed none false)
    ∷ (0x09e4, spec "Unknown" (pos 8) fixed none false)
    ∷ (0x09e6, spec "Unknown" (pos 24) fixed none false)
    ∷ (0x09e8, spec "Unknown" (pos 11) fixed none false)
    ∷ (0x09e9, spec "Unknown" (pos 2) fixed none false)
    ∷ (0x09ee, spec "Unknown" (pos 11) fixed none false)
    ∷ (0x09ef, spec "Unknown" (pos 11) fixed none false)
    ∷ (0x09f5, spec "Unknown" (pos 11) fixed none false)
    ∷ (0x09ea, spec "Unknown" (pos 11) fixed none false)
    ∷ (0x09ec, spec "Unknown" (negsuc 0) indicated_in_packet none false)
    ∷ (0x09f3, spec "Unknown" (pos 11) fixed none false)
    ∷ (0x09f1, spec "Unknown" (pos 11) fixed none false)
    ∷ (0x0a04, spec "Unknown" (pos 6) fixed none false)
    ∷ (0x0a06, spec "Unknown" (pos 6) fixed none false)
    ∷ (0x0a03, spec "Unknown" (pos 2) fixed none false)
    ∷ (0x0a08, spec "Unknown" (pos 26) fixed none false)
    ∷ (0x0a13, spec "Unknown" (pos 26) fixed none false)
    ∷ (0x0a32, spec "Unknown" (pos 2) fixed none false)
    ∷ (0x09fb, spec "Unknown" (negsuc 0) indicated_in_packet none false)
    ∷ (0x0a01, spec "Unknown" (pos 3) fixed none false)
    ∷ (0x0a02, spec "Unknown" (pos 4) fixed none false)
    ∷ (0x0a11, spec "Unknown" (negsuc 0) indicated_in_packet none false)
    ∷ (0x0a0e, spec "Unknown" (pos 14) fixed none false)
    ∷ (0x0a16, spec "Unknown" (pos 26) fixed none false)
    ∷ (0x0a19, spec "Unknown" (pos 2) fixed none false)
    ∷ (0x0a1b, spec "Unknown" (pos 2) fixed none false)
    ∷ (0x0a1d, spec "Unknown" (pos 2) fixed none false)
    ∷ (0x0a1e, spec "Unknown" (pos 3) fixed none false)
    ∷ (0x0a1f, spec "Unknown" (pos 2) fixed none false)
    ∷ (0x0a21, spec "Unknown" (pos 3) fixed none false)
    ∷ (0x0a25, spec "Unknown" (pos 6) fixed none false)
    ∷ (0x0a29, spec "Unknown" (pos 6) fixed none false)
    ∷ (0x0a2a, spec "Unknown" (pos 6) fixed none false)
    ∷ (0x0a2b, spec "Unknown" (pos 10) fixed none false)
    ∷ (0x0a2c, spec "Unknown" (pos 12) fixed none false)
    ∷ (0x0a2e, spec "Unknown" (pos 6) fixed none false)
    ∷ (0x0a31, spec "Unknown" (negsuc 0) indicated_in_packet none false)
    ∷ (0x0a33, spec "Unknown" (pos 7) fixed none false)
    ∷ (0x0a35, spec "Unknown" (pos 4) fixed none false)
    ∷ (0x0a68, spec "Unknown" (pos 3) fixed none false)
    ∷ (0x0a39, spec "Unknown" (pos 36) fixed none false)
    ∷ (0x0a3a, spec "Unknown" (pos 12) fixed none false)
    ∷ (0x0a3c, spec "Unknown" (negsuc 0) indicated_in_packet none false)
    ∷ (0x0a3d, spec "Unknown" (pos 20) fixed none false)
    ∷ (0x0a3e, spec "Unknown" (negsuc 0) indicated_in_packet none false)
    ∷ (0x0a3f, spec "Unknown" (pos 11) fixed none false)
    ∷ (0x0a40, spec "Unknown" (pos 11) fixed none false)
    ∷ (0x0a41, spec "Unknown" (pos 18) fixed none false)
    ∷ (0x0a42, spec "Unknown" (pos 43) fixed none false)
    ∷ (0x0a46, spec "Unknown" (pos 14) fixed none false)
    ∷ (0x0a48, spec "Unknown" (pos 2) fixed none false)
    ∷ (0x0afc, spec "Unknown" (pos 16) fixed none false)
    ∷ (0x0a49, spec "Unknown" (pos 22) fixed none false)
    ∷ (0x0a8f, spec "Unknown" (pos 2) fixed none false)
    ∷ (0x0a90, spec "Unknown" (pos 3) fixed none false)
    ∷ (0x0b23, spec "Unknown" (pos 6) fixed none false)
    ∷ (0x0a4d, spec "Unknown" (negsuc 0) indicated_in_packet none false)
    ∷ (0x0a79, spec "Unknown" (negsuc 0) indicated_in_packet none false)
    ∷ (0x0b61, spec "Unknown" (negsuc 0) indicated_in_packet none false)
    ∷ (0x0b6a, spec "Unknown" (negsuc 0) indicated_in_packet none false)
    ∷ (0x0a4e, spec "Unknown" (pos 6) fixed none false)
    ∷ (0x0a70, spec "Unknown" (pos 2) fixed none false)
    ∷ (0x0a4f, spec "Unknown" (negsuc 0) indicated_in_packet none false)
    ∷ (0x0a50, spec "Unknown" (pos 4) fixed none false)
    ∷ (0x0a52, spec "Unknown" (pos 20) fixed none false)
    ∷ (0x0a54, spec "Unknown" (negsuc 0) indicated_in_packet none false)
    ∷ (0x0a56, spec "Unknown" (pos 6) fixed none false)
    ∷ (0x0a5a, spec "Unknown" (pos 2) fixed none false)
    ∷ (0x0a5c, spec "Unknown" (pos 18) fixed none false)
    ∷ (0x0a69, spec "Unknown" (pos 6) fixed none false)
    ∷ (0x0a6c, spec "Unknown" (pos 7) fixed none false)
    ∷ (0x0a6e, spec "Unknown" (negsuc 0) indicated_in_packet none false)
    ∷ (0x0a71, spec "Unknown" (negsuc 0) indicated_in_packet none false)
    ∷ (0x0a72, spec "Unknown" (pos 61) fixed none false)
    ∷ (0x0a73, spec "Unknown" (pos 2) fixed none false)
    ∷ (0x0a74, spec "Unknown" (pos 8) fixed none false)
    ∷ (0x0a76, spec "Unknown" (pos 80) fixed none false)
    ∷ (0x0a77, spec "Unknown" (pos 15) fixed none false)
    ∷ (0x0a78, spec "Unknown" (pos 15) fixed none false)
    ∷ (0x0a7c, spec "Unknown" (negsuc 0) indicated_in_packet none false)
    ∷ (0x0a7e, spec "Unknown" (negsuc 0) indicated_in_packet none false)
    ∷ (0x0a8c, spec "Unknown" (pos 2) fixed none false)
    ∷ (0x0a80, spec "Unknown" (pos 6) fixed none false)
    ∷ (0x0a7f, spec "Unknown" (negsuc 0) indicated_in_packet none false)
    ∷ (0x0a81, spec "Unknown" (pos 4) fixed none false)
    ∷ (0x0a92, spec "Unknown" (negsuc 0) indicated_in_packet none false)
    ∷ (0x0a93, spec "Unknown" (pos 3) fixed none false)
    ∷ (0x0a94, spec "Unknown" (pos 2) fixed none false)
    ∷ (0x0a85, spec "Unknown" (pos 82) fixed none false)
    ∷ (0x0a86, spec "Unknown" (negsuc 0) indicated_in_packet none false)
    ∷ (0x0a87, spec "Unknown" (negsuc 0) indicated_in_packet none false)
    ∷ (0x0a88, spec "Unknown" (pos 2) fixed none false)
    ∷ (0x0a8b, spec "Unknown" (pos 2) fixed none false)
    ∷ (0x0a8e, spec "Unknown" (pos 2) fixed none false)
    ∷ (0x0a97, spec "Unknown" (pos 8) fixed none false)
    ∷ (0x0a99, spec "Unknown" (pos 4) fixed none false)
    ∷ (0x0a9c, spec "Unknown" (pos 2) fixed none false)
    ∷ (0x0ace, spec "Unknown" (pos 4) fixed none false)
    ∷ (0x0a9e, spec "Unknown" (pos 2) fixed none false)
    ∷ (0x0a9f, spec "Unknown" (pos 2) fixed none false)
    ∷ (0x0aa1, spec "Unknown" (pos 4) fixed none false)
    ∷ (0x0aa3, spec "Unknown" (pos 9) fixed none false)
    ∷ (0x0aa4, spec "Unknown" (pos 2) fixed none false)
    ∷ (0x0aa6, spec "Unknown" (pos 36) fixed none false)
    ∷ (0x0aa7, spec "Unknown" (pos 6) fixed none false)
    ∷ (0x0aa9, spec "Unknown" (negsuc 0) indicated_in_packet none false)
    ∷ (0x0aaa, spec "Unknown" (negsuc 0) indicated_in_packet none false)
    ∷ (0x0aab, spec "Unknown" (negsuc 0) indicated_in_packet none false)
    ∷ (0x0aac, spec "Unknown" (pos 69) fixed none false)
    ∷ (0x0ab1, spec "Unknown" (pos 14) fixed none false)
    ∷ (0x0aad, spec "Unknown" (pos 51) fixed none false)
    ∷ (0x0aae, spec "Unknown" (pos 2) fixed none false)
    ∷ (0x0aaf, spec "Unknown" (pos 6) fixed none false)
    ∷ (0x0ab0, spec "Unknown" (pos 6) fixed none false)
    ∷ (0x0aba, spec "Unknown" (pos 2) fixed none false)
    ∷ (0x0abb, spec "Unknown" (pos 2) fixed none false)
    ∷ (0x0ab3, spec "Unknown" (pos 19) fixed none false)
    ∷ (0x0ab4, spec "Unknown" (pos 6) fixed none false)
    ∷ (0x0ab5, spec "Unknown" (pos 2) fixed none false)
    ∷ (0x0ab6, spec "Unknown" (pos 8) fixed none false)
    ∷ (0x0ab7, spec "Unknown" (pos 4) fixed none false)
    ∷ (0x0abc, spec "Unknown" (negsuc 0) indicated_in_packet none false)
    ∷ (0x0abf, spec "Unknown" (negsuc 0) indicated_in_packet none false)
    ∷ (0x0ac0, spec "Unknown" (pos 26) fixed none false)
    ∷ (0x0ac1, spec "Unknown" (pos 26) fixed none false)
    ∷ (0x0ac3, spec "Unknown" (pos 2) fixed none false)
    ∷ (0x0ac6, spec "Unknown" (pos 156) fixed none false)
    ∷ (0x0ac8, spec "Unknown" (pos 2) fixed none false)
    ∷ (0x0acf, spec "Unknown" (pos 68) fixed none false)
    ∷ (0x0ad0, spec "Unknown" (pos 11) fixed none false)
    ∷ (0x0ad1, spec "Unknown" (negsuc 0) indicated_in_packet none false)
    ∷ []
