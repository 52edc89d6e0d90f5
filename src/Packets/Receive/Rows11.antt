-- ===== src/Packets/Receive/Rows11.antt =====
-- internal/packets/receive/receive_packets.go, lines 1459 to 1596: the entries of `PacketDatabase`, in the order of the source.
use ro_proxy.Prelude.{false, none, List, [], ◌∷◌}
use ro_proxy.Prelude.Int.{negsuc, pos}
use ro_proxy.Common.Base.{PacketSpec, spec, fixed, indicated_in_packet}
use Prim.Native.Nat.{ℕ}

unfoldable pub receive_rows11 : List (ℕ × PacketSpec)
receive_rows11 =
    (0x0ad2, spec "Unknown" (pos 30) fixed none false)
    ∷ (0x0ad3, spec "Unknown" (negsuc 0) indicated_in_packet none false)
    ∷ (0x0ad4, spec "Unknown" (negsuc 0) indicated_in_packet none false)
    ∷ (0x0ad5, spec "Unknown" (pos 2) fixed none false)
    ∷ (0x0ad6, spec "Unknown" (pos 2) fixed none false)
    ∷ (0x0ad7, spec "Unknown" (pos 8) fixed none false)
    ∷ (0x0ad8, spec "Unknown" (pos 8) fixed none false)
    ∷ (0x0ad9, spec "Unknown" (negsuc 0) indicated_in_packet none false)
    ∷ (0x0adb, spec "Unknown" (negsuc 0) indicated_in_packet none false)
    ∷ (0x0ae1, spec "Unknown" (pos 28) fixed none false)
    ∷ (0x0ae6, spec "Unknown" (pos 10) fixed none false)
    ∷ (0x0ae7, spec "Unknown" (pos 38) fixed none false)
    ∷ (0x0ae8, spec "Unknown" (pos 2) fixed none false)
    ∷ (0x0aec, spec "Unknown" (pos 2) fixed none false)
    ∷ (0x0aed, spec "Unknown" (pos 2) fixed none false)
    ∷ (0x0aee, spec "Unknown" (pos 2) fixed none false)
    ∷ (0x0ae9, spec "Unknown" (pos 13) fixed none false)
    ∷ (0x0aef, spec "Unknown" (pos 2) fixed none false)
    ∷ (0x0af1, spec "Unknown" (pos 102) fixed none false)
    ∷ (0x0af2, spec "Unknown" (pos 40) fixed none false)
    ∷ (0x0af3, spec "Unknown" (negsuc 0) indicated_in_packet none false)
    ∷ (0x0af4, spec "Unknown" (pos 11) fixed none false)
    ∷ (0x0af5, spec "Unknown" (pos 3) fixed none false)
    ∷ (0x0af6, spec "Unknown" (pos 88) fixed none false)
    ∷ (0x0af8, spec "Unknown" (pos 11) fixed none false)
    ∷ (0x0af9, spec "Unknown" (pos 6) fixed none false)
    ∷ (0x0afa, spec "Unknown" (pos 58) fixed none false)
    ∷ (0x0b00, spec "Unknown" (pos 8) fixed none false)
    ∷ (0x0b01, spec "Unknown" (pos 56) fixed none false)
    ∷ (0x0b02, spec "Unknown" (pos 26) fixed none false)
    ∷ (0x0b04, spec "Unknown" (pos 90) fixed none false)
    ∷ (0x0b07, spec "Unknown" (negsuc 0) indicated_in_packet none false)
    ∷ (0x0b0d, spec "Unknown" (pos 10) fixed none false)
    ∷ (0x0b0e, spec "Unknown" (negsuc 0) indicated_in_packet none false)
    ∷ (0x0b0f, spec "Unknown" (negsuc 0) indicated_in_packet none false)
    ∷ (0x0b10, spec "Unknown" (pos 10) fixed none false)
    ∷ (0x0b11, spec "Unknown" (pos 4) fixed none false)
    ∷ (0x0b12, spec "Unknown" (pos 2) fixed none false)
    ∷ (0x0b14, spec "Unknown" (pos 2) fixed none false)
    ∷ (0x0b16, spec "Unknown" (pos 2) fixed none false)
    ∷ (0x0b19, spec "Unknown" (pos 2) fixed none false)
    ∷ (0x0b15, spec "Unknown" (pos 7) fixed none false)
    ∷ (0x0b17, spec "Unknown" (pos 3) fixed none false)
    ∷ (0x0b1c, spec "Unknown" (pos 2) fixed none false)
    ∷ (0x0b1e, spec "Unknown" (pos 14) fixed none false)
    ∷ (0x0b1f, spec "Unknown" (pos 14) fixed none false)
    ∷ (0x0b22, spec "Unknown" (pos 5) fixed none false)
    ∷ (0x0b21, spec "Unknown" (pos 13) fixed none false)
    ∷ (0x0b24, spec "Unknown" (pos 6) fixed none false)
    ∷ (0x0b25, spec "Unknown" (pos 6) fixed none false)
    ∷ (0x0b27, spec "Unknown" (negsuc 0) indicated_in_packet none false)
    ∷ (0x0b28, spec "Unknown" (pos 3) fixed none false)
    ∷ (0x0b2b, spec "Unknown" (pos 11) fixed none false)
    ∷ (0x0b2c, spec "Unknown" (pos 3) fixed none false)
    ∷ (0x0b2d, spec "Unknown" (pos 11) fixed none false)
    ∷ (0x0b2e, spec "Unknown" (pos 4) fixed none false)
    ∷ (0x0b30, spec "Unknown" (negsuc 0) indicated_in_packet none false)
    ∷ (0x0b34, spec "Unknown" (pos 50) fixed none false)
    ∷ (0x0b35, spec "Unknown" (pos 3) fixed none false)
    ∷ (0x0b36, spec "Unknown" (negsuc 0) indicated_in_packet none false)
    ∷ (0x0b37, spec "Unknown" (negsuc 0) indicated_in_packet none false)
    ∷ (0x0b3c, spec "Unknown" (pos 4) fixed none false)
    ∷ (0x0b3e, spec "Unknown" (negsuc 0) indicated_in_packet none false)
    ∷ (0x0b3f, spec "Unknown" (pos 64) fixed none false)
    ∷ (0x0b40, spec "Unknown" (negsuc 0) indicated_in_packet none false)
    ∷ (0x0b42, spec "Unknown" (pos 62) fixed none false)
    ∷ (0x0b43, spec "Unknown" (pos 48) fixed none false)
    ∷ (0x0b46, spec "Unknown" (pos 10) fixed none false)
    ∷ (0x0b48, spec "Unknown" (pos 18) fixed none false)
    ∷ (0x0b49, spec "Unknown" (pos 4) fixed none false)
    ∷ (0x0b4a, spec "Unknown" (pos 6) fixed none false)
    ∷ (0x0b4b, spec "Unknown" (pos 4) fixed none false)
    ∷ (0x0b4c, spec "Unknown" (pos 2) fixed none false)
    ∷ (0x0b4f, spec "Unknown" (pos 2) fixed none false)
    ∷ (0x0b50, spec "Unknown" (pos 2) fixed none false)
    ∷ (0x0b51, spec "Unknown" (pos 2) fixed none false)
    ∷ (0x0b52, spec "Unknown" (pos 2) fixed none false)
    ∷ (0x0b53, spec "Unknown" (pos 52) fixed none false)
    ∷ (0x0b54, spec "Unknown" (pos 8) fixed none false)
    ∷ (0x0b4e, spec "Unknown" (negsuc 0) indicated_in_packet none false)
    ∷ (0x0b55, spec "Unknown" (negsuc 0) indicated_in_packet none false)
    ∷ (0x0b56, spec "Unknown" (negsuc 0) indicated_in_packet none false)
    ∷ (0x0b57, spec "Unknown" (negsuc 0) indicated_in_packet none false)
    ∷ (0x0b58, spec "Unknown" (pos 2) fixed none false)
    ∷ (0x0b59, spec "Unknown" (pos 4) fixed none false)
    ∷ (0x0b5a, spec "Unknown" (negsuc 0) indicated_in_packet none false)
    ∷ (0x0b5b, spec "Unknown" (pos 14) fixed none false)
    ∷ (0x0b5c, spec "Unknown" (pos 2) fixed none false)
    ∷ (0x0b5d, spec "Unknown" (pos 10) fixed none false)
    ∷ (0x0b63, spec "Unknown" (negsuc 0) indicated_in_packet none false)
    ∷ (0x0b64, spec "Unknown" (negsuc 0) indicated_in_packet none false)
    ∷ (0x0b65, spec "Unknown" (negsuc 0) indicated_in_packet none false)
    ∷ (0x0b66, spec "Unknown" (pos 26) fixed none false)
    ∷ (0x0b67, spec "Unknown" (pos 33) fixed none false)
    ∷ (0x0b68, spec "Unknown" (pos 12) fixed none false)
    ∷ (0x0b69, spec "Unknown" (pos 18) fixed none false)
    ∷ (0x0b6b, spec "Unknown" (pos 14) fixed none false)
    ∷ (0x0b6c, spec "Unknown" (pos 12) fixed none false)
    ∷ (0x0b6d, spec "Unknown" (pos 6) fixed none false)
    ∷ (0x0b6e, spec "Unknown" (pos 14) fixed none false)
    ∷ (0x0b70, spec "Unknown" (negsuc 0) indicated_in_packet none false)
    ∷ (0x0b71, spec "Unknown" (pos 177) fixed none false)
    ∷ (0x0b74, spec "Unknown" (pos 1026) fixed none false)
    ∷ (0x0b75, spec "Unknown" (pos 1026) fixed none false)
    ∷ (0x0b78, spec "Unknown" (negsuc 0) indicated_in_packet none false)
    ∷ (0x0b79, spec "Unknown" (negsuc 0) indicated_in_packet none false)
    ∷ (0x0b7a, spec "Unknown" (negsuc 0) indicated_in_packet none false)
    ∷ (0x0b7f, spec "Unknown" (pos 10) fixed none false)
    ∷ (0x0b80, spec "Unknown" (pos 10) fixed none false)
    ∷ (0x0b8c, spec "Unknown" (negsuc 0) indicated_in_packet none false)
    ∷ (0x0b8e, spec "Unknown" (pos 18) fixed none false)
    ∷ (0x0b8f, spec "Unknown" (pos 6) fixed none false)
    ∷ (0x0b90, spec "Unknown" (pos 2) fixed none false)
    ∷ (0x0b91, spec "Unknown" (pos 8) fixed none false)
    ∷ (0x0b92, spec "Unknown" (pos 5) fixed none false)
    ∷ (0x0b93, spec "Unknown" (pos 12) fixed none false)
    ∷ (0x0b94, spec "Unknown" (pos 14) fixed none false)
    ∷ (0x0b95, spec "Unknown" (negsuc 0) indicated_in_packet none false)
    ∷ (0x0b96, spec "Unknown" (pos 26) fixed none false)
    ∷ (0x0b97, spec "Unknown" (pos 27) fixed none false)
    ∷ (0x0b98, spec "Unknown" (pos 6) fixed none false)
    ∷ (0x0b99, spec "Unknown" (pos 10) fixed none false)
    ∷ (0x0b9a, spec "Unknown" (pos 11) fixed none false)
    ∷ (0x0b9b, spec "Unknown" (pos 12) fixed none false)
    ∷ (0x0b9c, spec "Unknown" (pos 16) fixed none false)
    ∷ (0x0b9d, spec "Unknown" (pos 14) fixed none false)
    ∷ (0x0b9e, spec "Unknown" (pos 12) fixed none false)
    ∷ (0x0b9f, spec "Unknown" (pos 10) fixed none false)
    ∷ (0x0ba0, spec "Unknown" (pos 2) fixed none false)
    ∷ (0x0ba1, spec "Unknown" (pos 3) fixed none false)
    ∷ (0x0ba2, spec "Unknown" (pos 10) fixed none false)
    ∷ (0x0ba3, spec "Unknown" (pos 10) fixed none false)
    ∷ (0x0ba5, spec "Unknown" (pos 12) fixed none false)
    ∷ (0x0ba6, spec "Unknown" (negsuc 0) indicated_in_packet none false)
    ∷ (0x0ba7, spec "Unknown" (negsuc 0) indicated_in_packet none false)
    ∷ (0x0ba8, spec "Unknown" (pos 7) fixed none false)
    ∷ (0x0ba9, spec "Unknown" (negsuc 0) indicated_in_packet none false)
    ∷ (0x0049, spec "Unknown" (pos 204) fixed none false)
    ∷ []
