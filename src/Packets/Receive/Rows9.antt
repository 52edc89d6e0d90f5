-- ===== src/Packets/Receive/Rows9.antt =====
-- internal/packets/receive/receive_packets.go, lines 1169 to 1313: the entries of `PacketDatabase`, in the order of the source.
use ro_proxy.Prelude.{false, none, List, [], ◌∷◌}
use ro_proxy.Prelude.Int.{negsuc, pos}
use ro_proxy.Common.Base.{PacketSpec, spec, fixed, indicated_in_packet}
use Prim.Native.Nat.{ℕ}

unfoldable pub receive_rows9 : List (ℕ × PacketSpec)
receive_rows9 =
    (0x080c, spec "Unknown" (pos 2) fixed none false)
    ∷ (0x080d, spec "Unknown" (pos 3) fixed none false)
    ∷ (0x081f, spec "Unknown" (negsuc 0) indicated_in_packet none false)
    ∷ (0x0820, spec "Unknown" (pos 11) fixed none false)
    ∷ (0x0821, spec "Unknown" (pos 2) fixed none false)
    ∷ (0x0822, spec "Unknown" (pos 9) fixed none false)
    ∷ (0x0823, spec "Unknown" (negsuc 0) indicated_in_packet none false)
    ∷ (0x0825, spec "Unknown" (negsuc 0) indicated_in_packet none false)
    ∷ (0x0826, spec "Unknown" (pos 4) fixed none false)
    ∷ (0x083b, spec "Unknown" (pos 2) fixed none false)
    ∷ (0x0840, spec "Unknown" (negsuc 0) indicated_in_packet none false)
    ∷ (0x0841, spec "Unknown" (pos 4) fixed none false)
    ∷ (0x0827, spec "Unknown" (pos 6) fixed none false)
    ∷ (0x0829, spec "Unknown" (pos 12) fixed none false)
    ∷ (0x082b, spec "Unknown" (pos 6) fixed none false)
    ∷ (0x0842, spec "Unknown" (pos 6) fixed none false)
    ∷ (0x0843, spec "Unknown" (pos 6) fixed none false)
    ∷ (0x0844, spec "Unknown" (pos 2) fixed none false)
    ∷ (0x0846, spec "Unknown" (pos 4) fixed none false)
    ∷ (0x0847, spec "Unknown" (negsuc 0) indicated_in_packet none false)
    ∷ (0x0848, spec "Unknown" (negsuc 0) indicated_in_packet none false)
    ∷ (0x084a, spec "Unknown" (pos 2) fixed none false)
    ∷ (0x084c, spec "Unknown" (pos 10) fixed none false)
    ∷ (0x084d, spec "Unknown" (pos 10) fixed none false)
    ∷ (0x084e, spec "Unknown" (pos 5) fixed none false)
    ∷ (0x084f, spec "Unknown" (pos 6) fixed none false)
    ∷ (0x0850, spec "Unknown" (pos 7) fixed none false)
    ∷ (0x0855, spec "Unknown" (pos 6) fixed none false)
    ∷ (0x0851, spec "Unknown" (negsuc 0) indicated_in_packet none false)
    ∷ (0x0852, spec "Unknown" (pos 2) fixed none false)
    ∷ (0x0853, spec "Unknown" (negsuc 0) indicated_in_packet none false)
    ∷ (0x0854, spec "Unknown" (negsuc 0) indicated_in_packet none false)
    ∷ (0x08b1, spec "Unknown" (negsuc 0) indicated_in_packet none false)
    ∷ (0x08b2, spec "Unknown" (negsuc 0) indicated_in_packet none false)
    ∷ (0x08af, spec "Unknown" (pos 10) fixed none false)
    ∷ (0x08b0, spec "Unknown" (pos 17) fixed none false)
    ∷ (0x08b5, spec "Unknown" (pos 6) fixed none false)
    ∷ (0x02f3, spec "Unknown" (negsuc 0) indicated_in_packet none false)
    ∷ (0x02f4, spec "Unknown" (pos 3) fixed none false)
    ∷ (0x02f5, spec "Unknown" (pos 7) fixed none false)
    ∷ (0x02f6, spec "Unknown" (pos 7) fixed none false)
    ∷ (0x08b8, spec "Unknown" (pos 10) fixed none false)
    ∷ (0x08ba, spec "Unknown" (pos 10) fixed none false)
    ∷ (0x08bc, spec "Unknown" (pos 10) fixed none false)
    ∷ (0x08bd, spec "Unknown" (pos 8) fixed none false)
    ∷ (0x08be, spec "Unknown" (pos 14) fixed none false)
    ∷ (0x08bf, spec "Unknown" (pos 8) fixed none false)
    ∷ (0x08c3, spec "Unknown" (pos 10) fixed none false)
    ∷ (0x08c4, spec "Unknown" (pos 8) fixed none false)
    ∷ (0x08c5, spec "Unknown" (pos 6) fixed none false)
    ∷ (0x08c6, spec "Unknown" (pos 4) fixed none false)
    ∷ (0x08c0, spec "Unknown" (negsuc 0) indicated_in_packet none false)
    ∷ (0x08c1, spec "Unknown" (pos 2) fixed none false)
    ∷ (0x08c2, spec "Unknown" (pos 2) fixed none false)
    ∷ (0x08c9, spec "Unknown" (pos 2) fixed none false)
    ∷ (0x08cc, spec "Unknown" (pos 109) fixed none false)
    ∷ (0x08ce, spec "Unknown" (pos 2) fixed none false)
    ∷ (0x08d0, spec "Unknown" (pos 9) fixed none false)
    ∷ (0x08d1, spec "Unknown" (pos 7) fixed none false)
    ∷ (0x08d3, spec "Unknown" (pos 10) fixed none false)
    ∷ (0x08d4, spec "Unknown" (pos 8) fixed none false)
    ∷ (0x08d5, spec "Unknown" (negsuc 0) indicated_in_packet none false)
    ∷ (0x08d6, spec "Unknown" (pos 6) fixed none false)
    ∷ (0x08d7, spec "Unknown" (pos 28) fixed none false)
    ∷ (0x08d8, spec "Unknown" (pos 27) fixed none false)
    ∷ (0x08d9, spec "Unknown" (pos 30) fixed none false)
    ∷ (0x08da, spec "Unknown" (pos 26) fixed none false)
    ∷ (0x08db, spec "Unknown" (pos 27) fixed none false)
    ∷ (0x08dc, spec "Unknown" (pos 26) fixed none false)
    ∷ (0x08dd, spec "Unknown" (pos 27) fixed none false)
    ∷ (0x08de, spec "Unknown" (pos 27) fixed none false)
    ∷ (0x08df, spec "Unknown" (pos 50) fixed none false)
    ∷ (0x08e0, spec "Unknown" (pos 51) fixed none false)
    ∷ (0x08e1, spec "Unknown" (pos 51) fixed none false)
    ∷ (0x08e3, spec "Unknown" (pos 157) fixed none false)
    ∷ (0x08e4, spec "Unknown" (pos 6) fixed none false)
    ∷ (0x08fc, spec "Unknown" (pos 30) fixed none false)
    ∷ (0x08fd, spec "Unknown" (pos 6) fixed none false)
    ∷ (0x0904, spec "Unknown" (negsuc 0) indicated_in_packet none false)
    ∷ (0x0905, spec "Unknown" (negsuc 0) indicated_in_packet none false)
    ∷ (0x0907, spec "Unknown" (pos 5) fixed none false)
    ∷ (0x090a, spec "Unknown" (pos 26) fixed none false)
    ∷ (0x090d, spec "Unknown" (negsuc 0) indicated_in_packet none false)
    ∷ (0x090e, spec "Unknown" (pos 2) fixed none false)
    ∷ (0x0910, spec "Unknown" (pos 10) fixed none false)
    ∷ (0x0911, spec "Unknown" (pos 30) fixed none false)
    ∷ (0x0912, spec "Unknown" (pos 10) fixed none false)
    ∷ (0x0913, spec "Unknown" (pos 30) fixed none false)
    ∷ (0x0916, spec "Unknown" (pos 26) fixed none false)
    ∷ (0x096b, spec "Unknown" (pos 4) fixed none false)
    ∷ (0x096c, spec "Unknown" (pos 6) fixed none false)
    ∷ (0x096e, spec "Unknown" (negsuc 0) indicated_in_packet none false)
    ∷ (0x0971, spec "Unknown" (pos 6) fixed none false)
    ∷ (0x0972, spec "Unknown" (negsuc 0) indicated_in_packet none false)
    ∷ (0x0973, spec "Unknown" (pos 7) fixed none false)
    ∷ (0x0974, spec "Unknown" (pos 2) fixed none false)
    ∷ (0x0978, spec "Unknown" (pos 6) fixed none false)
    ∷ (0x0979, spec "Unknown" (pos 50) fixed none false)
    ∷ (0x097c, spec "Unknown" (pos 4) fixed none false)
    ∷ (0x097f, spec "Unknown" (negsuc 0) indicated_in_packet none false)
    ∷ (0x0980, spec "Unknown" (pos 7) fixed none false)
    ∷ (0x0981, spec "Unknown" (negsuc 0) indicated_in_packet none false)
    ∷ (0x0982, spec "Unknown" (pos 7) fixed none false)
    ∷ (0x0986, spec "Unknown" (pos 10) fixed none false)
    ∷ (0x0987, spec "Unknown" (negsuc 0) indicated_in_packet none false)
    ∷ (0x0989, spec "Unknown" (pos 2) fixed none false)
    ∷ (0x098b, spec "Unknown" (pos 2) fixed none false)
    ∷ (0x098c, spec "Unknown" (pos 4) fixed none false)
    ∷ (0x098f, spec "Unknown" (negsuc 0) indicated_in_packet none false)
    ∷ (0x0998, spec "Unknown" (pos 8) fixed none false)
    ∷ (0x099c, spec "Unknown" (pos 6) fixed none false)
    ∷ (0x099e, spec "Unknown" (pos 12) fixed none false)
    ∷ (0x09a1, spec "Unknown" (pos 2) fixed none false)
    ∷ (0x09a2, spec "Unknown" (pos 6) fixed none false)
    ∷ (0x09a3, spec "Unknown" (negsuc 0) indicated_in_packet none false)
    ∷ (0x09a4, spec "Unknown" (pos 18) fixed none false)
    ∷ (0x09a5, spec "Unknown" (pos 7) fixed none false)
    ∷ (0x09ab, spec "Unknown" (pos 6) fixed none false)
    ∷ (0x09a7, spec "Unknown" (pos 10) fixed none false)
    ∷ (0x09a9, spec "Unknown" (pos 10) fixed none false)
    ∷ (0x09ac, spec "Unknown" (negsuc 0) indicated_in_packet none false)
    ∷ (0x09ad, spec "Unknown" (pos 12) fixed none false)
    ∷ (0x09ae, spec "Unknown" (pos 19) fixed none false)
    ∷ (0x09af, spec "Unknown" (pos 4) fixed none false)
    ∷ (0x09b0, spec "Unknown" (pos 10) fixed none false)
    ∷ (0x09b1, spec "Unknown" (pos 4) fixed none false)
    ∷ (0x09b2, spec "Unknown" (pos 10) fixed none false)
    ∷ (0x09b3, spec "Unknown" (pos 6) fixed none false)
    ∷ (0x09b4, spec "Unknown" (pos 6) fixed none false)
    ∷ (0x09b5, spec "Unknown" (pos 2) fixed none false)
    ∷ (0x09b6, spec "Unknown" (pos 6) fixed none false)
    ∷ (0x09b7, spec "Unknown" (pos 4) fixed none false)
    ∷ (0x09b8, spec "Unknown" (pos 6) fixed none false)
    ∷ (0x09b9, spec "Unknown" (pos 4) fixed none false)
    ∷ (0x09ba, spec "Unknown" (pos 2) fixed none false)
    ∷ (0x09bc, spec "Unknown" (pos 6) fixed none false)
    ∷ (0x09bd, spec "Unknown" (pos 2) fixed none false)
    ∷ (0x09be, spec "Unknown" (pos 2) fixed none false)
    ∷ (0x09c1, spec "Unknown" (pos 10) fixed none false)
    ∷ (0x09c2, spec "Unknown" (negsuc 0) indicated_in_packet none false)
    ∷ (0x09c3, spec "Unknown" (pos 10) fixed none false)
    ∷ (0x09c4, spec "Unknown" (pos 10) fixed none false)
    ∷ (0x09c5, spec "Unknown" (pos 1042) fixed none false)
    ∷ (0x09c6, spec "Unknown" (negsuc 0) indicated_in_packet none false)
    ∷ (0x09c7, spec "Unknown" (pos 18) fixed none false)
    ∷ []
