-- ===== src/Packets/Receive/Rows6.antt =====
-- internal/packets/receive/receive_packets.go, lines 734 to 878: the entries of `PacketDatabase`, in the order of the source.
use ro_proxy.Prelude.{false, none, List, [], ◌∷◌}
use ro_proxy.Prelude.Int.{negsuc, pos}
use ro_proxy.Common.Base.{PacketSpec, spec, fixed, indicated_in_packet}
use Prim.Native.Nat.{ℕ}

unfoldable pub receive_rows6 : List (ℕ × PacketSpec)
receive_rows6 =
    (0x0882, spec "Unknown" (pos 2) fixed none false)
    ∷ (0x0883, spec "Unknown" (pos 2) fixed none false)
    ∷ (0x0917, spec "Unknown" (pos 2) fixed none false)
    ∷ (0x0918, spec "Unknown" (pos 2) fixed none false)
    ∷ (0x0919, spec "Unknown" (pos 2) fixed none false)
    ∷ (0x091a, spec "Unknown" (pos 2) fixed none false)
    ∷ (0x091b, spec "Unknown" (pos 2) fixed none false)
    ∷ (0x091c, spec "Unknown" (pos 2) fixed none false)
    ∷ (0x091d, spec "Unknown" (pos 2) fixed none false)
    ∷ (0x091e, spec "Unknown" (pos 2) fixed none false)
    ∷ (0x091f, spec "Unknown" (pos 2) fixed none false)
    ∷ (0x0920, spec "Unknown" (pos 2) fixed none false)
    ∷ (0x0921, spec "Unknown" (pos 2) fixed none false)
    ∷ (0x0922, spec "Unknown" (pos 2) fixed none false)
    ∷ (0x0923, spec "Unknown" (pos 2) fixed none false)
    ∷ (0x0924, spec "Unknown" (pos 2) fixed none false)
    ∷ (0x0925, spec "Unknown" (pos 2) fixed none false)
    ∷ (0x0926, spec "Unknown" (pos 2) fixed none false)
    ∷ (0x0927, spec "Unknown" (pos 2) fixed none false)
    ∷ (0x0928, spec "Unknown" (pos 2) fixed none false)
    ∷ (0x0929, spec "Unknown" (pos 2) fixed none false)
    ∷ (0x092a, spec "Unknown" (pos 2) fixed none false)
    ∷ (0x092b, spec "Unknown" (pos 2) fixed none false)
    ∷ (0x092c, spec "Unknown" (pos 2) fixed none false)
    ∷ (0x092d, spec "Unknown" (pos 2) fixed none false)
    ∷ (0x092e, spec "Unknown" (pos 2) fixed none false)
    ∷ (0x092f, spec "Unknown" (pos 2) fixed none false)
    ∷ (0x0930, spec "Unknown" (pos 2) fixed none false)
    ∷ (0x0931, spec "Unknown" (pos 2) fixed none false)
    ∷ (0x0932, spec "Unknown" (pos 2) fixed none false)
    ∷ (0x0933, spec "Unknown" (pos 2) fixed none false)
    ∷ (0x0934, spec "Unknown" (pos 2) fixed none false)
    ∷ (0x0935, spec "Unknown" (pos 2) fixed none false)
    ∷ (0x0936, spec "Unknown" (pos 2) fixed none false)
    ∷ (0x0937, spec "Unknown" (pos 2) fixed none false)
    ∷ (0x0938, spec "Unknown" (pos 2) fixed none false)
    ∷ (0x0939, spec "Unknown" (pos 2) fixed none false)
    ∷ (0x093a, spec "Unknown" (pos 2) fixed none false)
    ∷ (0x093b, spec "Unknown" (pos 2) fixed none false)
    ∷ (0x093c, spec "Unknown" (pos 2) fixed none false)
    ∷ (0x093d, spec "Unknown" (pos 2) fixed none false)
    ∷ (0x093e, spec "Unknown" (pos 2) fixed none false)
    ∷ (0x093f, spec "Unknown" (pos 2) fixed none false)
    ∷ (0x0940, spec "Unknown" (pos 2) fixed none false)
    ∷ (0x0884, spec "Unknown" (pos 2) fixed none false)
    ∷ (0x0885, spec "Unknown" (pos 2) fixed none false)
    ∷ (0x0886, spec "Unknown" (pos 2) fixed none false)
    ∷ (0x0887, spec "Unknown" (pos 2) fixed none false)
    ∷ (0x0888, spec "Unknown" (pos 2) fixed none false)
    ∷ (0x0889, spec "Unknown" (pos 2) fixed none false)
    ∷ (0x088a, spec "Unknown" (pos 2) fixed none false)
    ∷ (0x088b, spec "Unknown" (pos 2) fixed none false)
    ∷ (0x088c, spec "Unknown" (pos 2) fixed none false)
    ∷ (0x088d, spec "Unknown" (pos 2) fixed none false)
    ∷ (0x088e, spec "Unknown" (pos 2) fixed none false)
    ∷ (0x088f, spec "Unknown" (pos 2) fixed none false)
    ∷ (0x0890, spec "Unknown" (pos 2) fixed none false)
    ∷ (0x0891, spec "Unknown" (pos 2) fixed none false)
    ∷ (0x0892, spec "Unknown" (pos 2) fixed none false)
    ∷ (0x0893, spec "Unknown" (pos 2) fixed none false)
    ∷ (0x0894, spec "Unknown" (pos 2) fixed none false)
    ∷ (0x0895, spec "Unknown" (pos 2) fixed none false)
    ∷ (0x0896, spec "Unknown" (pos 2) fixed none false)
    ∷ (0x0897, spec "Unknown" (pos 2) fixed none false)
    ∷ (0x0898, spec "Unknown" (pos 2) fixed none false)
    ∷ (0x0899, spec "Unknown" (pos 2) fixed none false)
    ∷ (0x089a, spec "Unknown" (pos 2) fixed none false)
    ∷ (0x089b, spec "Unknown" (pos 2) fixed none false)
    ∷ (0x089c, spec "Unknown" (pos 2) fixed none false)
    ∷ (0x089d, spec "Unknown" (pos 2) fixed none false)
    ∷ (0x089e, spec "Unknown" (pos 2) fixed none false)
    ∷ (0x089f, spec "Unknown" (pos 2) fixed none false)
    ∷ (0x08a0, spec "Unknown" (pos 2) fixed none false)
    ∷ (0x08a1, spec "Unknown" (pos 2) fixed none false)
    ∷ (0x08a2, spec "Unknown" (pos 2) fixed none false)
    ∷ (0x08a3, spec "Unknown" (pos 2) fixed none false)
    ∷ (0x08a4, spec "Unknown" (pos 2) fixed none false)
    ∷ (0x08a5, spec "Unknown" (pos 2) fixed none false)
    ∷ (0x08a6, spec "Unknown" (pos 2) fixed none false)
    ∷ (0x08a7, spec "Unknown" (pos 2) fixed none false)
    ∷ (0x08a8, spec "Unknown" (pos 2) fixed none false)
    ∷ (0x08a9, spec "Unknown" (pos 2) fixed none false)
    ∷ (0x08aa, spec "Unknown" (pos 2) fixed none false)
    ∷ (0x08ab, spec "Unknown" (pos 2) fixed none false)
    ∷ (0x08ac, spec "Unknown" (pos 2) fixed none false)
    ∷ (0x08ad, spec "Unknown" (pos 2) fixed none false)
    ∷ (0x0941, spec "Unknown" (pos 2) fixed none false)
    ∷ (0x0942, spec "Unknown" (pos 2) fixed none false)
    ∷ (0x0943, spec "Unknown" (pos 2) fixed none false)
    ∷ (0x0944, spec "Unknown" (pos 2) fixed none false)
    ∷ (0x0945, spec "Unknown" (pos 2) fixed none false)
    ∷ (0x0946, spec "Unknown" (pos 2) fixed none false)
    ∷ (0x0947, spec "Unknown" (pos 2) fixed none false)
    ∷ (0x0948, spec "Unknown" (pos 2) fixed none false)
    ∷ (0x0949, spec "Unknown" (pos 2) fixed none false)
    ∷ (0x094a, spec "Unknown" (pos 2) fixed none false)
    ∷ (0x094b, spec "Unknown" (pos 2) fixed none false)
    ∷ (0x094c, spec "Unknown" (pos 2) fixed none false)
    ∷ (0x094d, spec "Unknown" (pos 2) fixed none false)
    ∷ (0x094e, spec "Unknown" (pos 2) fixed none false)
    ∷ (0x094f, spec "Unknown" (pos 2) fixed none false)
    ∷ (0x0950, spec "Unknown" (pos 2) fixed none false)
    ∷ (0x0951, spec "Unknown" (pos 2) fixed none false)
    ∷ (0x0952, spec "Unknown" (pos 2) fixed none false)
    ∷ (0x0953, spec "Unknown" (pos 2) fixed none false)
    ∷ (0x0954, spec "Unknown" (pos 2) fixed none false)
    ∷ (0x0955, spec "Unknown" (pos 2) fixed none false)
    ∷ (0x0956, spec "Unknown" (pos 2) fixed none false)
    ∷ (0x0957, spec "Unknown" (pos 2) fixed none false)
    ∷ (0x0958, spec "Unknown" (pos 2) fixed none false)
    ∷ (0x0959, spec "Unknown" (pos 2) fixed none false)
    ∷ (0x095a, spec "Unknown" (pos 2) fixed none false)
    ∷ (0x095b, spec "Unknown" (pos 2) fixed none false)
    ∷ (0x095c, spec "Unknown" (pos 2) fixed none false)
    ∷ (0x095d, spec "Unknown" (pos 2) fixed none false)
    ∷ (0x095e, spec "Unknown" (pos 2) fixed none false)
    ∷ (0x095f, spec "Unknown" (pos 2) fixed none false)
    ∷ (0x0960, spec "Unknown" (pos 2) fixed none false)
    ∷ (0x0961, spec "Unknown" (pos 2) fixed none false)
    ∷ (0x0962, spec "Unknown" (pos 2) fixed none false)
    ∷ (0x0963, spec "Unknown" (pos 2) fixed none false)
    ∷ (0x0964, spec "Unknown" (pos 2) fixed none false)
    ∷ (0x0965, spec "Unknown" (pos 2) fixed none false)
    ∷ (0x0966, spec "Unknown" (pos 2) fixed none false)
    ∷ (0x0967, spec "Unknown" (pos 2) fixed none false)
    ∷ (0x0968, spec "Unknown" (pos 2) fixed none false)
    ∷ (0x0969, spec "Unknown" (pos 2) fixed none false)
    ∷ (0x096a, spec "Unknown" (pos 2) fixed none false)
    ∷ (0x01c6, spec "Unknown" (pos 4) fixed none false)
    ∷ (0x01c7, spec "Unknown" (pos 2) fixed none false)
    ∷ (0x0064, spec "Unknown" (pos 55) fixed none false)
    ∷ (0x01db, spec "Unknown" (pos 2) fixed none false)
    ∷ (0x01dd, spec "Unknown" (pos 47) fixed none false)
    ∷ (0x01fa, spec "Unknown" (pos 48) fixed none false)
    ∷ (0x0204, spec "Unknown" (pos 18) fixed none false)
    ∷ (0x01f1, spec "Unknown" (negsuc 0) indicated_in_packet none false)
    ∷ (0x0200, spec "Unknown" (pos 26) fixed none false)
    ∷ (0x01be, spec "Unknown" (pos 2) fixed none false)
    ∷ (0x01bf, spec "Unknown" (pos 3) fixed none false)
    ∷ (0x0065, spec "Unknown" (pos 17) fixed none false)
    ∷ (0x0066, spec "Unknown" (pos 3) fixed none false)
    ∷ (0x0067, spec "Unknown" (pos 37) fixed none false)
    ∷ (0x0970, spec "Unknown" (pos 31) fixed none false)
    ∷ (0x0068, spec "Unknown" (pos 46) fixed none false)
    ∷ (0x01fb, spec "Unknown" (pos 56) fixed none false)
    ∷ []
