-- ===== src/Packets/Sizes.antt =====
-- The size columns of the two packet databases.
use ro_proxy.Prelude.{
  ℕ, ◌≤◌, ◌≡◌, ◌≢◌, refl, Bool, true, false, ◌||◌, some, leb, ◌==◌, ==_iff, arith,
}
use ro_proxy.Prelude.Int.{ℤ, pos, negsuc}
use ro_proxy.Common.Base.{
  PacketSpec, PacketSizeType, fixed, fixed_min, indicated_in_packet, unknown, http,
}
use ro_proxy.Packets.Database.{all_rows, find_row_all}
use ro_proxy.Packets.Receive
use ro_proxy.Packets.Send

-- The size that the parser can work with under a size type: at least the opcode where it is fixed,
-- and -1 where the packet says it.
abbrev pub IsSound : PacketSizeType → ℤ → Type 0
IsSound fixed (pos n) = 2 ≤ n
IsSound fixed (negsuc n) = ⊥
IsSound fixed_min (pos n) = 2 ≤ n
IsSound fixed_min (negsuc n) = ⊥
IsSound indicated_in_packet z = z ≡ negsuc 0
IsSound http z = z ≡ negsuc 0
IsSound unknown z = z ≡ negsuc 0

abbrev is_sound : PacketSizeType → ℤ → Bool
is_sound fixed (pos n) = leb 2 n
is_sound fixed (negsuc n) = false
is_sound fixed_min (pos n) = leb 2 n
is_sound fixed_min (negsuc n) = false
is_sound _ (pos n) = false
is_sound _ (negsuc n) = n == 0

is_sound-IsSound : (t : PacketSizeType) (z : ℤ) → is_sound t z ≡ true → IsSound t z
is_sound-IsSound fixed (pos n) h = ground arith
is_sound-IsSound fixed (negsuc n) h = cc
is_sound-IsSound fixed_min (pos n) h = ground arith
is_sound-IsSound fixed_min (negsuc n) h = cc
is_sound-IsSound indicated_in_packet (pos n) h = cc
is_sound-IsSound indicated_in_packet (negsuc n) h = ground arith
is_sound-IsSound http (pos n) h = cc
is_sound-IsSound http (negsuc n) h = ground arith
is_sound-IsSound unknown (pos n) h = cc
is_sound-IsSound unknown (negsuc n) h = ground arith

send_checked : all_rows (λ k s. is_sound s.type s.size) Send.rows ≡ true
unfolding all_rows Send.rows
send_checked = refl

receive_checked : all_rows (λ k s. k == 0x0177 || is_sound s.type s.size) Receive.rows ≡ true
unfolding all_rows Receive.rows
receive_checked = refl

-- Every specification of the client's packets has a size that the parser can work with.
pub send_sizes :
    (opcode : ℕ) (s : PacketSpec) → Send.packet_database opcode ≡ some s → IsSound s.type s.size
unfolding Send.packet_database
send_sizes opcode s e =
    is_sound-IsSound s.type s.size
      (find_row_all (λ k s. is_sound s.type s.size) Send.rows opcode s send_checked e)

other_row_sound :
    (opcode : ℕ) (b : Bool) → (opcode == 0x0177 || b) ≡ true → opcode ≢ 0x0177 → b ≡ true
other_row_sound opcode b h ne = ground (arith, ==_iff opcode 0x0177)

-- Of the server's packets all but 0x0177 have a size that the parser can work with.
pub receive_sizes :
    (opcode : ℕ) (s : PacketSpec)
    → Receive.packet_database opcode ≡ some s
    → opcode ≢ 0x0177
    → IsSound s.type s.size
unfolding Receive.packet_database
receive_sizes opcode s e ne = is_sound-IsSound s.type s.size (other_row_sound opcode _ checked ne)
  where
    checked : (opcode == 0x0177 || is_sound s.type s.size) ≡ true
    checked =
        find_row_all (λ k s. k == 0x0177 || is_sound s.type s.size) Receive.rows opcode s
          receive_checked e

-- A fixed size that is not negative covers the opcode.
abbrev pub CoversOpcode : PacketSizeType → ℤ → Type 0
CoversOpcode fixed (pos n) = 2 ≤ n
CoversOpcode fixed_min (pos n) = 2 ≤ n
CoversOpcode _ _ = Unit

abbrev covers_opcode : PacketSizeType → ℤ → Bool
covers_opcode fixed (pos n) = leb 2 n
covers_opcode fixed_min (pos n) = leb 2 n
covers_opcode _ _ = true

covers_opcode-CoversOpcode :
    (t : PacketSizeType) (z : ℤ) → covers_opcode t z ≡ true → CoversOpcode t z
covers_opcode-CoversOpcode fixed (pos n) h = ground arith
covers_opcode-CoversOpcode fixed (negsuc n) h = tt
covers_opcode-CoversOpcode fixed_min (pos n) h = ground arith
covers_opcode-CoversOpcode fixed_min (negsuc n) h = tt
covers_opcode-CoversOpcode indicated_in_packet z h = tt
covers_opcode-CoversOpcode http z h = tt
covers_opcode-CoversOpcode unknown z h = tt

send_covered : all_rows (λ k s. covers_opcode s.type s.size) Send.rows ≡ true
unfolding all_rows Send.rows
send_covered = refl

receive_covered : all_rows (λ k s. covers_opcode s.type s.size) Receive.rows ≡ true
unfolding all_rows Receive.rows
receive_covered = refl

pub send_covers :
    (opcode : ℕ) (s : PacketSpec)
    → Send.packet_database opcode ≡ some s
    → CoversOpcode s.type s.size
unfolding Send.packet_database
send_covers opcode s e =
    covers_opcode-CoversOpcode s.type s.size
      (find_row_all (λ k s. covers_opcode s.type s.size) Send.rows opcode s send_covered e)

pub receive_covers :
    (opcode : ℕ) (s : PacketSpec)
    → Receive.packet_database opcode ≡ some s
    → CoversOpcode s.type s.size
unfolding Receive.packet_database
receive_covers opcode s e =
    covers_opcode-CoversOpcode s.type s.size
      (find_row_all (λ k s. covers_opcode s.type s.size) Receive.rows opcode s receive_covered e)
