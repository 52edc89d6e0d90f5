-- ===== src/Packets/Database.antt =====
-- What the two `PacketDatabase` maps have in common: a lookup by opcode, and a check of every entry.
use ro_proxy.Prelude.{ℕ, ◌≡◌, Bool, true, ◌&&◌, Option, none, some, List, [], ◌∷◌}
use ro_proxy.Prelude.{◌==◌, if◌then◌else◌, ==_iff, arith}
use ro_proxy.Common.Base.{PacketSpec}

abbrev pub Rows : Type 0
Rows = List (ℕ × PacketSpec)

-- `PacketDatabase[opcode]`. The keys of a Go map literal are distinct.
unfoldable pub find_row : ℕ → Rows → Option PacketSpec
find_row opcode [] = none
find_row opcode ((key, s) ∷ rows) =
    let rest = find_row opcode rows in if key == opcode then some s else rest

unfoldable pub all_rows : (ℕ → PacketSpec → Bool) → Rows → Bool
all_rows p [] = true
all_rows p ((key, s) ∷ rows) = p key s && all_rows p rows

-- What is checked of every row is true of every specification that a lookup finds.
pub find_row_all :
    (p : ℕ → PacketSpec → Bool) (rows : Rows) (opcode : ℕ) (s : PacketSpec)
    → all_rows p rows ≡ true
    → find_row opcode rows ≡ some s
    → p opcode s ≡ true
unfolding find_row all_rows
find_row_all p [] opcode s h e = cc
find_row_all p ((key, t) ∷ rows) opcode s h e =
    ground (arith, find_row_all p rows opcode s, ==_iff key opcode)
