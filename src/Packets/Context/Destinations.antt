-- ===== src/Packets/Context/Destinations.antt =====
-- internal/packets/context.go: the changes that wait for a destination or for coordinates.
use ro_proxy.Prelude.{ℕ, ◌≡◌, refl, true, [], ◌∷◌, Option, some, none, ==_iff, arith}
use ro_proxy.Prelude.Int.{ℤ, pos, negsuc}
use ro_proxy.Common.Base.{Bytes}
use ro_proxy.Packets.Context.{
  Pending, text_eq, int_eq, set_pending_map_change, get_pending_map_change,
  set_pending_map_by_destination, get_pending_map_by_destination,
}

text_eq_refl : (t : Bytes) → text_eq t t ≡ true
unfolding text_eq
text_eq_refl [] = refl
text_eq_refl (b ∷ bs) = ground (arith, text_eq_refl bs)

text_eq_eq : (s t : Bytes) → text_eq s t ≡ true → s ≡ t
unfolding text_eq
text_eq_eq [] [] h = refl
text_eq_eq [] (b ∷ bs) h = cc
text_eq_eq (a ∷ as') [] h = cc
text_eq_eq (a ∷ as') (b ∷ bs) h = ground (arith, text_eq_eq as' bs, ==_iff a b)

int_eq_refl : (z : ℤ) → int_eq z z ≡ true
unfolding int_eq
int_eq_refl (pos n) = ground arith
int_eq_refl (negsuc n) = ground arith

-- What a lookup finds where an entry was added behind the others.
abbrev pub first_of_both : Option Bytes → Bytes → Option Bytes
first_of_both (some old) name = some old
first_of_both none name = some name

-- After `SetPendingMapByDestination` the destination has a map: the one that it had before, if any,
-- and else the new one.
pub get-set_by_destination :
    (dest name : Bytes) (port now : ℤ) (ps : Pending)
    → get_pending_map_by_destination dest port
        (set_pending_map_by_destination dest port name now ps)
      ≡ first_of_both (get_pending_map_by_destination dest port ps) name
unfolding get_pending_map_by_destination set_pending_map_by_destination
get-set_by_destination dest name port now [] = ground (arith, text_eq_refl dest, int_eq_refl port)
get-set_by_destination dest name port now (p ∷ ps) =
    ground (arith, get-set_by_destination dest name port now ps)

-- After `SetPendingMapChange` the coordinates of the source have a map: the one that they had before,
-- if any, and else the new one.
pub get-set_by_coordinates :
    (source name : Bytes) (x y : ℕ) (now : ℤ) (ps : Pending)
    → get_pending_map_change source x y (set_pending_map_change source name x y now ps)
      ≡ first_of_both (get_pending_map_change source x y ps) name
unfolding get_pending_map_change set_pending_map_change
get-set_by_coordinates source name x y now [] = ground (arith, text_eq_refl source)
get-set_by_coordinates source name x y now (p ∷ ps) =
    ground (arith, get-set_by_coordinates source name x y now ps)
