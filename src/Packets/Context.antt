-- ===== src/Packets/Context.antt =====
-- internal/packets/context.go: the table of map changes that wait to be matched, `pendingMap`. Every
-- function holds `pendingMapMutex` throughout, so a call is one step on the table.
pub mod Connections
pub mod Destinations
use ro_proxy.Prelude.{
  ℕ, suc, ◌+◌, ◌↔◌, ◌≡◌, refl, Bool, true, false, ◌&&◌, List, [], ◌∷◌, ◌++◌, Option, some, none,
  map,
}
use ro_proxy.Prelude.{◌==◌, ==_iff, if◌then◌else◌, arith}
use ro_proxy.Prelude.Int.{ℤ, pos, negsuc}
use ro_proxy.Common.Base.{Bytes}

pub record PendingMapChange : Type 0 where
  pub char_id : ℕ
  pub conn_id : ℕ
  pub map_name : Bytes
  pub x : ℕ
  pub y : ℕ
  pub source_ip : Bytes
  pub dest_ip : Bytes
  pub dest_port : ℤ
  pub timestamp : ℤ

abbrev pub Pending : Type 0
Pending = List PendingMapChange

-- The zero value of the structure.
abbrev pub no_change : PendingMapChange
no_change = record {
  char_id = 0;
  conn_id = 0;
  map_name = [];
  x = 0;
  y = 0;
  source_ip = [];
  dest_ip = [];
  dest_port = pos 0;
  timestamp = pos 0;
}

-- Comparison of texts and of `int`s.
unfoldable pub text_eq : Bytes → Bytes → Bool
text_eq [] [] = true
text_eq [] (b ∷ bs) = false
text_eq (a ∷ as') [] = false
text_eq (a ∷ as') (b ∷ bs) = a == b && text_eq as' bs

unfoldable pub int_eq : ℤ → ℤ → Bool
int_eq (pos a) (pos b) = a == b
int_eq (pos a) (negsuc b) = false
int_eq (negsuc a) (pos b) = false
int_eq (negsuc a) (negsuc b) = a == b

-- The call appends an entry unless its loop found one; `now` is `time.Now()`.
unfoldable pub set_connection_map_char : ℕ → ℕ → Bytes → ℤ → Pending → Pending
set_connection_map_char char conn name now [] =
    record no_change { char_id = char; conn_id = conn; map_name = name; timestamp = now } ∷ []
set_connection_map_char char conn name now (p ∷ ps) =
    let rest = set_connection_map_char char conn name now ps in
    if p.conn_id == conn then record p { char_id = char; map_name = name } ∷ ps else p ∷ rest

unfoldable pub set_connection_map : ℕ → Bytes → ℤ → Pending → Pending
unfolding set_connection_map_char
set_connection_map conn name now ps = set_connection_map_char 0 conn name now ps

unfoldable pub get_connection_map : ℕ → Pending → Option Bytes
get_connection_map conn [] = none
get_connection_map conn (p ∷ ps) =
    let rest = get_connection_map conn ps in if p.conn_id == conn then some p.map_name else rest

unfoldable pub set_pending_map_change : Bytes → Bytes → ℕ → ℕ → ℤ → Pending → Pending
unfolding text_eq
set_pending_map_change source name x y now [] =
    record no_change { source_ip = source; map_name = name; x = x; y = y; timestamp = now } ∷ []
set_pending_map_change source name x y now (p ∷ ps) =
    let rest = set_pending_map_change source name x y now ps in
    if text_eq p.source_ip source && (text_eq p.map_name name && (p.x == x && p.y == y))
    then p ∷ ps
    else p ∷ rest

unfoldable pub get_pending_map_change : Bytes → ℕ → ℕ → Pending → Option Bytes
unfolding text_eq
get_pending_map_change source x y [] = none
get_pending_map_change source x y (p ∷ ps) =
    let rest = get_pending_map_change source x y ps in
    if text_eq p.source_ip source && (p.x == x && p.y == y) then some p.map_name else rest

unfoldable pub set_pending_map_by_destination : Bytes → ℤ → Bytes → ℤ → Pending → Pending
set_pending_map_by_destination dest port name now [] =
    record no_change { dest_ip = dest; dest_port = port; map_name = name; timestamp = now } ∷ []
set_pending_map_by_destination dest port name now (p ∷ ps) =
    let rest = set_pending_map_by_destination dest port name now ps in
    if text_eq p.dest_ip dest && (int_eq p.dest_port port && text_eq p.map_name name)
    then p ∷ ps
    else p ∷ rest

unfoldable pub get_pending_map_by_destination : Bytes → ℤ → Pending → Option Bytes
get_pending_map_by_destination dest port [] = none
get_pending_map_by_destination dest port (p ∷ ps) =
    let rest = get_pending_map_by_destination dest port ps in
    if text_eq p.dest_ip dest && int_eq p.dest_port port then some p.map_name else rest

unfoldable pub set_pending_map_by_char_id : ℕ → ℕ → Pending → Pending
set_pending_map_by_char_id char conn [] = []
set_pending_map_by_char_id char conn (p ∷ ps) =
    (if p.char_id == char then record p { conn_id = conn } else p)
    ∷ set_pending_map_by_char_id char conn ps

-- Whether some entry is of the connection.
unfoldable pub has_connection : ℕ → Pending → Bool
has_connection conn [] = false
has_connection conn (p ∷ ps) =
    let rest = has_connection conn ps in if p.conn_id == conn then true else rest

-- The loop keeps the index of the last entry of the connection, and that entry is deleted.
unfoldable pub clear_connection_map : ℕ → Pending → Pending
clear_connection_map conn [] = []
clear_connection_map conn (p ∷ ps) =
    let rest = clear_connection_map conn ps in
    if p.conn_id == conn then if has_connection conn ps then p ∷ rest else ps else p ∷ rest
