-- ===== src/Packets/Context/Connections.antt =====
-- internal/packets/context.go: the map of a connection.
use ro_proxy.Prelude.{ℕ, suc, ◌-◌, ◌≤◌, ◌≡◌, ◌≢◌, refl, true, false, [], ◌∷◌, some, none}
use ro_proxy.Prelude.{◌==◌, if◌then◌else◌, arith}
use ro_proxy.Prelude.Int.{ℤ}
use ro_proxy.Common.Base.{Bytes}
use ro_proxy.Packets.Context.{
  PendingMapChange, Pending, set_connection_map_char, get_connection_map, set_pending_map_change,
  set_pending_map_by_destination, set_pending_map_by_char_id, has_connection, clear_connection_map,
}

-- After `SetConnectionMapChar` the connection is on the map, and every other is where it was.
pub get-set_connection_map_char :
    (char conn other : ℕ) (name : Bytes) (now : ℤ) (ps : Pending)
    → get_connection_map other (set_connection_map_char char conn name now ps)
      ≡ (if conn == other then some name else get_connection_map other ps)
unfolding get_connection_map set_connection_map_char
get-set_connection_map_char char conn other name now [] = refl
get-set_connection_map_char char conn other name now (p ∷ ps) =
    ground (arith, get-set_connection_map_char char conn other name now ps)

-- The pending changes belong to connection 0, which no client has.
pub get-set_pending_map_change :
    (source name : Bytes) (x y conn : ℕ) (now : ℤ) (ps : Pending)
    → conn ≢ 0
    → get_connection_map conn (set_pending_map_change source name x y now ps)
      ≡ get_connection_map conn ps
unfolding get_connection_map set_pending_map_change
get-set_pending_map_change source name x y conn now [] h = ground arith
get-set_pending_map_change source name x y conn now (p ∷ ps) h =
    ground (arith, get-set_pending_map_change source name x y conn now ps h)

pub get-set_pending_map_by_destination :
    (dest name : Bytes) (port : ℤ) (conn : ℕ) (now : ℤ) (ps : Pending)
    → conn ≢ 0
    → get_connection_map conn (set_pending_map_by_destination dest port name now ps)
      ≡ get_connection_map conn ps
unfolding get_connection_map set_pending_map_by_destination
get-set_pending_map_by_destination dest name port conn now [] h = ground arith
get-set_pending_map_by_destination dest name port conn now (p ∷ ps) h =
    ground (arith, get-set_pending_map_by_destination dest name port conn now ps h)

-- The number of entries of a connection.
unfoldable pub entries : ℕ → Pending → ℕ
entries conn [] = 0
entries conn (p ∷ ps) = if p.conn_id == conn then suc (entries conn ps) else entries conn ps

has_connection-entries :
    (conn : ℕ) (ps : Pending) → has_connection conn ps ≡ false → entries conn ps ≡ 0
unfolding has_connection entries
has_connection-entries conn [] h = refl
has_connection-entries conn (p ∷ ps) h = ground (arith, has_connection-entries conn ps)

entries-has_connection :
    (conn : ℕ) (ps : Pending) → has_connection conn ps ≡ true → 1 ≤ entries conn ps
unfolding has_connection entries
entries-has_connection conn [] h = cc
entries-has_connection conn (p ∷ ps) h = ground (arith, entries-has_connection conn ps)

get_connection_map-none :
    (conn : ℕ) (ps : Pending) → entries conn ps ≡ 0 → get_connection_map conn ps ≡ none
unfolding get_connection_map entries
get_connection_map-none conn [] h = refl
get_connection_map-none conn (p ∷ ps) h = ground (arith, get_connection_map-none conn ps)

-- `ClearConnectionMap` deletes one entry of the connection, if it has any.
entries-clear_connection_map :
    (conn : ℕ) (ps : Pending) → entries conn (clear_connection_map conn ps) ≡ entries conn ps - 1
unfolding entries clear_connection_map
entries-clear_connection_map conn [] = refl
entries-clear_connection_map conn (p ∷ ps) = ground (
  arith,
  entries-clear_connection_map conn ps,
  has_connection-entries conn ps,
  entries-has_connection conn ps,
)

-- `ClearConnectionMap` leaves every other connection on its map.
get-clear_other :
    (conn other : ℕ) (ps : Pending)
    → conn ≢ other
    → get_connection_map other (clear_connection_map conn ps) ≡ get_connection_map other ps
unfolding get_connection_map clear_connection_map
get-clear_other conn other [] h = refl
get-clear_other conn other (p ∷ ps) h = ground (arith, get-clear_other conn other ps h)

-- `ClearConnectionMap` forgets the map of a connection with at most one entry, and leaves every other
-- connection on its map.
pub get-clear_connection_map :
    (conn other : ℕ) (ps : Pending)
    → entries conn ps ≤ 1
    → get_connection_map other (clear_connection_map conn ps)
      ≡ (if conn == other then none else get_connection_map other ps)
get-clear_connection_map conn other ps h = ground (
  arith,
  get-clear_other conn other ps,
  get_connection_map-none conn (clear_connection_map conn ps),
  entries-clear_connection_map conn ps,
)

-- `SetConnectionMapChar` gives a connection an entry exactly where it has none, and no other
-- connection any.
entries-set_connection_map_char :
    (char conn other : ℕ) (name : Bytes) (now : ℤ) (ps : Pending)
    → entries other (set_connection_map_char char conn name now ps) ≡ (
        if conn == other
        then if entries other ps == 0 then 1 else entries other ps
        else entries other ps)
unfolding entries set_connection_map_char
entries-set_connection_map_char char conn other name now [] = ground arith
entries-set_connection_map_char char conn other name now (p ∷ ps) =
    ground (arith, entries-set_connection_map_char char conn other name now ps)

-- `SetPendingMapByCharId` can give a connection that has an entry a second one.
pub entries-set_pending_map_by_char_id :
    (char conn : ℕ) (ps : Pending) (p q : PendingMapChange)
    → p.char_id ≡ char
    → q.conn_id ≡ conn
    → 2 ≤ entries conn (set_pending_map_by_char_id char conn (p ∷ q ∷ ps))
unfolding entries set_pending_map_by_char_id
entries-set_pending_map_by_char_id char conn ps p q hp hq = ground arith
