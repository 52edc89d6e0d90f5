-- ===== src/Tests/Maps.antt =====
-- Runs of internal/packets/context.go.
use ro_proxy.Prelude.{◌≡◌, refl, ◌≤◌, [], ◌∷◌, some, none, ◌==◌, if◌then◌else◌, arith}
use ro_proxy.Prelude.Int.{pos}
use ro_proxy.Common.Base.{Bytes}
use ro_proxy.Packets.Context.{
  PendingMapChange, Pending, no_change, set_connection_map_char, get_connection_map,
  clear_connection_map, set_pending_map_by_destination, get_pending_map_by_destination,
  set_pending_map_change, get_pending_map_change, set_pending_map_by_char_id,
}
use ro_proxy.Packets.Context.Connections.{
  entries, get-set_connection_map_char, get-clear_connection_map, get-set_pending_map_change,
  get-set_pending_map_by_destination, entries-set_pending_map_by_char_id,
}
use ro_proxy.Packets.Context.Destinations.{
  first_of_both, get-set_by_destination, get-set_by_coordinates,
}

abbrev prontera : Bytes
prontera = b'p' ∷ b'r' ∷ b't' ∷ []

abbrev geffen : Bytes
geffen = b'g' ∷ b'e' ∷ b'f' ∷ []

-- Character 40 of connection 3, and a change that waits for the server "a" at port 5121.
abbrev table : Pending
table =
    record no_change { char_id = 40; conn_id = 3; map_name = prontera }
    ∷ record no_change { dest_ip = b'a' ∷ []; dest_port = pos 5121; map_name = geffen }
    ∷ []

get-set_connection_map_char_example :
    get_connection_map 3 (set_connection_map_char 41 3 geffen (pos 9) table)
    ≡ (if 3 == 3 then some geffen else get_connection_map 3 table)
get-set_connection_map_char_example = get-set_connection_map_char 41 3 3 geffen (pos 9) table

entries-table : entries 3 table ≤ 1
unfolding entries
entries-table = omega arith

get-clear_connection_map_example :
    get_connection_map 3 (clear_connection_map 3 table)
    ≡ (if 3 == 3 then none else get_connection_map 3 table)
get-clear_connection_map_example = get-clear_connection_map 3 3 table entries-table

get-set_pending_map_change_example :
    get_connection_map 3 (set_pending_map_change (b'a' ∷ []) geffen 1 2 (pos 9) table)
    ≡ get_connection_map 3 table
get-set_pending_map_change_example =
    get-set_pending_map_change (b'a' ∷ []) geffen 1 2 3 (pos 9) table (omega arith)

get-set_pending_map_by_destination_example :
    get_connection_map 3
      (set_pending_map_by_destination (b'a' ∷ []) (pos 5121) prontera (pos 9) table)
    ≡ get_connection_map 3 table
get-set_pending_map_by_destination_example =
    get-set_pending_map_by_destination (b'a' ∷ []) prontera (pos 5121) 3 (pos 9) table (omega arith)

-- The older map of the destination stays in front of the newer one.
get-set_by_destination_example :
    get_pending_map_by_destination
      (b'a' ∷ [])
      (pos 5121)
      (set_pending_map_by_destination (b'a' ∷ []) (pos 5121) prontera (pos 9) table)
    ≡ first_of_both (get_pending_map_by_destination (b'a' ∷ []) (pos 5121) table) prontera
get-set_by_destination_example =
    get-set_by_destination (b'a' ∷ []) prontera (pos 5121) (pos 9) table

get-set_by_coordinates_example :
    get_pending_map_change
      (b'a' ∷ [])
      1
      2
      (set_pending_map_change (b'a' ∷ []) prontera 1 2 (pos 9) table)
    ≡ first_of_both (get_pending_map_change (b'a' ∷ []) 1 2 table) prontera
get-set_by_coordinates_example = get-set_by_coordinates (b'a' ∷ []) prontera 1 2 (pos 9) table

abbrev same_char : PendingMapChange
same_char = record no_change { char_id = 40; conn_id = 3 }

abbrev other_char : PendingMapChange
other_char = record no_change { char_id = 41; conn_id = 4 }

entries-set_pending_map_by_char_id_example :
    2 ≤ entries 4 (set_pending_map_by_char_id 40 4 (same_char ∷ other_char ∷ []))
entries-set_pending_map_by_char_id_example =
    entries-set_pending_map_by_char_id 40 4 [] same_char other_char refl refl
