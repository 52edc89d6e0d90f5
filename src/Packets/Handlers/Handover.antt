-- ===== src/Packets/Handlers/Handover.antt =====
-- internal/packets/receive: how a connection to the next map server learns its map.
use ro_proxy.Prelude.{
  ℕ, ◌≤◌, ◌≡◌, ◌≢◌, ◌↔◌, refl, ap, ◌∙◌, List, [], ◌∷◌, Option, some, none, ok, panic, Bool, true,
  false, not,
}
use ro_proxy.Prelude.{length, ltb, ◌==◌, ==_iff, if◌then◌else◌, arith}
use ro_proxy.Prelude.Int.{ℤ}
use ro_proxy.Common.Base.{Bytes, read_uint16_le, read_null_terminated_string}
use ro_proxy.Analyzer.Worker.Addresses.{Pieces, split}
use ro_proxy.Packets.Parser.{ParsedPacket}
use ro_proxy.Packets.Context.{
  Pending, text_eq, set_connection_map, set_connection_map_char, get_connection_map,
  get_pending_map_change,
}
use ro_proxy.Packets.Context.Connections.{get-set_connection_map_char}
use ro_proxy.Packets.Context.Destinations.{first_of_both, get-set_by_coordinates}
use ro_proxy.Packets.Handlers.{
  map_changed, map_loaded, loaded_x, loaded_y, received_char_id_and_map, next_server,
}

pub text_eq_nil : (t : Bytes) → t ≢ [] → text_eq [] t ≡ false
unfolding text_eq
text_eq_nil [] h = absurd (h refl)
text_eq_nil (b ∷ bs) h = refl

-- The map of a connection is no change that waits for coordinates.
pending-set_connection_map_char :
    (char conn : ℕ) (name source : Bytes) (x y : ℕ) (now : ℤ) (ps : Pending)
    → source ≢ []
    → get_pending_map_change source x y ps ≡ none
    → get_pending_map_change source x y (set_connection_map_char char conn name now ps) ≡ none
unfolding get_pending_map_change set_connection_map_char
pending-set_connection_map_char char conn name source x y now [] named h =
    ground (arith, text_eq_nil source named)
pending-set_connection_map_char char conn name source x y now (p ∷ ps) named h =
    ground (arith, pending-set_connection_map_char char conn name source x y now ps named)

pub get-set_connection_map :
    (conn : ℕ) (name : Bytes) (now : ℤ) (ps : Pending)
    → get_connection_map conn (set_connection_map conn name now ps) ≡ some name
unfolding set_connection_map
get-set_connection_map conn name now ps =
    ground (arith, get-set_connection_map_char 0 conn conn name now ps, ==_iff conn conn)

-- What waits for the coordinates after a change of map.
waiting-map_changed :
    (a : ParsedPacket) (x y : ℕ) (now : ℤ) (ps : Pending)
    → a.source_ip ≢ []
    → read_uint16_le a.payload 16 ≡ x
    → read_uint16_le a.payload 18 ≡ y
    → get_pending_map_change a.source_ip x y ps ≡ none
    → get_pending_map_change a.source_ip x y (map_changed a now ps)
      ≡ some (read_null_terminated_string a.payload 0)
unfolding map_changed set_connection_map
waiting-map_changed a x y now ps named ex ey free =
    let name : Bytes = read_null_terminated_string a.payload 0 in
    rw (ex, ey)
      (get-set_by_coordinates a.source_ip name x y now
          (set_connection_map_char 0 a.connection_id name now ps)
        ∙ ap (λ o. first_of_both o name)
            (pending-set_connection_map_char 0 a.connection_id name a.source_ip x y now ps named
              free))

-- `MapChanged` from a server, at coordinates for which no change waits, and then `MapLoaded` from the
-- same server at these coordinates on any connection: that connection is on the map of the first
-- packet. The payload of `MapLoaded` has to have 7 bytes, and the server an address.
pub map_loaded-map_changed :
    (a b : ParsedPacket) (now later : ℤ) (ps : Pending)
    → a.source_ip ≢ []
    → b.source_ip ≡ a.source_ip
    → 7 ≤ length b.payload
    → read_uint16_le a.payload 16 ≡ loaded_x b.payload
    → read_uint16_le a.payload 18 ≡ loaded_y b.payload
    → get_pending_map_change a.source_ip (loaded_x b.payload) (loaded_y b.payload) ps ≡ none
    → (q : Pending) × (map_loaded b later (map_changed a now ps) ≡ ok q)
      × (get_connection_map b.connection_id q ≡ some (read_null_terminated_string a.payload 0))
unfolding map_loaded
map_loaded-map_changed a b now later ps named same long ex ey free =
    let waits =
      waiting-map_changed a (loaded_x b.payload) (loaded_y b.payload) now ps named ex ey free in
    let room : ltb (length b.payload) 7 ≡ false = ground arith in
    (
      set_connection_map b.connection_id (read_null_terminated_string a.payload 0) later
          (map_changed a now ps),
      rw (room, same, waits) refl,
      get-set_connection_map b.connection_id _ later (map_changed a now ps),
    )

-- Whether the address names a port.
unfoldable pub has_colon : Bytes → Bool
has_colon [] = false
has_colon (b ∷ bs) = let rest = has_colon bs in if b == b':' then true else rest

abbrev is_single : List Bytes → Bool
is_single [] = true
is_single (x ∷ xs) = false

is_single-split : (url : Bytes) → is_single (split b':' url).others ≡ not (has_colon url)
unfolding split has_colon
is_single-split [] = refl
is_single-split (b ∷ bs) = ground (arith, is_single-split bs)

next_server_panic_iff :
    (lookup_ip : Bytes → Option Bytes) (first : Bytes) (others : List Bytes) (name : Bytes)
    (now : ℤ) (ps : Pending)
    → (next_server lookup_ip (record { first = first; others = others }) name now ps ≡ panic)
      ↔ (is_single others ≡ true)
next_server_panic_iff lookup_ip first [] name now ps = (λ e. refl, λ e. refl)
next_server_panic_iff lookup_ip first (port ∷ more) name now ps = (λ e. cc, λ e. cc)

-- `ReceivedCharIdAndMap` panics exactly where the address of the next server has no colon.
pub received_char_id_and_map_panic_iff :
    (lookup_ip : Bytes → Option Bytes) (p : ParsedPacket) (now : ℤ) (ps : Pending)
    → (received_char_id_and_map lookup_ip p now ps ≡ panic)
      ↔ (has_colon (read_null_terminated_string p.payload 26) ≡ false)
unfolding received_char_id_and_map
received_char_id_and_map_panic_iff lookup_ip p now ps =
    let url : Bytes = read_null_terminated_string p.payload 26 in
    let parts : Pieces = split b':' url in
    let (only, panics) = next_server_panic_iff lookup_ip parts.first parts.others _ now _ in
    (
      λ e. ground (arith, only e, is_single-split url),
      λ h. panics (ground (arith, h, is_single-split url)),
    )
