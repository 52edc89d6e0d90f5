-- ===== src/Packets/Handlers/NextServer.antt =====
-- internal/packets/receive: a character that is sent to another server takes its map along.
use ro_proxy.Prelude.{ℕ, ◌≤◌, ◌≡◌, ◌≢◌, refl, ap, ◌∙◌, List, [], ◌∷◌, Option, some, none, ok, false}
use ro_proxy.Prelude.{length, ltb, arith}
use ro_proxy.Prelude.Int.{ℤ}
use ro_proxy.Common.Base.{Bytes, read_uint32_le, read_null_terminated_string}
use ro_proxy.Analyzer.Worker.Addresses.{split, atoi}
use ro_proxy.Packets.Parser.{ParsedPacket}
use ro_proxy.Packets.Context.{
  Pending, set_connection_map, set_connection_map_char, get_connection_map, get_pending_map_change,
  set_pending_map_by_destination, get_pending_map_by_destination,
}
use ro_proxy.Packets.Context.Destinations.{first_of_both, get-set_by_destination}
use ro_proxy.Packets.Handlers.{map_loaded, loaded_x, loaded_y, received_char_id_and_map}
use ro_proxy.Packets.Handlers.Handover.{text_eq_nil, get-set_connection_map}

-- The map of a connection is no change that waits for a server.
waiting-set_connection_map_char :
    (char conn : ℕ) (name dest : Bytes) (port now : ℤ) (ps : Pending)
    → dest ≢ []
    → get_pending_map_by_destination dest port ps ≡ none
    → get_pending_map_by_destination dest port (set_connection_map_char char conn name now ps)
      ≡ none
unfolding get_pending_map_by_destination set_connection_map_char
waiting-set_connection_map_char char conn name dest port now [] named h =
    ground (arith, text_eq_nil dest named)
waiting-set_connection_map_char char conn name dest port now (p ∷ ps) named h =
    ground (arith, waiting-set_connection_map_char char conn name dest port now ps named)

-- The table after the handler, where the address names a port and the host is found.
abbrev sent_on : ParsedPacket → Bytes → Bytes → ℤ → Pending → Pending
sent_on a ip text now ps =
    let name = read_null_terminated_string a.payload 4 in
    set_pending_map_by_destination ip (atoi text) name now
      (set_connection_map_char (read_uint32_le a.payload 0) a.connection_id name now ps)

received_char_id_and_map-found :
    (lookup_ip : Bytes → Option Bytes) (a : ParsedPacket) (now : ℤ) (ps : Pending)
    (host ip text : Bytes) (more : List Bytes)
    → split b':' (read_null_terminated_string a.payload 26)
      ≡ record { first = host; others = text ∷ more }
    → lookup_ip host ≡ some ip
    → received_char_id_and_map lookup_ip a now ps ≡ ok (sent_on a ip text now ps)
unfolding received_char_id_and_map
received_char_id_and_map-found lookup_ip a now ps host ip text more parts found =
    rw (parts, found) refl

waiting-sent_on :
    (a : ParsedPacket) (ip text : Bytes) (now : ℤ) (ps : Pending)
    → ip ≢ []
    → get_pending_map_by_destination ip (atoi text) ps ≡ none
    → get_pending_map_by_destination ip (atoi text) (sent_on a ip text now ps)
      ≡ some (read_null_terminated_string a.payload 4)
waiting-sent_on a ip text now ps named free =
    let name : Bytes = read_null_terminated_string a.payload 4 in
    get-set_by_destination ip name (atoi text) now _
    ∙ ap (λ o. first_of_both o name)
        (waiting-set_connection_map_char (read_uint32_le a.payload 0) a.connection_id name ip
          (atoi text) now ps named free)

-- `ReceivedCharIdAndMap` with an address whose host is found, and for which no change waits, and then
-- `MapLoaded` from that address on any connection, at coordinates for which no change waits: that
-- connection is on the map of the first packet. The payload of `MapLoaded` has to have 7 bytes.
pub map_loaded-received_char_id_and_map :
    (lookup_ip : Bytes → Option Bytes) (a b : ParsedPacket) (now later : ℤ) (ps : Pending)
    (host ip text : Bytes) (more : List Bytes)
    → split b':' (read_null_terminated_string a.payload 26)
      ≡ record { first = host; others = text ∷ more }
    → lookup_ip host ≡ some ip
    → ip ≢ []
    → b.source_ip ≡ ip
    → b.source_port ≡ atoi text
    → 7 ≤ length b.payload
    → get_pending_map_by_destination ip (atoi text) ps ≡ none
    → get_pending_map_change ip (loaded_x b.payload) (loaded_y b.payload) (sent_on a ip text now ps)
      ≡ none
    → (p q : Pending) × (received_char_id_and_map lookup_ip a now ps ≡ ok p)
      × (map_loaded b later p ≡ ok q)
      × (get_connection_map b.connection_id q ≡ some (read_null_terminated_string a.payload 4))
unfolding map_loaded
map_loaded-received_char_id_and_map lookup_ip a b now later ps host ip text more parts found named
      same port long free unmatched =
    let p : Pending = sent_on a ip text now ps in
    let name : Bytes = read_null_terminated_string a.payload 4 in
    let room : ltb (length b.payload) 7 ≡ false = ground arith in
    (
      p,
      set_connection_map b.connection_id name later p,
      received_char_id_and_map-found lookup_ip a now ps host ip text more parts found,
      rw (room, same, port, unmatched, waiting-sent_on a ip text now ps named free) refl,
      get-set_connection_map b.connection_id name later p,
    )
