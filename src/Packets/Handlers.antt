-- ===== src/Packets/Handlers.antt =====
-- internal/packets/receive and internal/packets/send: the handlers that change the table of maps,
-- map_changed.go, map_loaded.go, received_char_id_and_map.go and map_login.go. `now` is what
-- `time.Now()` gives during the call, and `lookup_ip` stands for `net.LookupIP`: the text of the first
-- address of a host, or `none` on an error or without an address.
pub mod Handover
pub mod NextServer
pub mod Reports
pub mod Actors
pub mod Vending
pub mod Items
pub mod Chat
use ro_proxy.Prelude.{ℕ, ◌+◌, ◌*◌, ◌/◌, ◌%◌, ◌^◌, List, [], ◌∷◌, Option, some, none, Run, ok, panic}
use ro_proxy.Prelude.{length, get_or, ltb, if◌then◌else◌}
use ro_proxy.Prelude.Int.{ℤ}
use ro_proxy.Common.Base.{Bytes, read_uint32_le, read_uint16_le, read_null_terminated_string}
use ro_proxy.Analyzer.Worker.Addresses.{Pieces, split, atoi}
use ro_proxy.Packets.Parser.{ParsedPacket}
use ro_proxy.Packets.Context.{
  Pending, set_connection_map, set_connection_map_char, set_pending_map_change,
  get_pending_map_change, set_pending_map_by_destination, get_pending_map_by_destination,
  set_pending_map_by_char_id,
}

-- `MapChanged`
unfoldable pub map_changed : ParsedPacket → ℤ → Pending → Pending
map_changed p now ps =
    let name = read_null_terminated_string p.payload 0 in
    set_pending_map_change p.source_ip name (read_uint16_le p.payload 16)
      (read_uint16_le p.payload 18) now (set_connection_map p.connection_id name now ps)

-- Three bytes, the highest first, hold ten bits of each coordinate and four of the direction.
abbrev pub coords_compressed : Bytes → ℕ
coords_compressed payload =
    get_or payload 4 0 * 2 ^ 16 + get_or payload 5 0 * 2 ^ 8 + get_or payload 6 0

abbrev pub loaded_x : Bytes → ℕ
loaded_x payload = coords_compressed payload / 2 ^ 14 % 2 ^ 16

abbrev pub loaded_y : Bytes → ℕ
loaded_y payload = coords_compressed payload / 2 ^ 4 % 2 ^ 10

-- The match by coordinates comes first, then the one by destination.
abbrev pub place : ℕ → ℤ → Pending → Option Bytes → Option Bytes → Pending
place conn now ps (some name) _ = set_connection_map conn name now ps
place conn now ps none (some name) = set_connection_map conn name now ps
place conn now ps none none = ps

-- `MapLoaded`, which reads the bytes 4 to 6 of the payload without a test of its length.
unfoldable pub map_loaded : ParsedPacket → ℤ → Pending → Run Pending
map_loaded p now ps =
    if ltb (length p.payload) 7
    then panic
    else ok (
        place p.connection_id now ps
          (get_pending_map_change p.source_ip (loaded_x p.payload) (loaded_y p.payload) ps)
          (get_pending_map_by_destination p.source_ip p.source_port ps))

abbrev pub pend : Option Bytes → ℤ → Bytes → ℤ → Pending → Pending
pend none port name now ps = ps
pend (some ip) port name now ps = set_pending_map_by_destination ip port name now ps

-- `parts[1]` of the address, which panics where there is no colon.
abbrev pub next_server : (Bytes → Option Bytes) → Pieces → Bytes → ℤ → Pending → Run Pending
next_server lookup_ip parts name now ps = elim parts.others [
  | [] ↦ panic
  | port ∷ _ ↦ ok (pend (lookup_ip parts.first) (atoi port) name now ps)
]

-- `ReceivedCharIdAndMap`
unfoldable pub received_char_id_and_map :
    (Bytes → Option Bytes) → ParsedPacket → ℤ → Pending → Run Pending
received_char_id_and_map lookup_ip p now ps =
    let name = read_null_terminated_string p.payload 4 in
    next_server lookup_ip (split b':' (read_null_terminated_string p.payload 26)) name now
      (set_connection_map_char (read_uint32_le p.payload 0) p.connection_id name now ps)

-- `MapLogin`
unfoldable pub map_login : ParsedPacket → Pending → Pending
map_login p ps = set_pending_map_by_char_id (read_uint32_le p.payload 4) p.connection_id ps
