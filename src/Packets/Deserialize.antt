-- ===== src/Packets/Deserialize.antt =====
-- internal/analyzer/worker.go, `spawnDeserializer`: the handler of a packet's specification is run on
-- it, in a goroutine that does not recover. What comes of it is a new table of maps and what is sent to
-- the API.
pub mod Panics
use ro_proxy.Prelude.{ℕ, Option, some, none, Bool, Run, ok, panic, ◌>>=◌, map}
use ro_proxy.Prelude.Int.{ℤ}
use ro_proxy.Common.Base.{
  Bytes, Handler, received_char_id_and_map, map_changed, vender_found, map_loaded,
  offline_clone_found, vender_items_lists, actor_info, servers_list, special_item_obtain,
  upgrade_item_broadcast, system_chat, char_emblem_update, map_login,
}
use ro_proxy.Packets.Parser.{ParsedPacket}
use ro_proxy.Packets.Context.{Pending}
use ro_proxy.Packets.Handlers
use ro_proxy.Packets.Handlers.Reports.{Report, Request, to_request}
use ro_proxy.Packets.Handlers.Actors
use ro_proxy.Packets.Handlers.Vending
use ro_proxy.Packets.Handlers.Items
use ro_proxy.Packets.Handlers.Chat

pub record Effect : Type 0 where
  pub pending : Pending
  pub sent : Option Request

-- The handler only changes the table, or only reports.
abbrev pub changes : Run Pending → Run Effect
changes (ok ps) = ok (record { pending = ps; sent = none })
changes panic = panic

abbrev pub sent_for : ParsedPacket → Option Report → Option Request
sent_for p none = none
sent_for p (some r) = some (to_request p r)

abbrev pub reports : ParsedPacket → Pending → Run (Option Report) → Run Effect
reports p ps (ok r) = ok (record { pending = ps; sent = sent_for p r })
reports p ps panic = panic

abbrev pub always : Run Report → Run (Option Report)
always (ok r) = ok (some r)
always panic = panic

module _ (lookup_ip : Bytes → Option Bytes) (p : ParsedPacket) (now : ℤ) (ps : Pending) where
  unfoldable pub deserialize : Handler → Run Effect
  deserialize received_char_id_and_map =
      changes (Handlers.received_char_id_and_map lookup_ip p now ps)
  deserialize map_changed = changes (ok (Handlers.map_changed p now ps))
  deserialize map_loaded = changes (Handlers.map_loaded p now ps)
  deserialize map_login = changes (ok (Handlers.map_login p ps))
  deserialize vender_found = reports p ps (ok (Vending.vender_found p ps))
  deserialize offline_clone_found = reports p ps (Vending.offline_clone_found p ps)
  deserialize vender_items_lists = reports p ps (Items.vender_items_lists p ps)
  deserialize actor_info = reports p ps (Actors.actor_info p ps)
  deserialize servers_list = reports p ps (ok none)
  deserialize special_item_obtain = reports p ps (always (Vending.special_item_obtain p))
  deserialize upgrade_item_broadcast = reports p ps (ok (some (Vending.upgrade_item_broadcast p)))
  deserialize system_chat = reports p ps (always (Chat.system_chat p))
  deserialize char_emblem_update = reports p ps (ok (some (Vending.char_emblem_update p)))

  -- Without a handler nothing is done.
  unfoldable pub spawn_deserializer : Option Handler → Run Effect
  spawn_deserializer none = ok (record { pending = ps; sent = none })
  spawn_deserializer (some h) = deserialize h
