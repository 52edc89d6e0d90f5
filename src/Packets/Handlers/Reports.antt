-- ===== src/Packets/Handlers/Reports.antt =====
-- internal/packets/receive: the reports that the handlers send to the API. A `map[string]any` is a
-- record with a field for each key; texts are in hexadecimal, as `StringToHex` gives them.
use ro_proxy.Prelude.{ℕ, List, Option, some, none, Run, ok, panic}
use ro_proxy.Prelude.{get_elem?}
use ro_proxy.Prelude.Int.{ℤ}
use ro_proxy.Common.Base.{Bytes}
use ro_proxy.Packets.Parser.{ParsedPacket}

-- actor_info.go, `reportPlayer`
pub record Player : Type 0 where
  pub account_id : ℕ
  pub character_id : ℕ
  pub job_id : ℕ
  pub sex : ℕ
  pub level : ℕ
  pub name : Bytes
  pub hair_style_id : ℕ
  pub hair_color_id : ℕ
  pub weapon_id : ℕ
  pub shield_id : ℕ
  pub top_head_id : ℕ
  pub mid_head_id : ℕ
  pub low_head_id : ℕ
  pub clothes_color_id : ℕ
  pub clothes_style : ℕ
  pub guild_id : ℕ
  pub emblem_id : ℕ
  pub coord_map : Bytes
  pub coord_x : ℕ
  pub coord_y : ℕ

-- actor_info.go, `reportPlayerMinimal`
pub record Membership : Type 0 where
  pub account_id : ℕ
  pub name : Bytes
  pub party : Bytes
  pub guild : Bytes
  pub guild_title : Bytes

-- vender_items_lists.go, `VenderItem`
pub record VenderItem : Type 0 where
  pub price : ℕ
  pub quantity : ℕ
  pub position : ℕ
  pub type : ℕ
  pub item_id : ℕ
  pub unknown_value : ℕ
  pub card_slots : ℕ × ℕ × ℕ × ℕ
  pub enchant_slots : (ℕ × ℕ) × (ℕ × ℕ) × (ℕ × ℕ) × (ℕ × ℕ)
  pub unknown_part : Bytes
  pub refine : ℕ

-- What is sent, by the endpoint.
pub data Report : Type 0 where
  character : Player → Report
  party_guild : Membership → Report
  update_emblem : (guild_id emblem_id actor_id : ℕ) → Report
  shop : (vendor_id : ℕ) → (shop_name shop_map : Bytes) → Report
  offline_clone :
      (clone_id job_id sex : ℕ) → (name map_name : Bytes) → (coord_x coord_y : ℕ) → Report
  items : (vendor_id vendor_cid flag expired_date : ℕ) → (shop_items : List VenderItem) → Report
  special_item :
      (type received_item_id from_item_id : ℕ) → (from_monster_code character_name : Bytes) → Report
  upgrade_item : (character_name : Bytes) → (item_id level unknown_val : ℕ) → Report
  chat_params : (params : List Bytes) → Report
  chat_messages : (messages : List Bytes) → Report

-- `SendToAPI` adds the connection and the time.
pub record Request : Type 0 where
  pub pid : ℕ
  pub timestamp : ℤ
  pub content : Report

abbrev pub to_request : ParsedPacket → Report → Request
to_request p r = record { pid = p.connection_id; timestamp = p.timestamp; content = r }

abbrev pub found_or_panic : Option ℕ → Run ℕ
found_or_panic none = panic
found_or_panic (some b) = ok b

-- `payload[i]`, which panics out of range.
abbrev pub byte_at : Bytes → ℕ → Run ℕ
byte_at payload i = found_or_panic (get_elem? payload i)
