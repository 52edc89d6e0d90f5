-- ===== src/Packets/Handlers/Actors.antt =====
-- internal/packets/receive/actor_info.go.
use ro_proxy.Prelude.{
  ℕ, ◌+◌, ◌*◌, ◌/◌, ◌%◌, ◌^◌, Bool, [], ◌∷◌, Option, some, none, Run, ok, ◌>>=◌, ◌||◌,
}
use ro_proxy.Prelude.{◌==◌, if◌then◌else◌}
use ro_proxy.Common.Base.{
  Bytes, read_uint32_le, read_uint16_le, read_null_terminated_string, string_to_hex,
}
use ro_proxy.Packets.Parser.{ParsedPacket}
use ro_proxy.Packets.Context.{Pending, get_connection_map}
use ro_proxy.Packets.Handlers.Reports.{Report, Player, character, party_guild, byte_at}

-- The positions that depend on the opcode: how far the middle part is moved, and where the level, the
-- clothes style and the name are. They are `offsetOne` and 65, 78 and 80 plus `offsetTwo`.
pub record Layout : Type 0 where
  pub moved : ℕ
  pub level_at : ℕ
  pub style_at : ℕ
  pub name_at : ℕ

abbrev pub layout_of : ℕ → Layout
layout_of opcode =
    if opcode == 0x09fd
    then record { moved = 4; level_at = 71; style_at = 84; name_at = 86 }
    else if opcode == 0x09fe
    then record { moved = 0; level_at = 64; style_at = 77; name_at = 79 }
    else record { moved = 0; level_at = 65; style_at = 78; name_at = 80 }

abbrev pub map_or_unknown : Option Bytes → Bytes
map_or_unknown (some name) = name
map_or_unknown none = b'u' ∷ b'n' ∷ b'k' ∷ b'n' ∷ b'o' ∷ b'w' ∷ b'n' ∷ []

-- `coordX` and `coordY` of three bytes, the highest first.
abbrev pub x_of : ℕ → ℕ → ℕ → ℕ
x_of a b c = (a * 2 ^ 16 + b * 2 ^ 8 + c) / 2 ^ 14 % 2 ^ 16

abbrev pub y_of : ℕ → ℕ → ℕ → ℕ
y_of a b c = (a * 2 ^ 16 + b * 2 ^ 8 + c) / 2 ^ 4 % 2 ^ 10

-- The fields of a player; `sex` and the coordinates are read before.
abbrev pub player_of : Bytes → Layout → Bytes → ℕ → ℕ → ℕ → Player
player_of payload l map_name sex x y = record {
  account_id = read_uint32_le payload 1;
  character_id = read_uint32_le payload 5;
  job_id = read_uint16_le payload 19;
  sex = sex;
  level = read_uint32_le payload l.level_at;
  name = string_to_hex (read_null_terminated_string payload l.name_at);
  hair_style_id = read_uint16_le payload 21;
  hair_color_id = read_uint16_le payload (37 + l.moved);
  weapon_id = read_uint32_le payload 23;
  shield_id = read_uint32_le payload 27;
  top_head_id = read_uint16_le payload (33 + l.moved);
  mid_head_id = read_uint16_le payload (35 + l.moved);
  low_head_id = read_uint16_le payload 31;
  clothes_color_id = read_uint16_le payload (39 + l.moved);
  clothes_style = read_uint16_le payload l.style_at;
  guild_id = read_uint32_le payload (45 + l.moved);
  emblem_id = read_uint32_le payload (49 + l.moved);
  coord_map = string_to_hex map_name;
  coord_x = x;
  coord_y = y;
}

-- A player is reported; a monster is only logged, and another actor is passed over.
unfoldable pub deserialize_extended : ParsedPacket → Pending → Run (Option Report)
deserialize_extended p ps = do
  let l : Layout = layout_of p.opcode
  actor_type ← byte_at p.payload 0
  sex ← byte_at p.payload (58 + l.moved)
  a ← byte_at p.payload (59 + l.moved)
  b ← byte_at p.payload (60 + l.moved)
  c ← byte_at p.payload (61 + l.moved)
  let map_name = map_or_unknown (get_connection_map p.connection_id ps)
  ok (
      if actor_type == 0
      then some (character (player_of p.payload l map_name sex (x_of a b c) (y_of a b c)))
      else none)

unfoldable pub deserialize_minimal : ParsedPacket → Report
deserialize_minimal p = party_guild (record {
  account_id = read_uint32_le p.payload 0;
  name = string_to_hex (read_null_terminated_string p.payload 4);
  party = string_to_hex (read_null_terminated_string p.payload 28);
  guild = string_to_hex (read_null_terminated_string p.payload 52);
  guild_title = string_to_hex (read_null_terminated_string p.payload 76);
})

abbrev pub is_extended : ℕ → Bool
is_extended opcode = opcode == 0x09fd || (opcode == 0x09fe || opcode == 0x09ff)

unfoldable pub actor_info : ParsedPacket → Pending → Run (Option Report)
unfolding deserialize_extended deserialize_minimal
actor_info p ps =
    if is_extended p.opcode
    then deserialize_extended p ps
    else if p.opcode == 0x0a30
    then ok (some (deserialize_minimal p))
    else ok none
