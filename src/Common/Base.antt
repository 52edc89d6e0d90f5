-- ===== src/Common/Base.antt =====
-- internal/common/base.go: directions, size types, packet specifications and the byte readers.
-- A `[]byte` and a `string` are lists of byte values, and an offset is never negative here.
pub mod Bytes
pub mod Readers
use ro_proxy.Prelude.{ℕ, zero, suc, ◌+◌, ◌*◌, ◌/◌, ◌%◌, ◌<◌, Bool, List, [], ◌∷◌, Option}
use ro_proxy.Prelude.{length, take, drop, leb, ltb, ◌==◌, if◌then◌else◌}
use ro_proxy.Prelude.Int.{ℤ}
use Prim.Native.String.{String}

abbrev pub Bytes : Type 0
Bytes = List ℕ

pub data PacketDirection : Type 0 where
  server_to_client client_to_server : PacketDirection

pub data PacketSizeType : Type 0 where
  fixed indicated_in_packet unknown fixed_min http : PacketSizeType

-- The types whose zero value stands in a `Handler` field of the two packet databases.
pub data Handler : Type 0 where
  received_char_id_and_map map_changed vender_found map_loaded offline_clone_found : Handler
  vender_items_lists actor_info servers_list special_item_obtain : Handler
  upgrade_item_broadcast system_chat char_emblem_update map_login : Handler

pub record PacketSpec : Type 0 where
  pub desc : String
  pub size : ℤ
  pub type : PacketSizeType
  pub handler : Option Handler
  pub alert : Bool

-- A composite literal `{Desc: …, Size: …, Type: …, Handler: …, Alert: …}`.
abbrev pub spec : String → ℤ → PacketSizeType → Option Handler → Bool → PacketSpec
spec d s t h a = record { desc = d; size = s; type = t; handler = h; alert = a }

-- The number that bytes stand for, the lowest first (`binary.LittleEndian`).
unfoldable pub of_le : Bytes → ℕ
of_le [] = 0
of_le (b ∷ bs) = b + 256 * of_le bs

-- The `n` low bytes of a number, the lowest first.
unfoldable pub to_le : ℕ → ℕ → Bytes
to_le zero x = []
to_le (suc n) x = (x % 256) ∷ to_le n (x / 256)

unfoldable pub read_uint32_le : Bytes → ℕ → ℕ
read_uint32_le data_in offset =
    if ltb (length data_in) (offset + 4) then 0 else of_le (take 4 (drop offset data_in))

unfoldable pub read_uint16_le : Bytes → ℕ → ℕ
read_uint16_le data_in offset =
    if ltb (length data_in) (offset + 2) then 0 else of_le (take 2 (drop offset data_in))

-- The loop over `end`, from the bytes at the offset on.
unfoldable pub until_zero : Bytes → Bytes
until_zero [] = []
until_zero (b ∷ bs) = let rest = until_zero bs in if b == 0 then [] else b ∷ rest

unfoldable pub read_null_terminated_string : Bytes → ℕ → Bytes
read_null_terminated_string data_in offset =
    if leb (length data_in) offset then [] else until_zero (drop offset data_in)

-- `hex.EncodeToString`: two lower-case digits a byte.
unfoldable pub hex_digit : ℕ → ℕ
hex_digit d = if ltb d 10 then 48 + d else 87 + d

unfoldable pub string_to_hex : Bytes → Bytes
unfolding hex_digit
string_to_hex [] = []
string_to_hex (b ∷ bs) = hex_digit (b / 16) ∷ hex_digit (b % 16) ∷ string_to_hex bs

abbrev pub IsByte : ℕ → Type 0
IsByte b = b < 256
