-- ===== src/Packets/Handlers/Chat.antt =====
-- internal/packets/receive/system_chat.go.
pub mod Texts
use ro_proxy.Prelude.{
  ℕ, zero, suc, Option, some, none, Bool, List, [], ◌∷◌, ◌++◌, map, ◌||◌, Run, ok, panic,
}
use ro_proxy.Prelude.{length, ◌==◌, if◌then◌else◌}
use ro_proxy.Common.Base.{Bytes, string_to_hex}
use ro_proxy.Analyzer.Worker.Addresses.{Pieces, split}
use ro_proxy.Packets.Parser.{ParsedPacket}
use ro_proxy.Packets.Handlers.Reports.{Report, chat_params, chat_messages}

-- The parameters that the loop over `endPosition` finds in the bytes from there on; `current` are the
-- bytes from `startPosition` up to there. 0x1c and 0x1d end a parameter, and 0x1c ends the loop.
unfoldable pub params_from : Bytes → Bytes → List Bytes
params_from current [] = []
params_from current (b ∷ bs) =
    let next = params_from [] bs in
    let longer = params_from (current ++ (b ∷ [])) bs in
    if b == 0x1c
    then string_to_hex current ∷ []
    else if b == 0x1d
    then string_to_hex current ∷ next
    else longer

-- The pieces that are not empty.
unfoldable pub messages_of : List Bytes → List Bytes
messages_of [] = []
messages_of ([] ∷ parts) = messages_of parts
messages_of ((b ∷ bs) ∷ parts) = string_to_hex (b ∷ bs) ∷ messages_of parts

-- All pieces of a text.
abbrev pub all_pieces : Pieces → List Bytes
all_pieces p = p.first ∷ p.others

-- `SystemChat`; `pktData[0]` panics on an empty payload.
unfoldable pub system_chat : ParsedPacket → Run Report
unfolding params_from messages_of split
system_chat p = elim p.payload [
  | [] ↦ panic
  | b ∷ bs ↦
      if b == 0x1c
      then ok (chat_params (params_from [] bs))
      else ok (chat_messages (messages_of (all_pieces (split 0 (b ∷ bs)))))
]
