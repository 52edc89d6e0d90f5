-- ===== src/Packets/Handlers/Chat/Texts.antt =====
-- internal/packets/receive/system_chat.go: the texts that a server puts into a chat packet are the
-- texts reported.
use ro_proxy.Prelude.{
  ℕ, ◌≡◌, ◌≢◌, refl, ap, sym, ◌∙◌, List, [], ◌∷◌, ◌++◌, map, append_assoc, append-nil, ok, arith,
}
use ro_proxy.Prelude.{All, ==_iff}
use ro_proxy.Common.Base.{Bytes, string_to_hex}
use ro_proxy.Analyzer.Worker.Addresses.{split}
use ro_proxy.Packets.Parser.{ParsedPacket}
use ro_proxy.Packets.Handlers.Reports.{chat_params, chat_messages}
use ro_proxy.Packets.Handlers.Chat.{params_from, messages_of, all_pieces, system_chat}

-- A parameter has neither of the bytes that end one.
abbrev pub IsParam : Bytes → Type 0
IsParam = All (λ b. (b ≢ 0x1c) × (b ≢ 0x1d))

-- Parameters as a server writes them: 0x1d between them and 0x1c behind the last.
abbrev pub params_bytes : Bytes → List Bytes → Bytes
params_bytes param [] = param ++ (0x1c ∷ [])
params_bytes param (next ∷ params) = param ++ (0x1d ∷ params_bytes next params)

params_from-append :
    (current param rest : Bytes)
    → IsParam param
    → params_from current (param ++ rest) ≡ params_from (current ++ param) rest
unfolding params_from
params_from-append current [] rest h = ap (λ t. params_from t rest) (sym (append-nil current))
params_from-append current (b ∷ bs) rest ((h, k), hs) = ground (
  arith,
  ==_iff b 0x1c,
  ==_iff b 0x1d,
  params_from-append (current ++ (b ∷ [])) bs rest hs,
  append_assoc current (b ∷ []) bs,
)

params_from-params_bytes :
    (param : Bytes) (params : List Bytes) (rest : Bytes)
    → All IsParam (param ∷ params)
    → params_from [] (params_bytes param params ++ rest) ≡ map string_to_hex (param ∷ params)
unfolding params_from
params_from-params_bytes param [] rest (h, hs) =
    ap (params_from []) (append_assoc param (0x1c ∷ []) rest)
    ∙ params_from-append [] param (0x1c ∷ rest) h
params_from-params_bytes param (next ∷ params) rest (h, hs) =
    ap (params_from []) (append_assoc param (0x1d ∷ params_bytes next params) rest)
    ∙ params_from-append [] param (0x1d ∷ (params_bytes next params ++ rest)) h
    ∙ ap (λ t. string_to_hex param ∷ t) (params_from-params_bytes next params rest hs)

-- A chat packet with parameters: 0x1c, the parameters with 0x1d between them, 0x1c, and whatever
-- follows. Exactly these parameters are reported, in their order.
pub system_chat-params :
    (p : ParsedPacket) (param : Bytes) (params : List Bytes) (rest : Bytes)
    → p.payload ≡ 0x1c ∷ (params_bytes param params ++ rest)
    → All IsParam (param ∷ params)
    → system_chat p ≡ ok (chat_params (map string_to_hex (param ∷ params)))
unfolding system_chat
system_chat-params p param params rest e h =
    rw e (ap (λ t. ok (chat_params t)) (params_from-params_bytes param params rest h))

-- A message is not empty and has no zero byte.
abbrev pub IsMessage : Bytes → Type 0
IsMessage m = (m ≢ []) × All (λ b. b ≢ 0) m

-- Messages as a server writes them: each with a zero byte behind it.
abbrev pub messages_bytes : List Bytes → Bytes
messages_bytes [] = []
messages_bytes (m ∷ ms) = m ++ (0 ∷ messages_bytes ms)

split-append :
    (text rest : Bytes)
    → All (λ b. b ≢ 0) text
    → split 0 (text ++ (0 ∷ rest)) ≡ record { first = text; others = all_pieces (split 0 rest) }
unfolding split
split-append [] rest h = refl
split-append (b ∷ bs) rest (h, hs) = ground (arith, ==_iff b 0, split-append bs rest hs)

messages_of-cons :
    (m : Bytes) (parts : List Bytes)
    → m ≢ []
    → messages_of (m ∷ parts) ≡ string_to_hex m ∷ messages_of parts
unfolding messages_of
messages_of-cons [] parts h = absurd (h refl)
messages_of-cons (b ∷ bs) parts h = refl

messages_of-split :
    (ms : List Bytes)
    → All IsMessage ms
    → messages_of (all_pieces (split 0 (messages_bytes ms))) ≡ map string_to_hex ms
messages_of-split [] h = unfold split messages_of in refl
messages_of-split (m ∷ ms) ((h, k), hs) =
    ap (λ t. messages_of (all_pieces t)) (split-append m (messages_bytes ms) k)
    ∙ messages_of-cons m (all_pieces (split 0 (messages_bytes ms))) h
    ∙ ap (λ t. string_to_hex m ∷ t) (messages_of-split ms hs)

-- A chat packet that does not start with 0x1c, with messages that each end with a zero byte: exactly
-- these messages are reported, in their order.
pub system_chat-messages :
    (p : ParsedPacket) (b : ℕ) (bs : Bytes) (ms : List Bytes)
    → p.payload ≡ b ∷ bs
    → b ≢ 0x1c
    → messages_bytes ms ≡ b ∷ bs
    → All IsMessage ms
    → system_chat p ≡ ok (chat_messages (map string_to_hex ms))
unfolding system_chat
system_chat-messages p b bs ms e other whole h =
    let found : messages_of (all_pieces (split 0 (b ∷ bs))) ≡ map string_to_hex ms =
      ap (λ t. messages_of (all_pieces (split 0 t))) (sym whole) ∙ messages_of-split ms h in
    rw e (ground (arith, ==_iff b 0x1c, found))
