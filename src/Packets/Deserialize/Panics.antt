-- ===== src/Packets/Deserialize/Panics.antt =====
-- internal/packets/receive: exactly which payloads make a handler panic.
use ro_proxy.Prelude.{
  ℕ, zero, suc, ◌+◌, ◌≡◌, refl, ap, ◌∙◌, Bool, true, false, ◌&&◌, ◌||◌, not, Option, [], ◌∷◌, Run,
  ok, panic, ◌>>=◌, inl, inr, ◌↔◌,
}
use ro_proxy.Prelude.{
  length, get_or, ltb, leb, ◌==◌, if◌then◌else◌, Bool-cases, does_return, does_return-then,
  does_return-bind, arith,
}
use ro_proxy.Prelude.Int.{ℤ}
use ro_proxy.Common.Base.{
  Bytes, Handler, read_null_terminated_string, received_char_id_and_map, map_changed, vender_found,
  map_loaded, offline_clone_found, vender_items_lists, actor_info, servers_list,
  special_item_obtain, upgrade_item_broadcast, system_chat, char_emblem_update, map_login,
}
use ro_proxy.Packets.Parser.{ParsedPacket}
use ro_proxy.Packets.Context.{Pending}
use ro_proxy.Packets.Handlers
use ro_proxy.Packets.Handlers.Handover.{has_colon, received_char_id_and_map_panic_iff}
use ro_proxy.Packets.Handlers.Reports.{Report, byte_at}
use ro_proxy.Packets.Handlers.Actors
use ro_proxy.Packets.Handlers.Actors.{is_extended, layout_of}
use ro_proxy.Packets.Handlers.Vending
use ro_proxy.Packets.Handlers.Items
use ro_proxy.Packets.Handlers.Items.Bounds.{items_from-length}
use ro_proxy.Packets.Handlers.Chat
use ro_proxy.Packets.Deserialize.{changes, reports, always, deserialize}

-- What the handlers need of a payload, by its length and, of a special item, its first byte.
unfoldable pub is_enough : Handler → ParsedPacket → Bool
is_enough received_char_id_and_map p = has_colon (read_null_terminated_string p.payload 26)
is_enough map_loaded p = leb 7 (length p.payload)
is_enough offline_clone_found p = leb 13 (length p.payload)
is_enough vender_items_lists p = not (p.opcode == 0x0b62) || leb 13 (length p.payload)
is_enough actor_info p =
    not (is_extended p.opcode) || leb (if p.opcode == 0x09fd then 66 else 62) (length p.payload)
is_enough special_item_obtain p =
    leb (if leb (get_or p.payload 0 2) 1 then 6 else 1) (length p.payload)
is_enough system_chat p = leb 1 (length p.payload)
is_enough _ p = true

byte_at_returns : (bytes : Bytes) (i : ℕ) → does_return (byte_at bytes i) ≡ ltb i (length bytes)
byte_at_returns [] i = ground arith
byte_at_returns (b ∷ bs) zero = ground arith
byte_at_returns (b ∷ bs) (suc i) = ground (arith, byte_at_returns bs i)

changes_returns : (r : Run Pending) → does_return (changes r) ≡ does_return r
changes_returns (ok ps) = refl
changes_returns panic = refl

reports_returns :
    (p : ParsedPacket) (ps : Pending) (r : Run (Option Report))
    → does_return (reports p ps r) ≡ does_return r
reports_returns p ps (ok x) = refl
reports_returns p ps panic = refl

always_returns : (r : Run Report) → does_return (always r) ≡ does_return r
always_returns (ok x) = refl
always_returns panic = refl

module _ (p : ParsedPacket) (ps : Pending) where
  extended_returns :
      does_return (Actors.deserialize_extended p ps)
      ≡ leb (62 + (layout_of p.opcode).moved) (length p.payload)
  unfolding Actors.deserialize_extended
  extended_returns =
      let m : ℕ = (layout_of p.opcode).moved in
      let reads : ℕ → Bool = λ i. does_return (byte_at p.payload i) in
      let from_c : Bool = reads (61 + m) && true in
      let from_b : Bool = reads (60 + m) && from_c in
      let from_a : Bool = reads (59 + m) && from_b in
      let from_sex : Bool = reads (58 + m) && from_a in
      let chain : does_return (Actors.deserialize_extended p ps) ≡ (reads 0 && from_sex) =
        does_return-then _ _ from_sex (λ t. does_return-then _ _ from_a (λ sex.
          does_return-then _ _ from_b
            (λ a. does_return-then _ _ from_c (λ b. does_return-then _ _ true (λ c. refl))))) in
      chain
      ∙ ground (
        arith,
        byte_at_returns p.payload 0,
        byte_at_returns p.payload (58 + m),
        byte_at_returns p.payload (59 + m),
        byte_at_returns p.payload (60 + m),
        byte_at_returns p.payload (61 + m),
      )

  actor_info_returns : does_return (Actors.actor_info p ps) ≡ is_enough actor_info p
  unfolding Actors.actor_info is_enough
  actor_info_returns = ground (arith, extended_returns)

  items_returns :
      (i : ℕ) → does_return (Items.items_from (suc (length p.payload)) p.payload i) ≡ true
  items_returns i =
      let (list, e, size) = items_from-length (suc (length p.payload)) p.payload i (omega arith) in
      ap does_return e

  vender_items_lists_returns :
      does_return (Items.vender_items_lists p ps) ≡ is_enough vender_items_lists p
  unfolding Items.vender_items_lists is_enough
  vender_items_lists_returns = elim (Bool-cases (p.opcode == 0x0b62)) [
    | inl fourth ↦ rw fourth (
        does_return-then _ _ true (λ flag. does_return-bind _ _ (items_returns 17) (λ list. refl))
        ∙ ground (arith, byte_at_returns p.payload 12))
    | inr other ↦ rw other (elim (Bool-cases (p.opcode == 0x0b3d)) [
      | inl third ↦ rw third (does_return-bind _ _ (items_returns 12) (λ list. refl))
      | inr neither ↦ rw neither refl
    ])
  ]

  source_returns :
      (g : ℕ → Report)
      → does_return (byte_at p.payload 5 >>= λ n. ok (g n)) ≡ leb 6 (length p.payload)
  source_returns g =
      does_return-then (byte_at p.payload 5) (λ n. ok (g n)) true (λ n. refl)
      ∙ ground (arith, byte_at_returns p.payload 5)

  special_item_obtain_returns :
      does_return (Vending.special_item_obtain p) ≡ is_enough special_item_obtain p
  unfolding Vending.special_item_obtain is_enough
  special_item_obtain_returns = go p.payload refl
    where
      go :
          (bytes : Bytes)
          → p.payload ≡ bytes
          → does_return (Vending.special_item_obtain p) ≡ is_enough special_item_obtain p
      go [] e = rw e (ground arith)
      go (b ∷ bs) e = ground (
        arith,
        e,
        source_returns (λ n. Vending.from_item p b (Vending.source_at n)),
        source_returns (λ n. Vending.from_monster p b (Vending.source_at n)),
      )

offline_clone_found_returns :
    (p : ParsedPacket) (ps : Pending)
    → does_return (Vending.offline_clone_found p ps) ≡ is_enough offline_clone_found p
unfolding Vending.offline_clone_found is_enough
offline_clone_found_returns p ps =
    let read : does_return (Vending.offline_clone_found p ps)
        ≡ (does_return (byte_at p.payload 12) && true) =
      does_return-then _ _ true (λ sex. refl) in
    read ∙ ground (arith, byte_at_returns p.payload 12)

system_chat_returns :
    (p : ParsedPacket) → does_return (Chat.system_chat p) ≡ is_enough system_chat p
unfolding Chat.system_chat is_enough
system_chat_returns p = ground arith

by_panic : (r : Run Pending) (b : Bool) → (r ≡ panic) ↔ (b ≡ false) → does_return r ≡ b
by_panic (ok ps) true h = refl
by_panic (ok ps) false h = let e = h.1 refl in cc
by_panic panic true h = let e = h.0 refl in cc
by_panic panic false h = refl

-- A handler returns exactly where the payload is enough for it: it panics on every payload that is not.
pub deserialize_returns :
    (lookup_ip : Bytes → Option Bytes) (h : Handler) (p : ParsedPacket) (now : ℤ) (ps : Pending)
    → does_return (deserialize lookup_ip p now ps h) ≡ is_enough h p
unfolding deserialize is_enough
deserialize_returns lookup_ip received_char_id_and_map p now ps =
    changes_returns _ ∙ by_panic _ _ (received_char_id_and_map_panic_iff lookup_ip p now ps)
deserialize_returns lookup_ip map_changed p now ps = refl
deserialize_returns lookup_ip vender_found p now ps = refl
deserialize_returns lookup_ip map_loaded p now ps =
    changes_returns (Handlers.map_loaded p now ps) ∙ unfold Handlers.map_loaded in ground arith
deserialize_returns lookup_ip offline_clone_found p now ps =
    reports_returns p ps _ ∙ offline_clone_found_returns p ps
deserialize_returns lookup_ip vender_items_lists p now ps =
    reports_returns p ps _ ∙ vender_items_lists_returns p ps
deserialize_returns lookup_ip actor_info p now ps = reports_returns p ps _ ∙ actor_info_returns p ps
deserialize_returns lookup_ip servers_list p now ps = refl
deserialize_returns lookup_ip special_item_obtain p now ps =
    reports_returns p ps _ ∙ always_returns _ ∙ special_item_obtain_returns p ps
deserialize_returns lookup_ip upgrade_item_broadcast p now ps = refl
deserialize_returns lookup_ip system_chat p now ps =
    reports_returns p ps _ ∙ always_returns _ ∙ system_chat_returns p
deserialize_returns lookup_ip char_emblem_update p now ps = refl
deserialize_returns lookup_ip map_login p now ps = refl
