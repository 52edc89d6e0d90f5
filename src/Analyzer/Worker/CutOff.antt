-- ===== src/Analyzer/Worker/CutOff.antt =====
-- internal/analyzer/worker.go: the rest that `tryParsePackets` leaves in the buffer holds no whole
-- packet.
use ro_proxy.Prelude.{
  ℕ, suc, ◌<◌, ◌≡◌, ◌≢◌, refl, ap, ◌∙◌, Bool, true, false, List, [], ◌∷◌, ◌++◌, Option, some, none,
  inl, inr, ◌⊎◌, arith,
}
use ro_proxy.Prelude.{length, take, drop, leb, ltb, if◌then◌else◌, Bool-cases}
use ro_proxy.Prelude.Int.{ℤ, pos, negsuc}
use ro_proxy.Common.Base.{
  Bytes, PacketDirection, PacketSpec, PacketSizeType, fixed, fixed_min, indicated_in_packet, http,
  unknown, of_le,
}
use ro_proxy.Packets.Parser.{ParsedPacket}
use ro_proxy.Analyzer.Worker.{
  Worker, Extent, complete, incomplete, pass_over, negative, wait, skip, round_of, next_round,
  find_spec, packet_extent, parse_http_packet, starts_with_delimiter, known_size, indicated_size,
  parsed, try_parse_packets,
}
use ro_proxy.Analyzer.Worker.Rest.{rest_waits}

-- The blank line that ends the head of an HTTP message.
abbrev pub delimiter : Bytes
delimiter = 0x0d ∷ 0x0a ∷ 0x0d ∷ 0x0a ∷ []

-- A packet of this size type starts the buffer, and not all of it is there: fewer bytes than its fixed
-- size; not the length field, or fewer bytes than that says; or no blank line.
abbrev pub IsShort : PacketSizeType → ℤ → Bytes → Type 0
IsShort fixed (pos n) rest = length rest < n
IsShort fixed_min (pos n) rest = length rest < n
IsShort indicated_in_packet size rest =
    (length rest < 4) ⊎ (length rest < of_le (take 2 (drop 2 rest)))
IsShort http size rest = (before after : Bytes) → rest ≢ before ++ (delimiter ++ after)
IsShort _ _ rest = ⊥

-- The buffer is too short for an opcode, or starts with a known opcode of a packet that is cut off.
abbrev pub IsCutOff : PacketDirection → Bytes → Type 0
IsCutOff direction rest =
    (length rest < 2)
    ⊎ ((s : PacketSpec) × (find_spec direction (of_le (take 2 rest)) ≡ some s)
        × IsShort s.type s.size rest)

abbrev is_none : Option ℕ → Bool
is_none none = true
is_none (some n) = false

-- A blank line anywhere is found.
parse_http_packet-delimiter :
    (before after : Bytes) → is_none (parse_http_packet (before ++ (delimiter ++ after))) ≡ false
unfolding parse_http_packet starts_with_delimiter
parse_http_packet-delimiter [] after = refl
parse_http_packet-delimiter (b ∷ before) after =
    go (starts_with_delimiter (b ∷ (before ++ (delimiter ++ after))))
      (parse_http_packet (before ++ (delimiter ++ after)))
      (parse_http_packet-delimiter before after)
  where
    go :
        (starts : Bool) (rest : Option ℕ)
        → is_none rest ≡ false
        → is_none (if starts then some 4 else elim rest [ none ↦ none | some n ↦ some (suc n) ])
          ≡ false
    go true rest h = refl
    go false (some n) h = refl
    go false none h = h

short_size : (n available : ℕ) → known_size (pos n) available ≡ incomplete → available < n
short_size n available e = elim (Bool-cases (leb n available)) [
  | inl enough ↦ absurd (let f = rw enough at e in cc)
  | inr short ↦ ground arith
]

extent-IsShort :
    (type : PacketSizeType) (size : ℤ) (rest : Bytes)
    → packet_extent type size rest ≡ incomplete
    → IsShort type size rest
unfolding packet_extent
extent-IsShort fixed (pos n) rest e = short_size n (length rest) e
extent-IsShort fixed (negsuc n) rest e = cc
extent-IsShort fixed_min (pos n) rest e = short_size n (length rest) e
extent-IsShort fixed_min (negsuc n) rest e = cc
extent-IsShort indicated_in_packet size rest e = elim (Bool-cases (leb 4 (length rest))) [
  | inl has_length ↦
      let short : length rest < indicated_size rest =
        short_size (indicated_size rest) (length rest) (rw has_length at e) in
      inr (ground arith)
  | inr no_length ↦ inl (ground arith)
]
extent-IsShort http size rest e =
    λ before after whole. go before after (parse_http_packet rest) e (ap parse_http_packet whole)
  where
    go :
        (before after : Bytes) (o : Option ℕ)
        → (elim o [ none ↦ incomplete | some n ↦ complete n ]) ≡ incomplete
        → o ≡ parse_http_packet (before ++ (delimiter ++ after))
        → ⊥
    go before after none h k =
        let f : ◌≡◌ {A = Bool} true false =
          ap is_none k ∙ parse_http_packet-delimiter before after in
        cc
    go before after (some n) h k = cc
extent-IsShort unknown size rest e = cc

round_waits :
    (opcode : ℕ) (s : PacketSpec) (x : Extent) → round_of opcode s x ≡ wait → x ≡ incomplete
round_waits opcode s (complete n) e = cc
round_waits opcode s incomplete e = refl
round_waits opcode s pass_over e = cc
round_waits opcode s negative e = cc

opcode-IsCutOff :
    (direction : PacketDirection) (rest : Bytes) (o : Option PacketSpec)
    → find_spec direction (of_le (take 2 rest)) ≡ o
    → (elim o [
      | none ↦ skip
      | some s ↦ round_of (of_le (take 2 rest)) s (packet_extent s.type s.size rest)
    ])
      ≡ wait
    → IsCutOff direction rest
opcode-IsCutOff direction rest none found e = cc
opcode-IsCutOff direction rest (some s) found e =
    inr (s, found, extent-IsShort s.type s.size rest (round_waits (of_le (take 2 rest)) s _ e))

-- What stays in the buffer after a parse of either direction is less than an opcode, or starts with a
-- known opcode and ends before the packet does: below its fixed size, before or below its length field,
-- or without the blank line of an HTTP message. So no whole packet is held back.
pub rest-IsCutOff :
    (w : Worker) (direction : PacketDirection) (timestamp : ℤ) (buffer : Bytes)
    (ps : List ParsedPacket) (rest : Bytes)
    → try_parse_packets w direction timestamp buffer ≡ parsed ps rest
    → IsCutOff direction rest
unfolding next_round
rest-IsCutOff w direction timestamp buffer ps rest e =
    let waits = rest_waits w direction timestamp buffer ps rest e in
    elim (Bool-cases (ltb (length rest) 2)) [
      | inl short ↦ inl (ground arith)
      | inr long ↦
          opcode-IsCutOff direction rest (find_spec direction (of_le (take 2 rest))) refl
            (rw long at waits)
    ]
