-- ===== src/Analyzer/Worker/Append.antt =====
-- internal/analyzer/worker.go: a settled round of the parser is the same when the buffer grows.
use ro_proxy.Prelude.{◌≤◌, ◌<◌, ◌≡◌, ◌≢◌, refl, [], ◌∷◌, ◌++◌, Option, some, none}
use ro_proxy.Prelude.{
  length, drop, length-drop, length-append, take-append_left, drop-append_left, leb, ltb,
  Bool-cases, inl, inr, arith,
}
use ro_proxy.Prelude.Int.{ℤ, pos, negsuc}
use ro_proxy.Common.Base.{Bytes, PacketDirection, PacketSpec, PacketSizeType}
use ro_proxy.Common.Base.{fixed, fixed_min, indicated_in_packet, unknown, http}
use ro_proxy.Analyzer.Worker.{wait, next_round, find_spec}
use ro_proxy.Analyzer.Worker.{
  uint16_at_front, parse_http_packet, starts_with_delimiter, indicated_size,
}
use ro_proxy.Analyzer.Worker.{incomplete, packet_extent}

starts_with_delimiter-append :
    (buffer more : Bytes)
    → 4 ≤ length buffer
    → starts_with_delimiter (buffer ++ more) ≡ starts_with_delimiter buffer
unfolding starts_with_delimiter
starts_with_delimiter-append [] more h = absurd (omega arith)
starts_with_delimiter-append (a ∷ []) more h = absurd (omega arith)
starts_with_delimiter-append (a ∷ b ∷ []) more h = absurd (omega arith)
starts_with_delimiter-append (a ∷ b ∷ c ∷ []) more h = absurd (omega arith)
starts_with_delimiter-append (a ∷ b ∷ c ∷ d ∷ rest) more h = refl

parse_http_packet_short : (buffer : Bytes) → length buffer < 4 → parse_http_packet buffer ≡ none
unfolding parse_http_packet starts_with_delimiter
parse_http_packet_short [] h = refl
parse_http_packet_short (a ∷ []) h = refl
parse_http_packet_short (a ∷ b ∷ []) h = refl
parse_http_packet_short (a ∷ b ∷ c ∷ []) h = refl
parse_http_packet_short (a ∷ b ∷ c ∷ d ∷ rest) h = absurd (omega arith)

parse_http_packet-append :
    (buffer more : Bytes)
    → parse_http_packet buffer ≢ none
    → parse_http_packet (buffer ++ more) ≡ parse_http_packet buffer
unfolding parse_http_packet
parse_http_packet-append [] more ne = absurd (ne refl)
parse_http_packet-append (b ∷ bs) more ne = elim (Bool-cases (leb 4 (length (b ∷ bs)))) [
  | inl long ↦ ground (
    arith,
    starts_with_delimiter-append (b ∷ bs) more (ground arith),
    parse_http_packet-append bs more,
  )
  | inr short ↦ absurd (ne (parse_http_packet_short (b ∷ bs) (ground arith)))
]

uint16_at_front-append :
    (buffer more : Bytes)
    → 2 ≤ length buffer
    → uint16_at_front (buffer ++ more) ≡ uint16_at_front buffer
uint16_at_front-append buffer more h = rw (take-append_left 2 buffer more h)

indicated_size-append :
    (buffer more : Bytes)
    → 4 ≤ length buffer
    → indicated_size (buffer ++ more) ≡ indicated_size buffer
indicated_size-append buffer more h = rw (
  drop-append_left 2 buffer more (omega arith),
  take-append_left 2 (drop 2 buffer) more (omega (arith, length-drop 2 buffer)),
)

-- An extent that is settled stays as it is when the buffer grows.
packet_extent-append :
    (t : PacketSizeType) (size : ℤ) (buffer more : Bytes)
    → packet_extent t size buffer ≢ incomplete
    → packet_extent t size (buffer ++ more) ≡ packet_extent t size buffer
unfolding packet_extent
packet_extent-append fixed (pos k) buffer more ne = ground (arith, length-append buffer more)
packet_extent-append fixed (negsuc k) buffer more ne = refl
packet_extent-append fixed_min (pos k) buffer more ne = ground (arith, length-append buffer more)
packet_extent-append fixed_min (negsuc k) buffer more ne = refl
packet_extent-append indicated_in_packet z buffer more ne =
    ground (arith, length-append buffer more, indicated_size-append buffer more)
packet_extent-append http z buffer more ne = ground (arith, parse_http_packet-append buffer more)
packet_extent-append unknown z buffer more ne = refl

-- A round that does not wait for bytes is the same when the buffer grows.
pub next_round-append :
    (direction : PacketDirection) (buffer more : Bytes)
    → next_round direction buffer ≢ wait
    → next_round direction (buffer ++ more) ≡ next_round direction buffer
unfolding next_round
next_round-append direction buffer more ne = elim (Bool-cases (ltb (length buffer) 2)) [
  | inl short ↦ absurd (ne (rw (short, next_round)))
  | inr long ↦ go (find_spec direction (uint16_at_front buffer)) refl (ground arith)
]
  where
    go :
        (o : Option PacketSpec)
        → find_spec direction (uint16_at_front buffer) ≡ o
        → 2 ≤ length buffer
        → next_round direction (buffer ++ more) ≡ next_round direction buffer
    go none e h = ground (arith, length-append buffer more, uint16_at_front-append buffer more h)
    go (some s) e h = ground (
      arith,
      length-append buffer more,
      uint16_at_front-append buffer more h,
      packet_extent-append s.type s.size buffer more,
    )
