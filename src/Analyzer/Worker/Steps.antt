-- ===== src/Analyzer/Worker/Steps.antt =====
-- internal/analyzer/worker.go: the rounds of `tryParsePackets` as equations, and that the loop ends.
use ro_proxy.Prelude.{ℕ, zero, suc, ◌-◌, ◌≤◌, ◌<◌, ◌≡◌, ◌≢◌, refl, ap, [], Option}
use ro_proxy.Prelude.{length, take, drop, length-drop, arith}
use ro_proxy.Prelude.Int.{ℤ}
use ro_proxy.Common.Base.{Bytes, PacketDirection, PacketSpec}
use ro_proxy.Packets.Parser.{ParsedPacket}
use ro_proxy.Analyzer.Worker.{Worker, Round, wait, skip, crash, packet, next_round, read_checksum}
use ro_proxy.Analyzer.Worker.{
  make_packet, Parse, parsed, panicked, out_of_fuel, add_packet, parse_loop,
}
use ro_proxy.Analyzer.Worker.{try_parse_packets}
use ro_proxy.Analyzer.Worker.Bounds.{next_round_bounds, next_round_skip, length-read_checksum}

-- The cases of a round, each with its equation.
pub data View (direction : PacketDirection) (buffer : Bytes) : Type 0 where
  waits : next_round direction buffer ≡ wait → View direction buffer
  skips : next_round direction buffer ≡ skip → View direction buffer
  crashes : next_round direction buffer ≡ crash → View direction buffer
  takes :
      (opcode : ℕ) (s : PacketSpec) (n : ℕ)
      → next_round direction buffer ≡ packet opcode s n
      → View direction buffer

View-of :
    (direction : PacketDirection) (buffer : Bytes) (r : Round)
    → next_round direction buffer ≡ r
    → View direction buffer
View-of direction buffer wait e = waits e
View-of direction buffer skip e = skips e
View-of direction buffer crash e = crashes e
View-of direction buffer (packet opcode s n) e = takes opcode s n e

pub view : (direction : PacketDirection) (buffer : Bytes) → View direction buffer
view direction buffer = View-of direction buffer (next_round direction buffer) refl

-- The checksum and the buffer behind a packet of `n` bytes.
abbrev pub behind : PacketDirection → ℕ → Bytes → Option ℕ × Bytes
behind direction n buffer = read_checksum direction (drop n buffer)

module _ (w : Worker) (direction : PacketDirection) (timestamp : ℤ) where
  abbrev pub taken : ℕ → PacketSpec → ℕ → Bytes → ParsedPacket
  taken opcode s n buffer =
      make_packet w direction timestamp opcode s (take n buffer) (behind direction n buffer).0

  pub parse_loop_wait :
      (fuel : ℕ) (buffer : Bytes)
      → next_round direction buffer ≡ wait
      → parse_loop w direction timestamp (suc fuel) buffer ≡ parsed [] buffer
  unfolding parse_loop
  parse_loop_wait fuel buffer e = rw (e, parse_loop)

  pub parse_loop_skip :
      (fuel : ℕ) (buffer : Bytes)
      → next_round direction buffer ≡ skip
      → parse_loop w direction timestamp (suc fuel) buffer
        ≡ parse_loop w direction timestamp fuel (drop 1 buffer)
  unfolding parse_loop
  parse_loop_skip fuel buffer e = rw (e, parse_loop)

  pub parse_loop_crash :
      (fuel : ℕ) (buffer : Bytes)
      → next_round direction buffer ≡ crash
      → parse_loop w direction timestamp (suc fuel) buffer ≡ panicked
  unfolding parse_loop
  parse_loop_crash fuel buffer e = rw (e, parse_loop)

  pub parse_loop_packet :
      (fuel : ℕ) (buffer : Bytes) (opcode : ℕ) (s : PacketSpec) (n : ℕ)
      → next_round direction buffer ≡ packet opcode s n
      → parse_loop w direction timestamp (suc fuel) buffer
        ≡ add_packet
            (taken opcode s n buffer)
            (parse_loop w direction timestamp fuel (behind direction n buffer).1)
  unfolding parse_loop
  parse_loop_packet fuel buffer opcode s n e = rw (e, parse_loop)

-- A packet shortens the buffer by its size at least.
length-behind :
    (direction : PacketDirection) (n : ℕ) (buffer : Bytes)
    → length (behind direction n buffer).1 ≤ length buffer - n
length-behind direction n buffer =
    omega (arith, length-read_checksum direction (drop n buffer), length-drop n buffer)

add_packet-ne-out_of_fuel :
    (p : ParsedPacket) (r : Parse) → r ≢ out_of_fuel → add_packet p r ≢ out_of_fuel
add_packet-ne-out_of_fuel p (parsed ps rest) h = λ e. cc
add_packet-ne-out_of_fuel p panicked h = λ e. cc
add_packet-ne-out_of_fuel p out_of_fuel h = λ e. h refl

module _ (w : Worker) (direction : PacketDirection) (timestamp : ℤ) where
  parse_loop-ne-out_of_fuel :
      (fuel : ℕ) (buffer : Bytes)
      → length buffer < fuel
      → parse_loop w direction timestamp fuel buffer ≢ out_of_fuel
  parse_loop-ne-out_of_fuel zero buffer h = absurd (omega arith)
  parse_loop-ne-out_of_fuel (suc fuel) buffer h = elim (view direction buffer) [
    | waits e ↦ rw (parse_loop_wait w direction timestamp fuel buffer e) (λ p. cc)
    | skips e ↦ rw (parse_loop_skip w direction timestamp fuel buffer e) (
        parse_loop-ne-out_of_fuel fuel (drop 1 buffer)
          (omega (arith, next_round_skip direction buffer e, length-drop 1 buffer)))
    | crashes e ↦ rw (parse_loop_crash w direction timestamp fuel buffer e) (λ p. cc)
    | takes opcode s n e ↦ rw (parse_loop_packet w direction timestamp fuel buffer opcode s n e) (
        add_packet-ne-out_of_fuel _ _ (
          parse_loop-ne-out_of_fuel fuel _ (
            omega (
              arith,
              length-behind direction n buffer,
              next_round_bounds direction buffer opcode s n e,
            ))))
  ]

  -- `tryParsePackets` ends on every buffer.
  pub try_parse_packets-ne-out_of_fuel :
      (buffer : Bytes) → try_parse_packets w direction timestamp buffer ≢ out_of_fuel
  unfolding try_parse_packets
  try_parse_packets-ne-out_of_fuel buffer =
      parse_loop-ne-out_of_fuel (suc (length buffer)) buffer (omega arith)

  -- Any fuel above the length of the buffer gives the same result.
  pub parse_loop_fuel :
      (f g : ℕ) (buffer : Bytes)
      → length buffer < f
      → length buffer < g
      → parse_loop w direction timestamp f buffer ≡ parse_loop w direction timestamp g buffer
  parse_loop_fuel zero g buffer hf hg = absurd (omega arith)
  parse_loop_fuel (suc f) zero buffer hf hg = absurd (omega arith)
  parse_loop_fuel (suc f) (suc g) buffer hf hg = elim (view direction buffer) [
    | waits e ↦ rw (
      parse_loop_wait w direction timestamp f buffer e,
      parse_loop_wait w direction timestamp g buffer e,
    )
    | skips e ↦
        rw
          (
            parse_loop_skip w direction timestamp f buffer e,
            parse_loop_skip w direction timestamp g buffer e,
          )
          (parse_loop_fuel f g (drop 1 buffer)
            (omega (arith, next_round_skip direction buffer e, length-drop 1 buffer))
            (omega (arith, next_round_skip direction buffer e, length-drop 1 buffer)))
    | crashes e ↦ rw (
      parse_loop_crash w direction timestamp f buffer e,
      parse_loop_crash w direction timestamp g buffer e,
    )
    | takes opcode s n e ↦
        rw
          (
            parse_loop_packet w direction timestamp f buffer opcode s n e,
            parse_loop_packet w direction timestamp g buffer opcode s n e,
          )
          (ap (add_packet _) (
            parse_loop_fuel f g _
              (omega (
                arith,
                length-behind direction n buffer,
                next_round_bounds direction buffer opcode s n e,
              ))
              (omega (
                arith,
                length-behind direction n buffer,
                next_round_bounds direction buffer opcode s n e,
              ))))
  ]

pub next_round_nil : (direction : PacketDirection) → next_round direction [] ≡ wait
unfolding next_round
next_round_nil direction = refl

pub try_parse_packets_nil :
    (w : Worker) (direction : PacketDirection) (timestamp : ℤ)
    → try_parse_packets w direction timestamp [] ≡ parsed [] []
unfolding try_parse_packets
try_parse_packets_nil w direction timestamp =
    parse_loop_wait w direction timestamp 0 [] (next_round_nil direction)
