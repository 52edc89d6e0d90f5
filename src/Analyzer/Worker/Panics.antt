-- ===== src/Analyzer/Worker/Panics.antt =====
-- internal/analyzer/worker.go: the one opcode whose size makes `tryParsePackets` panic.
use ro_proxy.Prelude.{ℕ, zero, suc, ◌≤◌, ◌≡◌, ◌≢◌, ◌↔◌, refl, Option, some, none}
use ro_proxy.Prelude.{length, drop, ◌==◌, ==_iff, Bool-cases, inl, inr, false, arith}
use ro_proxy.Prelude.Int.{ℤ, pos, negsuc}
use ro_proxy.Common.Base.{
  Bytes, PacketDirection, server_to_client, client_to_server, PacketSpec, PacketSizeType,
}
use ro_proxy.Common.Base.{fixed, fixed_min, indicated_in_packet, unknown, http, spec}
use ro_proxy.Packets.Receive
use ro_proxy.Packets.Sizes.{IsSound, send_sizes, receive_sizes}
use ro_proxy.Analyzer.Worker.{Worker, find_spec, uint16_at_front, crash, next_round, negative}
use ro_proxy.Analyzer.Worker.{
  Parse, parsed, panicked, out_of_fuel, add_packet, parse_loop, try_parse_packets, packet_extent,
}
use ro_proxy.Analyzer.Worker.Steps.{
  waits, skips, crashes, takes, view, parse_loop_wait, parse_loop_skip, parse_loop_packet,
}

-- A sound size is not negative.
packet_extent-ne-negative :
    (t : PacketSizeType) (z : ℤ) (buffer : Bytes)
    → IsSound t z
    → packet_extent t z buffer ≢ negative
unfolding packet_extent
packet_extent-ne-negative fixed (pos n) buffer s = ground arith
packet_extent-ne-negative fixed (negsuc n) buffer s = absurd s
packet_extent-ne-negative fixed_min (pos n) buffer s = ground arith
packet_extent-ne-negative fixed_min (negsuc n) buffer s = absurd s
packet_extent-ne-negative indicated_in_packet z buffer s = ground arith
packet_extent-ne-negative http z buffer s = ground arith
packet_extent-ne-negative unknown z buffer s = λ e. cc

-- The specification at which a round panics.
next_round_crash :
    (direction : PacketDirection) (buffer : Bytes)
    → next_round direction buffer ≡ crash
    → (s : PacketSpec) × (find_spec direction (uint16_at_front buffer) ≡ some s)
      × (packet_extent s.type s.size buffer ≡ negative)
next_round_crash direction buffer e = go (find_spec direction (uint16_at_front buffer)) refl
  where
    go :
        (o : Option PacketSpec)
        → find_spec direction (uint16_at_front buffer) ≡ o
        → (s : PacketSpec) × (find_spec direction (uint16_at_front buffer) ≡ some s)
          × (packet_extent s.type s.size buffer ≡ negative)
    go none f = unfold next_round in ground arith
    go (some s) f = (s, f, unfold next_round in ground arith)

client_round-ne-crash : (buffer : Bytes) → next_round client_to_server buffer ≢ crash
client_round-ne-crash buffer e =
    let (s, found, extent) = next_round_crash client_to_server buffer e in
    packet_extent-ne-negative s.type s.size buffer
      (send_sizes (uint16_at_front buffer) s (unfold find_spec in found)) extent

add_packet-ne-panicked : (p : _) (r : Parse) → r ≢ panicked → add_packet p r ≢ panicked
add_packet-ne-panicked p (parsed ps rest) h = λ e. cc
add_packet-ne-panicked p panicked h = λ e. h refl
add_packet-ne-panicked p out_of_fuel h = λ e. cc

client_loop-ne-panicked :
    (w : Worker) (timestamp : ℤ) (fuel : ℕ) (buffer : Bytes)
    → parse_loop w client_to_server timestamp fuel buffer ≢ panicked
client_loop-ne-panicked w timestamp zero buffer = unfold parse_loop in λ e. cc
client_loop-ne-panicked w timestamp (suc fuel) buffer = elim (view client_to_server buffer) [
  | waits e ↦ rw (parse_loop_wait w client_to_server timestamp fuel buffer e) (λ p. cc)
  | skips e ↦
      rw (parse_loop_skip w client_to_server timestamp fuel buffer e)
        (client_loop-ne-panicked w timestamp fuel (drop 1 buffer))
  | crashes e ↦ absurd (client_round-ne-crash buffer e)
  | takes opcode s n e ↦
      rw (parse_loop_packet w client_to_server timestamp fuel buffer opcode s n e)
        (add_packet-ne-panicked _ _ (client_loop-ne-panicked w timestamp fuel _))
]

-- Parsing the client's bytes never panics, whatever they are.
pub client_parse-ne-panicked :
    (w : Worker) (timestamp : ℤ) (buffer : Bytes)
    → try_parse_packets w client_to_server timestamp buffer ≢ panicked
unfolding try_parse_packets
client_parse-ne-panicked w timestamp buffer =
    client_loop-ne-panicked w timestamp (suc (length buffer)) buffer

identify_list :
    find_spec server_to_client 0x0177 ≡ some (spec "Identify List" (negsuc 0) fixed none false)
unfolding find_spec Receive.packet_database
identify_list = refl

-- A buffer of the server's bytes, of two bytes or more, makes the next round panic exactly where it
-- starts with the opcode 0x0177.
pub server_round_crash_iff :
    (buffer : Bytes)
    → 2 ≤ length buffer
    → (next_round server_to_client buffer ≡ crash) ↔ (uint16_at_front buffer ≡ 0x0177)
server_round_crash_iff buffer long = (only, panics)
  where
    only : next_round server_to_client buffer ≡ crash → uint16_at_front buffer ≡ 0x0177
    only e =
        let (s, found, extent) = next_round_crash server_to_client buffer e in
        elim (Bool-cases (uint16_at_front buffer == 0x0177)) [
          | inl same ↦ (==_iff _ _).0 same
          | inr other ↦ absurd (
              packet_extent-ne-negative s.type s.size buffer
                (receive_sizes (uint16_at_front buffer) s (unfold find_spec in found)
                  (λ q. cc (other, (==_iff (uint16_at_front buffer) 0x0177).1 q)))
                extent)
        ]

    panics : uint16_at_front buffer ≡ 0x0177 → next_round server_to_client buffer ≡ crash
    panics e = unfold next_round packet_extent in ground (arith, e, identify_list)
