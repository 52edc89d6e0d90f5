-- ===== src/Analyzer/Worker/Rest.antt =====
-- internal/analyzer/worker.go: what a parse leaves in the buffer, and what its packets carry of the
-- connection.
use ro_proxy.Prelude.{ℕ, zero, suc, ◌≡◌, refl, ap, ◌∙◌, List, [], ◌∷◌, map, length, drop, Option}
use ro_proxy.Prelude.Int.{ℤ}
use ro_proxy.Common.Base.{Bytes, PacketDirection, server_to_client, client_to_server, PacketSpec}
use ro_proxy.Packets.Parser.{ParsedPacket}
use ro_proxy.Analyzer.Worker.{Worker, wait, next_round, make_packet}
use ro_proxy.Analyzer.Worker.{
  Parse, parsed, panicked, out_of_fuel, add_packet, parse_loop, try_parse_packets,
}
use ro_proxy.Analyzer.Worker.Steps.{waits, skips, crashes, takes, view}
use ro_proxy.Analyzer.Worker.Steps.{
  parse_loop_wait, parse_loop_skip, parse_loop_crash, parse_loop_packet,
}

-- The rest of a successful parse has a property.
abbrev RestIs : (Bytes → Type 0) → Parse → Type 0
RestIs P (parsed ps rest) = P rest
RestIs P panicked = Unit
RestIs P out_of_fuel = Unit

RestIs-add_packet :
    (P : Bytes → Type 0) (p : ParsedPacket) (r : Parse) → RestIs P r → RestIs P (add_packet p r)
RestIs-add_packet P p (parsed ps rest) h = h
RestIs-add_packet P p panicked h = tt
RestIs-add_packet P p out_of_fuel h = tt

module _ (w : Worker) (direction : PacketDirection) (timestamp : ℤ) where
  abbrev Waits : Bytes → Type 0
  Waits rest = next_round direction rest ≡ wait

  parse_loop_rest :
      (fuel : ℕ) (buffer : Bytes) → RestIs Waits (parse_loop w direction timestamp fuel buffer)
  parse_loop_rest zero buffer = unfold parse_loop in tt
  parse_loop_rest (suc fuel) buffer = elim (view direction buffer) [
    | waits e ↦ rw (parse_loop_wait w direction timestamp fuel buffer e) e
    | skips e ↦
        rw (parse_loop_skip w direction timestamp fuel buffer e)
          (parse_loop_rest fuel (drop 1 buffer))
    | crashes e ↦ rw (parse_loop_crash w direction timestamp fuel buffer e) tt
    | takes opcode s n e ↦ rw (parse_loop_packet w direction timestamp fuel buffer opcode s n e) (
        RestIs-add_packet Waits _ (parse_loop w direction timestamp fuel _)
          (parse_loop_rest fuel _))
  ]

  -- What stays in the buffer after a parse is waiting for more bytes: no packet can be cut from it.
  pub rest_waits :
      (buffer : Bytes) (ps : List ParsedPacket) (rest : Bytes)
      → try_parse_packets w direction timestamp buffer ≡ parsed ps rest
      → next_round direction rest ≡ wait
  unfolding try_parse_packets
  rest_waits buffer ps rest e = rw e at (parse_loop_rest (suc (length buffer)) buffer)

-- The packets that came from the server, in their order.
unfoldable pub server_packets : List ParsedPacket → List ParsedPacket
server_packets [] = []
server_packets (p ∷ ps) = elim p.direction [
  | server_to_client ↦ p ∷ server_packets ps
  | client_to_server ↦ server_packets ps
]

-- A packet as if it had arrived at another time.
abbrev pub retime : ℤ → ParsedPacket → ParsedPacket
retime t p = record p { timestamp = t }

-- What a parse shows of the server's packets but for their time.
abbrev pub seen : ℤ → Parse → Parse
seen t (parsed ps rest) = parsed (map (retime t) (server_packets ps)) rest
seen t panicked = panicked
seen t out_of_fuel = out_of_fuel

module _ (w : Worker) (timestamp t : ℤ) where
  seen-add_packet :
      (opcode : ℕ) (s : PacketSpec) (bytes : Bytes) (checksum : Option ℕ) (r : Parse)
      → seen t (add_packet (make_packet w server_to_client timestamp opcode s bytes checksum) r)
        ≡ add_packet (make_packet w server_to_client t opcode s bytes checksum) (seen t r)
  unfolding make_packet server_packets
  seen-add_packet opcode s bytes checksum (parsed ps rest) = refl
  seen-add_packet opcode s bytes checksum panicked = refl
  seen-add_packet opcode s bytes checksum out_of_fuel = refl

  seen-parse_loop :
      (fuel : ℕ) (buffer : Bytes)
      → seen t (parse_loop w server_to_client timestamp fuel buffer)
        ≡ parse_loop w server_to_client t fuel buffer
  seen-parse_loop zero buffer = unfold parse_loop in refl
  seen-parse_loop (suc fuel) buffer = elim (view server_to_client buffer) [
    | waits e ↦
        rw
          (
            parse_loop_wait w server_to_client timestamp fuel buffer e,
            parse_loop_wait w server_to_client t fuel buffer e,
          )
          (unfold server_packets in refl)
    | skips e ↦
        rw
          (
            parse_loop_skip w server_to_client timestamp fuel buffer e,
            parse_loop_skip w server_to_client t fuel buffer e,
          )
          (seen-parse_loop fuel (drop 1 buffer))
    | crashes e ↦ rw (
      parse_loop_crash w server_to_client timestamp fuel buffer e,
      parse_loop_crash w server_to_client t fuel buffer e,
    )
    | takes opcode s n e ↦
        rw
          (
            parse_loop_packet w server_to_client timestamp fuel buffer opcode s n e,
            parse_loop_packet w server_to_client t fuel buffer opcode s n e,
          )
          (seen-add_packet opcode s _ _ (parse_loop w server_to_client timestamp fuel _)
            ∙ ap (add_packet _) (seen-parse_loop fuel _))
  ]

  pub seen-try_parse_packets :
      (buffer : Bytes)
      → seen t (try_parse_packets w server_to_client timestamp buffer)
        ≡ try_parse_packets w server_to_client t buffer
  unfolding try_parse_packets
  seen-try_parse_packets buffer = seen-parse_loop (suc (length buffer)) buffer

-- A parse of the client's bytes yields no packet of the server.
abbrev NoneSeen : Parse → Type 0
NoneSeen (parsed ps rest) = server_packets ps ≡ []
NoneSeen panicked = Unit
NoneSeen out_of_fuel = Unit

module _ (w : Worker) (timestamp : ℤ) where
  NoneSeen-add_packet :
      (opcode : ℕ) (s : PacketSpec) (bytes : Bytes) (checksum : Option ℕ) (r : Parse)
      → NoneSeen r
      → NoneSeen (add_packet (make_packet w client_to_server timestamp opcode s bytes checksum) r)
  unfolding make_packet server_packets
  NoneSeen-add_packet opcode s bytes checksum (parsed ps rest) h = h
  NoneSeen-add_packet opcode s bytes checksum panicked h = tt
  NoneSeen-add_packet opcode s bytes checksum out_of_fuel h = tt

  parse_loop-NoneSeen :
      (fuel : ℕ) (buffer : Bytes) → NoneSeen (parse_loop w client_to_server timestamp fuel buffer)
  parse_loop-NoneSeen zero buffer = unfold parse_loop in tt
  parse_loop-NoneSeen (suc fuel) buffer = elim (view client_to_server buffer) [
    | waits e ↦
        rw (parse_loop_wait w client_to_server timestamp fuel buffer e)
          (unfold server_packets in refl)
    | skips e ↦
        rw (parse_loop_skip w client_to_server timestamp fuel buffer e)
          (parse_loop-NoneSeen fuel (drop 1 buffer))
    | crashes e ↦ rw (parse_loop_crash w client_to_server timestamp fuel buffer e) tt
    | takes opcode s n e ↦
        rw (parse_loop_packet w client_to_server timestamp fuel buffer opcode s n e) (
          NoneSeen-add_packet opcode s _ _ (parse_loop w client_to_server timestamp fuel _)
            (parse_loop-NoneSeen fuel _))
  ]

  pub client_parse_none_seen :
      (buffer : Bytes) (ps : List ParsedPacket) (rest : Bytes)
      → try_parse_packets w client_to_server timestamp buffer ≡ parsed ps rest
      → server_packets ps ≡ []
  unfolding try_parse_packets
  client_parse_none_seen buffer ps rest e =
      rw e at (parse_loop-NoneSeen (suc (length buffer)) buffer)
