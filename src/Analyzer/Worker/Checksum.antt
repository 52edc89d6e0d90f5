-- ===== src/Analyzer/Worker/Checksum.antt =====
-- internal/analyzer/worker.go: the byte that the parser takes for the checksum of a client's packet.
use ro_proxy.Prelude.{
  ℕ, ◌≡◌, refl, ap, ◌∙◌, [], ◌∷◌, ◌++◌, some, none, length, take-append_self, drop-append_self,
  length-append, true, arith,
}
use ro_proxy.Prelude.Int.{ℤ}
use ro_proxy.Common.Base.{Bytes, client_to_server, PacketSpec}
use ro_proxy.Analyzer.Worker.{
  Worker, packet, next_round, read_checksum, make_packet, parsed, add_packet, try_parse_packets,
  is_send_opcode,
}
use ro_proxy.Analyzer.Worker.Steps.{try_parse_packets_nil, parse_loop_packet, parse_loop_fuel}
use ro_proxy.Analyzer.Worker.Append.{next_round-append}
use ro_proxy.Analyzer.Worker.Bounds.{next_round_bounds, length-read_checksum}

read_checksum_opcode :
    (a b c : ℕ) (rest : Bytes)
    → is_send_opcode (a ∷ b ∷ []) ≡ true
    → read_checksum client_to_server (a ∷ b ∷ c ∷ rest) ≡ (none, a ∷ b ∷ c ∷ rest)
unfolding read_checksum
read_checksum_opcode a b c rest known = rw known

module _ (w : Worker) (timestamp : ℤ) (buffer : Bytes) (opcode : ℕ) (s : PacketSpec)
    (whole : next_round client_to_server buffer ≡ packet opcode s (length buffer)) where
  round_with :
      (more : Bytes)
      → next_round client_to_server (buffer ++ more) ≡ packet opcode s (length buffer)
  round_with more = next_round-append client_to_server buffer more (λ e. cc) ∙ whole

  -- The packet is cut off the front, whatever follows.
  parse_whole :
      (more : Bytes)
      → try_parse_packets w client_to_server timestamp (buffer ++ more)
        ≡ add_packet
            (make_packet w client_to_server timestamp opcode s buffer
              (read_checksum client_to_server more).0)
            (try_parse_packets w client_to_server timestamp (read_checksum client_to_server more).1)
  unfolding try_parse_packets
  parse_whole more =
      parse_loop_packet w client_to_server timestamp _ (buffer ++ more) opcode s (length buffer)
        (round_with more)
      ∙ rw
          (
            take-append_self (length buffer) buffer more refl,
            drop-append_self (length buffer) buffer more refl,
          )
          (ap (add_packet _) (
            parse_loop_fuel w client_to_server timestamp _ _ (read_checksum client_to_server more).1
              (omega (
                arith,
                length-append buffer more,
                length-read_checksum client_to_server more,
                next_round_bounds client_to_server buffer opcode s (length buffer) whole,
              ))
              (omega arith)))

  -- Where the buffer is exactly one packet of the client's, one more byte behind it is taken for
  -- its checksum, whatever it is: also the first byte of the next packet, of which the rest has not
  -- arrived.
  pub lone_byte_taken :
      (b : ℕ)
      → try_parse_packets w client_to_server timestamp (buffer ++ (b ∷ []))
        ≡ parsed (make_packet w client_to_server timestamp opcode s buffer (some b) ∷ []) []
  unfolding read_checksum
  lone_byte_taken b =
      parse_whole (b ∷ [])
      ∙ ap (add_packet (make_packet w client_to_server timestamp opcode s buffer (some b)))
          (try_parse_packets_nil w client_to_server timestamp)

  -- Where the two bytes behind such a packet, of three at least, are an opcode of the client's,
  -- none is taken for a checksum, and parsing goes on with them.
  pub next_opcode_kept :
      (a b c : ℕ) (rest : Bytes)
      → is_send_opcode (a ∷ b ∷ []) ≡ true
      → try_parse_packets w client_to_server timestamp (buffer ++ (a ∷ b ∷ c ∷ rest))
        ≡ add_packet
            (make_packet w client_to_server timestamp opcode s buffer none)
            (try_parse_packets w client_to_server timestamp (a ∷ b ∷ c ∷ rest))
  next_opcode_kept a b c rest known =
      parse_whole (a ∷ b ∷ c ∷ rest) ∙ rw (read_checksum_opcode a b c rest known)
