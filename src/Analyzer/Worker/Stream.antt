-- ===== src/Analyzer/Worker/Stream.antt =====
-- internal/analyzer/worker.go: the server's packets do not depend on how TCP cuts the stream into
-- chunks, nor on the client's chunks between them.
use ro_proxy.Prelude.{ℕ, zero, suc, ◌<◌, ◌≡◌, ◌≢◌, refl, ap, sym, ◌∙◌, List, [], ◌∷◌, ◌++◌}
use ro_proxy.Prelude.{
  length, drop, length-append, length-drop, take-append_left, drop-append_left, arith,
}
use ro_proxy.Prelude.Int.{ℤ}
use ro_proxy.Common.Base.{Bytes, server_to_client}
use ro_proxy.Packets.Parser.{ParsedPacket}
use ro_proxy.Analyzer.Worker.{Worker, Round, wait, skip, crash, packet, next_round, read_checksum}
use ro_proxy.Analyzer.Worker.{
  Parse, parsed, panicked, out_of_fuel, add_packet, parse_loop, try_parse_packets,
}
use ro_proxy.Analyzer.Worker.Bounds.{next_round_bounds, next_round_skip}
use ro_proxy.Analyzer.Worker.Steps.{waits, skips, crashes, takes, view}
use ro_proxy.Analyzer.Worker.Steps.{
  parse_loop_wait, parse_loop_skip, parse_loop_crash, parse_loop_packet,
}
use ro_proxy.Analyzer.Worker.Steps.{parse_loop_fuel}
use ro_proxy.Analyzer.Worker.Append.{next_round-append}

abbrev pub prepend : List ParsedPacket → Parse → Parse
prepend [] r = r
prepend (p ∷ ps) r = add_packet p (prepend ps r)

module _ (w : Worker) (timestamp : ℤ) where
  -- A parse goes on when more of the server's bytes arrive.
  abbrev pub resume : Parse → Bytes → Parse
  resume (parsed ps rest) more =
      prepend ps (try_parse_packets w server_to_client timestamp (rest ++ more))
  resume panicked more = panicked
  resume out_of_fuel more = out_of_fuel

  resume-add_packet :
      (p : ParsedPacket) (r : Parse) (more : Bytes)
      → resume (add_packet p r) more ≡ add_packet p (resume r more)
  resume-add_packet p (parsed ps rest) more = refl
  resume-add_packet p panicked more = refl
  resume-add_packet p out_of_fuel more = refl

  abbrev loop : ℕ → Bytes → Parse
  loop = parse_loop w server_to_client timestamp

  -- What a round settles before the bytes arrive, it settles so afterwards.
  settled :
      (buffer more : Bytes) (r : Round)
      → next_round server_to_client buffer ≡ r
      → r ≢ wait
      → next_round server_to_client (buffer ++ more) ≡ r
  settled buffer more r e ne =
      next_round-append server_to_client buffer more (λ h. ne (sym e ∙ h)) ∙ e

  parse_loop-append :
      (f g : ℕ) (buffer more : Bytes)
      → length buffer < f
      → length (buffer ++ more) < g
      → loop g (buffer ++ more) ≡ resume (loop f buffer) more
  unfolding read_checksum
  parse_loop-append zero g buffer more hf hg = absurd (omega arith)
  parse_loop-append (suc f) zero buffer more hf hg = absurd (omega arith)
  parse_loop-append (suc f) (suc g) buffer more hf hg = elim (view server_to_client buffer) [
    | waits e ↦ rw (parse_loop_wait w server_to_client timestamp f buffer e) (
        unfold try_parse_packets in
        parse_loop_fuel w server_to_client timestamp (suc g) _ (buffer ++ more) hg (omega arith))
    | skips e ↦
        parse_loop_skip w server_to_client timestamp g (buffer ++ more)
          (settled buffer more skip e (λ h. cc))
        ∙ ap (loop g) (
            drop-append_left 1 buffer more
              (omega (arith, next_round_skip server_to_client buffer e)))
        ∙ parse_loop-append f g (drop 1 buffer) more
            (omega (arith, length-drop 1 buffer, next_round_skip server_to_client buffer e))
            (omega (
              arith,
              length-drop 1 buffer,
              next_round_skip server_to_client buffer e,
              length-append (drop 1 buffer) more,
              length-append buffer more,
            ))
        ∙ ap (λ r. resume r more) (sym (parse_loop_skip w server_to_client timestamp f buffer e))
    | crashes e ↦ rw (
      parse_loop_crash w server_to_client timestamp f buffer e,
      parse_loop_crash w server_to_client timestamp g (buffer ++ more)
          (settled buffer more crash e (λ h. cc)),
    )
    | takes opcode s n e ↦
        let (two, fits) = next_round_bounds server_to_client buffer opcode s n e in
        parse_loop_packet w server_to_client timestamp g (buffer ++ more) opcode s n
          (settled buffer more (packet opcode s n) e (λ h. cc))
        ∙ rw (take-append_left n buffer more fits, drop-append_left n buffer more fits)
            (ap (add_packet _) (
              parse_loop-append f g (drop n buffer) more (omega (arith, length-drop n buffer)) (
                omega (
                  arith,
                  length-drop n buffer,
                  length-append (drop n buffer) more,
                  length-append buffer more,
                ))))
        ∙ sym (resume-add_packet _ (loop f (drop n buffer)) more)
        ∙ ap (λ r. resume r more)
            (sym (parse_loop_packet w server_to_client timestamp f buffer opcode s n e))
  ]

  -- The server's packets cut from two pieces of the stream, one after the other, are those cut from
  -- both together, and the same bytes stay in the buffer.
  pub try_parse_packets-append :
      (buffer more : Bytes)
      → try_parse_packets w server_to_client timestamp (buffer ++ more)
        ≡ resume (try_parse_packets w server_to_client timestamp buffer) more
  try_parse_packets-append buffer more =
      unfold try_parse_packets in
      parse_loop-append (suc (length buffer)) (suc (length (buffer ++ more))) buffer more
        (omega arith) (omega arith)
