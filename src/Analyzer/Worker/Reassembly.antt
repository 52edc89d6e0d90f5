-- ===== src/Analyzer/Worker/Reassembly.antt =====
-- internal/analyzer/worker.go: the packets of the server that a worker hands on are those of the
-- whole stream of the server's bytes.
use ro_proxy.Prelude.{
  ◌≡◌, refl, ap, sym, ◌∙◌, List, [], ◌∷◌, ◌++◌, map, append_assoc, append-nil, ◌⊎◌, inl, inr, arith,
}
use mathlib.Core.List.{map-append}
use ro_proxy.Prelude.Int.{pos}
use ro_proxy.Common.Base.{Bytes, PacketDirection, server_to_client, client_to_server}
use ro_proxy.Packets.Parser.{RawChunk, ParsedPacket}
use ro_proxy.Analyzer.Worker.{
  Worker, wait, next_round, Parse, parsed, panicked, out_of_fuel, try_parse_packets,
}
use ro_proxy.Analyzer.Worker.Steps.{parse_loop_wait, try_parse_packets-ne-out_of_fuel}
use ro_proxy.Analyzer.Worker.Panics.{client_parse-ne-panicked}
use ro_proxy.Analyzer.Worker.Loop.{
  Buffers, Processed, processed, chunk_panicked, process_chunk, process_chunks, after_packets,
  to_processed,
}
use ro_proxy.Analyzer.Worker.Rest.{
  rest_waits, server_packets, retime, seen, seen-try_parse_packets, client_parse_none_seen,
}
use ro_proxy.Analyzer.Worker.Stream.{prepend, resume, try_parse_packets-append}

-- The server's bytes among chunks.
abbrev pub server_bytes : List RawChunk → Bytes
server_bytes [] = []
server_bytes (c ∷ cs) = elim c.direction [
  | server_to_client ↦ c.bytes ++ server_bytes cs
  | client_to_server ↦ server_bytes cs
]

-- What a worker's run shows of the server's side, but for the times of arrival.
abbrev pub server_view : Processed → Parse
server_view (processed ps b) = seen (pos 0) (parsed ps b.server)
server_view chunk_panicked = panicked

server_packets-append :
    (ps qs : List ParsedPacket) → server_packets (ps ++ qs) ≡ server_packets ps ++ server_packets qs
unfolding server_packets
server_packets-append [] qs = refl
server_packets-append (p ∷ ps) qs = ground (arith, server_packets-append ps qs)

prepend_panicked : (ps : List ParsedPacket) → prepend ps panicked ≡ panicked
prepend_panicked [] = refl
prepend_panicked (p ∷ ps) = rw (prepend_panicked ps)

prepend_parsed :
    (ps qs : List ParsedPacket) (rest : Bytes)
    → prepend ps (parsed qs rest) ≡ parsed (ps ++ qs) rest
prepend_parsed [] qs rest = refl
prepend_parsed (p ∷ ps) qs rest = rw (prepend_parsed ps qs rest)

server_view-after_packets :
    (ps : List ParsedPacket) (r : Processed)
    → server_view (after_packets ps r)
      ≡ prepend (map (retime (pos 0)) (server_packets ps)) (server_view r)
server_view-after_packets ps (processed qs b) =
    rw (prepend_parsed, server_packets-append ps qs, map-append)
server_view-after_packets ps chunk_panicked =
    sym (prepend_panicked (map (retime (pos 0)) (server_packets ps)))

module _ (w : Worker) (c : RawChunk) (cs : List RawChunk) (b : Buffers) where
  step_processed :
      (ps : List ParsedPacket) (b' : Buffers)
      → process_chunk w c b ≡ processed ps b'
      → process_chunks w (c ∷ cs) b ≡ after_packets ps (process_chunks w cs b')
  unfolding process_chunks
  step_processed ps b' e = rw (e, process_chunks)

  step_panicked :
      process_chunk w c b ≡ chunk_panicked → process_chunks w (c ∷ cs) b ≡ chunk_panicked
  unfolding process_chunks
  step_panicked e = rw (e, process_chunks)

  abbrev server_parse : Parse
  server_parse = try_parse_packets w server_to_client c.timestamp (b.server ++ c.bytes)

  abbrev client_parse : Parse
  client_parse = try_parse_packets w client_to_server c.timestamp (b.client ++ c.bytes)

  server_chunk :
      c.direction ≡ server_to_client
      → process_chunk w c b ≡ to_processed (λ rest. record b { server = rest }) server_parse
  unfolding process_chunk try_parse_packets
  server_chunk e = rw (e, process_chunk)

  client_chunk :
      c.direction ≡ client_to_server
      → process_chunk w c b ≡ to_processed (λ rest. record b { client = rest }) client_parse
  unfolding process_chunk try_parse_packets
  client_chunk e = rw (e, process_chunk)

PacketDirection-cases : (d : PacketDirection) → (d ≡ server_to_client) ⊎ (d ≡ client_to_server)
PacketDirection-cases server_to_client = inl refl
PacketDirection-cases client_to_server = inr refl

abbrev whole : Worker → Bytes → Parse
whole w = try_parse_packets w server_to_client (pos 0)

-- The statement of the theorem below for the chunks `cs`.
abbrev Reassembles : Worker → List RawChunk → Type 0
Reassembles w cs =
    (b : Buffers)
    → next_round server_to_client b.server ≡ wait
    → server_view (process_chunks w cs b) ≡ whole w (b.server ++ server_bytes cs)

module _ (w : Worker) (c : RawChunk) (cs : List RawChunk) (b : Buffers) where
  server_bytes-cons :
      c.direction ≡ server_to_client → server_bytes (c ∷ cs) ≡ c.bytes ++ server_bytes cs
  server_bytes-cons e = ground arith

  server_bytes-skip : c.direction ≡ client_to_server → server_bytes (c ∷ cs) ≡ server_bytes cs
  server_bytes-skip e = ground arith

  -- The whole stream, parsed up to the end of the chunk and from there on.
  whole_split :
      c.direction ≡ server_to_client
      → whole w (b.server ++ server_bytes (c ∷ cs))
        ≡ resume w (pos 0) (seen (pos 0) (server_parse w c cs b)) (server_bytes cs)
  whole_split e =
      ap (λ t. whole w (b.server ++ t)) (server_bytes-cons e)
      ∙ ap (whole w) (sym (append_assoc b.server c.bytes (server_bytes cs)))
      ∙ try_parse_packets-append w (pos 0) (b.server ++ c.bytes) (server_bytes cs)
      ∙ ap (λ r. resume w (pos 0) r (server_bytes cs))
          (sym (seen-try_parse_packets w c.timestamp (pos 0) (b.server ++ c.bytes)))

  from_server :
      Reassembles w cs
      → (r : Parse) → server_parse w c cs b ≡ r
      → c.direction ≡ server_to_client
      → server_view (process_chunks w (c ∷ cs) b) ≡ whole w (b.server ++ server_bytes (c ∷ cs))
  from_server ih (parsed ps rest) p e =
      let b' : Buffers = record b { server = rest } in
      let shown = map (retime (pos 0)) (server_packets ps) in
      ap server_view (
        step_processed w c cs b ps b'
          (server_chunk w c cs b e ∙ ap (to_processed (λ t. record b { server = t })) p))
      ∙ server_view-after_packets ps (process_chunks w cs b')
      ∙ ap (prepend shown) (ih b' (rest_waits w server_to_client c.timestamp _ ps rest p))
      ∙ ap (λ r. resume w (pos 0) (seen (pos 0) r) (server_bytes cs)) (sym p)
      ∙ sym (whole_split e)
  from_server ih panicked p e =
      ap server_view (
        step_panicked w c cs b
          (server_chunk w c cs b e ∙ ap (to_processed (λ t. record b { server = t })) p))
      ∙ ap (λ r. resume w (pos 0) (seen (pos 0) r) (server_bytes cs)) (sym p)
      ∙ sym (whole_split e)
  from_server ih out_of_fuel p e =
      absurd (try_parse_packets-ne-out_of_fuel w server_to_client c.timestamp _ p)

  from_client :
      next_round server_to_client b.server ≡ wait
      → Reassembles w cs
      → (r : Parse) → client_parse w c cs b ≡ r
      → c.direction ≡ client_to_server
      → server_view (process_chunks w (c ∷ cs) b) ≡ whole w (b.server ++ server_bytes (c ∷ cs))
  from_client settled ih (parsed ps rest) p e =
      let b' : Buffers = record b { client = rest } in
      ap server_view (
        step_processed w c cs b ps b'
          (client_chunk w c cs b e ∙ ap (to_processed (λ t. record b { client = t })) p))
      ∙ server_view-after_packets ps (process_chunks w cs b')
      ∙ ap (λ t. prepend (map (retime (pos 0)) t) (server_view (process_chunks w cs b')))
          (client_parse_none_seen w c.timestamp _ ps rest p)
      ∙ ih b' settled
      ∙ ap (λ t. whole w (b.server ++ t)) (sym (server_bytes-skip e))
  from_client settled ih panicked p e = absurd (client_parse-ne-panicked w c.timestamp _ p)
  from_client settled ih out_of_fuel p e =
      absurd (try_parse_packets-ne-out_of_fuel w client_to_server c.timestamp _ p)

module _ (w : Worker) where
  -- However the bytes of both directions arrive in chunks, the worker hands on, of the server's
  -- side, the packets cut from the server's bytes taken together, up to their time stamps, and keeps
  -- the same rest; it panics where that parse does. The buffer of the server has to be at rest
  -- at the start, such as an empty one.
  pub process_chunks_reassembles :
      (chunks : List RawChunk) (b : Buffers)
      → next_round server_to_client b.server ≡ wait
      → server_view (process_chunks w chunks b)
        ≡ try_parse_packets w server_to_client (pos 0) (b.server ++ server_bytes chunks)
  process_chunks_reassembles [] b settled = rw (append-nil b.server) (
      unfold try_parse_packets process_chunks server_packets in
      sym (parse_loop_wait w server_to_client (pos 0) _ b.server settled))
  process_chunks_reassembles (c ∷ cs) b settled = elim (PacketDirection-cases c.direction) [
    | inl e ↦ from_server w c cs b (process_chunks_reassembles cs) (server_parse w c cs b) refl e
    | inr e ↦
        from_client w c cs b settled (process_chunks_reassembles cs) (client_parse w c cs b) refl e
  ]
