-- ===== src/Analyzer/Worker/Loop.antt =====
-- internal/analyzer/worker.go, `processChunk` and the receiving loop: chunks of both directions
-- arrive in one order, and each direction has a buffer of its own.
use ro_proxy.Prelude.{List, [], ◌∷◌, ◌++◌}
use ro_proxy.Common.Base.{Bytes, server_to_client, client_to_server}
use ro_proxy.Packets.Parser.{RawChunk, ParsedPacket}
use ro_proxy.Analyzer.Worker.{Worker, Parse, parsed, panicked, out_of_fuel, try_parse_packets}

-- `clientBuffer` and `serverBuffer`.
pub record Buffers : Type 0 where
  pub client : Bytes
  pub server : Bytes

abbrev pub no_bytes : Buffers
no_bytes = record { client = []; server = [] }

-- The packets handed to `spawnDeserializer`, in order, with the buffers afterwards; or a panic, which
-- leaves no packet of this chunk.
pub data Processed : Type 0 where
  processed : List ParsedPacket → Buffers → Processed
  chunk_panicked : Processed

-- What `tryParsePackets` returns, with the buffers around it.
abbrev pub to_processed : (Bytes → Buffers) → Parse → Processed
to_processed put (parsed ps rest) = processed ps (put rest)
to_processed put panicked = chunk_panicked
to_processed put out_of_fuel = chunk_panicked

unfoldable pub process_chunk : Worker → RawChunk → Buffers → Processed
process_chunk w chunk b = elim chunk.direction [
  | client_to_server ↦
      to_processed (λ rest. record b { client = rest })
        (try_parse_packets w client_to_server chunk.timestamp (b.client ++ chunk.bytes))
  | server_to_client ↦
      to_processed (λ rest. record b { server = rest })
        (try_parse_packets w server_to_client chunk.timestamp (b.server ++ chunk.bytes))
]

abbrev pub after_packets : List ParsedPacket → Processed → Processed
after_packets ps (processed qs b) = processed (ps ++ qs) b
after_packets ps chunk_panicked = chunk_panicked

-- The loop over the chunks of `RawChunkBuffer`, up to the first panic.
unfoldable pub process_chunks : Worker → List RawChunk → Buffers → Processed
process_chunks w [] b = processed [] b
process_chunks w (c ∷ cs) b = elim (process_chunk w c b) [
  | processed ps b' ↦ after_packets ps (process_chunks w cs b')
  | chunk_panicked ↦ chunk_panicked
]
