-- ===== src/Proxy/Mirror.antt =====
-- internal/proxy/connection.go: the analyzer gets what the two sides of a connection get.
use ro_proxy.Prelude.{
  ◌≤◌, ◌<◌, ◌^◌, ◌≡◌, refl, ap, sym, ◌∙◌, List, [], ◌∷◌, ◌++◌, map, append_assoc, some, none, arith,
}
use ro_proxy.Prelude.{length, take, All}
use ro_proxy.Prelude.Int.{IsI64, pos}
use ro_proxy.Common.Base.{Bytes, PacketDirection, server_to_client}
use ro_proxy.Ipc.Frame.{Frame, to_raw_chunk}
use ro_proxy.Ipc.Frame.RoundTrip.{IsFrame}
use ro_proxy.Proxy.{Connection}
use ro_proxy.Proxy.Relay.{
  Round, cancelled, timed_out, read_failed, chunk, Relayed, relay, buffer_bytes,
}
use ro_proxy.Analyzer.Worker.{Worker, try_parse_packets}
use ro_proxy.Analyzer.Worker.Loop.{no_bytes, process_chunks}
use ro_proxy.Analyzer.Worker.Steps.{next_round_nil}
use ro_proxy.Analyzer.Worker.Reassembly.{server_view, server_bytes, process_chunks_reassembles}

abbrev pub frames_bytes : List Frame → Bytes
frames_bytes [] = []
frames_bytes (f ∷ fs) = f.bytes ++ frames_bytes fs

-- What a last write that failed had written before.
abbrev pub torn_bytes : List Round → Bytes
torn_bytes [] = []
torn_bytes (cancelled ∷ rounds) = []
torn_bytes (timed_out ∷ rounds) = torn_bytes rounds
torn_bytes (read_failed ∷ rounds) = []
torn_bytes (chunk bytes now none ∷ rounds) = torn_bytes rounds
torn_bytes (chunk bytes now (some k) ∷ rounds) = take k bytes

-- The bytes of the frames are the bytes written to the other side, without those of a last write that
-- failed.
pub relay_mirrors :
    (c : Connection) (direction : PacketDirection) (rounds : List Round)
    → let r = relay c direction rounds in r.forwarded ≡ frames_bytes r.frames ++ torn_bytes rounds
unfolding relay
relay_mirrors c direction [] = refl
relay_mirrors c direction (cancelled ∷ rounds) = refl
relay_mirrors c direction (timed_out ∷ rounds) = relay_mirrors c direction rounds
relay_mirrors c direction (read_failed ∷ rounds) = refl
relay_mirrors c direction (chunk bytes now none ∷ rounds) =
    ap (λ t. bytes ++ t) (relay_mirrors c direction rounds)
    ∙ sym (append_assoc bytes (frames_bytes (relay c direction rounds).frames) (torn_bytes rounds))
relay_mirrors c direction (chunk bytes now (some k) ∷ rounds) = refl

server_bytes-relay :
    (c : Connection) (rounds : List Round)
    → server_bytes (map to_raw_chunk (relay c server_to_client rounds).frames)
      ≡ frames_bytes (relay c server_to_client rounds).frames
unfolding relay
server_bytes-relay c [] = refl
server_bytes-relay c (cancelled ∷ rounds) = refl
server_bytes-relay c (timed_out ∷ rounds) = server_bytes-relay c rounds
server_bytes-relay c (read_failed ∷ rounds) = refl
server_bytes-relay c (chunk bytes now none ∷ rounds) =
    ap (λ t. bytes ++ t) (server_bytes-relay c rounds)
server_bytes-relay c (chunk bytes now (some k) ∷ rounds) = refl

-- The packets that the analyzer's worker cuts from the frames of a server's relay are those of the
-- bytes that the client got, without those of a last write that failed, however they were chunked.
pub relayed_packets :
    (w : Worker) (c : Connection) (rounds : List Round)
    → let r = relay c server_to_client rounds in
      (seen : Bytes) × (r.forwarded ≡ seen ++ torn_bytes rounds)
      × (server_view (process_chunks w (map to_raw_chunk r.frames) no_bytes)
          ≡ try_parse_packets w server_to_client (pos 0) seen)
relayed_packets w c rounds =
    let r : Relayed = relay c server_to_client rounds in
    (
      frames_bytes r.frames,
      relay_mirrors c server_to_client rounds,
      process_chunks_reassembles w (map to_raw_chunk r.frames) no_bytes
            (next_round_nil server_to_client)
          ∙ ap (try_parse_packets w server_to_client (pos 0)) (server_bytes-relay c rounds),
    )

-- The values that Go gives a round: at most a buffer of bytes, and a time.
abbrev pub IsRound : Round → Type 0
IsRound (chunk bytes now written) = (length bytes ≤ buffer_bytes) × IsI64 now
IsRound _ = Unit

-- A connection with a number of 64 bits and addresses of less than 256 bytes.
pub record IsConnection (c : Connection) : Type 0 where
  pub id_word : c.id < 2 ^ 64
  pub client_short : length c.client_addr < 2 ^ 8
  pub server_short : length c.server_addr < 2 ^ 8

-- Every frame of a relay fits the length fields of its encoding, for a connection with a number of 64
-- bits and addresses of less than 256 bytes, and for rounds that read at most the buffer.
pub relay-IsFrame :
    (c : Connection) (direction : PacketDirection) (rounds : List Round)
    → IsConnection c
    → All IsRound rounds
    → All IsFrame (relay c direction rounds).frames
unfolding relay
relay-IsFrame c direction [] v h = tt
relay-IsFrame c direction (cancelled ∷ rounds) v h = tt
relay-IsFrame c direction (timed_out ∷ rounds) v (h, hs) = relay-IsFrame c direction rounds v hs
relay-IsFrame c direction (read_failed ∷ rounds) v h = tt
relay-IsFrame c direction (chunk bytes now none ∷ rounds) v ((h, k), hs) = (
  record {
    type_byte = omega arith;
    id_word = v.id_word;
    time_word = k;
    client_fits = v.client_short;
    server_fits = v.server_short;
    body_fits = omega (arith, v.client_short, v.server_short);
  },
  relay-IsFrame c direction rounds v hs,
)
relay-IsFrame c direction (chunk bytes now (some k) ∷ rounds) v h = tt
