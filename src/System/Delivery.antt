-- ===== src/System/Delivery.antt =====
-- internal/proxy/connection.go, internal/ipc and internal/analyzer: what the server of a connection sends
-- comes to the worker of the connection.
use ro_proxy.Prelude.{
  ℕ, suc, ◌+◌, ◌≤◌, ◌<◌, ◌≡◌, refl, ap, sym, subst, ◌∙◌, List, [], ◌∷◌, ◌++◌, map, append_assoc,
  append-nil, replicate, true, none, some, ok, arith,
}
use ro_proxy.Prelude.{length, All, length-append}
use ro_proxy.Prelude.Int.{ℤ, pos}
use ro_proxy.Prelude.Assoc.{lookup}
use ro_proxy.Common.Base.{Bytes, PacketDirection, server_to_client}
use ro_proxy.Ipc.Frame.{Frame, to_raw_chunk, decode_frame, failed, read_error}
use ro_proxy.Ipc.Client.{Client, Dial, buffer_size, new_client, send, process_buffer}
use ro_proxy.Ipc.Client.Ring.{Represents, new_client-Represents, send_room}
use ro_proxy.Ipc.Client.Sender.{process_buffer_delivers}
use ro_proxy.Ipc.Server.{frame_capacity, disconnect_frame, handle_connection, returned}
use ro_proxy.Ipc.Server.Delivery.{bytes_of_frames, frames_in, handle_connection_delivers}
use ro_proxy.Ipc.Pipeline.{no_frames}
use ro_proxy.Proxy.{Connection}
use ro_proxy.Proxy.Relay.{Round, cancelled, timed_out, read_failed, chunk, relay}
use ro_proxy.Proxy.Mirror.{IsConnection, IsRound, relay-IsFrame, torn_bytes, relayed_packets}
use ro_proxy.Proxy.Registry.{arrivals}
use ro_proxy.Analyzer.Processor.{Processor, run_steps, new_processor}
use ro_proxy.Analyzer.Processor.Safety.{new_processor-IsConsistent}
use ro_proxy.Analyzer.Processor.Routing.{chunks_of}
use ro_proxy.Analyzer.Worker.{Worker, try_parse_packets}
use ro_proxy.Analyzer.Worker.Loop.{no_bytes, process_chunks}
use ro_proxy.Analyzer.Worker.Reassembly.{server_view}
use ro_proxy.System.{send_all}
use ro_proxy.System.Channel.{IsDataOf, data_frames_wait}

send_all-Represents :
    (fs : List Frame) (c : Client) (q : List Frame)
    → Represents c q
    → length q + length fs ≤ buffer_size
    → Represents (send_all fs c) (q ++ fs)
unfolding send_all
send_all-Represents [] c q r room = rw (append-nil q) r
send_all-Represents (f ∷ fs) c q r room =
    subst (Represents (send_all fs (send c f))) (append_assoc q (f ∷ []) fs) (
      send_all-Represents fs (send c f) (q ++ (f ∷ [])) (send_room c q f r (omega arith))
        (omega (arith, length-append q (f ∷ []))))

relay-IsDataOf :
    (c : Connection) (direction : PacketDirection) (rounds : List Round)
    → All (IsDataOf c.id) (relay c direction rounds).frames
unfolding relay
relay-IsDataOf c direction [] = tt
relay-IsDataOf c direction (cancelled ∷ rounds) = tt
relay-IsDataOf c direction (timed_out ∷ rounds) = relay-IsDataOf c direction rounds
relay-IsDataOf c direction (read_failed ∷ rounds) = tt
relay-IsDataOf c direction (chunk bytes now none ∷ rounds) =
    (record { data_type = refl; of_connection = refl }, relay-IsDataOf c direction rounds)
relay-IsDataOf c direction (chunk bytes now (some k) ∷ rounds) = tt

nothing_left : decode_frame [] ≡ failed read_error
unfolding decode_frame
nothing_left = refl

no_chunks : (id : ℕ) → chunks_of id new_processor ≡ []
unfolding lookup
no_chunks id = refl

-- A client that has a connection to the server of the analyzer.
abbrev pub online : Client → Client
online c = record c { connected = true }

-- What a server sends to the client of the game comes to the worker: the frames of the relay, sent into
-- the ring and written to the socket without an error, come out of the server's channel in their
-- order, followed by the disconnect frame; the processor, when it has handled the first, has their
-- chunks in the channel of the connection's worker; and the packets that a worker cuts from these are
-- those of the bytes that the client of the game got, but for those of a last write that failed. The
-- rounds are those of a run in which the frames are fewer than the channels and the ring take; the
-- connection has a number of 64 bits and addresses of less than 256 bytes, and a round reads at most the
-- buffer.
pub server_bytes_arrive :
    (w : Worker) (c : Connection) (rounds : List Round) (dials : List Dial) (takes : List ℕ)
    (at : ℤ)
    → IsConnection c
    → All IsRound rounds
    → length (relay c server_to_client rounds).frames < frame_capacity
    → let r = relay c server_to_client rounds in
      let n = length r.frames in
      let sent =
        (process_buffer
          (suc n)
          (replicate n true)
          dials
          (online (send_all r.frames new_client))).0 in
      let (ended, s) = handle_connection (suc n) takes (bytes_of_frames sent) no_frames in
      (fs : List Frame) × (q : Processor) × (seen : Bytes) × (ended ≡ returned)
      × (frames_in s ≡ fs ++ (disconnect_frame ∷ []))
      × (run_steps (arrivals at fs) new_processor ≡ ok q)
      × (r.forwarded ≡ seen ++ torn_bytes rounds)
      × (server_view (process_chunks w (chunks_of c.id q) no_bytes)
          ≡ try_parse_packets w server_to_client (pos 0) seen)
server_bytes_arrive w c rounds dials takes at v h few =
    let fs : List Frame = (relay c server_to_client rounds).frames in
    let n : ℕ = length fs in
    let ring : Represents (send_all fs new_client) fs =
      send_all-Represents fs new_client [] new_client-Represents (omega arith) in
    let (delivered, rest) =
      process_buffer_delivers dials (online (send_all fs new_client)) fs
        (Represents-online (send_all fs new_client) fs ring) refl in
    let (ends, served) =
      handle_connection_delivers fs [] read_error takes (suc n) no_frames
        (relay-IsFrame c server_to_client rounds v h) nothing_left (omega arith) (omega arith) in
    let (q, ran, waits) =
      data_frames_wait c.id at fs new_processor (relay-IsDataOf c server_to_client rounds)
        new_processor-IsConsistent (omega (arith, ap length (no_chunks c.id))) in
    let (seen, forwarded, parsed) = relayed_packets w c rounds in
    let whole : bytes_of_frames _ ≡ bytes_of_frames fs ++ [] =
      ap bytes_of_frames delivered ∙ sym (append-nil (bytes_of_frames fs)) in
    (
      fs,
      q,
      seen,
      ap (λ t. (handle_connection (suc n) takes t no_frames).0) whole ∙ ends,
      ap (λ t. frames_in (handle_connection (suc n) takes t no_frames).1) whole ∙ served,
      ran,
      forwarded,
      ap (λ t. server_view (process_chunks w t no_bytes))
            (waits ∙ ap (λ t. t ++ map to_raw_chunk fs) (no_chunks c.id))
          ∙ parsed,
    )
  where
    Represents-online : (d : Client) (fs : List Frame) → Represents d fs → Represents (online d) fs
    Represents-online d fs r = record {
      head_in = r.head_in;
      counted = r.counted;
      bounded = r.bounded;
      tail_at = r.tail_at;
      slots = r.slots;
    }
