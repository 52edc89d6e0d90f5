-- ===== src/Tests/Relays.antt =====
-- Runs of internal/proxy and internal/ipc together with the analyzer's worker.
use ro_proxy.Prelude.{ℕ, ◌<◌, ◌≡◌, refl, List, [], ◌∷◌, ◌++◌, none, true, false, map, All, arith}
use ro_proxy.Prelude.Int.{pos}
use ro_proxy.Common.Base.{Bytes, server_to_client, client_to_server}
use ro_proxy.Ipc.Frame.{Frame, new_conn_close_frame, read_error, failed, decode_frame, to_raw_chunk}
use ro_proxy.Ipc.Client.{Client, new_client, send, process_buffer, refused, accepted}
use ro_proxy.Ipc.Client.Ring.{Represents, enqueue, new_client-Represents, send-Represents}
use ro_proxy.Ipc.Frame.RoundTrip.{IsFrame}
use ro_proxy.Ipc.Server.{disconnect_frame, handle_connection, returned}
use ro_proxy.Ipc.Server.Delivery.{bytes_of_frames, frames_in}
use ro_proxy.Ipc.Pipeline.{no_frames, pipeline_keeps}
use ro_proxy.Proxy.{Connection, new_proxy, accepts, starts, relays, ends}
use ro_proxy.Proxy.Registry.{Turn, happens, takes, both_run, Follows, arrivals}
use ro_proxy.Analyzer.Processor.Routing.{chunks_of}
use ro_proxy.System.{send_all}
use ro_proxy.System.Delivery.{online, server_bytes_arrive}
use ro_proxy.Prelude.{suc, length, replicate, ok}
use ro_proxy.Proxy.Registry.Runs.{both_run-Follows, new_proxy-Follows}
use ro_proxy.Analyzer.Processor.{Processor, run_steps, new_processor}
use ro_proxy.Analyzer.Processor.Safety.{IsConsistent, Returns, new_processor-IsConsistent}
use ro_proxy.Proxy.Relay.{Round, timed_out, read_failed, chunk, relay}
use ro_proxy.Proxy.Mirror.{IsConnection, IsRound, torn_bytes, relayed_packets, relay-IsFrame}
use ro_proxy.Analyzer.Worker.{Worker, try_parse_packets}
use ro_proxy.Analyzer.Worker.Loop.{no_bytes, process_chunks}
use ro_proxy.Analyzer.Worker.Reassembly.{server_view}

abbrev connection : Connection
connection = record {
  id = 3;
  client_addr = b'c' ∷ b':' ∷ b'1' ∷ [];
  server_addr = b's' ∷ b':' ∷ b'2' ∷ [];
}

abbrev worker : Worker
worker = record {
  connection_id = 3;
  client_addr = connection.client_addr;
  server_addr = connection.server_addr;
}

-- A packet of four bytes in two chunks, the second of which arrives after a time-out.
abbrev rounds : List Round
rounds =
    chunk (0xb3 ∷ 0 ∷ []) (pos 1) none
    ∷ timed_out
    ∷ chunk (1 ∷ 0x9a ∷ []) (pos 2) none
    ∷ read_failed
    ∷ []

connection-IsConnection : IsConnection connection
connection-IsConnection = record {
  id_word = omega arith;
  client_short = omega arith;
  server_short = omega arith;
}

rounds-IsRound : All IsRound rounds
rounds-IsRound = ((omega arith, omega arith), (tt, ((omega arith, omega arith), (tt, tt))))

relay-IsFrame_example : All IsFrame (relay connection server_to_client rounds).frames
relay-IsFrame_example =
    relay-IsFrame connection server_to_client rounds connection-IsConnection rounds-IsRound

relayed_packets_example :
    let r = relay connection server_to_client rounds in
    (seen : Bytes) × (r.forwarded ≡ seen ++ torn_bytes rounds)
    × (server_view (process_chunks worker (map to_raw_chunk r.frames) no_bytes)
        ≡ try_parse_packets worker server_to_client (pos 0) seen)
relayed_packets_example = relayed_packets worker connection rounds

-- Two frames wait, the first is written, the second is not, and no dial comes through.
abbrev frame : ℕ → Frame
frame id = new_conn_close_frame id (pos 0)

two_frames-IsFrame : All IsFrame (frame 1 ∷ frame 2 ∷ [])
two_frames-IsFrame = (frame-IsFrame 1 (omega arith), (frame-IsFrame 2 (omega arith), tt))
  where
    frame-IsFrame : (id : ℕ) → id < 3 → IsFrame (frame id)
    frame-IsFrame id h = record {
      type_byte = omega arith;
      id_word = omega arith;
      time_word = omega arith;
      client_fits = omega arith;
      server_fits = omega arith;
      body_fits = omega arith;
    }

abbrev ring : Client
ring = send (send new_client (frame 1)) (frame 2)

ring_holds : Represents ring (frame 1 ∷ frame 2 ∷ [])
ring_holds =
    unfold enqueue in
    send-Represents (send new_client (frame 1)) (frame 1 ∷ []) (frame 2)
      (send-Represents new_client [] (frame 1) new_client-Represents)

nothing_follows : decode_frame [] ≡ failed read_error
unfolding decode_frame
nothing_follows = refl

pipeline_keeps_example :
    let (sent, c) = process_buffer 3 (true ∷ false ∷ []) (refused ∷ accepted ∷ []) ring in
    let (ended, s) = handle_connection 3 (1 ∷ []) (bytes_of_frames sent ++ []) no_frames in
    (left : List Frame) × (ended ≡ returned)
    × (frames_in s ≡ sent ++ (disconnect_frame ∷ []))
    × (sent ++ left ≡ frame 1 ∷ frame 2 ∷ [])
    × Represents c left
pipeline_keeps_example =
    pipeline_keeps 3 (true ∷ false ∷ []) (refused ∷ accepted ∷ []) ring (frame 1 ∷ frame 2 ∷ []) []
      read_error (1 ∷ []) 3 ring_holds two_frames-IsFrame (omega arith) (omega arith)
      nothing_follows (omega arith)

-- A connection starts, the client sends, the worker takes the chunk, and another connection starts
-- before the first one ends.
abbrev turns : List Turn
turns =
    happens accepts (pos 0)
    ∷ happens (starts connection (pos 1)) (pos 1)
    ∷ happens (relays 3 client_to_server (1 ∷ []) (pos 2)) (pos 2)
    ∷ takes 3
    ∷ happens (starts (record connection { id = 4 }) (pos 3)) (pos 3)
    ∷ happens (ends 3 (pos 4)) (pos 4)
    ∷ []

both_run-Follows_example :
    Returns
      (λ q. IsConsistent q × Follows (both_run turns new_proxy).1 q)
      (run_steps (both_run turns new_proxy).0 new_processor)
both_run-Follows_example =
    both_run-Follows turns new_proxy new_processor new_processor-IsConsistent new_proxy-Follows

-- The rounds above, from the server to the packets.
server_bytes_arrive_example :
    let r = relay connection server_to_client rounds in
    let n = length r.frames in
    let sent =
      (process_buffer (suc n) (replicate n true) [] (online (send_all r.frames new_client))).0 in
    let (ended, s) = handle_connection (suc n) (1 ∷ []) (bytes_of_frames sent) no_frames in
    (fs : List Frame) × (q : Processor) × (seen : Bytes) × (ended ≡ returned)
    × (frames_in s ≡ fs ++ (disconnect_frame ∷ []))
    × (run_steps (arrivals (pos 9) fs) new_processor ≡ ok q)
    × (r.forwarded ≡ seen ++ torn_bytes rounds)
    × (server_view (process_chunks worker (chunks_of connection.id q) no_bytes)
        ≡ try_parse_packets worker server_to_client (pos 0) seen)
unfolding relay
server_bytes_arrive_example =
    server_bytes_arrive worker connection rounds [] (1 ∷ []) (pos 9) connection-IsConnection
      rounds-IsRound (omega arith)
