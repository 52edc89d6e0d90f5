-- ===== src/Analyzer/Processor.antt =====
-- internal/analyzer/processor.go: frames are handed to one worker for each connection. A handler holds
-- `workersMu` for what it does to the maps, so a frame is one step. A channel is the list of the chunks
-- in it; what the worker does with the chunks that it takes out is Analyzer/Worker. Times are in nanoseconds.
pub mod Safety
pub mod Routing
pub mod Lifecycle
use ro_proxy.Prelude.{
  ℕ, ◌+◌, ◌-◌, ◌*◌, ◌/◌, ◌%◌, Bool, true, false, List, [], ◌∷◌, ◌++◌, Option, some, none, Run, ok,
  panic, ◌>>=◌,
}
use ro_proxy.Prelude.{length, drop, leb, ltb, ◌==◌, if◌then◌else◌}
use ro_proxy.Prelude.Int.{ℤ, pos, negsuc, ◌-ℤ◌}
use ro_proxy.Prelude.Assoc.{lookup, insert, remove}
use ro_proxy.Common.Base.{Bytes}
use ro_proxy.Packets.Parser.{RawChunk}
use ro_proxy.Packets.Context.{Pending, get_connection_map, clear_connection_map}
use ro_proxy.Ipc.Frame.{
  Frame, to_raw_chunk, frame_type_data, frame_type_conn_open, frame_type_conn_close,
  frame_type_ipc_disconnect,
}
use ro_proxy.Analyzer.Worker.{Worker}

pub record ConnectionInfo : Type 0 where
  pub id : ℕ
  pub client_addr : Bytes
  pub server_addr : Bytes
  pub start_time : ℤ

-- `workerHandle`: the worker, the chunks in its channel, and whether the channel is closed.
pub record WorkerHandle : Type 0 where
  pub worker : Worker
  pub chunks : List RawChunk
  pub closed : Bool

-- The text of a Discord message, by its parts.
pub data Notice : Type 0 where
  connection_closed : (id hours minutes seconds : ℕ) → (map_name : Bytes) → Notice
  proxy_disconnected : Notice

-- The maps of `Processor`, with the two things that its handlers change elsewhere: the table of
-- maps, and the messages sent, newest last.
pub record Processor : Type 0 where
  pub workers : List (ℕ × WorkerHandle)
  pub connections : List (ℕ × ConnectionInfo)
  pub cleaned_up : Bool
  pub pending : Pending
  pub notices : List Notice

abbrev pub new_processor : Processor
new_processor = record {
  workers = [];
  connections = [];
  cleaned_up = false;
  pending = [];
  notices = [];
}

abbrev pub chunk_capacity : ℕ
chunk_capacity = 100000

abbrev pub second : ℕ
second = 1_000_000_000

-- `time.Unix(seconds, 0)`
abbrev pub unix_time : ℤ → ℤ
unix_time (pos n) = pos (n * second)
unix_time (negsuc n) = negsuc ((n + 1) * second - 1)

-- `close(handle.chunkChan)`, which panics on a closed channel.
unfoldable pub close_channel : WorkerHandle → Run WorkerHandle
close_channel h = if h.closed then panic else ok (record h { closed = true })

abbrev pub new_handle : Frame → WorkerHandle
new_handle f = record {
  worker = record {
    connection_id = f.connection_id;
    client_addr = f.client_addr;
    server_addr = f.server_addr;
  };
  chunks = [];
  closed = false;
}

abbrev pub new_info : Frame → ℤ → ConnectionInfo
new_info f start = record {
  id = f.connection_id;
  client_addr = f.client_addr;
  server_addr = f.server_addr;
  start_time = start;
}

-- `sendDiscordNotification`: nothing for a connection of less than a minute.
unfoldable pub discord_notice : ConnectionInfo → ℤ → Bytes → List Notice
discord_notice info (negsuc n) map_name = []
discord_notice info (pos d) map_name =
    let seconds = d / second in
    if ltb d (60 * second)
    then []
    else connection_closed info.id (seconds / 3600) (seconds / 60 % 60) (seconds % 60) map_name ∷ []

abbrev pub text_or_empty : Option Bytes → Bytes
text_or_empty none = []
text_or_empty (some name) = name

-- What both ways to end a connection do with its information.
abbrev pub report : ℕ → Option ConnectionInfo → ℤ → Processor → Processor
report conn none now p = p
report conn (some info) now p = record p {
  pending = clear_connection_map conn p.pending;
  notices =
      p.notices
      ++ discord_notice info (now -ℤ info.start_time)
          (text_or_empty (get_connection_map conn p.pending));
}

unfoldable pub handle_conn_open : Frame → Processor → Processor
handle_conn_open f p = record p {
  workers = insert f.connection_id (new_handle f) p.workers;
  connections = insert f.connection_id (new_info f (unix_time f.timestamp)) p.connections;
}

-- `handle != nil`: the channel is closed and the worker leaves the map.
abbrev pub drop_worker : ℕ → Option WorkerHandle → Processor → Run Processor
drop_worker conn none p = ok p
drop_worker conn (some h) p =
    close_channel h >>= λ _. ok (record p { workers = remove conn p.workers })

unfoldable pub handle_conn_close : Frame → ℤ → Processor → Run Processor
handle_conn_close f now p = do
  let info = lookup f.connection_id p.connections
  q ← drop_worker f.connection_id (lookup f.connection_id p.workers) p
  ok (
      report f.connection_id info now
        (record q { connections = remove f.connection_id q.connections }))

-- The loop of `handleIPCDisconnect` over the workers, in some order.
unfoldable pub disconnect_all : List (ℕ × WorkerHandle) → ℤ → Processor → Run Processor
disconnect_all [] now p = ok p
disconnect_all ((conn, h) ∷ hs) now p = do
  _ ← close_channel h
  let q = report conn (lookup conn p.connections) now p
  disconnect_all hs now
      (record q { workers = remove conn q.workers; connections = remove conn q.connections })

unfoldable pub handle_ipc_disconnect : ℤ → Processor → Run Processor
handle_ipc_disconnect now p = do
  q ← disconnect_all p.workers now p
  ok (record q { notices = q.notices ++ (proxy_disconnected ∷ []) })

-- The worker that is missing is created.
abbrev pub ensure_worker : Frame → ℤ → Option WorkerHandle → Processor → WorkerHandle × Processor
ensure_worker f now (some h) p = (h, p)
ensure_worker f now none p = (
  new_handle f,
  record p {
    workers = insert f.connection_id (new_handle f) p.workers;
    connections = insert f.connection_id (new_info f now) p.connections;
  },
)

-- The send that drops the chunk where the channel is full, and panics where it is closed.
unfoldable pub send_chunk : WorkerHandle → RawChunk → Run WorkerHandle
send_chunk h chunk =
    if h.closed
    then panic
    else if ltb (length h.chunks) chunk_capacity
    then ok (record h { chunks = h.chunks ++ (chunk ∷ []) })
    else ok h

unfoldable pub handle_data : Frame → ℤ → Processor → Run Processor
handle_data f now p =
    let (h, q) = ensure_worker f now (lookup f.connection_id p.workers) p in
    send_chunk h (to_raw_chunk f) >>= λ h'.
    ok (record q { workers = insert f.connection_id h' q.workers })

unfoldable pub handle_frame : Frame → ℤ → Processor → Run Processor
handle_frame f now p =
    if f.type == frame_type_conn_open
    then ok (handle_conn_open f p)
    else if f.type == frame_type_conn_close
    then handle_conn_close f now p
    else if f.type == frame_type_data
    then handle_data f now p
    else if f.type == frame_type_ipc_disconnect
    then handle_ipc_disconnect now p
    else ok p

-- What changes the processor: `processLoop` takes a frame at a time `now`, or a worker takes the
-- oldest chunk out of its channel.
pub data Step : Type 0 where
  arrives : (f : Frame) → (now : ℤ) → Step
  receives : (conn : ℕ) → Step

abbrev pub take_chunk : ℕ → Option WorkerHandle → Processor → Processor
take_chunk conn none p = p
take_chunk conn (some h) p = record p {
  workers = insert conn (record h { chunks = drop 1 h.chunks }) p.workers;
}

unfoldable pub step : Step → Processor → Run Processor
step (arrives f now) p = handle_frame f now p
step (receives conn) p = ok (take_chunk conn (lookup conn p.workers) p)

unfoldable pub run_steps : List Step → Processor → Run Processor
run_steps [] p = ok p
run_steps (s ∷ ss) p = do q ← step s p; run_steps ss q

-- `Stop` and `cleanupAllWorkers` close every channel.
unfoldable pub close_all : List (ℕ × WorkerHandle) → Run (List (ℕ × WorkerHandle))
close_all [] = ok []
close_all ((conn, h) ∷ hs) = do h' ← close_channel h; rest ← close_all hs; ok ((conn, h') ∷ rest)

-- `Stop` leaves the closed channels in the map.
unfoldable pub stop : Processor → Run Processor
stop p = close_all p.workers >>= λ hs. ok (record p { workers = hs })

unfoldable pub cleanup_all_workers : Processor → Run Processor
cleanup_all_workers p =
    if p.cleaned_up
    then ok p
    else (close_all p.workers >>= λ _. ok (record p { workers = []; cleaned_up = true }))
