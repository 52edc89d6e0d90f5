-- ===== src/Lib.antt =====
-- RO-Proxy stands between a game client and its servers: a proxy relays the TCP connections and
-- copies their bytes to an analyzer, which cuts them into packets and reports what they say.
--
-- The program's parts, in the order of the data:
-- - internal/ipc/client.go: the proxy enters each chunk as a frame into a ring, and a sender empties
--   the ring into a socket.
-- - internal/ipc/frame.go: a frame and its bytes on the socket.
-- - internal/analyzer/processor.go: the analyzer hands the chunk of a frame to the worker of its
--   connection, and starts and ends the workers.
-- - internal/analyzer/worker.go: a worker appends the chunk to the buffer of its direction and cuts
--   packets off the front, by the specification of the opcode there.
-- - internal/packets: the specifications of all opcodes, the table that says on which map each
--   connection is, and the handlers of single packets.
-- - internal/common/api.go: the handlers' reports wait in a queue, and a consumer sends them.
-- - internal/common/monitoring.go, internal/tui and internal/config: counters and notices, the
--   dashboard, and the configuration that both programs read.
--
-- The files:
-- - Prelude: shared lists, Booleans, integers (`int` and `int64` as ℤ, `uint64` with its wrap-around)
--   and association lists for maps. `Run` is a value or a panic.
-- - Common/Base (internal/common/base.go): `PacketSpec`, `ReadUint32LE`, `ReadUint16LE`,
--   `ReadNullTerminatedString`, `StringToHex`. A `[]byte` and a `string` are lists of numbers. The laws
--   are in Base/Bytes and Base/Readers.
-- - Packets/Receive and Packets/Send (internal/packets/receive/receive_packets.go and
--   internal/packets/send/send_packets.go): the two tables row by row, `PacketDatabase`;
--   Packets/Sizes: what holds of all rows.
-- - Packets/Parser (internal/packets/parser.go): `RawChunk` and `ParsedPacket`.
-- - Packets/Context (internal/packets/context.go): `pendingMap` and the functions on it; a function
--   holds the mutex throughout, so a call is one step. Context/Connections and Context/Destinations
--   have its laws.
-- - Packets/Handlers (internal/packets/receive, one file for each handler, and
--   internal/packets/send/map_login.go): the handlers that change `pendingMap`. `net.LookupIP` is a
--   parameter, a function from the host to the text of its first address. Handlers/Handover and
--   Handlers/NextServer have their laws. Handlers/Reports has the reports to the API, a record for each
--   `map[string]any`; Handlers/Actors (actor_info.go), Handlers/Items (vender_items_lists.go),
--   Handlers/Chat (system_chat.go) and Handlers/Vending (the others) the handlers that report.
-- - Packets/Deserialize (`spawnDeserializer` in internal/analyzer/worker.go): the handler of a packet
--   run on it. Deserialize/Panics says which payloads a handler needs, and Analyzer/Worker/Handled which
--   packets have them.
-- - Analyzer/Worker (internal/analyzer/worker.go): `tryParsePackets`; Worker/Addresses:
--   `parseNetworkAddresses`; Worker/Loop: `processChunk` and the receiving loop. A round of the
--   parser (`next_round`) waits, skips a byte, takes a packet or panics. The other files below Worker have the laws.
-- - Analyzer/Processor (internal/analyzer/processor.go): the handlers of the frame types,
--   `processLoop`, `Stop` and `cleanupAllWorkers`; a channel is the list of the chunks in it. The laws
--   are in Processor/Safety, Processor/Routing and Processor/Lifecycle.
-- - Ipc/Frame (internal/ipc/frame.go): `Encode` and `DecodeFrame`; Ipc/Client (internal/ipc/client.go):
--   the ring and the sender. What a write or a dial gives is an input;
--   Client/Concurrent: the two steps of each `Send`, what it does under the mutex and its signal,
--   between the single steps of the sender. Ipc/Server
--   (internal/ipc/server.go): `handleConnection` with the channel of frames; Ipc/Pipeline: ring,
--   sender and server together.
-- - Proxy (internal/proxy/proxy.go and connection.go): the connections and the frames that tell the
--   analyzer of them; Proxy/Relay: `relay`, where a read or a write gives what an input says. The proxy
--   has a client to send with (`GetIPCClient` is not nil). Proxy/Mirror: the relay together with the
--   analyzer's worker; Proxy/Registry: the connections together with the processor.
--   Proxy/Recording (internal/proxy/globals.go and recording.go): the recording of chunks, where a relay
--   tests and records in one step, the text of a line is an input, and a file is named by its second.
-- - Common/Api (internal/common/api.go): the queue of requests and `consumeLoop` as a sequence of
--   events, which are reports, rounds of the loop and answers of the API.
-- - Common/Monitoring (internal/common/monitoring.go): the counters, `AddPacket`, the thresholds and
--   `SendDiscordNotification`, for a webhook that is set, as a function of the answers that it gets.
-- - Config (internal/config/config.go): `validate`; `net.ParseIP` is a parameter, a test of an address.
-- - Tui (internal/tui/dashboard.go and consumer.go): the log buffer and its filter, and `formatBytes`,
--   which gives the divisor and the letter of the unit. Tui/Keys (internal/tui/ui.go): the keys and the
--   input of the filter; `strconv.ParseUint` is a parameter.
-- - System: a connection through both programs, from the relay to the packets. System/Channel: the
--   chunks in the channel of a worker.
-- - Tests: runs at concrete inputs.
--
-- Bounds and fuel: `parse_loop` runs on fuel, one more than the buffer's length, and each round takes a
-- byte at least; that this is enough is Worker/Steps. `process_buffer` runs on fuel that exceeds the
-- number of frames in the ring. Bytes are not assumed to be below 256 except where a theorem says so.
-- `handle_connection` runs on fuel above the length of what the connection delivers, since each frame
-- takes at least a byte (Ipc/Server/Partial). The loops over the items of a shop and over the servers
-- run on the length of the payload, and each round takes 64 or 165 bytes of it; `formatBytes` divides a
-- `uint64` at most five times more, and its loop has fuel 7.
-- The ring has the 10000 slots of `BufferSize`, a channel the 100000 of `NewProcessor`'s workers.
--
-- Not modelled: the sockets, iptables, the watcher of the recording flag and the format of recorded
-- lines, reading the configuration file, drawing the terminal interface, the format of log lines,
-- the HTTP client, and the time-outs of draining and reconnecting. The semaphore and the goroutines
-- of the deserializers are not modelled: a packet handed on is a value, and a handler is run on it
-- alone. Of `workerLoop`, the loop over chunks is modelled up to its first panic, without the
-- recovery and its wait group. `acceptLoop` and `Close` of the server only listen and close.
pub mod Prelude
pub mod Config
pub mod Common
pub mod Packets
pub mod Analyzer
pub mod Ipc
pub mod Proxy
pub mod Tui
pub mod System
mod Tests
