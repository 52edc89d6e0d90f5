-- ===== src/Analyzer/Processor/Routing.antt =====
-- internal/analyzer/processor.go: which worker gets a chunk, and what the end of a connection removes.
use ro_proxy.Prelude.{
  ℕ, ◌≡◌, refl, ◌∙◌, true, List, [], ◌∷◌, ◌++◌, Option, some, none, Run, ok, panic, ◌>>=◌, inl, inr,
  ◌⊎◌,
}
use ro_proxy.Prelude.{length, ltb, ◌==◌, ==_iff, if◌then◌else◌, Bool-cases, arith}
use ro_proxy.Prelude.Int.{ℤ}
use ro_proxy.Prelude.Assoc.{
  lookup, insert, remove, is_some, lookup-insert, lookup-remove, AllValues, lookup-AllValues,
}
use ro_proxy.Packets.Parser.{RawChunk}
use ro_proxy.Ipc.Frame.{Frame, to_raw_chunk}
use ro_proxy.Analyzer.Processor.{
  Processor, WorkerHandle, ConnectionInfo, report, handle_conn_close, disconnect_all,
  handle_ipc_disconnect, ensure_worker, send_chunk, handle_data, chunk_capacity, proxy_disconnected,
}
use ro_proxy.Analyzer.Processor.Safety.{
  IsOpen, IsConsistent, Returns, close_channel-open, workers-report,
}

-- The chunks that wait in the channel of a connection's worker.
abbrev pub chunks_of_worker : Option WorkerHandle → List RawChunk
chunks_of_worker none = []
chunks_of_worker (some h) = h.chunks

abbrev pub chunks_of : ℕ → Processor → List RawChunk
chunks_of id p = chunks_of_worker (lookup id p.workers)

-- A channel takes a chunk unless it is full.
abbrev pub offered : List RawChunk → RawChunk → List RawChunk
offered chunks c = if ltb (length chunks) chunk_capacity then chunks ++ (c ∷ []) else chunks

pub send_chunk_lem :
    (h : WorkerHandle) (c : RawChunk)
    → IsOpen h
    → send_chunk h c ≡ ok (record h { chunks = offered h.chunks c })
unfolding send_chunk
send_chunk_lem h c o = ground arith

-- In a consistent state `handleData` returns and appends the chunk to the channel of its
-- connection, which it creates where it is missing, unless the channel is full; it touches no other
-- channel.
pub handle_data_routes :
    (f : Frame) (now : ℤ) (p : Processor)
    → IsConsistent p
    → (q : Processor) × (handle_data f now p ≡ ok q)
      × ((id : ℕ)
          → chunks_of id q ≡ (
              if f.connection_id == id
              then offered (chunks_of id p) (to_raw_chunk f)
              else chunks_of id p))
unfolding handle_data
handle_data_routes f now p v = go (lookup f.connection_id p.workers) refl
  where
    after : WorkerHandle → Processor → Processor
    after h q = record q {
      workers =
          insert f.connection_id (record h { chunks = offered h.chunks (to_raw_chunk f) })
            q.workers;
    }

    go :
        (o : Option WorkerHandle)
        → lookup f.connection_id p.workers ≡ o
        → (q : Processor) × (handle_data f now p ≡ ok q)
          × ((id : ℕ)
              → chunks_of id q ≡ (
                  if f.connection_id == id
                  then offered (chunks_of id p) (to_raw_chunk f)
                  else chunks_of id p))
    go none e =
        let (h, q) = ensure_worker f now none p in
        (
          after h q,
          rw (e, send_chunk_lem h (to_raw_chunk f) refl),
          λ id. ground (
            arith,
            lookup-insert f.connection_id id (record h { chunks = to_raw_chunk f ∷ [] }) q.workers,
            lookup-insert f.connection_id id h p.workers,
            ==_iff f.connection_id id,
            e,
          ),
        )
    go (some h) e = (
      after h p,
      rw (
        e,
        send_chunk_lem h (to_raw_chunk f)
            (lookup-AllValues IsOpen f.connection_id h p.workers v.channels_open e),
      ),
      λ id. ground (
        arith,
        lookup-insert f.connection_id id (record h { chunks = offered h.chunks (to_raw_chunk f) })
            p.workers,
        ==_iff f.connection_id id,
        e,
      ),
    )

-- In a consistent state `handleConnClose` returns, and takes the connection's worker away and no
-- other.
pub handle_conn_close_removes :
    (f : Frame) (now : ℤ) (p : Processor)
    → IsConsistent p
    → (q : Processor) × (handle_conn_close f now p ≡ ok q)
      × ((id : ℕ)
          → lookup id q.workers ≡ (if f.connection_id == id then none else lookup id p.workers))
unfolding handle_conn_close
handle_conn_close_removes f now p v = go (lookup f.connection_id p.workers) refl
  where
    ended : Processor → Processor
    ended q =
        report f.connection_id (lookup f.connection_id p.connections) now
          (record q { connections = remove f.connection_id q.connections })

    go :
        (o : Option WorkerHandle)
        → lookup f.connection_id p.workers ≡ o
        → (q : Processor) × (handle_conn_close f now p ≡ ok q)
          × ((id : ℕ)
              → lookup id q.workers ≡ (if f.connection_id == id then none else lookup id p.workers))
    go none e = (
      ended p,
      rw e,
      λ id. ground (
        arith,
        workers-report f.connection_id (lookup f.connection_id p.connections) now
            (record p { connections = remove f.connection_id p.connections }),
        ==_iff f.connection_id id,
        e,
      ),
    )
    go (some h) e =
        let p' : Processor = record p { workers = remove f.connection_id p.workers } in
        (
          ended p',
          rw (
            e,
            close_channel-open h
                (lookup-AllValues IsOpen f.connection_id h p.workers v.channels_open e),
          ),
          λ id. ground (
            arith,
            workers-report f.connection_id (lookup f.connection_id p.connections) now
                (record p' { connections = remove f.connection_id p.connections }),
            lookup-remove f.connection_id id p.workers,
          ),
        )

-- A connection that has a worker in the list `hs`, or none in the map, has none after the loop.
disconnect_all_removes :
    (id : ℕ) (hs : List (ℕ × WorkerHandle)) (now : ℤ) (p : Processor)
    → (is_some (lookup id hs) ≡ true) ⊎ (lookup id p.workers ≡ none)
    → AllValues IsOpen hs
    → Returns (λ q. lookup id q.workers ≡ none) (disconnect_all hs now p)
unfolding disconnect_all lookup
disconnect_all_removes id [] now p (inl h) os = cc
disconnect_all_removes id [] now p (inr h) os = h
disconnect_all_removes id ((conn, w) ∷ hs) now p h (o, os) =
    rw (close_channel-open w o) (disconnect_all_removes id hs now _ (next h) os)
  where
    info : Option ConnectionInfo
    info = lookup conn p.connections

    removed :
        lookup id (remove conn (report conn info now p).workers)
        ≡ (if conn == id then none else lookup id p.workers)
    removed = lookup-remove conn id _ ∙ rw (workers-report conn info now p)

    next :
        ((is_some (lookup id ((conn, w) ∷ hs)) ≡ true) ⊎ (lookup id p.workers ≡ none))
        → (is_some (lookup id hs) ≡ true)
          ⊎ (lookup id (remove conn (report conn info now p).workers) ≡ none)
    next h = elim (Bool-cases (conn == id)) [
      | inl same ↦ inr (removed ∙ rw same)
      | inr other ↦ elim h [ inl k ↦ inl (rw other at k) | inr k ↦ inr (removed ∙ rw other k) ]
    ]

noticed :
    (id : ℕ) (r : Run Processor)
    → Returns (λ q. lookup id q.workers ≡ none) r
    → Returns
        (λ q. lookup id q.workers ≡ none)
        (r >>= λ q. ok (record q { notices = q.notices ++ (proxy_disconnected ∷ []) }))
noticed id (ok q) h = h
noticed id panic h = h

-- In a consistent state `handleIPCDisconnect` returns, and no connection has a worker any more.
pub handle_ipc_disconnect_removes :
    (id : ℕ) (now : ℤ) (p : Processor)
    → IsConsistent p
    → Returns (λ q. lookup id q.workers ≡ none) (handle_ipc_disconnect now p)
unfolding handle_ipc_disconnect
handle_ipc_disconnect_removes id now p v =
    noticed id (disconnect_all p.workers now p)
      (disconnect_all_removes id p.workers now p (known (lookup id p.workers) refl) v.channels_open)
  where
    known :
        (o : Option WorkerHandle)
        → lookup id p.workers ≡ o
        → (is_some (lookup id p.workers) ≡ true) ⊎ (lookup id p.workers ≡ none)
    known none e = inr e
    known (some h) e = inl (rw e)
