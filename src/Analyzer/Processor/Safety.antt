-- ===== src/Analyzer/Processor/Safety.antt =====
-- internal/analyzer/processor.go: whatever frames come, in whatever order, no handler closes or writes
-- to a closed channel, and the workers and the connections keep the same ids.
use ro_proxy.Prelude.{
  ℕ, ◌≡◌, refl, true, false, List, [], ◌∷◌, ◌++◌, Option, some, none, Run, ok, panic, ◌>>=◌, inl,
  inr,
}
use ro_proxy.Prelude.{◌==◌, ==_iff, drop, Bool-cases, length, ltb, arith}
use ro_proxy.Prelude.Int.{ℤ}
use ro_proxy.Prelude.Assoc.{
  lookup, insert, remove, is_some, lookup-insert, lookup-remove, AllValues, insert-AllValues,
  remove-AllValues, lookup-AllValues,
}
use ro_proxy.Ipc.Frame.{
  Frame, to_raw_chunk, frame_type_data, frame_type_conn_open, frame_type_conn_close,
  frame_type_ipc_disconnect,
}
use ro_proxy.Analyzer.Processor.{
  Processor, WorkerHandle, ConnectionInfo, new_processor, close_channel, new_handle, report,
  handle_conn_open, handle_conn_close, disconnect_all, handle_ipc_disconnect, send_chunk,
  handle_data, handle_frame, Step, arrives, receives, take_chunk, step, run_steps,
  proxy_disconnected, chunk_capacity,
}
use ro_proxy.Packets.Parser.{RawChunk}

abbrev pub IsOpen : WorkerHandle → Type 0
IsOpen h = h.closed ≡ false

-- Every channel in the map is open, and a connection is known exactly where it has a worker.
pub record IsConsistent (p : Processor) : Type 0 where
  pub channels_open : AllValues IsOpen p.workers
  pub same_ids : (id : ℕ) → is_some (lookup id p.workers) ≡ is_some (lookup id p.connections)

-- A call returns, with a consistent state.
abbrev pub Returns : (Processor → Type 0) → Run Processor → Type 0
Returns P (ok p) = P p
Returns P panic = ⊥

pub new_processor-IsConsistent : IsConsistent new_processor
new_processor-IsConsistent = record { channels_open = tt; same_ids = λ id. unfold lookup in refl }

insert_both :
    (id key : ℕ) (h : WorkerHandle) (i : ConnectionInfo) (ws : List (ℕ × WorkerHandle))
    (cs : List (ℕ × ConnectionInfo))
    → is_some (lookup id ws) ≡ is_some (lookup id cs)
    → is_some (lookup id (insert key h ws)) ≡ is_some (lookup id (insert key i cs))
insert_both id key h i ws cs e =
    ground (arith, lookup-insert key id h ws, lookup-insert key id i cs)

remove_both :
    (id key : ℕ) (ws : List (ℕ × WorkerHandle)) (cs : List (ℕ × ConnectionInfo))
    → is_some (lookup id ws) ≡ is_some (lookup id cs)
    → is_some (lookup id (remove key ws)) ≡ is_some (lookup id (remove key cs))
remove_both id key ws cs e = ground (arith, lookup-remove key id ws, lookup-remove key id cs)

-- The report of an ended connection leaves both maps alone.
pub workers-report :
    (conn : ℕ) (info : Option ConnectionInfo) (now : ℤ) (p : Processor)
    → (report conn info now p).workers ≡ p.workers
workers-report conn none now p = refl
workers-report conn (some i) now p = refl

connections-report :
    (conn : ℕ) (info : Option ConnectionInfo) (now : ℤ) (p : Processor)
    → (report conn info now p).connections ≡ p.connections
connections-report conn none now p = refl
connections-report conn (some i) now p = refl

pub handle_conn_open-IsConsistent :
    (f : Frame) (p : Processor) → IsConsistent p → IsConsistent (handle_conn_open f p)
unfolding handle_conn_open
handle_conn_open-IsConsistent f p v = record {
  channels_open =
      insert-AllValues IsOpen f.connection_id (new_handle f) p.workers refl v.channels_open;
  same_ids = λ id. insert_both id f.connection_id _ _ p.workers p.connections (v.same_ids id);
}

pub close_channel-open :
    (h : WorkerHandle) → IsOpen h → close_channel h ≡ ok (record h { closed = true })
unfolding close_channel
close_channel-open h e = rw e

-- Both maps without a connection are consistent, whatever was reported.
removed-IsConsistent :
    (conn : ℕ) (p : Processor)
    → IsConsistent p
    → IsConsistent
        (record p { workers = remove conn p.workers; connections = remove conn p.connections })
removed-IsConsistent conn p v = record {
  channels_open = remove-AllValues IsOpen conn p.workers v.channels_open;
  same_ids = λ id. remove_both id conn p.workers p.connections (v.same_ids id);
}

report-IsConsistent :
    (conn : ℕ) (info : Option ConnectionInfo) (now : ℤ) (p : Processor)
    → IsConsistent p
    → IsConsistent (report conn info now p)
report-IsConsistent conn none now p v = v
report-IsConsistent conn (some i) now p v = record {
  channels_open = v.channels_open;
  same_ids = v.same_ids;
}

-- Without a worker, only the connection goes.
forgotten-IsConsistent :
    (conn : ℕ) (p : Processor)
    → IsConsistent p
    → lookup conn p.workers ≡ none
    → IsConsistent (record p { connections = remove conn p.connections })
forgotten-IsConsistent conn p v e = record {
  channels_open = v.channels_open;
  same_ids = λ id. ground (arith, lookup-remove conn id p.connections, v.same_ids id, e);
}

handle_conn_close-Returns :
    (f : Frame) (now : ℤ) (p : Processor)
    → IsConsistent p
    → Returns IsConsistent (handle_conn_close f now p)
unfolding handle_conn_close
handle_conn_close-Returns f now p v = go (lookup f.connection_id p.workers) refl
  where
    go :
        (o : Option WorkerHandle)
        → lookup f.connection_id p.workers ≡ o
        → Returns IsConsistent (handle_conn_close f now p)
    go none e = rw e (
        report-IsConsistent f.connection_id (lookup f.connection_id p.connections) now _
          (forgotten-IsConsistent f.connection_id p v e))
    go (some h) e =
        rw
          (
            e,
            close_channel-open h
                (lookup-AllValues IsOpen f.connection_id h p.workers v.channels_open e),
          )
          (report-IsConsistent f.connection_id (lookup f.connection_id p.connections) now _
            (removed-IsConsistent f.connection_id p v))

disconnect_all-Returns :
    (hs : List (ℕ × WorkerHandle)) (now : ℤ) (p : Processor)
    → AllValues IsOpen hs
    → IsConsistent p
    → Returns IsConsistent (disconnect_all hs now p)
unfolding disconnect_all
disconnect_all-Returns [] now p os v = v
disconnect_all-Returns ((conn, h) ∷ hs) now p (o, os) v = rw (close_channel-open h o) (
    disconnect_all-Returns hs now _ os
      (removed-IsConsistent conn _ (report-IsConsistent conn (lookup conn p.connections) now p v)))

-- One more message changes neither map.
noticed-IsConsistent :
    (r : Run Processor)
    → Returns IsConsistent r
    → Returns IsConsistent
        (r >>= λ q. ok (record q { notices = q.notices ++ (proxy_disconnected ∷ []) }))
noticed-IsConsistent (ok q) v = record { channels_open = v.channels_open; same_ids = v.same_ids }
noticed-IsConsistent panic v = v

send_chunk-IsOpen :
    (h : WorkerHandle) (c : RawChunk)
    → IsOpen h
    → (h' : WorkerHandle) × (send_chunk h c ≡ ok h') × IsOpen h'
unfolding send_chunk
send_chunk-IsOpen h c o = elim (Bool-cases (ltb (length h.chunks) chunk_capacity)) [
  | inl room ↦ (record h { chunks = h.chunks ++ (c ∷ []) }, ground arith, o)
  | inr full ↦ (h, ground arith, o)
]

-- The worker of a data frame is in the map, with an open channel.
ensured-Returns :
    (f : Frame) (h : WorkerHandle) (q : Processor)
    → IsOpen h
    → IsConsistent q
    → is_some (lookup f.connection_id q.workers) ≡ true
    → Returns IsConsistent (
        send_chunk h (to_raw_chunk f) >>= λ h'.
        ok (record q { workers = insert f.connection_id h' q.workers }))
ensured-Returns f h q o v known =
    let (h', e, o') = send_chunk-IsOpen h (to_raw_chunk f) o in
    rw e (record {
      channels_open = insert-AllValues IsOpen f.connection_id h' q.workers o' v.channels_open;
      same_ids =
          λ id. ground (arith, lookup-insert f.connection_id id h' q.workers, v.same_ids id, known);
    })

handle_data-Returns :
    (f : Frame) (now : ℤ) (p : Processor)
    → IsConsistent p
    → Returns IsConsistent (handle_data f now p)
unfolding handle_data
handle_data-Returns f now p v = go (lookup f.connection_id p.workers) refl
  where
    go :
        (o : Option WorkerHandle)
        → lookup f.connection_id p.workers ≡ o
        → Returns IsConsistent (handle_data f now p)
    go none e = rw e (
        ensured-Returns f (new_handle f) _ refl
          (record {
            channels_open =
                insert-AllValues IsOpen f.connection_id (new_handle f) p.workers refl
                  v.channels_open;
            same_ids =
                λ id. insert_both id f.connection_id _ _ p.workers p.connections (v.same_ids id);
          })
          (rw lookup-insert (ground arith)))
    go (some h) e = rw e (
        ensured-Returns f h p
          (lookup-AllValues IsOpen f.connection_id h p.workers v.channels_open e) v (rw e))

-- Every handler returns, and leaves every channel of the map open and the same ids in both maps.
handle_frame-Returns :
    (f : Frame) (now : ℤ) (p : Processor)
    → IsConsistent p
    → Returns IsConsistent (handle_frame f now p)
unfolding handle_frame handle_ipc_disconnect
handle_frame-Returns f now p v = elim (Bool-cases (f.type == frame_type_conn_open)) [
  | inl a ↦ rw a (handle_conn_open-IsConsistent f p v)
  | inr a ↦ rw a (elim (Bool-cases (f.type == frame_type_conn_close)) [
    | inl b ↦ rw b (handle_conn_close-Returns f now p v)
    | inr b ↦ rw b (elim (Bool-cases (f.type == frame_type_data)) [
      | inl c ↦ rw c (handle_data-Returns f now p v)
      | inr c ↦ rw c (elim (Bool-cases (f.type == frame_type_ipc_disconnect)) [
        | inl d ↦ rw d (
            noticed-IsConsistent (disconnect_all p.workers now p)
              (disconnect_all-Returns p.workers now p v.channels_open v))
        | inr d ↦ rw d v
      ])
    ])
  ])
]

take_chunk-IsConsistent :
    (conn : ℕ) (p : Processor)
    → IsConsistent p
    → IsConsistent (take_chunk conn (lookup conn p.workers) p)
take_chunk-IsConsistent conn p v = go (lookup conn p.workers) refl
  where
    go : (o : Option WorkerHandle) → lookup conn p.workers ≡ o → IsConsistent (take_chunk conn o p)
    go none e = v
    go (some h) e = record {
      channels_open =
          insert-AllValues IsOpen conn _ p.workers
            (lookup-AllValues IsOpen conn h p.workers v.channels_open e) v.channels_open;
      same_ids = λ id. ground (
        arith,
        lookup-insert conn id (record h { chunks = drop 1 h.chunks }) p.workers,
        ==_iff conn id,
        v.same_ids id,
        e,
      );
    }

pub step-Returns : (s : Step) (p : Processor) → IsConsistent p → Returns IsConsistent (step s p)
unfolding step
step-Returns (arrives f now) p v = handle_frame-Returns f now p v
step-Returns (receives conn) p v = take_chunk-IsConsistent conn p v

then_steps :
    (ss : List Step) (r : Run Processor)
    → Returns IsConsistent r
    → ((q : Processor) → IsConsistent q → Returns IsConsistent (run_steps ss q))
    → Returns IsConsistent (r >>= λ q. run_steps ss q)
then_steps ss (ok q) v next = next q v
then_steps ss panic v next = v

-- From a consistent state, whatever frames arrive, in whatever order and at whatever times, and
-- whenever the workers take chunks out, no handler closes a closed channel or sends to one, and the
-- workers and the connections keep the same ids.
pub run_steps-Returns :
    (ss : List Step) (p : Processor) → IsConsistent p → Returns IsConsistent (run_steps ss p)
unfolding run_steps
run_steps-Returns [] p v = v
run_steps-Returns (s ∷ ss) p v =
    then_steps ss (step s p) (step-Returns s p v) (λ q w. run_steps-Returns ss q w)
