-- ===== src/Proxy/Registry.antt =====
-- internal/proxy/proxy.go and internal/analyzer/processor.go: the connections that the proxy has and
-- the workers that the analyzer has.
pub mod Runs
use ro_proxy.Prelude.{
  ℕ, ◌<◌, ◌+◌, ◌*◌, ◌≡◌, refl, ap, sym, ◌∙◌, List, [], ◌∷◌, ◌++◌, true, Option, some, none, Run, ok,
  panic, ◌>>=◌, map, arith,
}
use ro_proxy.Prelude.{◌==◌, ==_iff, if◌then◌else◌}
use ro_proxy.Prelude.Int.{ℤ}
use ro_proxy.Prelude.Assoc.{
  lookup, insert, remove, is_some, lookup-insert, lookup-remove, lookup-AllValues,
}
use ro_proxy.Common.Base.{Bytes, PacketDirection, of_le}
use ro_proxy.Ipc.Frame.{Frame, frame_type_data, frame_type_conn_open, frame_type_conn_close}
use ro_proxy.Analyzer.Processor.{
  Processor, WorkerHandle, Step, arrives, receives, step, take_chunk, run_steps, handle_frame,
  handle_conn_open, handle_conn_close, handle_data, send_chunk, new_processor, new_handle,
}
use ro_proxy.Analyzer.Processor.Safety.{
  IsOpen, IsConsistent, Returns, run_steps-Returns, new_processor-IsConsistent,
}
use ro_proxy.Analyzer.Processor.Routing.{handle_conn_close_removes, offered, send_chunk_lem}
use ro_proxy.Ipc.Frame.{to_raw_chunk, new_conn_close_frame}
use ro_proxy.Proxy.{
  Proxy, Connection, ProxyEvent, accepts, starts, relays, ends, proxy_event, number_connection,
  original_port, new_proxy, open_frame, data_frame, relayed_by, ended_by,
}

-- `getOriginalDest` reads the port that stands in network order, the high byte first.
pub original_port-of_le :
    (high low : ℕ)
    → high < 256
    → low < 256
    → original_port (of_le (high ∷ low ∷ [])) ≡ high * 256 + low
unfolding original_port of_le
original_port-of_le high low h k = omega arith

-- What happens to both programs: an event of the proxy, whose frames arrive at a time, or a worker
-- takes a chunk.
pub data Turn : Type 0 where
  happens : (e : ProxyEvent) → (at : ℤ) → Turn
  takes : (conn : ℕ) → Turn

-- The steps of the processor in a run of both, and the proxy afterwards.
abbrev pub arrivals : ℤ → List Frame → List Step
arrivals at [] = []
arrivals at (f ∷ fs) = arrives f at ∷ arrivals at fs

unfoldable pub both_run : List Turn → Proxy → List Step × Proxy
both_run [] p = ([], p)
both_run (takes conn ∷ ts) p = let (ss, p') = both_run ts p in (receives conn ∷ ss, p')
both_run (happens e at ∷ ts) p =
    let (fs, q) = proxy_event e p in let (ss, p') = both_run ts q in (arrivals at fs ++ ss, p')

-- Each connection is registered under its own number.
abbrev pub IsKeyed : Proxy → Type 0
IsKeyed p = (id : ℕ) (c : Connection) → lookup id p.connections ≡ some c → c.id ≡ id

-- The processor is consistent, and has a worker for exactly the connections of the proxy.
pub record Follows (p : Proxy) (q : Processor) : Type 0 where
  pub keyed : IsKeyed p
  pub same : (id : ℕ) → is_some (lookup id q.workers) ≡ is_some (lookup id p.connections)

-- Chunks that are taken and sent leave the ids of the workers.
is_some-insert :
    (conn id : ℕ) (h w : WorkerHandle) (hs : List (ℕ × WorkerHandle))
    → lookup conn hs ≡ some w
    → is_some (lookup id (insert conn h hs)) ≡ is_some (lookup id hs)
is_some-insert conn id h w hs e = ground (arith, lookup-insert conn id h hs, ==_iff conn id, e)

pub is_some-take_chunk :
    (conn id : ℕ) (o : Option WorkerHandle) (q : Processor)
    → lookup conn q.workers ≡ o
    → is_some (lookup id (take_chunk conn o q).workers) ≡ is_some (lookup id q.workers)
is_some-take_chunk conn id none q e = refl
is_some-take_chunk conn id (some h) q e = is_some-insert conn id _ h q.workers e

handle_data_keeps :
    (f : Frame) (now : ℤ) (o : Option WorkerHandle) (q : Processor)
    → IsConsistent q
    → lookup f.connection_id q.workers ≡ o
    → is_some o ≡ true
    → Returns
        (λ q'. (id : ℕ) → is_some (lookup id q'.workers) ≡ is_some (lookup id q.workers))
        (handle_data f now q)
unfolding handle_data
handle_data_keeps f now none q v e h = absurd cc
handle_data_keeps f now (some w) q v e h =
    rw
      (
        e,
        send_chunk_lem w (to_raw_chunk f)
            (lookup-AllValues IsOpen f.connection_id w q.workers v.channels_open e),
      )
      (λ id. is_some-insert f.connection_id id _ w q.workers e)

-- One frame, and what holds after it.
one_arrival :
    (P : Processor → Type 0) (f : Frame) (at : ℤ) (q : Processor)
    → Returns P (handle_frame f at q)
    → Returns P (run_steps (arrives f at ∷ []) q)
unfolding run_steps step
one_arrival P f at q h = go (handle_frame f at q) h
  where
    go : (r : Run Processor) → Returns P r → Returns P (r >>= λ q'. run_steps [] q')
    go (ok q') h = h
    go panic h = h

Returns-map :
    (P Q : Processor → Type 0) (r : Run Processor)
    → ((q : Processor) → P q → Q q)
    → Returns P r
    → Returns Q r
Returns-map P Q (ok q) f h = f q h
Returns-map P Q panic f h = h

module _ (p : Proxy) (q : Processor) (at : ℤ) (v : IsConsistent q) (w : Follows p q) where
  starts-Follows :
      (c : Connection) (now : ℤ)
      → Follows
          (record p { connections = insert c.id c p.connections })
          (handle_conn_open (open_frame c now) q)
  unfolding handle_conn_open
  starts-Follows c now = record {
    keyed = λ id d e.
        ground (arith, lookup-insert c.id id c p.connections, ==_iff c.id id, w.keyed id d, e);
    same = λ id. ground (
      arith,
      lookup-insert c.id id c p.connections,
      lookup-insert c.id id (new_handle (open_frame c now)) q.workers,
      w.same id,
    );
  }

  relays-Follows :
      (id : ℕ) (c : Connection) (direction : PacketDirection) (bytes : Bytes) (now : ℤ)
      → lookup id p.connections ≡ some c
      → Returns (Follows p) (handle_frame (data_frame c direction bytes now) at q)
  unfolding handle_frame
  relays-Follows id c direction bytes now e =
      let known : is_some (lookup c.id q.workers) ≡ true =
        w.same c.id ∙ ap (λ t. is_some (lookup t p.connections)) (w.keyed id c e) ∙ ap is_some e in
      Returns-map _ _ (handle_data (data_frame c direction bytes now) at q)
        (λ q' h. record { keyed = w.keyed; same = λ k. h k ∙ w.same k })
        (handle_data_keeps (data_frame c direction bytes now) at (lookup c.id q.workers) q v refl
          known)

  ends-Follows :
      (id : ℕ) (now : ℤ)
      → Returns
          (Follows (record p { connections = remove id p.connections }))
          (handle_frame (new_conn_close_frame id now) at q)
  unfolding handle_frame
  ends-Follows id now =
      let (q', e, gone) = handle_conn_close_removes (new_conn_close_frame id now) at q v in
      rw e (record {
        keyed = λ k d h. ground (arith, lookup-remove id k p.connections, w.keyed k d, h);
        same = λ k. ground (arith, lookup-remove id k p.connections, gone k, w.same k);
      })

  pub event-Follows :
      (e : ProxyEvent)
      → Returns (Follows (proxy_event e p).1) (run_steps (arrivals at (proxy_event e p).0) q)
  unfolding proxy_event run_steps number_connection
  event-Follows accepts = record { keyed = w.keyed; same = w.same }
  event-Follows (starts c now) =
      one_arrival _ (open_frame c now) at q (unfold handle_frame in starts-Follows c now)
  event-Follows (relays id direction bytes now) = go (lookup id p.connections) refl
    where
      go :
          (o : Option Connection)
          → lookup id p.connections ≡ o
          → Returns (Follows p) (run_steps (arrivals at (relayed_by o direction bytes now)) q)
      go none e = w
      go (some c) e =
          one_arrival _ (data_frame c direction bytes now) at q
            (relays-Follows id c direction bytes now e)
  event-Follows (ends id now) = go (lookup id p.connections)
    where
      go :
          (o : Option Connection)
          → Returns
              (Follows (ended_by id o now p).1)
              (run_steps (arrivals at (ended_by id o now p).0) q)
      go none = w
      go (some c) = one_arrival _ (new_conn_close_frame id now) at q (ends-Follows id now)
