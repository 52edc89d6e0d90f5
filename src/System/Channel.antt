-- ===== src/System/Channel.antt =====
-- internal/analyzer/processor.go: the chunks of a connection's frames wait in its channel in their order.
use ro_proxy.Prelude.{
  ℕ, ◌+◌, ◌≤◌, ◌<◌, ◌≡◌, refl, ap, sym, ◌∙◌, List, [], ◌∷◌, ◌++◌, map, append_assoc, append-nil, ok,
  arith,
}
use ro_proxy.Prelude.{length, All, length-append, ==_iff}
use ro_proxy.Prelude.Int.{ℤ}
use ro_proxy.Ipc.Frame.{Frame, to_raw_chunk, frame_type_data}
use ro_proxy.Analyzer.Processor.{Processor, chunk_capacity, run_steps, step, arrives, handle_frame}
use ro_proxy.Analyzer.Processor.Safety.{IsConsistent, Returns, step-Returns}
use ro_proxy.Analyzer.Processor.Routing.{chunks_of, handle_data_routes}
use ro_proxy.Proxy.Registry.{arrivals}

-- A data frame of the connection.
pub record IsDataOf (id : ℕ) (f : Frame) : Type 0 where
  pub data_type : f.type ≡ frame_type_data
  pub of_connection : f.connection_id ≡ id

module _ (id : ℕ) (at : ℤ) where
  -- One data frame.
  data_arrives :
      (f : Frame) (q : Processor)
      → IsDataOf id f
      → IsConsistent q
      → length (chunks_of id q) < chunk_capacity
      → (q' : Processor) × (handle_frame f at q ≡ ok q')
        × (chunks_of id q' ≡ chunks_of id q ++ (to_raw_chunk f ∷ []))
  unfolding handle_frame
  data_arrives f q d v room =
      let (q', e, routed) = handle_data_routes f at q v in
      (
        q',
        ground (arith, e, d.data_type),
        ground (arith, routed id, d.of_connection, ==_iff f.connection_id id),
      )

  -- From a consistent state the chunks of data frames of a connection that the channel has room for come
  -- to stand in it, behind those that wait there, in their order.
  pub data_frames_wait :
      (fs : List Frame) (q : Processor)
      → All (IsDataOf id) fs
      → IsConsistent q
      → length (chunks_of id q) + length fs ≤ chunk_capacity
      → (q' : Processor) × (run_steps (arrivals at fs) q ≡ ok q')
        × (chunks_of id q' ≡ chunks_of id q ++ map to_raw_chunk fs)
  unfolding run_steps
  data_frames_wait [] q ds v room = (q, refl, sym (append-nil (chunks_of id q)))
  data_frames_wait (f ∷ fs) q (d, ds) v room =
      let (q', e, c) = data_arrives f q d v (omega arith) in
      let stepped : step (arrives f at) q ≡ ok q' = unfold step in e in
      let consistent : Returns IsConsistent (step (arrives f at) q) =
        step-Returns (arrives f at) q v in
      let w : IsConsistent q' = rw stepped at consistent in
      let (q2, e2, c2) =
        data_frames_wait fs q' ds w
          (omega (arith, ap length c, length-append (chunks_of id q) (to_raw_chunk f ∷ []))) in
      (
        q2,
        rw stepped e2,
        c2
            ∙ ap (λ t. t ++ map to_raw_chunk fs) c
            ∙ append_assoc (chunks_of id q) (to_raw_chunk f ∷ []) (map to_raw_chunk fs),
      )
