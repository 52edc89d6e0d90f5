-- ===== src/Tests/Processing.antt =====
-- Runs of internal/analyzer/processor.go.
use ro_proxy.Prelude.{ℕ, ◌≡◌, refl, ◌==◌, if◌then◌else◌, true, [], ◌∷◌, none, ok, panic, ◌>>=◌}
use ro_proxy.Prelude.Int.{pos}
use ro_proxy.Prelude.Assoc.{lookup, insert}
use ro_proxy.Common.Base.{server_to_client}
use ro_proxy.Ipc.Frame.{
  Frame, new_data_frame, new_conn_open_frame, new_conn_close_frame, to_raw_chunk,
}
use ro_proxy.Analyzer.Processor.{
  Processor, arrives, receives, run_steps, new_processor, new_handle, handle_conn_open,
  handle_conn_close, handle_data, handle_ipc_disconnect, stop, cleanup_all_workers,
}
use ro_proxy.Analyzer.Processor.Safety.{
  IsConsistent, Returns, new_processor-IsConsistent, handle_conn_open-IsConsistent,
  run_steps-Returns,
}
use ro_proxy.Analyzer.Processor.Routing.{
  chunks_of, offered, handle_data_routes, handle_conn_close_removes, handle_ipc_disconnect_removes,
}
use ro_proxy.Analyzer.Processor.Lifecycle.{cleanup_then_stop, stop_then_cleanup}

abbrev opening : Frame
opening = new_conn_open_frame 7 (pos 0) (b'a' ∷ []) (b'b' ∷ [])

abbrev data_frame : Frame
data_frame = new_data_frame 7 (pos 1) server_to_client (b'a' ∷ []) (b'b' ∷ []) (1 ∷ 2 ∷ [])

abbrev closing : Frame
closing = new_conn_close_frame 7 (pos 2)

abbrev opened : Processor
opened = handle_conn_open opening new_processor

opened-IsConsistent : IsConsistent opened
opened-IsConsistent = handle_conn_open-IsConsistent opening new_processor new_processor-IsConsistent

-- A chunk after the close, and two closes.
run_steps-Returns_example : Returns IsConsistent (
    run_steps
      (arrives opening (pos 0)
        ∷ arrives data_frame (pos 1)
        ∷ receives 7
        ∷ arrives closing (pos 2)
        ∷ arrives closing (pos 2)
        ∷ arrives data_frame (pos 3)
        ∷ [])
      new_processor)
run_steps-Returns_example =
    run_steps-Returns
      (arrives opening (pos 0)
        ∷ arrives data_frame (pos 1)
        ∷ receives 7
        ∷ arrives closing (pos 2)
        ∷ arrives closing (pos 2)
        ∷ arrives data_frame (pos 3)
        ∷ [])
      new_processor new_processor-IsConsistent

handle_data_routes_example :
    (q : Processor) × (handle_data data_frame (pos 1) opened ≡ ok q)
    × ((id : ℕ)
        → chunks_of id q ≡ (
            if 7 == id
            then offered (chunks_of id opened) (to_raw_chunk data_frame)
            else chunks_of id opened))
handle_data_routes_example = handle_data_routes data_frame (pos 1) opened opened-IsConsistent

handle_conn_close_removes_example :
    (q : Processor) × (handle_conn_close closing (pos 2) opened ≡ ok q)
    × ((id : ℕ) → lookup id q.workers ≡ (if 7 == id then none else lookup id opened.workers))
handle_conn_close_removes_example =
    handle_conn_close_removes closing (pos 2) opened opened-IsConsistent

handle_ipc_disconnect_removes_example :
    Returns (λ q. lookup 7 q.workers ≡ none) (handle_ipc_disconnect (pos 3) opened)
handle_ipc_disconnect_removes_example =
    handle_ipc_disconnect_removes 7 (pos 3) opened opened-IsConsistent

cleanup_then_stop_example :
    ((cleanup_all_workers opened >>= stop) ≡ ok (record opened { workers = []; cleaned_up = true }))
    × ((cleanup_all_workers opened >>= cleanup_all_workers)
        ≡ ok (record opened { workers = []; cleaned_up = true }))
unfolding handle_conn_open insert
cleanup_then_stop_example = cleanup_then_stop opened opened-IsConsistent refl

stop_then_cleanup_example : (stop opened >>= cleanup_all_workers) ≡ panic
unfolding handle_conn_open insert
stop_then_cleanup_example =
    stop_then_cleanup opened 7 (new_handle opening) [] opened-IsConsistent refl refl
