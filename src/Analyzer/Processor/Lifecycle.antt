-- ===== src/Analyzer/Processor/Lifecycle.antt =====
-- internal/analyzer/processor.go: `Stop` and the end of `processLoop` both close the workers' channels.
use ro_proxy.Prelude.{ℕ, ◌≡◌, refl, true, false, List, [], ◌∷◌, ok, panic, ◌>>=◌, arith}
use ro_proxy.Prelude.Assoc.{AllValues}
use ro_proxy.Analyzer.Processor.{
  Processor, WorkerHandle, close_channel, close_all, stop, cleanup_all_workers,
}
use ro_proxy.Analyzer.Processor.Safety.{IsOpen, IsConsistent, close_channel-open}

abbrev closed_handles : List (ℕ × WorkerHandle) → List (ℕ × WorkerHandle)
closed_handles [] = []
closed_handles ((conn, h) ∷ hs) = (conn, record h { closed = true }) ∷ closed_handles hs

close_all-open :
    (hs : List (ℕ × WorkerHandle)) → AllValues IsOpen hs → close_all hs ≡ ok (closed_handles hs)
unfolding close_all
close_all-open [] os = refl
close_all-open ((conn, h) ∷ hs) (o, os) = rw (close_channel-open h o, close_all-open hs os)

abbrev stopped : Processor → Processor
stopped p = record p { workers = closed_handles p.workers }

abbrev cleaned : Processor → Processor
cleaned p = record p { workers = []; cleaned_up = true }

stop_lem : (p : Processor) → IsConsistent p → stop p ≡ ok (stopped p)
unfolding stop
stop_lem p v = rw (close_all-open p.workers v.channels_open)

cleanup_lem :
    (p : Processor) → IsConsistent p → p.cleaned_up ≡ false → cleanup_all_workers p ≡ ok (cleaned p)
unfolding cleanup_all_workers
cleanup_lem p v e = ground (arith, close_all-open p.workers v.channels_open, e)

-- In a consistent state that is not cleaned up, where the loop's clean-up comes first, `Stop` after
-- it closes nothing again, and a second clean-up does nothing.
pub cleanup_then_stop :
    (p : Processor)
    → IsConsistent p
    → p.cleaned_up ≡ false
    → ((cleanup_all_workers p >>= stop) ≡ ok (cleaned p))
      × ((cleanup_all_workers p >>= cleanup_all_workers) ≡ ok (cleaned p))
unfolding stop close_all
cleanup_then_stop p v e =
    (rw (cleanup_lem p v e), rw (cleanup_lem p v e) (unfold cleanup_all_workers in refl))

-- In a consistent state that is not cleaned up, where `Stop` comes first and a worker is left, the
-- loop's clean-up closes its channel again, which panics.
pub stop_then_cleanup :
    (p : Processor) (conn : ℕ) (h : WorkerHandle) (hs : List (ℕ × WorkerHandle))
    → IsConsistent p
    → p.cleaned_up ≡ false
    → p.workers ≡ (conn, h) ∷ hs
    → (stop p >>= cleanup_all_workers) ≡ panic
unfolding cleanup_all_workers close_all close_channel
stop_then_cleanup p conn h hs v e w =
    let again : close_all (closed_handles p.workers) ≡ panic = rw w in
    rw (stop_lem p v) (ground (arith, e, again))
