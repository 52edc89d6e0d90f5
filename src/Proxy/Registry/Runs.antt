-- ===== src/Proxy/Registry/Runs.antt =====
-- internal/proxy/proxy.go and internal/analyzer/processor.go in runs of both programs.
use ro_proxy.Prelude.{refl, ◌∙◌, List, [], ◌∷◌, ◌++◌, Run, ok, panic, ◌>>=◌}
use ro_proxy.Prelude.Assoc.{lookup}
use ro_proxy.Analyzer.Processor.{Processor, Step, receives, step, run_steps, new_processor}
use ro_proxy.Analyzer.Processor.Safety.{IsConsistent, Returns, run_steps-Returns}
use ro_proxy.Proxy.{Proxy, proxy_event, new_proxy}
use ro_proxy.Proxy.Registry.{
  Turn, happens, takes, arrivals, both_run, Follows, is_some-take_chunk, event-Follows,
}

Returns-both :
    (P Q : Processor → Type 0) (r : Run Processor)
    → Returns P r
    → Returns Q r
    → Returns (λ q. P q × Q q) r
Returns-both P Q (ok q) h k = (h, k)
Returns-both P Q panic h k = h

-- Steps one after the other.
Returns-append :
    (P Q : Processor → Type 0) (xs ys : List Step) (q : Processor)
    → Returns P (run_steps xs q)
    → ((q' : Processor) → P q' → Returns Q (run_steps ys q'))
    → Returns Q (run_steps (xs ++ ys) q)
unfolding run_steps
Returns-append P Q [] ys q h k = k q h
Returns-append P Q (x ∷ xs) ys q h k = go (step x q) h (λ q' h'. Returns-append P Q xs ys q' h' k)
  where
    go :
        (r : Run Processor)
        → Returns P (r >>= λ q'. run_steps xs q')
        → ((q' : Processor) → Returns P (run_steps xs q') → Returns Q (run_steps (xs ++ ys) q'))
        → Returns Q (r >>= λ q'. run_steps (xs ++ ys) q')
    go (ok q') h next = next q' h
    go panic h next = h

-- Whatever connections are accepted, started, relay and end, in whatever order, while the workers take
-- chunks out: as long as the frames arrive in their order, the processor does not panic, stays
-- consistent, and then has a worker for exactly the connections that the proxy has, if it is consistent
-- and has these workers at the start.
pub both_run-Follows :
    (ts : List Turn) (p : Proxy) (q : Processor)
    → IsConsistent q
    → Follows p q
    → Returns (λ q'. IsConsistent q' × Follows (both_run ts p).1 q') (run_steps (both_run ts p).0 q)
unfolding both_run
both_run-Follows [] p q v w = unfold run_steps in (v, w)
both_run-Follows (takes conn ∷ ts) p q v w =
    Returns-append (λ q'. IsConsistent q' × Follows p q') _ (receives conn ∷ []) (both_run ts p).0 q
      (Returns-both _ _ _ (run_steps-Returns (receives conn ∷ []) q v) (
        unfold run_steps step in
        record { keyed = w.keyed; same = λ id. is_some-take_chunk conn id _ q refl ∙ w.same id }))
      (λ q' h. both_run-Follows ts p q' h.0 h.1)
both_run-Follows (happens e at ∷ ts) p q v w =
    let (fs, p') = proxy_event e p in
    Returns-append (λ q'. IsConsistent q' × Follows p' q') _ (arrivals at fs) (both_run ts p').0 q
      (Returns-both _ _ _ (run_steps-Returns (arrivals at fs) q v) (event-Follows p q at v w e))
      (λ q' h. both_run-Follows ts p' q' h.0 h.1)

-- Both programs at their start.
pub new_proxy-Follows : Follows new_proxy new_processor
unfolding lookup
new_proxy-Follows = record { keyed = λ id c e. cc; same = λ id. refl }
