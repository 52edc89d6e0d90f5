-- ===== src/Common/Api/Conservation.antt =====
-- internal/common/api.go: no report is lost or sent twice.
use ro_proxy.Prelude.{
  ℕ, ◌+◌, ◌%◌, ◌^◌, ◌≡◌, refl, ap, Bool, List, [], ◌∷◌, ◌++◌, Option, some, none, arith,
}
use ro_proxy.Prelude.{if◌then◌else◌}
use ro_proxy.Packets.Handlers.Reports.{Request}
use ro_proxy.Common.Api.{
  ApiRequest, ApiConsumer, ApiEvent, reported, pops, fails, answers, pop_request, pop_if_idle,
  answer_to, finish_request, handle_event, run_events,
}

-- How many reports of a kind there are in a list, in the queue, in work.
module _ (kind : Request → Bool) where
  abbrev pub one : Request → ℕ
  one r = if kind r then 1 else 0

  abbrev pub count : List Request → ℕ
  count [] = 0
  count (r ∷ rs) = one r + count rs

  abbrev pub count_items : List ApiRequest → ℕ
  count_items [] = 0
  count_items (r ∷ rs) = one r.request + count_items rs

  abbrev pub count_sending : Option ApiRequest → ℕ
  count_sending none = 0
  count_sending (some r) = one r.request

  -- Those that the consumer has to do with.
  abbrev pub count_all : ApiConsumer → ℕ
  count_all c = count_items c.items + count_sending c.sending + count c.delivered + count c.dropped

  -- Those that were reported meanwhile.
  abbrev pub count_reported : List ApiEvent → ℕ
  count_reported [] = 0
  count_reported (reported r ∷ es) = one r + count_reported es
  count_reported (pops ∷ es) = count_reported es
  count_reported (fails ∷ es) = count_reported es
  count_reported (answers status ∷ es) = count_reported es

  count-append : (rs : List Request) (r : Request) → count (rs ++ (r ∷ [])) ≡ count rs + one r
  count-append [] r = omega arith
  count-append (x ∷ rs) r = omega (arith, count-append rs r)

  count_items-append :
      (rs : List ApiRequest) (r : ApiRequest)
      → count_items (rs ++ (r ∷ [])) ≡ count_items rs + one r.request
  count_items-append [] r = omega arith
  count_items-append (x ∷ rs) r = omega (arith, count_items-append rs r)

  count_all-pop_request :
      (items : List ApiRequest) (c : ApiConsumer)
      → c.items ≡ items
      → c.sending ≡ none
      → count_all (pop_request items c) ≡ count_all c
  count_all-pop_request [] c e idle = refl
  count_all-pop_request (r ∷ rs) c e idle =
      ground
        (arith, e, idle, ap count_items e, ap count_sending idle, count-append c.dropped r.request)

  count_all-finish_request :
      (r : ApiRequest) (status : ℕ) (c : ApiConsumer)
      → c.sending ≡ some r
      → count_all (finish_request r status c) ≡ count_all c
  count_all-finish_request r status c busy = ground (
    arith,
    ap count_sending busy,
    count-append c.delivered r.request,
    count_items-append c.items (record r { retries = (r.retries + 1) % 2 ^ 32 }),
  )

  count_all-pop_if_idle :
      (o : Option ApiRequest) (c : ApiConsumer)
      → c.sending ≡ o
      → count_all (pop_if_idle o c) ≡ count_all c
  count_all-pop_if_idle none c e = count_all-pop_request c.items c refl e
  count_all-pop_if_idle (some r) c e = refl

  count_all-answer_to :
      (o : Option ApiRequest) (status : ℕ) (c : ApiConsumer)
      → c.sending ≡ o
      → count_all (answer_to o status c) ≡ count_all c
  count_all-answer_to none status c e = refl
  count_all-answer_to (some r) status c e = count_all-finish_request r status c e

  -- What one event adds.
  count_all-handle_event :
      (e : ApiEvent) (c : ApiConsumer)
      → count_all (handle_event e c) ≡ count_all c + count_reported (e ∷ [])
  unfolding handle_event
  count_all-handle_event (reported r) c =
      omega (arith, count_items-append c.items (record { request = r; retries = 0 }))
  count_all-handle_event pops c = omega (arith, count_all-pop_if_idle c.sending c refl)
  count_all-handle_event fails c = omega arith
  count_all-handle_event (answers status) c =
      omega (arith, count_all-answer_to c.sending status c refl)

  -- Whatever happens, each report is in exactly one place: it waits, it is being sent, it was delivered
  -- or it was dropped; so none is lost, and none is delivered twice.
  pub run_events_conserves :
      (es : List ApiEvent) (c : ApiConsumer)
      → count_all (run_events es c) ≡ count_all c + count_reported es
  unfolding run_events
  run_events_conserves [] c = omega arith
  run_events_conserves (e ∷ es) c = one_more e (run_events_conserves es (handle_event e c))
    where
      one_more :
          (e : ApiEvent)
          → count_all (run_events es (handle_event e c))
            ≡ count_all (handle_event e c) + count_reported es
          → count_all (run_events es (handle_event e c)) ≡ count_all c + count_reported (e ∷ es)
      one_more (reported r) ih = omega (arith, ih, count_all-handle_event (reported r) c)
      one_more pops ih = omega (arith, ih, count_all-handle_event pops c)
      one_more fails ih = omega (arith, ih, count_all-handle_event fails c)
      one_more (answers status) ih = omega (arith, ih, count_all-handle_event (answers status) c)
