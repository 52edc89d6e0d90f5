-- ===== src/Common/Api/Attempts.antt =====
-- internal/common/api.go: how often a request is tried.
use ro_proxy.Prelude.{
  ℕ, ◌+◌, ◌-◌, ◌*◌, ◌%◌, ◌^◌, ◌≤◌, ◌<◌, ◌≡◌, refl, ap, subst, List, [], ◌∷◌, ◌++◌, Option, some,
  none, arith,
}
use ro_proxy.Prelude.{All, Bool-cases, inl, inr, leb}
use ro_proxy.Common.Api.{
  ApiRequest, ApiConsumer, ApiEvent, reported, pops, fails, answers, max_retries, pop_request,
  pop_if_idle, answer_to, handle_event, run_events, is_success,
}

-- A request in work may be refused once more.
abbrev pub CanRetry : Option ApiRequest → Type 0
CanRetry none = Unit
CanRetry (some r) = r.retries < max_retries

-- No request was refused more often than the limit says.
pub record IsLimited (c : ApiConsumer) : Type 0 where
  pub items_limited : All (λ (r : ApiRequest). r.retries ≤ max_retries) c.items
  pub sending_limited : CanRetry c.sending

-- How often requests may still be refused.
abbrev pub left : ApiRequest → ℕ
left r = max_retries - r.retries

abbrev pub left_items : List ApiRequest → ℕ
left_items [] = 0
left_items (r ∷ rs) = left r + left_items rs

abbrev pub left_sending : Option ApiRequest → ℕ
left_sending none = 0
left_sending (some r) = left r

abbrev pub left_all : ApiConsumer → ℕ
left_all c = left_items c.items + left_sending c.sending

-- Whether the API has something to answer, and how often it does in a run.
abbrev pub busy : Option ApiRequest → ℕ
busy none = 0
busy (some r) = 1

abbrev pub attempts : ApiEvent → ApiConsumer → ℕ
attempts (answers status) c = busy c.sending
attempts _ c = 0

pub all_attempts : List ApiEvent → ApiConsumer → ℕ
all_attempts [] c = 0
all_attempts (e ∷ es) c = attempts e c + all_attempts es (handle_event e c)

abbrev pub reports_in : ApiEvent → ℕ
reports_in (reported r) = 1
reports_in _ = 0

abbrev pub all_reports : List ApiEvent → ℕ
all_reports [] = 0
all_reports (e ∷ es) = reports_in e + all_reports es

left_items-append :
    (rs : List ApiRequest) (r : ApiRequest) → left_items (rs ++ (r ∷ [])) ≡ left_items rs + left r
left_items-append [] r = omega arith
left_items-append (x ∷ rs) r = omega (arith, left_items-append rs r)

limited-append :
    (rs : List ApiRequest) (r : ApiRequest)
    → All (λ (r : ApiRequest). r.retries ≤ max_retries) rs
    → r.retries ≤ max_retries
    → All (λ (r : ApiRequest). r.retries ≤ max_retries) (rs ++ (r ∷ []))
limited-append [] r h k = (k, tt)
limited-append (x ∷ rs) r (h, hs) k = (h, limited-append rs r hs k)

-- A state within the limit, and with fewer attempts left than `n`.
pub record Within (n : ℕ) (c : ApiConsumer) : Type 0 where
  pub limited : IsLimited c
  pub paid : left_all c ≤ n

pop_request-Within :
    (items : List ApiRequest) (c : ApiConsumer)
    → c.items ≡ items
    → c.sending ≡ none
    → IsLimited c
    → Within (left_all c) (pop_request items c)
pop_request-Within [] c e idle v = record { limited = v; paid = omega arith }
pop_request-Within (r ∷ rs) c e idle v = elim (Bool-cases (leb max_retries r.retries)) [
  | inl over ↦ rw over (record {
    limited = record { items_limited = others.1; sending_limited = v.sending_limited };
    paid = omega (arith, ap left_items e);
  })
  | inr under ↦ rw under (record {
    limited = record { items_limited = others.1; sending_limited = ground arith };
    paid = omega (arith, ap left_items e, ap left_sending idle);
  })
]
  where
    others : (r.retries ≤ max_retries) × All (λ (r : ApiRequest). r.retries ≤ max_retries) rs
    others = subst (All λ (r : ApiRequest). r.retries ≤ max_retries) e v.items_limited

pop_if_idle-Within :
    (o : Option ApiRequest) (c : ApiConsumer)
    → c.sending ≡ o
    → IsLimited c
    → Within (left_all c) (pop_if_idle o c)
pop_if_idle-Within none c e v = pop_request-Within c.items c refl e v
pop_if_idle-Within (some r) c e v = record { limited = v; paid = omega arith }

answer_to-Within :
    (o : Option ApiRequest) (status : ℕ) (c : ApiConsumer)
    → c.sending ≡ o
    → IsLimited c
    → Within (left_all c - busy o) (answer_to o status c)
answer_to-Within none status c e v = record { limited = v; paid = omega arith }
answer_to-Within (some r) status c e v =
    let below : r.retries < max_retries = subst CanRetry e v.sending_limited in
    elim (Bool-cases (is_success status)) [
      | inl good ↦ rw good (record {
        limited = record { items_limited = v.items_limited; sending_limited = tt };
        paid = omega (arith, ap left_sending e);
      })
      | inr bad ↦ rw bad (record {
        limited = record {
          items_limited = limited-append c.items _ v.items_limited (omega arith);
          sending_limited = tt;
        };
        paid = omega (
          arith,
          ap left_sending e,
          left_items-append c.items (record r { retries = (r.retries + 1) % 2 ^ 32 }),
        );
      })
    ]

busy_left : (c : ApiConsumer) → IsLimited c → busy c.sending ≤ left_all c
busy_left c v = go c.sending refl
  where
    go : (o : Option ApiRequest) → c.sending ≡ o → busy o ≤ left_all c
    go none e = omega arith
    go (some r) e =
        let below : r.retries < max_retries = subst CanRetry e v.sending_limited in
        omega (arith, ap left_sending e)

handle_event-Within :
    (e : ApiEvent) (c : ApiConsumer)
    → IsLimited c
    → Within (left_all c + max_retries * reports_in e - attempts e c) (handle_event e c)
unfolding handle_event
handle_event-Within (reported r) c v = record {
  limited = record {
    items_limited = limited-append c.items _ v.items_limited (omega arith);
    sending_limited = v.sending_limited;
  };
  paid = omega (arith, left_items-append c.items (record { request = r; retries = 0 }));
}
handle_event-Within pops c v =
    let w = pop_if_idle-Within c.sending c refl v in
    record { limited = w.limited; paid = omega (arith, w.paid) }
handle_event-Within fails c v = record { limited = v; paid = omega arith }
handle_event-Within (answers status) c v =
    let w = answer_to-Within c.sending status c refl v in
    record { limited = w.limited; paid = omega (arith, w.paid) }

attempts_left : (e : ApiEvent) (c : ApiConsumer) → IsLimited c → attempts e c ≤ left_all c
attempts_left (answers status) c v = busy_left c v
attempts_left (reported r) c v = omega arith
attempts_left pops c v = omega arith
attempts_left fails c v = omega arith

-- The API answers at most 100 times for each report, whatever it answers and in whatever order: from a
-- state within the limit, the answers so far and the attempts left are no more than the attempts left
-- at first and 100 for each report since; and no request is ever refused more often.
pub run_events_attempts :
    (es : List ApiEvent) (c : ApiConsumer)
    → IsLimited c
    → (all_attempts es c + left_all (run_events es c) ≤ left_all c + max_retries * all_reports es)
      × IsLimited (run_events es c)
unfolding run_events all_attempts
run_events_attempts [] c v = (omega arith, v)
run_events_attempts (e ∷ es) c v =
    let w : Within _ _ = handle_event-Within e c v in
    let (few, limited) = run_events_attempts es (handle_event e c) w.limited in
    (omega (arith, few, w.paid, attempts_left e c v), limited)
