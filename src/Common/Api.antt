-- ===== src/Common/Api.antt =====
-- internal/common/api.go: the queue of requests to the API and its consumer. What the HTTP client gives
-- is an input; a request whose payload cannot be encoded does not occur, since a payload is a report.
pub mod Conservation
pub mod Attempts
use ro_proxy.Prelude.{
  ℕ, ◌+◌, ◌%◌, ◌^◌, Bool, true, false, ◌&&◌, ◌||◌, List, [], ◌∷◌, ◌++◌, Option, some, none, Run, ok,
  panic,
}
use ro_proxy.Prelude.{length, leb, ltb, if◌then◌else◌}
use ro_proxy.Common.Base.{Bytes}
use ro_proxy.Config.{Config, ApiConfig}
use ro_proxy.Packets.Handlers.Reports.{Request}

-- `APIRequest`: the report has its endpoint, the request the payload.
pub record ApiRequest : Type 0 where
  pub request : Request
  pub retries : ℕ

abbrev pub max_retries : ℕ
max_retries = 100

-- `items` of the queue, the request that `sendRequest` is busy with, and what became of the others, in
-- order.
pub record ApiConsumer : Type 0 where
  pub items : List ApiRequest
  pub sending : Option ApiRequest
  pub delivered : List Request
  pub dropped : List Request

abbrev pub new_consumer : ApiConsumer
new_consumer = record { items = []; sending = none; delivered = []; dropped = [] }

abbrev pub is_nil : Bytes → Bool
is_nil [] = true
is_nil (b ∷ bs) = false

-- `InitAPIConsumer` reads `cfg.API.URL` also where `cfg.API` is nil.
unfoldable pub init_api_consumer : Config → Run (Option ApiConsumer)
init_api_consumer c = elim c.api [
  | none ↦ panic
  | some api ↦ ok (if is_nil api.url || is_nil api.key then none else some new_consumer)
]

-- `Push`, which appends.
abbrev pub push : ApiRequest → ApiConsumer → ApiConsumer
push r c = record c { items = c.items ++ (r ∷ []) }

-- `SendToAPIInternal`; without a consumer nothing is kept.
unfoldable pub send_to_api : Request → Option ApiConsumer → Option ApiConsumer
send_to_api r none = none
send_to_api r (some c) = some (push (record { request = r; retries = 0 }) c)

-- A round of `consumeLoop` up to `sendRequest`.
abbrev pub take_request : ApiRequest → ApiConsumer → ApiConsumer
take_request r c =
    if leb max_retries r.retries
    then record c { dropped = c.dropped ++ (r.request ∷ []) }
    else record c { sending = some r }

-- `Pop` waits on the empty queue.
abbrev pub pop_request : List ApiRequest → ApiConsumer → ApiConsumer
pop_request [] c = c
pop_request (r ∷ rs) c = take_request r (record c { items = rs })

abbrev pub is_success : ℕ → Bool
is_success status = leb 200 status && ltb status 300

-- The rest of `sendRequest`, once the API has answered.
abbrev pub finish_request : ApiRequest → ℕ → ApiConsumer → ApiConsumer
finish_request r status c =
    if is_success status
    then record c { sending = none; delivered = c.delivered ++ (r.request ∷ []) }
    else push (record r { retries = (r.retries + 1) % 2 ^ 32 }) (record c { sending = none })

-- What happens to a consumer: a handler sends a report, the loop pops, a request fails without an
-- answer and is repeated, or the API answers.
pub data ApiEvent : Type 0 where
  reported : (r : Request) → ApiEvent
  pops fails : ApiEvent
  answers : (status : ℕ) → ApiEvent

-- The consumer pops only while it sends nothing, and the API answers only to what is sent.
abbrev pub pop_if_idle : Option ApiRequest → ApiConsumer → ApiConsumer
pop_if_idle none c = pop_request c.items c
pop_if_idle (some r) c = c

abbrev pub answer_to : Option ApiRequest → ℕ → ApiConsumer → ApiConsumer
answer_to none status c = c
answer_to (some r) status c = finish_request r status c

unfoldable pub handle_event : ApiEvent → ApiConsumer → ApiConsumer
handle_event (reported r) c = push (record { request = r; retries = 0 }) c
handle_event pops c = pop_if_idle c.sending c
handle_event fails c = c
handle_event (answers status) c = answer_to c.sending status c

unfoldable pub run_events : List ApiEvent → ApiConsumer → ApiConsumer
run_events [] c = c
run_events (e ∷ es) c = run_events es (handle_event e c)
