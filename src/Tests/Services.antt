-- ===== src/Tests/Services.antt =====
-- Runs of the API queue, the notices to Discord, and the test of the configuration.
use ro_proxy.Prelude.{
  ◌+◌, ◌*◌, ◌≤◌, ◌≡◌, ◌↔◌, refl, Bool, true, List, [], ◌∷◌, ◌++◌, none, length, ◌==◌,
}
use ro_proxy.Prelude.Int.{pos}
use ro_proxy.Common.Base.{Bytes}
use ro_proxy.Config.{Config, validate}
use ro_proxy.Config.Accepted.{IsAccepted, validate-none_iff}
use ro_proxy.Packets.Handlers.Reports.{Request, chat_params, chat_messages}
use ro_proxy.Common.Api.{
  ApiEvent, reported, pops, fails, answers, new_consumer, max_retries, run_events,
}
use ro_proxy.Common.Api.Conservation.{count_all, count_reported, run_events_conserves}
use ro_proxy.Common.Api.Attempts.{
  IsLimited, left_all, all_attempts, all_reports, run_events_attempts,
}
use ro_proxy.Common.Monitoring.{Attempt, no_answer, status, end_of, send_discord_notification}
use ro_proxy.Common.Monitoring.Backoff.{delays_from, send_discord_notification_backoff}

abbrev first : Request
first = record { pid = 1; timestamp = pos 1; content = chat_params [] }

abbrev second : Request
second = record { pid = 2; timestamp = pos 2; content = chat_messages [] }

-- The first is refused once and comes behind the second, which is delivered.
abbrev day : List ApiEvent
day = reported first ∷ pops ∷ reported second ∷ fails ∷ answers 503 ∷ pops ∷ answers 200 ∷ pops ∷ []

abbrev is_second : Request → Bool
is_second r = r.pid == 2

run_events_conserves_example :
    count_all is_second (run_events day new_consumer)
    ≡ count_all is_second new_consumer + count_reported is_second day
run_events_conserves_example = run_events_conserves is_second day new_consumer

run_events_attempts_example :
    (all_attempts day new_consumer + left_all (run_events day new_consumer)
      ≤ left_all new_consumer + max_retries * all_reports day)
    × IsLimited (run_events day new_consumer)
run_events_attempts_example =
    run_events_attempts day new_consumer (record { items_limited = tt; sending_limited = tt })

-- No answer, too many requests, a server error, then it is accepted.
abbrev failures : List Attempt
failures = no_answer ∷ status 429 ∷ status 500 ∷ []

send_discord_notification_backoff_example :
    send_discord_notification (failures ++ (status 204 ∷ []))
    ≡ (delays_from 0 (length failures), end_of (status 204))
send_discord_notification_backoff_example =
    send_discord_notification_backoff failures (status 204) [] (refl, (refl, (refl, tt))) refl

delays : delays_from 0 8 ≡ 1 ∷ 2 ∷ 4 ∷ 8 ∷ 16 ∷ 32 ∷ 60 ∷ 60 ∷ []
delays = refl

abbrev settings : Config
settings = record {
  listen_port = pos 6900;
  target_ips = (b'h' ∷ []) ∷ [];
  api = none;
  discord_webhook = [];
}

abbrev any_ip : Bytes → Bool
any_ip ip = true

validate-none_iff_example : (validate any_ip settings ≡ none) ↔ IsAccepted any_ip settings
validate-none_iff_example = validate-none_iff any_ip settings
