-- ===== src/Common/Monitoring/Backoff.antt =====
-- internal/common/monitoring.go: how long `SendDiscordNotification` waits.
use ro_proxy.Prelude.{ℕ, zero, suc, ◌^◌, ◌≡◌, true, false, List, [], ◌∷◌, ◌++◌, min, arith}
use ro_proxy.Prelude.{length, All}
use ro_proxy.Common.Monitoring.{
  Attempt, next_delay, is_retried, end_of, send_from, send_discord_notification, max_retry_delay,
}

-- The delays that exponential backoff asks for: a second doubled each time, at most a minute.
abbrev pub delays_from : ℕ → ℕ → List ℕ
delays_from k zero = []
delays_from k (suc n) = min (2 ^ k) max_retry_delay ∷ delays_from (suc k) n

next_delay-power :
    (k : ℕ) → next_delay (min (2 ^ k) max_retry_delay) ≡ min (2 ^ suc k) max_retry_delay
next_delay-power k = ground arith

send_from-retried :
    (k : ℕ) (failed : List Attempt) (last : Attempt) (rest : List Attempt)
    → All (λ a. is_retried a ≡ true) failed
    → is_retried last ≡ false
    → send_from (min (2 ^ k) max_retry_delay) (failed ++ (last ∷ rest))
      ≡ (delays_from k (length failed), end_of last)
unfolding send_from
send_from-retried k [] last rest h e = rw e
send_from-retried k (a ∷ as') last rest (h, hs) e =
    rw (h, next_delay-power k, send_from-retried (suc k) as' last rest hs e)

-- `SendDiscordNotification` tries on until an answer is neither 429 nor above 499, and ends with that
-- answer, accepted if it is one of 200 to 299 and given up otherwise, such as 404; before the n-th further attempt it waits for 2^(n-1) seconds, and never more than a minute.
pub send_discord_notification_backoff :
    (failed : List Attempt) (last : Attempt) (rest : List Attempt)
    → All (λ a. is_retried a ≡ true) failed
    → is_retried last ≡ false
    → send_discord_notification (failed ++ (last ∷ rest))
      ≡ (delays_from 0 (length failed), end_of last)
unfolding send_discord_notification
send_discord_notification_backoff failed last rest h e = send_from-retried 0 failed last rest h e
