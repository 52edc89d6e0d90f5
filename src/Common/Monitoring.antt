-- ===== src/Common/Monitoring.antt =====
-- internal/common/monitoring.go: the packet counters with their queue, and the notices to Discord. What
-- the HTTP client gives is an input.
pub mod Counters
pub mod Backoff
use ro_proxy.Prelude.{
  ℕ, ◌+◌, ◌*◌, ◌/◌, ◌%◌, ◌^◌, Bool, true, false, ◌&&◌, ◌||◌, List, [], ◌∷◌, ◌++◌,
}
use ro_proxy.Prelude.{length, leb, ltb, ◌==◌, if◌then◌else◌}
use ro_proxy.Common.Base.{Bytes, PacketDirection, server_to_client, client_to_server}

pub record PacketStat : Type 0 where
  pub direction : PacketDirection
  pub size : ℕ
  pub unknown : Bool

-- The counters, each a `uint64`, and `StatQueue`.
pub record GlobalStats : Type 0 where
  pub total_packets : ℕ
  pub client_to_server : ℕ
  pub server_to_client : ℕ
  pub unknown_packets : ℕ
  pub bytes_client_to_server : ℕ
  pub bytes_server_to_client : ℕ
  pub stat_queue : List PacketStat

abbrev pub stat_capacity : ℕ
stat_capacity = 1000

abbrev pub no_stats : GlobalStats
no_stats = record {
  total_packets = 0;
  client_to_server = 0;
  server_to_client = 0;
  unknown_packets = 0;
  bytes_client_to_server = 0;
  bytes_server_to_client = 0;
  stat_queue = [];
}

abbrev pub add_u64 : ℕ → ℕ → ℕ
add_u64 a b = (a + b) % 2 ^ 64

-- `AddPacket`, which drops the entry where the queue is full.
unfoldable pub add_packet : PacketStat → GlobalStats → GlobalStats
add_packet p g =
    if ltb (length g.stat_queue) stat_capacity
    then record g { stat_queue = g.stat_queue ++ (p ∷ []) }
    else g

abbrev pub count_direction : PacketDirection → ℕ → GlobalStats → GlobalStats
count_direction client_to_server size g = record g {
  client_to_server = add_u64 g.client_to_server 1;
  bytes_client_to_server = add_u64 g.bytes_client_to_server size;
}
count_direction server_to_client size g = record g {
  server_to_client = add_u64 g.server_to_client 1;
  bytes_server_to_client = add_u64 g.bytes_server_to_client size;
}

abbrev pub count_unknown : Bool → GlobalStats → GlobalStats
count_unknown true g = record g { unknown_packets = add_u64 g.unknown_packets 1 }
count_unknown false g = g

abbrev pub count_packet : PacketStat → GlobalStats → GlobalStats
count_packet p g =
    count_unknown p.unknown
      (count_direction p.direction p.size (record g { total_packets = add_u64 g.total_packets 1 }))

abbrev pub count_front : List PacketStat → GlobalStats → GlobalStats
count_front [] g = g
count_front (p ∷ ps) g = count_packet p (record g { stat_queue = ps })

-- A round of `monitoringStatusLoop`, which waits on the empty queue.
unfoldable pub count_next : GlobalStats → GlobalStats
count_next g = count_front g.stat_queue g

-- The deserializers add entries while the loop counts.
pub data StatEvent : Type 0 where
  added : (p : PacketStat) → StatEvent
  counted : StatEvent

unfoldable pub stat_event : StatEvent → GlobalStats → GlobalStats
stat_event (added p) g = add_packet p g
stat_event counted g = count_next g

unfoldable pub stat_events : List StatEvent → GlobalStats → GlobalStats
stat_events [] g = g
stat_events (e ∷ es) g = stat_events es (stat_event e g)

-- `checkThresholds`: whether it warns of the queue, with the percentage, and of the memory.
abbrev pub buffer_capacity : ℕ
buffer_capacity = 100000

abbrev pub warning_threshold : ℕ
warning_threshold = buffer_capacity * 50 / 100

pub record Warnings : Type 0 where
  pub queue : Bool
  pub percent : ℕ
  pub memory : Bool

unfoldable pub check_thresholds : ℕ → ℕ → Warnings
check_thresholds api_queue_size memory_mb = record {
  queue = ltb warning_threshold api_queue_size;
  percent = api_queue_size * 100 / buffer_capacity;
  memory = ltb 8192 memory_mb;
}

-- What an attempt to reach Discord gives: no answer, or a status.
pub data Attempt : Type 0 where
  no_answer : Attempt
  status : (code : ℕ) → Attempt

-- How `SendDiscordNotification` ends, and the seconds that it slept; with no attempt left it still runs.
pub data Sent : Type 0 where
  accepted : Sent
  refused : (code : ℕ) → Sent
  trying : Sent

abbrev pub max_retry_delay : ℕ
max_retry_delay = 60

abbrev pub next_delay : ℕ → ℕ
next_delay delay = if ltb max_retry_delay (delay * 2) then max_retry_delay else delay * 2

-- The answers that are tried again.
abbrev pub is_retried : Attempt → Bool
is_retried no_answer = true
is_retried (status code) = code == 429 || leb 500 code

abbrev pub end_of : Attempt → Sent
end_of no_answer = trying
end_of (status code) = if leb 200 code && ltb code 300 then accepted else refused code

-- The loop, from the delay on that the next failure brings.
unfoldable pub send_from : ℕ → List Attempt → List ℕ × Sent
send_from delay [] = ([], trying)
send_from delay (a ∷ as') =
    let (slept, sent) = send_from (next_delay delay) as' in
    if is_retried a then (delay ∷ slept, sent) else ([], end_of a)

unfoldable pub send_discord_notification : List Attempt → List ℕ × Sent
unfolding send_from
send_discord_notification attempts = send_from 1 attempts
