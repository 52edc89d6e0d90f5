-- ===== src/Common/Monitoring/Counters.antt =====
-- internal/common/monitoring.go: what the counters count.
use ro_proxy.Prelude.{
  ◌+◌, ◌%◌, ◌^◌, ◌≤◌, ◌≡◌, refl, ap, Bool, true, false, List, [], ◌∷◌, inl, inr, arith,
}
use ro_proxy.Prelude.{length, ltb, length-append, Bool-cases}
use ro_proxy.Common.Base.{PacketDirection, server_to_client, client_to_server}
use ro_proxy.Common.Monitoring.{
  PacketStat, GlobalStats, no_stats, stat_capacity, add_packet, count_direction, count_unknown,
  count_packet, count_front, count_next, StatEvent, added, counted, stat_event, stat_events,
}

-- The total is the sum of both directions, as `uint64` values, and the queue keeps its bound.
pub record IsSummed (g : GlobalStats) : Type 0 where
  pub summed : g.total_packets ≡ (g.client_to_server + g.server_to_client) % 2 ^ 64
  pub bounded : length g.stat_queue ≤ stat_capacity

pub no_stats-IsSummed : IsSummed no_stats
no_stats-IsSummed = record { summed = refl; bounded = omega arith }

count_packet-IsSummed :
    (p : PacketStat) (g : GlobalStats) → IsSummed g → IsSummed (count_packet p g)
count_packet-IsSummed p g v = by_case p.direction p.unknown
  where
    by_case :
        (d : PacketDirection) (u : Bool)
        → IsSummed (
            count_unknown u (
              count_direction d p.size
                (record g { total_packets = (g.total_packets + 1) % 2 ^ 64 })))
    by_case client_to_server true = record { summed = omega (arith, v.summed); bounded = v.bounded }
    by_case client_to_server false = record {
      summed = omega (arith, v.summed);
      bounded = v.bounded;
    }
    by_case server_to_client true = record { summed = omega (arith, v.summed); bounded = v.bounded }
    by_case server_to_client false = record {
      summed = omega (arith, v.summed);
      bounded = v.bounded;
    }

add_packet-IsSummed : (p : PacketStat) (g : GlobalStats) → IsSummed g → IsSummed (add_packet p g)
unfolding add_packet
add_packet-IsSummed p g v = elim (Bool-cases (ltb (length g.stat_queue) stat_capacity)) [
  | inl room ↦
      rw room (record {
        summed = v.summed;
        bounded = ground (arith, length-append g.stat_queue (p ∷ []));
      })
  | inr full ↦ rw full v
]

count_front-IsSummed :
    (ps : List PacketStat) (g : GlobalStats)
    → g.stat_queue ≡ ps
    → IsSummed g
    → IsSummed (count_front ps g)
count_front-IsSummed [] g e v = v
count_front-IsSummed (p ∷ ps) g e v =
    count_packet-IsSummed p (record g { stat_queue = ps })
      (record { summed = v.summed; bounded = omega (arith, v.bounded, ap length e) })

count_next-IsSummed : (g : GlobalStats) → IsSummed g → IsSummed (count_next g)
unfolding count_next
count_next-IsSummed g v = count_front-IsSummed g.stat_queue g refl v

-- However the deserializers and the loop take turns, the total is the sum of the two directions, and the
-- queue never exceeds its capacity.
pub stat_events-IsSummed :
    (es : List StatEvent) (g : GlobalStats) → IsSummed g → IsSummed (stat_events es g)
unfolding stat_events stat_event
stat_events-IsSummed [] g v = v
stat_events-IsSummed (added p ∷ es) g v =
    stat_events-IsSummed es (add_packet p g) (add_packet-IsSummed p g v)
stat_events-IsSummed (counted ∷ es) g v =
    stat_events-IsSummed es (count_next g) (count_next-IsSummed g v)
