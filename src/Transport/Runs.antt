-- ===== src/Transport/Runs.antt =====
-- Calls of `publish` that overlap, and a row of callbacks, of src/dds_transport.cpp.
use resilient_dds_data_plane.Base.{
  ℕ, ◌+◌, ◌≤◌, ◌<◌, ◌^◌, ◌≡◌, refl, ◌⊎◌, List, [], ◌∷◌, pos, negsuc, codes, arith, true, pos_part,
  quot, ◌-ℤ◌, All,
}
use resilient_dds_data_plane.Detector.Trace
use resilient_dds_data_plane.Health.Events
use resilient_dds_data_plane.Metrics.{new_registry, increment}
use resilient_dds_data_plane.Metrics.Ordered
use resilient_dds_data_plane.Metrics.Counters.{counter, IsValid}
use resilient_dds_data_plane.Transport.Publisher.{
  retcode_ok, retcode_timeout, failure_counter, write_stats,
}
use resilient_dds_data_plane.Transport.Subscriber.{received}
use resilient_dds_data_plane.Transport.WriteRules.{Write, updates, publish_all}
use resilient_dds_data_plane.Transport.Concurrent.{
  Shared, Pc, counting, add, load, exchange, lose, count, Step, here, there, Run, start, later,
  IsDone,
}
use resilient_dds_data_plane.Transport.Concurrent.Account.{calls_of, shared_of, overlap_accounts}
use resilient_dds_data_plane.Transport.Concurrent.Termination.{
  steps, spurious_failures, spurious_step, overlap_ends,
}
use resilient_dds_data_plane.Transport.Listener.{
  Callback, data_available, deadline_missed, liveliness_changed, subscription_matched, handle_all,
  told, all_arrivals, handle_all_lem,
}
use resilient_dds_data_plane.Transport.Fixtures.{robot, reading, publisher, subscriber, taken}

-- Two calls, one of which times out.
abbrev two_writes : List (Write ℕ)
two_writes =
    (reading 1, record { rc = retcode_ok; blocked_us = 40; spurious = 0 })
    ∷ (reading 2, record { rc = retcode_timeout; blocked_us = 100_000; spurious = 0 })
    ∷ []

abbrev left_behind : Shared ℕ
left_behind = record {
  total_blocked_us = 100_040;
  max_blocked_us = 100_000;
  metrics = increment (codes "rdtf_publish_timeout_total") 1 (
      increment (codes "rdtf_publish_failures_total") 1
        (increment (codes "rdtf_samples_published_total") 1 new_registry));
}

-- Both load the same maximum; the first exchange makes the second call lose once.
abbrev interleaved :
    Run (shared_of publisher) (calls_of two_writes) left_behind (counting [] ∷ counting [] ∷ [])
unfolding updates failure_counter
interleaved =
    later
      (later
        (later
          (later
            (later
              (later
                (later (later (later (later start (here add)) (there (here add))) (here load))
                  (there (here load)))
                (here (exchange (omega arith) refl)))
              (there (here (lose (omega arith) (λ e. omega (arith, e))))))
            (there (here (exchange (omega arith) refl))))
          (here count))
        (there (here count)))
      (there (here count))

publisher-IsValid : IsValid publisher.metrics
unfolding new_registry
publisher-IsValid = (tt, tt)

no_count : counter (codes "rdtf_publish_timeout_total") publisher.metrics < 2 ^ 64
unfolding new_registry counter Ordered.find
no_count = omega arith

overlap_accounts_example :
    ((100_040, 100_000) ≡ write_stats (publish_all two_writes publisher))
    × (counter (codes "rdtf_publish_timeout_total") left_behind.metrics
        ≡ counter (codes "rdtf_publish_timeout_total") (publish_all two_writes publisher).metrics)
overlap_accounts_example =
    overlap_accounts two_writes publisher left_behind (counting [] ∷ counting [] ∷ [])
      (codes "rdtf_publish_timeout_total") (λ e. cc) (omega arith) publisher-IsValid no_count
      interleaved (tt, (tt, tt))

overlap_ends_example :
    (steps interleaved ≤ 30 + spurious_failures interleaved)
    × (All IsDone (counting [] ∷ counting [] ∷ [])
        ⊎ ((m' : Shared ℕ) × (rs : List Pc) × (st : Step left_behind
              (counting [] ∷ counting [] ∷ [])
              m'
              rs)
            × (spurious_step st ≡ 0)))
overlap_ends_example =
    overlap_ends two_writes publisher left_behind (counting [] ∷ counting [] ∷ []) interleaved

-- A miss before the first sample, two samples, and a lease that runs out.
abbrev callbacks : List (Callback ℕ)
callbacks =
    subscription_matched (pos 1)
    ∷ deadline_missed (pos 1)
    ∷ data_available taken
    ∷ liveliness_changed (negsuc 0)
    ∷ liveliness_changed (pos 1)
    ∷ []

handle_all_lem_example :
    let r = handle_all pos_part callbacks subscriber in
    (r.health ≡ Events.run subscriber.health (told (codes "unknown") callbacks))
    × (r.detector ≡ (Trace.run subscriber.detector (all_arrivals callbacks)).0)
handle_all_lem_example = handle_all_lem pos_part callbacks subscriber

-- The lease is the robot's, the miss no one's.
told_test :
    told (codes "unknown") callbacks
    ≡ (codes "unknown", Events.match_changed true)
      ∷ (codes "unknown", Events.missed)
      ∷ (robot, Events.sampled (pos 11_000_000) (pos 1))
      ∷ (robot, Events.sampled (pos 41_000_000) (pos 1))
      ∷ (robot, Events.lease_expired)
      ∷ []
unfolding received quot ◌-ℤ◌
told_test = refl
