-- ===== src/Metrics/Examples.antt =====
-- A registry of src/metrics.cpp at work.
use resilient_dds_data_plane.Base.{
  ◌%◌, ◌^◌, ℕ, ◌≡◌, refl, List, [], ◌∷◌, Bytes, codes, str_eq, str_lt,
}
use resilient_dds_data_plane.Metrics.Ordered.{find, insert_with}
use resilient_dds_data_plane.Metrics.{MetricsRegistry, new_registry, increment, gauge}
use resilient_dds_data_plane.Metrics.Bag.{
  no_increments, new_registry-Represents, total_of, Represents,
}
use resilient_dds_data_plane.Metrics.Threads.{
  Operation, incremented, gauged, Schedule, finished, turn, here, there, perform_all, count_threads,
  threads_counted,
}
use resilient_dds_data_plane.Metrics.Counters.{counter, Update, increment_all, IsValid}

abbrev sent : Bytes
sent = codes "sent_total"

abbrev lost : Bytes
lost = codes "lost_total"

abbrev registry : MetricsRegistry ℕ
registry = gauge (codes "depth") 3 (increment sent 2 new_registry)

abbrev updates : List Update
updates = (sent, 4) ∷ (lost, 1) ∷ (sent, 1) ∷ []

registry_lem : IsValid registry × (counter sent registry ≡ 2)
unfolding increment gauge new_registry insert_with counter find str_eq
registry_lem = (((tt, tt), (tt, tt)), refl)

updates_test :
    (counter sent (increment_all updates registry) ≡ 7)
    × (counter lost (increment_all updates registry) ≡ 1)
unfolding increment_all increment gauge new_registry insert_with counter find str_eq str_lt
updates_test = (refl, refl)

-- Two threads.
abbrev threads : List (List (Operation ℕ))
threads =
    (incremented sent 4 ∷ incremented lost 1 ∷ []) ∷ (gauged sent 9 ∷ incremented sent 5 ∷ []) ∷ []

-- The second thread gets the mutex between the operations of the first.
abbrev order : List (Operation ℕ)
order = incremented sent 4 ∷ gauged sent 9 ∷ incremented sent 5 ∷ incremented lost 1 ∷ []

interleaved : Schedule threads order
interleaved = turn here (turn (there here) (turn (there here) (turn here (finished tt))))

threads_counted_example :
    Represents (perform_all order (new_registry {D = ℕ})) (count_threads threads no_increments)
    × ((k : Bytes)
        → counter k (perform_all order (new_registry {D = ℕ}))
          ≡ total_of k (count_threads threads no_increments) % 2 ^ 64)
threads_counted_example =
    threads_counted interleaved new_registry no_increments (new_registry-Represents ℕ)
