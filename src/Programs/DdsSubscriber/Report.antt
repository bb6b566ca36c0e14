-- ===== src/Programs/DdsSubscriber/Report.antt =====
-- apps/dds_subscriber.cpp: the gauges that are set once the poller has stopped. The literals 2.0, 1.0
-- and 0.0 are the doubles of those integers.
use resilient_dds_data_plane.Base.{
  Option, some, List, [], ◌∷◌, ℤ, pos, Bytes, codes, if◌then◌else◌, str_eq,
}
use resilient_dds_data_plane.Health.State.{HealthState, healthy, degraded, lost}
use resilient_dds_data_plane.Transport.Latency.{Floats, Latency}

unfoldable pub health_level : HealthState → ℤ
health_level healthy = pos 2
health_level degraded = pos 1
health_level lost = pos 0

-- The gauges that the statistics set.
abbrev pub values_of : (f : Floats) → Latency f → List (Bytes × f.Double)
values_of f lat =
    (codes "rdtf_e2e_latency_min_us", f.of_int lat.min_us)
    ∷ (codes "rdtf_e2e_latency_mean_us", lat.mean_us)
    ∷ (codes "rdtf_e2e_latency_p50_us", f.of_int lat.p50_us)
    ∷ (codes "rdtf_e2e_latency_p95_us", f.of_int lat.p95_us)
    ∷ (codes "rdtf_e2e_latency_p99_us", f.of_int lat.p99_us)
    ∷ (codes "rdtf_e2e_latency_p999_us", f.of_int lat.p999_us)
    ∷ (codes "rdtf_e2e_latency_stddev_us", lat.stddev_us)
    ∷ (codes "rdtf_e2e_latency_max_us", f.of_int lat.max_us)
    ∷ []

module _ {ℓ} {D : Type ℓ} where
  -- The last value for a name, of a list of gauges.
  abbrev pub last_value : Bytes → Option D → List (Bytes × D) → Option D
  last_value i old [] = old
  last_value i old ((k, x) ∷ gs) = last_value i (if str_eq k i then some x else old) gs
