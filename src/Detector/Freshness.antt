-- ===== src/Detector/Freshness.antt =====
-- The freshness guard of src/anomaly_detector.cpp, in nanoseconds.
use resilient_dds_data_plane.Base.{
  ℕ, ◌+◌, ◌*◌, ◌≡◌, ◌↔◌, true, ℤ, pos, ◌-ℤ◌, ◌+ℤ◌, ◌≤ℤ◌, quot_parts, negate_parts, arith, +ℤ_parts,
  one_part,
}
use resilient_dds_data_plane.Telemetry.{TelemetrySample, stale, future_timestamp}
use resilient_dds_data_plane.Detector.{
  DetectorConfig, AnomalyDetector, freshness_events, sample_age_ms, evaluate, ns_per_ms,
}
use resilient_dds_data_plane.Detector.Kinds.{has_kind, has_kind-evaluate_freshness}

module _ {ℓ} {D : Type ℓ} (c : DetectorConfig) (s : TelemetrySample D) (now_ns : ℤ) (m k : ℕ) where
  guard_stale :
      c.max_age_ms ≡ pos m
      → (has_kind stale (freshness_events c s (sample_age_ms s now_ns)) ≡ true)
        ↔ (pos ((m + 1) * ns_per_ms) ≤ℤ now_ns -ℤ s.source_timestamp_ns)
  unfolding freshness_events sample_age_ms
  guard_stale e = ground (
    arith,
    quot_parts (now_ns -ℤ s.source_timestamp_ns) ns_per_ms,
    one_part (now_ns -ℤ s.source_timestamp_ns),
  )

  guard_future :
      c.max_age_ms ≡ pos m
      → c.max_future_skew_ms ≡ pos k
      → (has_kind future_timestamp (freshness_events c s (sample_age_ms s now_ns)) ≡ true)
        ↔ (now_ns -ℤ s.source_timestamp_ns +ℤ pos ((k + 1) * ns_per_ms) ≤ℤ pos 0)
  unfolding freshness_events sample_age_ms
  guard_future e f = ground (
    arith,
    quot_parts (now_ns -ℤ s.source_timestamp_ns) ns_per_ms,
    one_part (now_ns -ℤ s.source_timestamp_ns),
    negate_parts (pos k),
    +ℤ_parts (now_ns -ℤ s.source_timestamp_ns) (pos ((k + 1) * ns_per_ms)),
    one_part (now_ns -ℤ s.source_timestamp_ns +ℤ pos ((k + 1) * ns_per_ms)),
  )

module _ {ℓ} {D : Type ℓ} (d : AnomalyDetector) (s : TelemetrySample D) (now_ns : ℤ) (m k : ℕ) where
  -- With a freshness budget of `m` milliseconds a sample is reported stale exactly when it is
  -- `m + 1` milliseconds old or older, and with an accepted skew of `k` milliseconds its clock is
  -- reported ahead exactly when it is ahead by `k + 1` milliseconds or more: the integer division
  -- rounds the age towards zero, so both bounds are one millisecond looser than the configured ones.
  pub evaluate_freshness :
      d.config.max_age_ms ≡ pos m
      → d.config.max_future_skew_ms ≡ pos k
      → let found = (evaluate d s now_ns).1 in
        let age_ns = now_ns -ℤ s.source_timestamp_ns in
        ((has_kind stale found ≡ true) ↔ (pos ((m + 1) * ns_per_ms) ≤ℤ age_ns))
        × ((has_kind future_timestamp found ≡ true)
            ↔ (age_ns +ℤ pos ((k + 1) * ns_per_ms) ≤ℤ pos 0))
  evaluate_freshness e f =
      rw
        (
          has_kind-evaluate_freshness s d now_ns stale (omega arith) (omega arith),
          has_kind-evaluate_freshness s d now_ns future_timestamp (omega arith) (omega arith),
        )
        (guard_stale d.config s now_ns m k e, guard_future d.config s now_ns m k e f)
