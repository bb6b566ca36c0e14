-- ===== src/Detector.antt =====
-- include/resilientdds/anomaly_detector.hpp and src/anomaly_detector.cpp: `AnomalyDetector`.
-- `evaluate` returns the new detector beside its events, in the order in which they are pushed.
pub mod Kinds
pub mod Sequence
pub mod Freshness
pub mod Trace
pub mod Isolation
pub mod HighWater
mod Examples
use resilient_dds_data_plane.Base.{
  ℕ, ◌+◌, ◌-◌, ◌%◌, ◌^◌, Bool, true, false, not, ◌||◌, List, [], ◌∷◌, ◌++◌, ℤ, pos, ◌-ℤ◌, quot,
  negate, ltb_ℤ, Bytes, codes, ltb, ◌==◌, if◌then◌else◌,
}
use resilient_dds_data_plane.Base.Dict
use resilient_dds_data_plane.Base.Dict.{Dict}
use resilient_dds_data_plane.Base.Decimal.{show}
use resilient_dds_data_plane.Telemetry.{
  TelemetrySample, AnomalyKind, duplicate, sequence_gap, out_of_order, stale, future_timestamp,
  schema_mismatch,
}

pub record AnomalyEvent : Type 0 where
  pub kind : AnomalyKind
  pub source_id : Bytes
  pub sequence : ℕ
  pub missing_samples : ℕ
  pub age_ms : ℤ
  pub detail : Bytes

pub record DetectorConfig : Type 0 where
  pub max_age_ms : ℤ
  pub max_future_skew_ms : ℤ
  pub expected_schema_version : ℕ

pub record SourceState : Type 0 where
  pub initialized : Bool
  pub last_sequence : ℕ

pub record AnomalyDetector : Type 0 where
  pub config : DetectorConfig
  pub state : Dict SourceState

-- kNsPerMs
abbrev pub ns_per_ms : ℕ
ns_per_ms = 1_000_000

-- Arithmetic on `std::uint64_t` wraps.
abbrev pub u64 : ℕ → ℕ
u64 n = n % 2 ^ 64

abbrev pub fresh_source : SourceState
fresh_source = record { initialized = false; last_sequence = 0 }

unfoldable pub new_detector : DetectorConfig → AnomalyDetector
new_detector c = record { config = c; state = [] }

module _ {ℓ} {D : Type ℓ} where
  abbrev event : TelemetrySample D → AnomalyKind → ℕ → ℤ → Bytes → AnomalyEvent
  event s kind missing age_ms detail = record {
    kind = kind;
    source_id = s.source_id;
    sequence = s.sequence;
    missing_samples = missing;
    age_ms = age_ms;
    detail = detail;
  }

  -- The schema guard.
  unfoldable pub schema_events : DetectorConfig → TelemetrySample D → List AnomalyEvent
  schema_events c s =
      if s.schema_version == c.expected_schema_version
      then []
      else event s schema_mismatch 0 (pos 0) detail ∷ []
    where
      detail : Bytes
      detail =
          codes "expected schema "
          ++ show c.expected_schema_version
          ++ codes " but received "
          ++ show s.schema_version

  -- The age of a sample in whole milliseconds, by an integer division.
  unfoldable pub sample_age_ms : TelemetrySample D → ℤ → ℤ
  sample_age_ms s now_ns = quot (now_ns -ℤ s.source_timestamp_ns) ns_per_ms

  -- The freshness guard.
  unfoldable pub freshness_events : DetectorConfig → TelemetrySample D → ℤ → List AnomalyEvent
  freshness_events c s age_ms =
      if ltb_ℤ c.max_age_ms age_ms
      then event s stale 0 age_ms (codes "sample exceeded freshness budget") ∷ []
      else if ltb_ℤ age_ms (negate c.max_future_skew_ms)
      then event s future_timestamp 0 age_ms (codes "source clock is ahead of accepted skew") ∷ []
      else []

  -- The sequence guard: the new state of the source, and its events.
  unfoldable pub sequence_guard :
      SourceState → TelemetrySample D → ℤ → SourceState × List AnomalyEvent
  sequence_guard state s age_ms =
      if not state.initialized
      then (record { initialized = true; last_sequence = s.sequence }, [])
      else if s.sequence == state.last_sequence
      then (state, event s duplicate 0 age_ms (codes "same sequence observed twice") ∷ [])
      else if ltb s.sequence state.last_sequence
      then (state, event s out_of_order 0 age_ms (codes "sequence regressed") ∷ [])
      else (
        record state { last_sequence = s.sequence },
        if ltb (u64 (state.last_sequence + 1)) s.sequence
            then event s sequence_gap (u64 (s.sequence + 2 ^ 64 - state.last_sequence - 1)) age_ms
                (codes "one or more samples were not observed")
              ∷ []
            else [],
      )

  unfoldable pub evaluate :
      AnomalyDetector → TelemetrySample D → ℤ → AnomalyDetector × List AnomalyEvent
  evaluate d s now_ns =
      let age_ms = sample_age_ms s now_ns in
      let (state, found) = sequence_guard (Dict.at fresh_source s.source_id d.state) s age_ms in
      (
        record d { state = Dict.put s.source_id state d.state },
        schema_events d.config s ++ freshness_events d.config s age_ms ++ found,
      )

unfoldable pub reset_source : AnomalyDetector → Bytes → AnomalyDetector
reset_source d id = record d { state = Dict.erase id d.state }
