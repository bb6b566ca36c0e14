-- ===== src/Detector/Kinds.antt =====
-- Which kinds of event each guard of src/anomaly_detector.cpp may report, and the measures by which
-- the theorems read a list of events.
use resilient_dds_data_plane.Base.{
  ℕ, ◌+◌, ◌≤◌, ◌<◌, ◌≡◌, Bool, false, List, [], ◌∷◌, ◌++◌, ℤ, arith, ◌==◌, any, any-append_two,
}
use resilient_dds_data_plane.Telemetry.{TelemetrySample, AnomalyKind, kind_code}
use resilient_dds_data_plane.Detector.{
  AnomalyEvent, DetectorConfig, SourceState, AnomalyDetector, schema_events, freshness_events,
  sequence_guard, sample_age_ms, evaluate, fresh_source,
}
use resilient_dds_data_plane.Base.Dict

-- `has_kind` of tests/test_main.cpp: is there an event of this kind?
abbrev pub has_kind : AnomalyKind → List AnomalyEvent → Bool
has_kind k = any (λ e. kind_code e.kind == kind_code k)

-- The samples that the events report missing, in all.
abbrev pub missing_total : List AnomalyEvent → ℕ
missing_total [] = 0
missing_total (e ∷ es) = e.missing_samples + missing_total es

pub missing_total-append :
    (xs ys : List AnomalyEvent) → missing_total (xs ++ ys) ≡ missing_total xs + missing_total ys
missing_total-append [] ys = omega arith
missing_total-append (e ∷ xs) ys = omega (arith, missing_total-append xs ys)

module _ {ℓ} {D : Type ℓ} (s : TelemetrySample D) where
  pub has_kind-schema_events :
      (k : AnomalyKind) (c : DetectorConfig)
      → kind_code k < 5
      → has_kind k (schema_events c s) ≡ false
  unfolding schema_events
  has_kind-schema_events k c h = ground arith

  pub has_kind-freshness_events :
      (k : AnomalyKind) (c : DetectorConfig) (age : ℤ)
      → (kind_code k < 3)
      → has_kind k (freshness_events c s age) ≡ false
  unfolding freshness_events
  has_kind-freshness_events k c age h = ground arith

  pub has_kind-freshness_events_schema :
      (k : AnomalyKind) (c : DetectorConfig) (age : ℤ)
      → 5 ≤ kind_code k
      → has_kind k (freshness_events c s age) ≡ false
  unfolding freshness_events
  has_kind-freshness_events_schema k c age h = ground arith

  pub has_kind-sequence_guard :
      (k : AnomalyKind) (st : SourceState) (age : ℤ)
      → 3 ≤ kind_code k
      → has_kind k (sequence_guard st s age).1 ≡ false
  unfolding sequence_guard
  has_kind-sequence_guard k st age h = ground arith

  pub missing_total-schema_events : (c : DetectorConfig) → missing_total (schema_events c s) ≡ 0
  unfolding schema_events
  missing_total-schema_events c = ground arith

  pub missing_total-freshness_events :
      (c : DetectorConfig) (age : ℤ) → missing_total (freshness_events c s age) ≡ 0
  unfolding freshness_events
  missing_total-freshness_events c age = ground arith

  module _ (d : AnomalyDetector) (now_ns : ℤ) where
    abbrev age : ℤ
    age = sample_age_ms s now_ns

    -- What the sequence guard reports of the sample.
    abbrev pub sequence_events : List AnomalyEvent
    sequence_events = (sequence_guard (Dict.at fresh_source s.source_id d.state) s age).1

    -- The sequence kinds come from the sequence guard alone.
    pub has_kind-evaluate_sequence :
        (k : AnomalyKind)
        → kind_code k < 3
        → has_kind k (evaluate d s now_ns).1 ≡ has_kind k sequence_events
    unfolding evaluate
    has_kind-evaluate_sequence k h = ground (
      arith,
      any-append_two (λ e. kind_code e.kind == kind_code k) (schema_events d.config s)
          (freshness_events d.config s age) sequence_events,
      has_kind-schema_events k d.config,
      has_kind-freshness_events k d.config age,
    )

    -- The freshness kinds come from the freshness guard alone.
    pub has_kind-evaluate_freshness :
        (k : AnomalyKind)
        → 3 ≤ kind_code k
        → kind_code k < 5
        → has_kind k (evaluate d s now_ns).1 ≡ has_kind k (freshness_events d.config s age)
    unfolding evaluate
    has_kind-evaluate_freshness k h j = ground (
      arith,
      any-append_two (λ e. kind_code e.kind == kind_code k) (schema_events d.config s)
          (freshness_events d.config s age) sequence_events,
      has_kind-schema_events k d.config,
      has_kind-sequence_guard k (Dict.at fresh_source s.source_id d.state) age,
    )

    pub missing_total-evaluate :
        missing_total (evaluate d s now_ns).1 ≡ missing_total sequence_events
    unfolding evaluate
    missing_total-evaluate = omega (
      arith,
      missing_total-append (schema_events d.config s ++ freshness_events d.config s age)
          sequence_events,
      missing_total-append (schema_events d.config s) (freshness_events d.config s age),
      missing_total-schema_events d.config,
      missing_total-freshness_events d.config age,
    )
