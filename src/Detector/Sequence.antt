-- ===== src/Detector/Sequence.antt =====
-- The sequence guard of src/anomaly_detector.cpp against a description of its own.
use resilient_dds_data_plane.Base.{◌+◌, ◌-◌, ◌^◌, ◌<◌, max, ◌≡◌, ◌↔◌, true, ℤ, some, arith}
use resilient_dds_data_plane.Base.Dict
use resilient_dds_data_plane.Telemetry.{TelemetrySample, duplicate, sequence_gap, out_of_order}
use resilient_dds_data_plane.Detector.{
  SourceState, AnomalyDetector, sequence_guard, sample_age_ms, evaluate,
}
use resilient_dds_data_plane.Detector.Kinds.{
  has_kind, missing_total, has_kind-evaluate_sequence, missing_total-evaluate,
}

module _ {ℓ} {D : Type ℓ} (st : SourceState) (s : TelemetrySample D) (age : ℤ) where
  pub guard_classifies :
      st.initialized ≡ true
      → st.last_sequence < 2 ^ 64
      → s.sequence < 2 ^ 64
      → let found = (sequence_guard st s age).1 in
        ((has_kind duplicate found ≡ true) ↔ (s.sequence ≡ st.last_sequence))
        × ((has_kind out_of_order found ≡ true) ↔ (s.sequence < st.last_sequence))
        × ((has_kind sequence_gap found ≡ true) ↔ (st.last_sequence + 1 < s.sequence))
        × (missing_total found ≡ s.sequence - (st.last_sequence + 1))
  unfolding sequence_guard
  guard_classifies i l h = ground arith

  pub guard_mark :
      st.initialized ≡ true
      → (sequence_guard st s age).0
        ≡ record { initialized = true; last_sequence = max st.last_sequence s.sequence }
  unfolding sequence_guard
  guard_mark i = ground arith

module _ {ℓ} {D : Type ℓ} (d : AnomalyDetector) (s : TelemetrySample D) (now_ns : ℤ)
    (st : SourceState) where
  -- Of a source seen before, a sample is reported as a duplicate exactly when its number is the
  -- last one accepted, as out of order exactly when it is lower, as a gap exactly when it is more
  -- than one higher, and the samples reported missing are exactly those between the two.
  pub evaluate_classifies :
      Dict.find s.source_id d.state ≡ some st
      → st.initialized ≡ true
      → st.last_sequence < 2 ^ 64
      → s.sequence < 2 ^ 64
      → let found = (evaluate d s now_ns).1 in
        ((has_kind duplicate found ≡ true) ↔ (s.sequence ≡ st.last_sequence))
        × ((has_kind out_of_order found ≡ true) ↔ (s.sequence < st.last_sequence))
        × ((has_kind sequence_gap found ≡ true) ↔ (st.last_sequence + 1 < s.sequence))
        × (missing_total found ≡ s.sequence - (st.last_sequence + 1))
  unfolding Dict.at
  evaluate_classifies f i l h = ground (
    arith,
    guard_classifies st s (sample_age_ms s now_ns),
    has_kind-evaluate_sequence s d now_ns duplicate,
    has_kind-evaluate_sequence s d now_ns out_of_order,
    has_kind-evaluate_sequence s d now_ns sequence_gap,
    missing_total-evaluate s d now_ns,
  )
