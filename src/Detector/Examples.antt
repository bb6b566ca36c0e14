-- ===== src/Detector/Examples.antt =====
-- Streams of src/anomaly_detector.cpp: one source with a gap and a late sample, and a second source.
use resilient_dds_data_plane.Base.{
  ℕ, ◌+◌, ◌-◌, ◌*◌, ◌<◌, ◌≡◌, ◌↔◌, refl, true, List, [], ◌∷◌, ℤ, pos, ◌-ℤ◌, ◌+ℤ◌, ◌≤ℤ◌, Bytes,
  codes, some, arith, str_eq, quot,
}
use resilient_dds_data_plane.Base.Dict
use resilient_dds_data_plane.Telemetry.{
  TelemetrySample, duplicate, sequence_gap, out_of_order, stale, future_timestamp,
}
use resilient_dds_data_plane.Detector.{
  AnomalyDetector, new_detector, evaluate, ns_per_ms, schema_events, freshness_events,
  sample_age_ms, sequence_guard,
}
use resilient_dds_data_plane.Detector.Kinds.{has_kind, missing_total}
use resilient_dds_data_plane.Detector.Sequence.{evaluate_classifies}
use resilient_dds_data_plane.Detector.Freshness.{evaluate_freshness}
use resilient_dds_data_plane.Detector.Trace.{Arrival, run, events_of, arrivals_of}
use resilient_dds_data_plane.Detector.Isolation.{run-isolates}
use resilient_dds_data_plane.Detector.HighWater.{seen, numbers_of, highest, advances, run_accounts}

abbrev robot : Bytes
robot = codes "robot-1"

abbrev arm : Bytes
arm = codes "arm"

abbrev reading : Bytes → ℕ → TelemetrySample ℕ
reading id n = record {
  source_id = id;
  sequence = n;
  source_timestamp_ns = pos 1_000_000_000;
  ingest_timestamp_ns = pos 0;
  temperature_c = 21;
  voltage_v = 12;
  health_flags = 0;
  schema_version = 1;
}

abbrev now : ℤ
now = pos 1_251_000_000

abbrev empty : AnomalyDetector
empty =
    new_detector
      (record { max_age_ms = pos 250; max_future_skew_ms = pos 100; expected_schema_version = 1 })

-- The detector after sample 4 of the robot.
abbrev primed : AnomalyDetector
primed = (evaluate empty (reading robot 4) now).0

abbrev stream : List (Arrival ℕ)
stream =
    (reading robot 7, now)
    ∷ (reading arm 1, now)
    ∷ (reading robot 6, now)
    ∷ (reading robot 8, now)
    ∷ []

primed_state : Dict.find robot primed.state ≡ some (seen 4)
unfolding evaluate new_detector sequence_guard Dict.find Dict.put Dict.at str_eq
primed_state = refl

evaluate_classifies_example :
    let found = (evaluate primed (reading robot 7) now).1 in
    ((has_kind duplicate found ≡ true) ↔ ((reading robot 7).sequence ≡ 4))
    × ((has_kind out_of_order found ≡ true) ↔ (7 < 4))
    × ((has_kind sequence_gap found ≡ true) ↔ (4 + 1 < 7))
    × (missing_total found ≡ 7 - (4 + 1))
evaluate_classifies_example =
    evaluate_classifies primed (reading robot 7) now (seen 4) primed_state refl (omega arith)
      (omega arith)

evaluate_freshness_example :
    let found = (evaluate empty (reading robot 4) now).1 in
    let age_ns = now -ℤ pos 1_000_000_000 in
    ((has_kind stale found ≡ true) ↔ (pos ((250 + 1) * ns_per_ms) ≤ℤ age_ns))
    × ((has_kind future_timestamp found ≡ true) ↔ (age_ns +ℤ pos ((100 + 1) * ns_per_ms) ≤ℤ pos 0))
unfolding new_detector
evaluate_freshness_example = evaluate_freshness empty (reading robot 4) now 250 100 refl refl

run-isolates_example :
    events_of robot (run primed stream).1 ≡ (run primed (arrivals_of robot stream)).1
run-isolates_example = run-isolates primed robot stream

run_accounts_example :
    missing_total (events_of robot (run primed stream).1) + advances 4 (numbers_of robot stream) + 4
    ≡ highest 4 (numbers_of robot stream)
unfolding str_eq
run_accounts_example =
    run_accounts primed robot 4 stream primed_state (omega arith)
      (omega arith, (omega arith, (omega arith, tt)))

-- Between 4 and 8 the robot's samples 5 and 6 are reported missing, though 6 comes late.
stream_test : (missing_total (run primed stream).1 ≡ 2) × (highest 4 (numbers_of robot stream) ≡ 8)
unfolding run evaluate new_detector schema_events freshness_events sample_age_ms sequence_guard quot
    ◌-ℤ◌ Dict.find Dict.put Dict.at str_eq
stream_test = (refl, refl)
