-- ===== src/Programs/Benchmark.antt =====
-- apps/benchmark_core.cpp: a million samples of one source through the detector.
use resilient_dds_data_plane.Base.{
  ℕ, zero, suc, ◌+◌, ◌%◌, ◌^◌, ◌≤◌, ◌<◌, ◌≡◌, refl, ap, false, [], ℤ, pos, ◌-ℤ◌, ◌+ℤ◌, Bytes, codes,
  arith, length, quot, negate, eq_of_parts, -ℤ_parts, ◌⊎◌, inl, inr, ◌==◌, if◌then◌else◌,
}
use resilient_dds_data_plane.Base.Dict
use resilient_dds_data_plane.Telemetry.{TelemetrySample, current_schema_version}
use resilient_dds_data_plane.Detector.{
  AnomalyDetector, new_detector, evaluate, schema_events, freshness_events, sequence_guard,
  sample_age_ms, SourceState, fresh_source, DetectorConfig, ns_per_ms,
}

abbrev pub benchmark_source : Bytes
benchmark_source = codes "benchmark-source"

module _ {ℓ} {D : Type ℓ} (temperature voltage : D) where
  unfoldable pub benchmark_sample : ℕ → ℤ → TelemetrySample D
  benchmark_sample seq now_ns = record {
    source_id = benchmark_source;
    sequence = seq;
    source_timestamp_ns = now_ns -ℤ pos 100_000;
    ingest_timestamp_ns = now_ns;
    temperature_c = temperature;
    voltage_v = voltage;
    health_flags = 0;
    schema_version = 1;
  }

  -- `left` rounds of the loop, the next with sample `seq`: the number of anomalies.
  unfoldable pub rounds : ℕ → ℕ → ℤ → AnomalyDetector → ℕ → ℕ
  unfolding benchmark_sample
  rounds zero seq now_ns d anomalies = anomalies
  rounds (suc left) seq now_ns d anomalies =
      let now = now_ns +ℤ pos 1_000_000 in
      let (d', found) = evaluate d (benchmark_sample seq now) now in
      rounds left (seq + 1) now d' ((anomalies + length found) % 2 ^ 64)

  -- The anomalies that a run of `samples` samples counts.
  unfoldable pub benchmark : ℕ → ℕ
  unfolding rounds
  benchmark samples =
      rounds samples 1 (pos 1_000_000_000)
        (new_detector (record {
          max_age_ms = pos 250;
          max_future_skew_ms = pos 50;
          expected_schema_version = current_schema_version;
        }))
        0

  unfoldable pub exit_code : ℕ → ℕ
  unfolding benchmark
  exit_code samples = let anomalies = benchmark samples in if anomalies == 0 then 0 else 1

abbrev config : DetectorConfig
config = record {
  max_age_ms = pos 250;
  max_future_skew_ms = pos 50;
  expected_schema_version = current_schema_version;
}

-- The detector expects the sample `seq`.
record IsReady (d : AnomalyDetector) (seq : ℕ) : Type 0 where
  same_config : d.config ≡ config
  expects :
      let st = Dict.at fresh_source benchmark_source d.state in
      (st.initialized ≡ false) ⊎ (st.last_sequence + 1 ≡ seq)

age_lem : (now_ns : ℤ) → quot (now_ns -ℤ (now_ns -ℤ pos 100_000)) ns_per_ms ≡ pos 0
age_lem now_ns =
    let e : now_ns -ℤ (now_ns -ℤ pos 100_000) ≡ pos 100_000 =
      eq_of_parts _ _
        (omega (arith, -ℤ_parts now_ns (now_ns -ℤ pos 100_000), -ℤ_parts now_ns (pos 100_000))) in
    rw e (unfold quot in refl)

module _ {ℓ} {D : Type ℓ} (temperature voltage : D) where
  clean_guards :
      (seq : ℕ) (now_ns : ℤ)
      → let s = benchmark_sample temperature voltage seq now_ns in
        (sample_age_ms s now_ns ≡ pos 0)
        × (schema_events config s ≡ [])
        × (freshness_events config s (pos 0) ≡ [])
  unfolding schema_events freshness_events sample_age_ms benchmark_sample negate
  clean_guards seq now_ns = (age_lem now_ns, refl, refl)

  clean_sequence :
      (st : SourceState) (seq : ℕ) (now_ns age_ms : ℤ)
      → (st.initialized ≡ false) ⊎ (st.last_sequence + 1 ≡ seq)
      → seq < 2 ^ 64
      → let r = sequence_guard st (benchmark_sample temperature voltage seq now_ns) age_ms in
        (r.1 ≡ []) × (r.0.last_sequence ≡ seq)
  unfolding sequence_guard benchmark_sample
  clean_sequence st seq now_ns age_ms r h = ground arith

  clean_round :
      (d : AnomalyDetector) (seq : ℕ) (now_ns : ℤ)
      → IsReady d seq
      → seq < 2 ^ 64
      → let r = evaluate d (benchmark_sample temperature voltage seq now_ns) now_ns in
        IsReady r.0 (seq + 1) × (r.1 ≡ [])
  unfolding evaluate benchmark_sample Dict.at
  clean_round d seq now_ns r h =
      let st = Dict.at fresh_source benchmark_source d.state in
      let s = benchmark_sample temperature voltage seq now_ns in
      let age = sample_age_ms s now_ns in
      let (a, b, c) = clean_guards seq now_ns in
      let (e, l) = clean_sequence st seq now_ns age r.expects h in
      let put = Dict.find-put_self benchmark_source (sequence_guard st s age).0 d.state in
      (
        record {
          same_config = r.same_config;
          expects = inr (rw (Dict.at, put) (ap (λ n. n + 1) l));
        },
        rw (r.same_config, a, b, c, (clean_sequence st seq now_ns (pos 0) r.expects h).0) refl,
      )

  clean_rounds :
      (left seq : ℕ) (now_ns : ℤ) (d : AnomalyDetector)
      → IsReady d seq
      → seq + left ≤ 2 ^ 64
      → rounds temperature voltage left seq now_ns d 0 ≡ 0
  unfolding rounds
  clean_rounds zero seq now_ns d r h = refl
  clean_rounds (suc left) seq now_ns d r h =
      let now = now_ns +ℤ pos 1_000_000 in
      let (r', e) = clean_round d seq now r (omega arith) in
      rw e (
        clean_rounds left (seq + 1) now
          (evaluate d (benchmark_sample temperature voltage seq now) now).0 r' (omega arith))

  -- No false alarms: on the benchmark's stream, of any length that the sequence numbers can count,
  -- the detector reports nothing, and the program exits with 0.
  pub benchmark_clean :
      (samples : ℕ)
      → samples < 2 ^ 64
      → (benchmark temperature voltage samples ≡ 0) × (exit_code temperature voltage samples ≡ 0)
  unfolding benchmark exit_code new_detector Dict.at Dict.find
  benchmark_clean samples h =
      let e =
        clean_rounds samples 1 (pos 1_000_000_000) (new_detector config)
          (record { same_config = refl; expects = inl refl }) (omega arith) in
      rw e (refl, refl)
