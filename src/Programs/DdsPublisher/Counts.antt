-- ===== src/Programs/DdsPublisher/Counts.antt =====
-- What src/anomaly_detector.cpp reports of a sample, by kind.
use resilient_dds_data_plane.Base.{
  ℕ, ◌+◌, ◌-◌, ◌^◌, ◌<◌, max, ◌≡◌, refl, subst, ◌∙◌, Bool, true, false, not, ◌&&◌, List, ◌++◌, ℤ,
  Bytes, arith, ltb, ◌==◌, if◌then◌else◌,
}
use resilient_dds_data_plane.Base.Dict
use resilient_dds_data_plane.Telemetry.{
  TelemetrySample, duplicate, sequence_gap, out_of_order, schema_mismatch,
}
use resilient_dds_data_plane.Detector.{
  AnomalyEvent, DetectorConfig, SourceState, AnomalyDetector, evaluate, schema_events,
  freshness_events, sequence_guard, sample_age_ms, fresh_source,
}
use resilient_dds_data_plane.Detector.Kinds.{missing_total, missing_total-append}
use resilient_dds_data_plane.Transport.Tallies.{count_kind, count_kind-append}

-- What the theorem counts of some events.
pub record Counts : Type 0 where
  pub duplicates : ℕ
  pub gaps : ℕ
  pub missing : ℕ
  pub out_of_orders : ℕ
  pub schema_mismatches : ℕ

abbrev pub counts_of : List AnomalyEvent → Counts
counts_of es = record {
  duplicates = count_kind duplicate es;
  gaps = count_kind sequence_gap es;
  missing = missing_total es;
  out_of_orders = count_kind out_of_order es;
  schema_mismatches = count_kind schema_mismatch es;
}

abbrev pub both : Counts → Counts → Counts
both a b = record {
  duplicates = a.duplicates + b.duplicates;
  gaps = a.gaps + b.gaps;
  missing = a.missing + b.missing;
  out_of_orders = a.out_of_orders + b.out_of_orders;
  schema_mismatches = a.schema_mismatches + b.schema_mismatches;
}

pub counts_of-append :
    (xs ys : List AnomalyEvent) → counts_of (xs ++ ys) ≡ both (counts_of xs) (counts_of ys)
counts_of-append xs ys = ground (
  arith,
  count_kind-append duplicate xs ys,
  count_kind-append sequence_gap xs ys,
  count_kind-append out_of_order xs ys,
  count_kind-append schema_mismatch xs ys,
  missing_total-append xs ys,
)

abbrev pub one_if : Bool → ℕ
one_if b = if b then 1 else 0

-- What one sample makes the detector report, of the kinds that count.
abbrev pub verdict : SourceState → ℕ → Bool → Counts
verdict st n drifted = record {
  duplicates = one_if (st.initialized && (n == st.last_sequence));
  gaps = one_if (st.initialized && ltb (st.last_sequence + 1) n);
  missing = if st.initialized then n - (st.last_sequence + 1) else 0;
  out_of_orders = one_if (st.initialized && ltb n st.last_sequence);
  schema_mismatches = one_if drifted;
}

module _ {ℓ} {D : Type ℓ} (s : TelemetrySample D) where
  pub counts_of-sequence_guard :
      (st : SourceState) (age : ℤ)
      → st.last_sequence < 2 ^ 64
      → s.sequence < 2 ^ 64
      → (counts_of (sequence_guard st s age).1 ≡ verdict st s.sequence false)
        × ((sequence_guard st s age).0 ≡ record {
          initialized = true;
          last_sequence = if st.initialized then max st.last_sequence s.sequence else s.sequence;
        })
  unfolding sequence_guard
  counts_of-sequence_guard st age l h = ground arith

  pub counts_of-others :
      (c : DetectorConfig) (age : ℤ)
      → counts_of (schema_events c s ++ freshness_events c s age) ≡ record {
        duplicates = 0;
        gaps = 0;
        missing = 0;
        out_of_orders = 0;
        schema_mismatches = one_if (not (s.schema_version == c.expected_schema_version));
      }
  unfolding schema_events freshness_events
  counts_of-others c age = ground arith

  pub counts_of-evaluate :
      (d : AnomalyDetector) (now_ns : ℤ)
      → (Dict.at fresh_source s.source_id d.state).last_sequence < 2 ^ 64
      → s.sequence < 2 ^ 64
      → let st = Dict.at fresh_source s.source_id d.state in
        let r = evaluate d s now_ns in
        (counts_of r.1
          ≡ verdict st s.sequence (not (s.schema_version == d.config.expected_schema_version)))
        × (r.0.config ≡ d.config)
        × (Dict.at fresh_source s.source_id r.0.state ≡ record {
          initialized = true;
          last_sequence = if st.initialized then max st.last_sequence s.sequence else s.sequence;
        })
  unfolding evaluate
  counts_of-evaluate d now_ns l h =
      let st = Dict.at fresh_source s.source_id d.state in
      let age = sample_age_ms s now_ns in
      let (a, b) = counts_of-sequence_guard st age l h in
      (
        ground (
          arith,
          counts_of-append (schema_events d.config s ++ freshness_events d.config s age)
              (sequence_guard st s age).1,
          a,
          counts_of-others d.config age,
        ),
        refl,
        Dict.at-put_self fresh_source s.source_id (sequence_guard st s age).0 d.state ∙ b,
      )

-- The same, for a sample of the source `a`.
pub counts_of-named {ℓ} :
    {D : Type ℓ} (s : TelemetrySample D) (a : Bytes)
    → s.source_id ≡ a
    → (d : AnomalyDetector) (now_ns : ℤ) → (Dict.at fresh_source a d.state).last_sequence < 2 ^ 64
    → s.sequence < 2 ^ 64
    → let st = Dict.at fresh_source a d.state in
      let r = evaluate d s now_ns in
      (counts_of r.1
        ≡ verdict st s.sequence (not (s.schema_version == d.config.expected_schema_version)))
      × (r.0.config ≡ d.config)
      × (Dict.at fresh_source a r.0.state ≡ record {
        initialized = true;
        last_sequence = if st.initialized then max st.last_sequence s.sequence else s.sequence;
      })
counts_of-named s a e d now_ns =
    subst
      (λ x.
        (Dict.at fresh_source x d.state).last_sequence < 2 ^ 64
        → s.sequence < 2 ^ 64
        → let st = Dict.at fresh_source x d.state in
          let r = evaluate d s now_ns in
          (counts_of r.1
            ≡ verdict st s.sequence (not (s.schema_version == d.config.expected_schema_version)))
          × (r.0.config ≡ d.config)
          × (Dict.at fresh_source x r.0.state ≡ record {
            initialized = true;
            last_sequence = if st.initialized then max st.last_sequence s.sequence else s.sequence;
          }))
      e (counts_of-evaluate s d now_ns)
