-- ===== src/Programs/EndToEnd.antt =====
-- From the loop of apps/dds_publisher.cpp to the registry that apps/dds_subscriber.cpp renders, over a
-- middleware that loses and reorders nothing.
use resilient_dds_data_plane.Base.{
  ℕ, ◌+◌, ◌%◌, ◌^◌, ◌<◌, ◌≡◌, refl, ap, ◌∙◌, true, List, [], ◌∷◌, ◌++◌, ℤ, arith,
}
use resilient_dds_data_plane.Telemetry.{
  TelemetrySample, AnomalyKind, duplicate, sequence_gap, out_of_order, schema_mismatch,
  current_schema_version,
}
use resilient_dds_data_plane.Detector.{
  AnomalyDetector, DetectorConfig, new_detector, evaluate, schema_events, freshness_events,
  sequence_guard, sample_age_ms,
}
use resilient_dds_data_plane.Detector.Trace
use resilient_dds_data_plane.Metrics.Counters.{counter, IsValid}
use resilient_dds_data_plane.Transport.Start.{Vendor}
use resilient_dds_data_plane.Transport.Subscriber.{Subscriber, Taken, received, on_data_available}
use resilient_dds_data_plane.Transport.Pipeline.{arrivals}
use resilient_dds_data_plane.Transport.Tallies.{count_kind, counter_of, counter-on_data_available}
use resilient_dds_data_plane.Programs.DdsPublisher.{Options, published}
use resilient_dds_data_plane.Programs.DdsPublisher.Numbers.{delivered}
use resilient_dds_data_plane.Programs.DdsPublisher.Rounds.{IsSingle}
use resilient_dds_data_plane.Programs.DdsPublisher.Faults.{injected, faults_reported}

module _ {ℓ} {D : Type ℓ} where
  -- The samples as `take_next_sample` yields them; `at n` is the subscriber's clock at sample `n`.
  abbrev pub taken_from : (ℕ → ℤ) → ℕ → List (TelemetrySample D) → List (Taken D)
  taken_from at n [] = []
  taken_from at n (s ∷ ss) =
      record { wire = s; valid_data = true; received_ns = at n } ∷ taken_from at (n + 1) ss

  -- The detector does not read the time at which a sample is received twice.
  run-taken_from :
      (at : ℕ → ℤ) (n : ℕ) (ss : List (TelemetrySample D)) (d : AnomalyDetector)
      → (Trace.run d (arrivals (taken_from at n ss))).1 ≡ (Trace.run d (delivered at n ss)).1
  unfolding Trace.run delivered received evaluate schema_events freshness_events sequence_guard
      sample_age_ms
  run-taken_from at n [] d = refl
  run-taken_from at n (s ∷ ss) d =
      ap (λ es. (evaluate d s (at n)).1 ++ es)
        (run-taken_from at (n + 1) ss (evaluate d s (at n)).0)

counter-taken_from {ℓ} :
    {D : Type ℓ} {v : Vendor} (at : ℕ → ℤ) (ss : List (TelemetrySample D)) (c : DetectorConfig)
    (s : Subscriber D v) (k : AnomalyKind)
    → s.detector ≡ new_detector c
    → IsValid s.metrics
    → counter (counter_of k) s.metrics ≡ 0
    → counter (counter_of k) (on_data_available (taken_from at 0 ss) s).metrics
      ≡ count_kind k (Trace.run (new_detector c) (delivered at 0 ss)).1 % 2 ^ 64
counter-taken_from at ss c s k d v z =
    rw
      (
        counter-on_data_available (taken_from at 0 ss) s k v (omega (arith, z)),
        z,
        d,
        run-taken_from at 0 ss (new_detector c),
      )
      (omega arith)

injected_small :
    (o : Options)
    → ((injected o).duplicates % 2 ^ 64 ≡ (injected o).duplicates)
      × ((injected o).gaps % 2 ^ 64 ≡ (injected o).gaps)
      × ((injected o).schema_mismatches % 2 ^ 64 ≡ (injected o).schema_mismatches)
injected_small o = ground arith

-- From the publisher's loop to the subscriber's registry: of a run with one source and no hot key, every
-- sample of which is taken, in order, by a subscriber whose detector is new, whose registry has its
-- maps in order and counts no anomaly yet, the counters of the anomalies end at the injected faults:
-- the duplicates, the gaps and the mismatches of the schema that `injected` tells from the options,
-- and no sample out of order.
pub injected_counters {ℓ} :
    {D : Type ℓ} {v : Vendor} (temperature : ℕ → D) (voltage : D) (o : Options) (clock : ℕ → ℕ → ℤ)
    (at : ℕ → ℤ) (c : DetectorConfig) (s : Subscriber D v)
    → IsSingle o
    → o.count < 2 ^ 64
    → c.expected_schema_version ≡ current_schema_version
    → s.detector ≡ new_detector c
    → IsValid s.metrics
    → ((k : AnomalyKind) → counter (counter_of k) s.metrics ≡ 0)
    → let ts = taken_from at 0 (published temperature voltage o clock) in
      let m = (on_data_available ts s).metrics in
      (counter (counter_of duplicate) m ≡ (injected o).duplicates)
      × (counter (counter_of sequence_gap) m ≡ (injected o).gaps)
      × (counter (counter_of out_of_order) m ≡ 0)
      × (counter (counter_of schema_mismatch) m ≡ (injected o).schema_mismatches)
injected_counters temperature voltage o clock at c s single w e d v z =
    let ss = published temperature voltage o clock in
    let faults = faults_reported temperature voltage o clock at c single w e in
    let (a, b, x) = injected_small o in
    (
      counter-taken_from at ss c s duplicate d v (z duplicate)
          ∙ ap (λ q. q.duplicates % 2 ^ 64) faults
          ∙ a,
      counter-taken_from at ss c s sequence_gap d v (z sequence_gap)
          ∙ ap (λ q. q.gaps % 2 ^ 64) faults
          ∙ b,
      counter-taken_from at ss c s out_of_order d v (z out_of_order)
          ∙ ap (λ q. q.out_of_orders % 2 ^ 64) faults,
      counter-taken_from at ss c s schema_mismatch d v (z schema_mismatch)
          ∙ ap (λ q. q.schema_mismatches % 2 ^ 64) faults
          ∙ x,
    )
