-- ===== src/Programs/DdsPublisher/Faults.antt =====
-- The faults that apps/dds_publisher.cpp injects, seen by the detector: one source, no hot key.
use resilient_dds_data_plane.Base.{
  ℕ, zero, suc, ◌+◌, ◌^◌, ◌<◌, ◌≡◌, sym, ap, ◌∙◌, Bool, not, ◌&&◌, [], ◌∷◌, ℤ, arith, ltb, leb,
  ◌==◌, if◌then◌else◌, length,
}
use resilient_dds_data_plane.Base.Dict
use mathlib.Core.Path.{ap₂}
use resilient_dds_data_plane.Telemetry.{current_schema_version}
use resilient_dds_data_plane.Detector.{DetectorConfig, AnomalyDetector, new_detector, fresh_source}
use resilient_dds_data_plane.Detector.Trace
use resilient_dds_data_plane.Programs.DdsPublisher.{
  Options, no_seqs, publish_round, publish_rounds, published,
}
use resilient_dds_data_plane.Programs.DdsPublisher.Numbers.{delivered, delivered-append}
use resilient_dds_data_plane.Programs.DdsPublisher.Counts.{
  Counts, counts_of, both, counts_of-append, one_if,
}
use resilient_dds_data_plane.Programs.DdsPublisher.Rounds.{
  IsSingle, Standing, nothing, round_counts, single_round, fault_round,
}

-- What the rounds from `n` on make the detector report, `left` of them.
abbrev due : Options → ℕ → ℕ → Counts
due o n left =
    let inside : ℕ → Bool = λ fault. leb n fault && ltb fault (n + left) in
    record {
      duplicates = one_if (inside o.duplicate_at && not (o.duplicate_at == o.drop_at));
      gaps = one_if (ltb 1 o.drop_at && inside (o.drop_at + 1));
      missing = one_if (ltb 1 o.drop_at && inside (o.drop_at + 1));
      out_of_orders = 0;
      schema_mismatches =
          if inside o.schema_drift_at && not (o.schema_drift_at == o.drop_at)
          then (if o.schema_drift_at == o.duplicate_at then 2 else 1)
          else 0;
    }

due_step :
    (o : Options) (n left : ℕ) → both (round_counts o n) (due o (n + 1) left) ≡ due o n (suc left)
due_step o n left = ground arith

due_end : (o : Options) (n : ℕ) → due o n 0 ≡ nothing
due_end o n = ground arith

-- What a whole run makes the detector report.
abbrev pub injected : Options → Counts
injected o = record {
  duplicates =
      one_if
        (leb 1 o.duplicate_at && leb o.duplicate_at o.count && not (o.duplicate_at == o.drop_at));
  gaps = one_if (ltb 1 o.drop_at && ltb o.drop_at o.count);
  missing = one_if (ltb 1 o.drop_at && ltb o.drop_at o.count);
  out_of_orders = 0;
  schema_mismatches =
      if leb 1 o.schema_drift_at
        && leb o.schema_drift_at o.count
        && not (o.schema_drift_at == o.drop_at)
      then (if o.schema_drift_at == o.duplicate_at then 2 else 1)
      else 0;
}

due_total : (o : Options) → due o 1 o.count ≡ injected o
due_total o = ground arith

module _ {ℓ} {D : Type ℓ} (temperature : ℕ → D) (voltage : D) (o : Options) (clock : ℕ → ℕ → ℤ)
    (single : IsSingle o) (at : ℕ → ℤ) where
  fault_rounds :
      (left n : ℕ) (d : AnomalyDetector) (k : ℕ)
      → n + left < 2 ^ 64
      → d.config.expected_schema_version ≡ current_schema_version
      → Standing o (Dict.at fresh_source o.source_id d.state) n
      → counts_of
          (Trace.run d
            (delivered at k (publish_rounds temperature voltage o clock left (n + 1) (n ∷ [])))).1
        ≡ due o (n + 1) left
  unfolding publish_rounds delivered Trace.run
  fault_rounds zero n d k w c s = sym (due_end o (n + 1))
  fault_rounds (suc left) n d k w c s =
      let now = publish_round temperature voltage o clock (n + 1) (n ∷ []) in
      let later = publish_rounds temperature voltage o clock left (n + 1 + 1) now.0 in
      let xs = delivered at k now.1 in
      let ys = delivered at (k + length now.1) later in
      let (a, f, s') =
        fault_round temperature voltage o clock single n d at k (omega (arith, w)) c s in
      let next : now.0 ≡ (n + 1) ∷ [] =
        ap (λ r. r.0) (single_round temperature voltage o clock single n (omega (arith, w))) in
      let ih =
        fault_rounds left (n + 1) (Trace.run d xs).0 (k + length now.1) (omega (arith, w)) (rw f c)
          s' in
      ap (λ l. counts_of (Trace.run d l).1) (delivered-append at k now.1 later)
      ∙ ap counts_of (Trace.run-append d xs ys).1
      ∙ counts_of-append (Trace.run d xs).1 (Trace.run (Trace.run d xs).0 ys).1
      ∙ ap₂ both a (rw next ih)
      ∙ due_step o (n + 1) left

-- The injected faults and no others: of a run with one source and no hot key, every sample of which
-- arrives, in order, the detector reports one duplicate if a round is doubled that is not dropped,
-- one gap of one missing sample if a round is dropped that is neither the first nor the last, no
-- sample out of order, and one mismatch of the schema for each sample of a drifted round that is not
-- dropped. A dropped first or last round leaves no trace.
pub faults_reported {ℓ} :
    {D : Type ℓ} (temperature : ℕ → D) (voltage : D) (o : Options) (clock : ℕ → ℕ → ℤ) (at : ℕ → ℤ)
    (c : DetectorConfig)
    → IsSingle o
    → o.count < 2 ^ 64
    → c.expected_schema_version ≡ current_schema_version
    → counts_of
        (Trace.run (new_detector c) (delivered at 0 (published temperature voltage o clock))).1
      ≡ injected o
unfolding published new_detector no_seqs Dict.at Dict.find
faults_reported temperature voltage o clock at c single w e =
    ap
      (λ k.
        counts_of
          (Trace.run (new_detector c)
            (delivered at 0 (publish_rounds temperature voltage o clock o.count 1 (no_seqs k)))).1)
      single.one_key
    ∙ fault_rounds temperature voltage o clock single at o.count 0 (new_detector c) 0
        (omega (arith, w)) e (ground arith)
    ∙ due_total o
