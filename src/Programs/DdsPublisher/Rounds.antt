-- ===== src/Programs/DdsPublisher/Rounds.antt =====
-- One round of apps/dds_publisher.cpp, seen by the detector: one source, no hot key.
use resilient_dds_data_plane.Base.{
  ℕ, ◌+◌, ◌-◌, ◌^◌, ◌<◌, max, ◌≡◌, refl, sym, ap, subst, ◌∙◌, inl, inr, Bool, true, false, not,
  ◌&&◌, [], ◌∷◌, ◌++◌, ℤ, pos, leb_ℤ, arith, ltb, ◌==◌, if◌then◌else◌, Bool-cases,
}
use resilient_dds_data_plane.Base.Dict
use mathlib.Core.List.{append-nil}
use mathlib.Core.Path.{ap₂}
use resilient_dds_data_plane.Telemetry.{current_schema_version}
use resilient_dds_data_plane.Detector.{SourceState, AnomalyDetector, evaluate, fresh_source}
use resilient_dds_data_plane.Detector.Trace
use resilient_dds_data_plane.Programs.DdsPublisher.{
  Options, seq_of, next_seq, key_index, repeats, source_of, first_sample, extra_samples,
  publish_round,
}
use resilient_dds_data_plane.Programs.DdsPublisher.Numbers.{delivered}
use resilient_dds_data_plane.Programs.DdsPublisher.Counts.{
  Counts, counts_of, both, counts_of-append, one_if, verdict, counts_of-named,
}

-- A program with one source, and no key that is hot.
pub record IsSingle (o : Options) : Type 0 where
  pub one_key : o.keys ≡ 1
  pub not_hot : leb_ℤ (pos 0) o.hot_key ≡ false

-- The detector's state of the source when `n` rounds are over.
pub record Standing (o : Options) (st : SourceState) (n : ℕ) : Type 0 where
  pub known : st.initialized ≡ (if o.drop_at == 1 then ltb 1 n else ltb 0 n)
  pub mark : st.initialized ≡ true → st.last_sequence ≡ (if o.drop_at == n then n - 1 else n)
  pub word : st.last_sequence < 2 ^ 64

-- What round `n` makes the detector report, where it is not dropped.
abbrev pub kept_counts : Options → ℕ → Bool → Counts
kept_counts o n doubled = record {
  duplicates = one_if doubled;
  gaps = one_if (ltb 1 o.drop_at && (n == o.drop_at + 1));
  missing = one_if (ltb 1 o.drop_at && (n == o.drop_at + 1));
  out_of_orders = 0;
  schema_mismatches = if n == o.schema_drift_at then (if doubled then 2 else 1) else 0;
}

abbrev pub nothing : Counts
nothing = record { duplicates = 0; gaps = 0; missing = 0; out_of_orders = 0; schema_mismatches = 0 }

-- What round `n` makes the detector report.
abbrev pub round_counts : Options → ℕ → Counts
round_counts o n = if n == o.drop_at then nothing else kept_counts o n (n == o.duplicate_at)

-- The state of the source right after its sample `n`.
abbrev pub after : ℕ → SourceState
after n = record { initialized = true; last_sequence = n }

module _ (o : Options) (st : SourceState) (n : ℕ) (w : n + 1 < 2 ^ 64)
    (kept : (n + 1 == o.drop_at) ≡ false) where
  pub first_verdict :
      (drifted : Bool)
      → Standing o st n
      → verdict st (n + 1) drifted ≡ record {
        duplicates = 0;
        gaps = one_if (ltb 1 o.drop_at && (n + 1 == o.drop_at + 1));
        missing = one_if (ltb 1 o.drop_at && (n + 1 == o.drop_at + 1));
        out_of_orders = 0;
        schema_mismatches = one_if drifted;
      }
  first_verdict drifted s = ground arith

  pub first_mark :
      Standing o st n → (if st.initialized then max st.last_sequence (n + 1) else n + 1) ≡ n + 1
  first_mark s = ground arith

  pub Standing-after : Standing o (after (n + 1)) (n + 1)
  Standing-after = ground arith

  pub second_verdict :
      (drifted : Bool)
      → verdict (after (n + 1)) (n + 1) drifted ≡ record {
        duplicates = 1;
        gaps = 0;
        missing = 0;
        out_of_orders = 0;
        schema_mismatches = one_if drifted;
      }
  second_verdict drifted = ground arith

  pub once_counts :
      Standing o st n
      → verdict st (n + 1) (n + 1 == o.schema_drift_at) ≡ kept_counts o (n + 1) false
  once_counts s = first_verdict (n + 1 == o.schema_drift_at) s ∙ ground arith

  pub twice_counts :
      Standing o st n
      → both
          (verdict st (n + 1) (n + 1 == o.schema_drift_at))
          (verdict (after (n + 1)) (n + 1) (n + 1 == o.schema_drift_at))
        ≡ kept_counts o (n + 1) true
  twice_counts s =
      ap₂ both (first_verdict (n + 1 == o.schema_drift_at) s)
        (second_verdict (n + 1 == o.schema_drift_at))
      ∙ ground arith

module _ {ℓ} {D : Type ℓ} (temperature : ℕ → D) (voltage : D) (o : Options) (clock : ℕ → ℕ → ℤ)
    (single : IsSingle o) where
  pub single_round :
      (n : ℕ)
      → n + 1 < 2 ^ 64
      → let s = first_sample temperature voltage o clock (n + 1) (n + 1) in
        publish_round temperature voltage o clock (n + 1) (n ∷ []) ≡ (
          (n + 1) ∷ [],
          if n + 1 == o.drop_at then [] else s ∷ (if n + 1 == o.duplicate_at then s ∷ [] else []),
        )
  unfolding publish_round extra_samples seq_of next_seq
  single_round n w =
      let k : key_index o (n + 1) ≡ 0 = rw single.one_key (omega arith) in
      let once : repeats o (n + 1) ≡ 1 = rw single.not_hot refl in rw (once, k) (ground arith)

  -- The samples of a round, and what the detector makes of them.
  pub fault_round :
      (n : ℕ) (d : AnomalyDetector) (at : ℕ → ℤ) (k : ℕ)
      → n + 1 < 2 ^ 64
      → d.config.expected_schema_version ≡ current_schema_version
      → Standing o (Dict.at fresh_source o.source_id d.state) n
      → let samples = (publish_round temperature voltage o clock (n + 1) (n ∷ [])).1 in
        let r = Trace.run d (delivered at k samples) in
        (counts_of r.1 ≡ round_counts o (n + 1))
        × (r.0.config ≡ d.config)
        × Standing o (Dict.at fresh_source o.source_id r.0.state) (n + 1)
  unfolding delivered Trace.run
  fault_round n d at k w c s =
      let x = first_sample temperature voltage o clock (n + 1) (n + 1) in
      let st = Dict.at fresh_source o.source_id d.state in
      let e : x.source_id ≡ o.source_id = unfold first_sample source_of in rw single.one_key refl in
      let q : x.sequence ≡ n + 1 = unfold first_sample in refl in
      let v : x.schema_version ≡ (
          if n + 1 == o.schema_drift_at
          then current_schema_version + 1
          else current_schema_version) =
        unfold first_sample in refl in
      rw (single_round n w) (elim (Bool-cases (n + 1 == o.drop_at)) [
        | inl h ↦ rw h (ground (arith, h))
        | inr h ↦
            let (c1, f1, m1) =
              counts_of-named x o.source_id e d (at k) s.word (omega (arith, q, w)) in
            let d' = (evaluate d x (at k)).0 in
            let st' = Dict.at fresh_source o.source_id d'.state in
            let drift : not (x.schema_version == d.config.expected_schema_version)
                ≡ (n + 1 == o.schema_drift_at) =
              ground (arith, v, c) in
            let mark : st' ≡ after (n + 1) =
              m1
              ∙ ap after (
                  ap (λ i. if st.initialized then max st.last_sequence i else i) q
                  ∙ first_mark o st n w h s) in
            let seen1 : counts_of (evaluate d x (at k)).1
                ≡ verdict st (n + 1) (n + 1 == o.schema_drift_at) =
              c1 ∙ ap₂ (verdict st) q drift in
            elim (Bool-cases (n + 1 == o.duplicate_at)) [
              | inl g ↦
                  let es = (evaluate d x (at k)).1 in
                  let fs = (evaluate d' x (at (k + 1))).1 in
                  let (c2, f2, m2) =
                    counts_of-named x o.source_id e d' (at (k + 1)) (rw mark w)
                      (omega (arith, q, w)) in
                  let drift2 : not (x.schema_version == d'.config.expected_schema_version)
                      ≡ (n + 1 == o.schema_drift_at) =
                    rw f1 drift in
                  let seen2 : counts_of fs
                      ≡ verdict (after (n + 1)) (n + 1) (n + 1 == o.schema_drift_at) =
                    c2
                    ∙ ap₂ (λ a b. verdict a x.sequence b) mark drift2
                    ∙ ap (λ i. verdict (after (n + 1)) i (n + 1 == o.schema_drift_at)) q in
                  rw (h, g)
                    (
                      ap (λ l. counts_of (es ++ l)) (append-nil fs)
                          ∙ counts_of-append es fs
                          ∙ ap₂ both seen1 seen2
                          ∙ twice_counts o st n w h s,
                      f2 ∙ f1,
                      subst (λ a. Standing o a (n + 1))
                          (sym (
                            m2
                            ∙ ap after (
                                ap₂ (λ a i. if a.initialized then max a.last_sequence i else i) mark
                                  q
                                ∙ omega arith)))
                          (Standing-after o st n w h),
                    )
              | inr g ↦
                  rw (h, g)
                    (
                      ap counts_of (append-nil (evaluate d x (at k)).1)
                          ∙ seen1
                          ∙ once_counts o st n w h s,
                      f1,
                      subst (λ a. Standing o a (n + 1)) (sym mark) (Standing-after o st n w h),
                    )
            ]
      ])
