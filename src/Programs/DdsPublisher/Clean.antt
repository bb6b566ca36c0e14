-- ===== src/Programs/DdsPublisher/Clean.antt =====
-- A run of apps/dds_publisher.cpp without injected faults, seen by the detector.
use resilient_dds_data_plane.Base.{
  ℕ, zero, suc, ◌+◌, ◌-◌, ◌*◌, ◌^◌, ◌≤◌, ◌<◌, ◌≡◌, ◌⊎◌, refl, ◌∙◌, inl, false, List, ◌∷◌, ◌++◌, ℤ,
  arith, ltb, ◌==◌, length, any-append,
}
use resilient_dds_data_plane.Base.Dict
use mathlib.Core.List.{append-nil}
use native.Mathlib.Nat.{mod-lt}
use resilient_dds_data_plane.Telemetry.{TelemetrySample, kind_code}
use resilient_dds_data_plane.Detector.{DetectorConfig, AnomalyDetector, new_detector, evaluate}
use resilient_dds_data_plane.Detector.Trace
use resilient_dds_data_plane.Programs.DdsPublisher.{
  Options, seq_of, next_seq, no_seqs, key_index, repeats, source_of, first_sample, extra_samples,
  publish_round, publish_rounds, published,
}
use resilient_dds_data_plane.Programs.DdsPublisher.Numbers.{
  length-next_seq, no_seqs_lem, name_of, delivered, delivered-append,
}
use resilient_dds_data_plane.Programs.DdsPublisher.Ready.{
  has_sequence_event, IsReady, quiet_sample, Roomy, Roomy-next_seq,
}

-- What the detector makes of some samples: it reports no sequence fault, and is ready for more.
abbrev Quiet {ℓ} :
    {D : Type ℓ}
    → Options
    → AnomalyDetector
    → (ℕ → ℤ)
    → ℕ
    → List (TelemetrySample D)
    → List ℕ
    → Type 0
Quiet o d at n samples seqs =
    let r = Trace.run d (delivered at n samples) in
    IsReady o r.0 seqs × (has_sequence_event r.1 ≡ false)

module _ {ℓ} {D : Type ℓ} (temperature : ℕ → D) (voltage : D) (o : Options) (clock : ℕ → ℕ → ℤ)
    (at : ℕ → ℤ) where
  Quiet-cons :
      (d : AnomalyDetector) (n i : ℕ) (s : TelemetrySample D) (more : List (TelemetrySample D))
      (seqs seqs' : List ℕ)
      → IsReady o d seqs
      → i < o.keys
      → s.source_id ≡ name_of o i
      → s.sequence ≡ seq_of (next_seq seqs i) i
      → seq_of seqs i + 1 < 2 ^ 64
      → ((d' : AnomalyDetector) → IsReady o d' (next_seq seqs i) → Quiet o d' at (n + 1) more seqs')
      → Quiet o d at n (s ∷ more) seqs'
  unfolding delivered Trace.run
  Quiet-cons d n i s more seqs seqs' r h e q w k =
      let (r', c) = quiet_sample s o d seqs i (at n) r h e q w in
      let (r'', c') = k (evaluate d s (at n)).0 r' in
      (
        r'',
        any-append (λ v. ltb (kind_code v.kind) 3) (evaluate d s (at n)).1
              (Trace.run (evaluate d s (at n)).0 (delivered at (n + 1) more)).1
            ∙ rw (c, c') refl,
      )

  Quiet-append :
      (d : AnomalyDetector) (n : ℕ) (xs ys : List (TelemetrySample D)) (seqs seqs' : List ℕ)
      → Quiet o d at n xs seqs
      → ((d' : AnomalyDetector) → IsReady o d' seqs → Quiet o d' at (n + length xs) ys seqs')
      → Quiet o d at n (xs ++ ys) seqs'
  Quiet-append d n xs ys seqs seqs' q k =
      let (a, b) = Trace.run-append d (delivered at n xs) (delivered at (n + length xs) ys) in
      let (r'', c') = k (Trace.run d (delivered at n xs)).0 q.0 in
      rw (delivered-append at n xs ys, a, b)
        (
          r'',
          any-append (λ v. ltb (kind_code v.kind) 3) (Trace.run d (delivered at n xs)).1
                (Trace.run (Trace.run d (delivered at n xs)).0 (delivered at (n + length xs) ys)).1
              ∙ rw (q.1, c') refl,
        )

  Roomy-extra_samples :
      (left i round : ℕ) (seqs : List ℕ) (s : TelemetrySample D) (room : ℕ)
      → key_index o round < length seqs
      → Roomy seqs (left + room)
      → Roomy (extra_samples temperature voltage o clock left i round seqs s).0 room
  unfolding extra_samples
  Roomy-extra_samples zero i round seqs s room h b = λ j. omega (arith, b j)
  Roomy-extra_samples (suc left) i round seqs s room h b =
      let k = key_index o round in
      Roomy-extra_samples left (i + 1) round (next_seq seqs k) _ room
        (omega (arith, length-next_seq seqs k))
        (Roomy-next_seq seqs k (left + room) h (λ j. omega (arith, b j)))

  extra_no_event :
      (left i round : ℕ) (seqs : List ℕ) (s : TelemetrySample D) (d : AnomalyDetector) (n room : ℕ)
      → IsReady o d seqs
      → key_index o round < o.keys
      → s.source_id ≡ name_of o (key_index o round)
      → Roomy seqs (left + room)
      → let r = extra_samples temperature voltage o clock left i round seqs s in
        Quiet o d at n r.1 r.0
  unfolding extra_samples delivered Trace.run
  extra_no_event zero i round seqs s d n room r h e b = (r, refl)
  extra_no_event (suc left) i round seqs s d n room r h e b =
      let k = key_index o round in
      let s' : TelemetrySample D = record s {
        sequence = seq_of (next_seq seqs k) k;
        source_timestamp_ns = clock round (i + 1);
        ingest_timestamp_ns = clock round (i + 1);
      } in
      let rest =
        extra_samples temperature voltage o clock left (i + 1) round (next_seq seqs k) s' in
      Quiet-cons d n k s' rest.1 seqs rest.0 r h e refl (omega (arith, b k)) (λ d' r'.
        extra_no_event left (i + 1) round (next_seq seqs k) s' d' (n + 1) room r' h e
          (Roomy-next_seq seqs k (left + room) (omega (arith, r.size)) (λ j. omega (arith, b j))))

  -- A round that is neither dropped nor doubled.
  round_no_event :
      (round : ℕ) (seqs : List ℕ) (d : AnomalyDetector) (n room : ℕ)
      → IsReady o d seqs
      → 0 < o.keys
      → 0 < o.hot_multiplier
      → (round == o.drop_at) ≡ false
      → (round == o.duplicate_at) ≡ false
      → Roomy seqs (o.hot_multiplier + room)
      → let r = publish_round temperature voltage o clock round seqs in
        Quiet o d at n r.1 r.0 × Roomy r.0 room
  unfolding publish_round first_sample source_of
  round_no_event round seqs d n room r h m e f b =
      let k = key_index o round in
      let inside : k < o.keys = omega (arith, mod-lt (round - 1) h) in
      let s = first_sample temperature voltage o clock round (seq_of (next_seq seqs k) k) in
      let left = repeats o round - 1 in
      let rest = extra_samples temperature voltage o clock left 0 round (next_seq seqs k) s in
      let few : left + 1 ≤ o.hot_multiplier = ground arith in
      let b' : Roomy (next_seq seqs k) (left + room) =
        Roomy-next_seq seqs k (left + room) (omega (arith, r.size))
          (λ j. omega (arith, b j, few)) in
      rw (e, f, append-nil)
        (
          Quiet-cons d n k s rest.1 seqs rest.0 r inside refl refl (omega (arith, b k, m)) (λ d' r'.
              extra_no_event left 0 round (next_seq seqs k) s d' (n + 1) room r' inside refl b'),
          Roomy-extra_samples left 0 round (next_seq seqs k) s room
              (omega (arith, length-next_seq seqs k, r.size)) b',
        )

  -- Does a fault set for round `fault` come up in none of the rounds?
  abbrev Misses : ℕ → ℕ → ℕ → Type 0
  Misses fault round left = (fault < round) ⊎ (round + left ≤ fault)

  rounds_no_event :
      (left round : ℕ) (seqs : List ℕ) (d : AnomalyDetector) (n : ℕ)
      → IsReady o d seqs
      → 0 < o.keys
      → 0 < o.hot_multiplier
      → Misses o.drop_at round left
      → Misses o.duplicate_at round left
      → Roomy seqs (left * o.hot_multiplier)
      → has_sequence_event
          (Trace.run d
            (delivered at n (publish_rounds temperature voltage o clock left round seqs))).1
        ≡ false
  unfolding publish_rounds delivered Trace.run
  rounds_no_event zero round seqs d n r h m e f b = refl
  rounds_no_event (suc left) round seqs d n r h m e f b =
      let now = publish_round temperature voltage o clock round seqs in
      let later = publish_rounds temperature voltage o clock left (round + 1) now.0 in
      let xs = delivered at n now.1 in
      let ys = delivered at (n + length now.1) later in
      let ((r', c), b') =
        round_no_event round seqs d n (left * o.hot_multiplier) r h m (ground (arith, e))
          (ground (arith, f)) (λ j. omega (arith, b j)) in
      let c' =
        rounds_no_event left (round + 1) now.0 (Trace.run d xs).0 (n + length now.1) r' h m
          (ground (arith, e)) (ground (arith, f)) b' in
      rw (delivered-append at n now.1 later, (Trace.run-append d xs ys).1)
        (any-append (λ v. ltb (kind_code v.kind) 3) (Trace.run d xs).1
            (Trace.run (Trace.run d xs).0 ys).1
          ∙ rw (c, c') refl)

-- The detector measures the middleware, not this loop: of a run in which no round is dropped or
-- doubled, with any number of keys and any hot key, it reports no duplicate, no gap and no sample
-- out of order, when every sample arrives, in order, whenever it does. Each key's numbers are its
-- own, and they fit 64 bits.
pub published_clean {ℓ} :
    {D : Type ℓ} (temperature : ℕ → D) (voltage : D) (o : Options) (clock : ℕ → ℕ → ℤ) (at : ℕ → ℤ)
    (c : DetectorConfig)
    → 0 < o.keys
    → 0 < o.hot_multiplier
    → (o.drop_at ≡ 0) ⊎ (o.count < o.drop_at)
    → (o.duplicate_at ≡ 0) ⊎ (o.count < o.duplicate_at)
    → o.count * o.hot_multiplier < 2 ^ 64
    → has_sequence_event
        (Trace.run (new_detector c) (delivered at 0 (published temperature voltage o clock))).1
      ≡ false
unfolding published new_detector Dict.at Dict.find
published_clean temperature voltage o clock at c h m e f b =
    rounds_no_event temperature voltage o clock at o.count 1 (no_seqs o.keys) (new_detector c) 0
      (record { size = (no_seqs_lem o.keys 0).0; expects = λ j k. inl refl }) h m
      (ground (arith, e)) (ground (arith, f)) (λ j. omega (arith, (no_seqs_lem o.keys j).1, b))
