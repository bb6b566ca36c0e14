-- ===== src/Programs/DdsPublisher/Ready.antt =====
-- A detector that knows the last number of every key of apps/dds_publisher.cpp.
use resilient_dds_data_plane.Base.{
  ℕ, ◌+◌, ◌^◌, ◌<◌, ◌≡◌, ◌⊎◌, refl, sym, subst, ap, ◌∙◌, Bool, false, List, ℤ, arith, ltb, length,
  str_eq, any, any-append_two,
}
use resilient_dds_data_plane.Base.Dict
use resilient_dds_data_plane.Telemetry.{TelemetrySample, kind_code}
use resilient_dds_data_plane.Detector.{
  AnomalyEvent, DetectorConfig, SourceState, AnomalyDetector, evaluate, schema_events,
  freshness_events, sequence_guard, sample_age_ms, fresh_source,
}
use resilient_dds_data_plane.Programs.DdsPublisher.{Options, seq_of, next_seq}
use resilient_dds_data_plane.Programs.DdsPublisher.Numbers.{
  length-next_seq, seq_of-next_seq, name_of, name_of_iff,
}

-- Is there a duplicate, a gap or an out-of-order sample among the events?
abbrev pub has_sequence_event : List AnomalyEvent → Bool
has_sequence_event = any (λ e. ltb (kind_code e.kind) 3)

-- The detector knows the last number of every key that has sent one.
abbrev pub Expects : SourceState → ℕ → Type 0
Expects st n = (st.initialized ≡ false) ⊎ (st.last_sequence ≡ n)

pub record IsReady (o : Options) (d : AnomalyDetector) (seqs : List ℕ) : Type 0 where
  pub size : length seqs ≡ o.keys
  pub expects :
      (j : ℕ) → j < o.keys → Expects (Dict.at fresh_source (name_of o j) d.state) (seq_of seqs j)

module _ {ℓ} {D : Type ℓ} (s : TelemetrySample D) where
  pub quiet_guard :
      (st : SourceState) (n : ℕ) (age : ℤ)
      → Expects st n
      → s.sequence ≡ n + 1
      → n + 1 < 2 ^ 64
      → (has_sequence_event (sequence_guard st s age).1 ≡ false)
        × ((sequence_guard st s age).0.last_sequence ≡ n + 1)
  unfolding sequence_guard
  quiet_guard st n age e q h = ground arith

  pub quiet_others :
      (c : DetectorConfig) (age : ℤ)
      → (has_sequence_event (schema_events c s) ≡ false)
        × (has_sequence_event (freshness_events c s age) ≡ false)
  unfolding schema_events freshness_events
  quiet_others c age = ground arith

  pub quiet_sample :
      (o : Options) (d : AnomalyDetector) (seqs : List ℕ) (i : ℕ) (now_ns : ℤ)
      → IsReady o d seqs
      → i < o.keys
      → s.source_id ≡ name_of o i
      → s.sequence ≡ seq_of (next_seq seqs i) i
      → seq_of seqs i + 1 < 2 ^ 64
      → IsReady o (evaluate d s now_ns).0 (next_seq seqs i)
        × (has_sequence_event (evaluate d s now_ns).1 ≡ false)
  unfolding evaluate
  quiet_sample o d seqs i now_ns r h e q w =
      let st = Dict.at fresh_source s.source_id d.state in
      let age = sample_age_ms s now_ns in
      let known : Expects st (seq_of seqs i) =
        subst (λ x. Expects (Dict.at fresh_source x d.state) (seq_of seqs i)) (sym e)
          (r.expects i h) in
      let (a, b) = quiet_others d.config age in
      let up : seq_of (next_seq seqs i) i ≡ seq_of seqs i + 1 =
        ground (arith, seq_of-next_seq seqs i i (omega (arith, r.size))) in
      let (c, l) = quiet_guard st (seq_of seqs i) age known (q ∙ up) w in
      (
        record {
          size = length-next_seq seqs i ∙ r.size;
          expects = λ j k. ground (
            arith,
            Dict.at-put fresh_source s.source_id (name_of o j) (sequence_guard st s age).0 d.state,
            ap (λ x. str_eq x (name_of o j)) e,
            name_of_iff o i j h k,
            seq_of-next_seq seqs i j (omega (arith, r.size)),
            r.expects j k,
            l,
          );
        },
        any-append_two (λ v. ltb (kind_code v.kind) 3) (schema_events d.config s)
              (freshness_events d.config s age) (sequence_guard st s age).1
            ∙ rw (a, b, c) refl,
      )

-- Every key can still count `room` samples.
abbrev pub Roomy : List ℕ → ℕ → Type 0
Roomy seqs room = (j : ℕ) → seq_of seqs j + room < 2 ^ 64

pub Roomy-next_seq :
    (seqs : List ℕ) (i room : ℕ)
    → i < length seqs
    → Roomy seqs (room + 1)
    → Roomy (next_seq seqs i) room
Roomy-next_seq seqs i room h r j = ground (arith, seq_of-next_seq seqs i j h, r j)
