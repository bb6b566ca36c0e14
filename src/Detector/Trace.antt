-- ===== src/Detector/Trace.antt =====
-- A detector fed with a sequence of arrivals, as the loops of apps/simulator.cpp,
-- apps/benchmark_core.cpp and the subscriber feed it.
use resilient_dds_data_plane.Base.{
  ◌≡◌, refl, sym, ap, ◌∙◌, List, [], ◌∷◌, ◌++◌, ℤ, Bytes, some, arith, keep, keep-append,
  if◌then◌else◌, str_eq,
}
use resilient_dds_data_plane.Base.Dict
use mathlib.Core.List.{append_assoc}
use resilient_dds_data_plane.Telemetry.{TelemetrySample}
use resilient_dds_data_plane.Detector.{
  AnomalyEvent, DetectorConfig, SourceState, AnomalyDetector, schema_events, freshness_events,
  sequence_guard, sample_age_ms, evaluate, fresh_source,
}

-- A sample, and the receiver's clock when it arrives.
abbrev pub Arrival {ℓ} : Type ℓ → Type ℓ
Arrival D = TelemetrySample D × ℤ

unfoldable pub run {ℓ} :
    {D : Type ℓ} → AnomalyDetector → List (Arrival D) → AnomalyDetector × List AnomalyEvent
run d [] = (d, [])
run d ((s, now_ns) ∷ rest) =
    let (d', found) = evaluate d s now_ns in let (d'', more) = run d' rest in (d'', found ++ more)

-- The events that name a source.
abbrev pub events_of : Bytes → List AnomalyEvent → List AnomalyEvent
events_of a = keep (λ e. str_eq e.source_id a)

-- The arrivals of a source.
abbrev pub arrivals_of {ℓ} : {D : Type ℓ} → Bytes → List (Arrival D) → List (Arrival D)
arrivals_of a = keep (λ x. str_eq x.0.source_id a)

module _ {ℓ} {D : Type ℓ} (s : TelemetrySample D) (a : Bytes) where
  events_of-schema_events :
      (c : DetectorConfig)
      → events_of a (schema_events c s) ≡ (if str_eq s.source_id a then schema_events c s else [])
  unfolding schema_events
  events_of-schema_events c = ground arith

  events_of-freshness_events :
      (c : DetectorConfig) (age : ℤ)
      → events_of a (freshness_events c s age)
        ≡ (if str_eq s.source_id a then freshness_events c s age else [])
  unfolding freshness_events
  events_of-freshness_events c age = ground arith

  events_of-sequence_guard :
      (st : SourceState) (age : ℤ)
      → events_of a (sequence_guard st s age).1
        ≡ (if str_eq s.source_id a then (sequence_guard st s age).1 else [])
  unfolding sequence_guard
  events_of-sequence_guard st age = ground arith

  -- Every event of a sample names the sample's source.
  pub events_of-evaluate :
      (d : AnomalyDetector) (now_ns : ℤ)
      → events_of a (evaluate d s now_ns).1
        ≡ (if str_eq s.source_id a then (evaluate d s now_ns).1 else [])
  unfolding evaluate
  events_of-evaluate d now_ns =
      let age = sample_age_ms s now_ns in
      let st = Dict.at fresh_source s.source_id d.state in
      ground (
        arith,
        keep-append (λ e. str_eq e.source_id a)
            (schema_events d.config s ++ freshness_events d.config s age)
            (sequence_guard st s age).1,
        keep-append (λ e. str_eq e.source_id a) (schema_events d.config s)
            (freshness_events d.config s age),
        events_of-schema_events d.config,
        events_of-freshness_events d.config age,
        events_of-sequence_guard st age,
      )

  -- A sample touches the state of its own source alone.
  pub find-evaluate :
      (d : AnomalyDetector) (now_ns : ℤ)
      → Dict.find a (evaluate d s now_ns).0.state ≡ (
          if str_eq s.source_id a
          then some
              (sequence_guard
                (Dict.at fresh_source s.source_id d.state)
                s
                (sample_age_ms s now_ns)).0
          else Dict.find a d.state)
  unfolding evaluate
  find-evaluate d now_ns = Dict.find-put s.source_id a _ d.state

pub config-evaluate {ℓ} :
    {D : Type ℓ} (d : AnomalyDetector) (s : TelemetrySample D) (now_ns : ℤ)
    → (evaluate d s now_ns).0.config ≡ d.config
unfolding evaluate
config-evaluate d s now_ns = refl

module _ {ℓ} {D : Type ℓ} where
  pub run-append :
      (d : AnomalyDetector) (xs ys : List (Arrival D))
      → ((run d (xs ++ ys)).0 ≡ (run (run d xs).0 ys).0)
        × ((run d (xs ++ ys)).1 ≡ (run d xs).1 ++ (run (run d xs).0 ys).1)
  unfolding run
  run-append d [] ys = (refl, refl)
  run-append d ((s, now_ns) ∷ xs) ys =
      let (a, b) = run-append (evaluate d s now_ns).0 xs ys in
      (
        a,
        ap (λ es. (evaluate d s now_ns).1 ++ es) b
            ∙ sym (
                append_assoc (evaluate d s now_ns).1 (run (evaluate d s now_ns).0 xs).1
                  (run (run (evaluate d s now_ns).0 xs).0 ys).1),
      )
