-- ===== src/Detector/Isolation.antt =====
-- The sources of one detector do not disturb one another.
use resilient_dds_data_plane.Base.{
  ◌≡◌, refl, inl, inr, true, false, List, [], ◌∷◌, ℤ, Bytes, arith, keep-append, Bool-cases, str_eq,
  eq_of_str_eq,
}
use resilient_dds_data_plane.Base.Dict
use resilient_dds_data_plane.Telemetry.{TelemetrySample}
use resilient_dds_data_plane.Detector.{AnomalyDetector, evaluate}
use resilient_dds_data_plane.Detector.Trace.{
  Arrival, run, events_of, arrivals_of, events_of-evaluate, find-evaluate, config-evaluate,
}

-- Two detectors that agree on the configuration and on one source.
abbrev Agree : Bytes → AnomalyDetector → AnomalyDetector → Type 0
Agree a d e = (d.config ≡ e.config) × (Dict.find a d.state ≡ Dict.find a e.state)

module _ {ℓ} {D : Type ℓ} (a : Bytes) (d e : AnomalyDetector) (s : TelemetrySample D)
    (now_ns : ℤ) where
  evaluate-same_source :
      Agree a d e
      → str_eq s.source_id a ≡ true
      → ((evaluate d s now_ns).1 ≡ (evaluate e s now_ns).1)
        × Agree a (evaluate d s now_ns).0 (evaluate e s now_ns).0
  unfolding evaluate Dict.at
  evaluate-same_source g h =
      ground
        (arith, eq_of_str_eq s.source_id a, find-evaluate s a d now_ns, find-evaluate s a e now_ns)

  evaluate-other_source :
      Agree a d e → str_eq s.source_id a ≡ false → Agree a (evaluate d s now_ns).0 e
  evaluate-other_source g h = ground (arith, find-evaluate s a d now_ns, config-evaluate d s now_ns)

run-Agree {ℓ} :
    {D : Type ℓ} (a : Bytes) (d e : AnomalyDetector) (xs : List (Arrival D))
    → Agree a d e
    → events_of a (run d xs).1 ≡ (run e (arrivals_of a xs)).1
unfolding run
run-Agree a d e [] g = refl
run-Agree a d e ((s, now_ns) ∷ xs) g = elim (Bool-cases (str_eq s.source_id a)) [
  | inl h ↦ ground (
    arith,
    evaluate-same_source a d e s now_ns g h,
    keep-append (λ v. str_eq v.source_id a) (evaluate d s now_ns).1
        (run (evaluate d s now_ns).0 xs).1,
    events_of-evaluate s a d now_ns,
    run-Agree a (evaluate d s now_ns).0 (evaluate e s now_ns).0 xs,
  )
  | inr h ↦ ground (
    arith,
    evaluate-other_source a d e s now_ns g h,
    keep-append (λ v. str_eq v.source_id a) (evaluate d s now_ns).1
        (run (evaluate d s now_ns).0 xs).1,
    events_of-evaluate s a d now_ns,
    run-Agree a (evaluate d s now_ns).0 e xs,
  )
]

-- Of any interleaving of sources, the events that name one source are the events which its own
-- arrivals alone would have raised, in the same order.
pub run-isolates {ℓ} :
    {D : Type ℓ} (d : AnomalyDetector) (a : Bytes) (xs : List (Arrival D))
    → events_of a (run d xs).1 ≡ (run d (arrivals_of a xs)).1
run-isolates d a xs = run-Agree a d d xs (refl, refl)
