-- ===== src/Detector/HighWater.antt =====
-- What the sequence guard remembers of a source, and what it has reported, over any sequence of
-- arrivals from any sources.
use resilient_dds_data_plane.Base.{
  ℕ, ◌+◌, ◌-◌, ◌^◌, ◌<◌, max, ◌≡◌, inl, inr, true, List, [], ◌∷◌, ℤ, Bytes, some, arith, Bool-cases,
  str_eq, eq_of_str_eq, if◌then◌else◌, ltb, All,
}
use resilient_dds_data_plane.Base.Dict
use resilient_dds_data_plane.Telemetry.{TelemetrySample}
use resilient_dds_data_plane.Detector.{SourceState, AnomalyDetector, evaluate, sample_age_ms}
use resilient_dds_data_plane.Detector.Kinds.{
  missing_total, missing_total-append, missing_total-evaluate,
}
use resilient_dds_data_plane.Detector.Sequence.{guard_classifies, guard_mark}
use resilient_dds_data_plane.Detector.Trace.{Arrival, run, events_of, arrivals_of, find-evaluate}
use resilient_dds_data_plane.Detector.Isolation.{run-isolates}

-- The state of a source whose highest number so far is `n`.
abbrev pub seen : ℕ → SourceState
seen n = record { initialized = true; last_sequence = n }

-- The numbers of the arrivals of a source.
abbrev pub numbers_of {ℓ} : {D : Type ℓ} → Bytes → List (Arrival D) → List ℕ
numbers_of a [] = []
numbers_of a ((s, now_ns) ∷ xs) =
    let rest = numbers_of a xs in if str_eq s.source_id a then s.sequence ∷ rest else rest

-- The highest of `n` and the numbers.
abbrev pub highest : ℕ → List ℕ → ℕ
highest n [] = n
highest n (k ∷ ks) = highest (max n k) ks

-- How many of the numbers set a new highest one.
abbrev pub advances : ℕ → List ℕ → ℕ
advances n [] = 0
advances n (k ∷ ks) = (if ltb n k then 1 else 0) + advances (max n k) ks

-- Every number is a `std::uint64_t`.
abbrev pub AreWords : List ℕ → Type 0
AreWords = All (λ k. k < 2 ^ 64)

module _ {ℓ} {D : Type ℓ} (a : Bytes) (d : AnomalyDetector) (s : TelemetrySample D) (now_ns : ℤ)
    (n : ℕ) where
  mark-evaluate :
      Dict.find a d.state ≡ some (seen n)
      → Dict.find a (evaluate d s now_ns).0.state
        ≡ some (seen (if str_eq s.source_id a then max n s.sequence else n))
  unfolding Dict.at
  mark-evaluate f = ground (
    arith,
    eq_of_str_eq s.source_id a,
    find-evaluate s a d now_ns,
    guard_mark (seen n) s (sample_age_ms s now_ns),
  )

  missing-evaluate :
      Dict.find a d.state ≡ some (seen n)
      → str_eq s.source_id a ≡ true
      → n < 2 ^ 64
      → s.sequence < 2 ^ 64
      → missing_total (evaluate d s now_ns).1 ≡ s.sequence - (n + 1)
  unfolding Dict.at
  missing-evaluate f h l k = ground (
    arith,
    eq_of_str_eq s.source_id a,
    missing_total-evaluate s d now_ns,
    guard_classifies (seen n) s (sample_age_ms s now_ns),
  )

-- The mark of a source that has been seen, after any arrivals from any sources, is the highest of the
-- mark before and of the numbers that the source has sent since.
pub run-highest {ℓ} :
    {D : Type ℓ} (d : AnomalyDetector) (a : Bytes) (n : ℕ) (xs : List (Arrival D))
    → Dict.find a d.state ≡ some (seen n)
    → Dict.find a (run d xs).0.state ≡ some (seen (highest n (numbers_of a xs)))
unfolding run
run-highest d a n [] f = f
run-highest d a n ((s, now_ns) ∷ xs) f = elim (Bool-cases (str_eq s.source_id a)) [
  | inl h ↦ ground (
    arith,
    mark-evaluate a d s now_ns n f,
    run-highest (evaluate d s now_ns).0 a (max n s.sequence) xs,
  )
  | inr h ↦
      ground (arith, mark-evaluate a d s now_ns n f, run-highest (evaluate d s now_ns).0 a n xs)
]

-- The accounts of one source's own arrivals.
own_accounts {ℓ} :
    {D : Type ℓ} (d : AnomalyDetector) (a : Bytes) (n : ℕ) (xs : List (Arrival D))
    → Dict.find a d.state ≡ some (seen n)
    → n < 2 ^ 64
    → AreWords (numbers_of a xs)
    → missing_total (run d (arrivals_of a xs)).1 + advances n (numbers_of a xs) + n
      ≡ highest n (numbers_of a xs)
unfolding run
own_accounts d a n [] f l w = omega arith
own_accounts d a n ((s, now_ns) ∷ xs) f l w = elim (Bool-cases (str_eq s.source_id a)) [
  | inl h ↦ ground (
    arith,
    w,
    missing-evaluate a d s now_ns n f h l,
    mark-evaluate a d s now_ns n f,
    missing_total-append (evaluate d s now_ns).1 (run (evaluate d s now_ns).0 (arrivals_of a xs)).1,
    own_accounts (evaluate d s now_ns).0 a (max n s.sequence) xs,
  )
  | inr h ↦ ground (arith, w, own_accounts d a n xs f l)
]

-- No number of a source that has been seen goes unaccounted for, while all of them fit 64 bits:
-- whatever arrives in between, and in whatever order, the samples
-- that a source's events report missing and the samples that moved its mark make up exactly the way
-- from the first mark to the last.
pub run_accounts {ℓ} :
    {D : Type ℓ} (d : AnomalyDetector) (a : Bytes) (n : ℕ) (xs : List (Arrival D))
    → Dict.find a d.state ≡ some (seen n)
    → n < 2 ^ 64
    → AreWords (numbers_of a xs)
    → missing_total (events_of a (run d xs).1) + advances n (numbers_of a xs) + n
      ≡ highest n (numbers_of a xs)
run_accounts d a n xs f l w = rw (run-isolates d a xs) (own_accounts d a n xs f l w)
