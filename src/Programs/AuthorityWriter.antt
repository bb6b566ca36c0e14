-- ===== src/Programs/AuthorityWriter.antt =====
-- apps/authority_writer.cpp: the loop of writes. `writes seq` is what `write` returns for sample `seq`,
-- and `log` is what the loop prints. The sample's temperature and the clock are arguments.
use resilient_dds_data_plane.Base.{
  ℕ, zero, suc, ◌+◌, ◌/◌, ◌%◌, ◌≡◌, refl, Bool, not, List, [], ◌∷◌, ℤ, pos, eqb_ℤ, true, false, ◌≤◌,
  ◌<◌, Bytes, arith, ltb, ◌==◌, if◌then◌else◌, inl, inr, Bool-cases,
}
use resilient_dds_data_plane.Telemetry.{TelemetrySample, current_schema_version}

pub data Line : Type 0 where
  write_failed writer_progress : ℕ → Line

-- What the loop does: the samples that it hands to `write`, and the lines.
pub record Writing {ℓ} (D : Type ℓ) : Type ℓ where
  pub samples : List (TelemetrySample D)
  pub log : List Line

-- The wait for a reader, with `left` rounds to go: `loads i` is what load `i` of the listener's
-- `matches` yields. The result is the number of sleeps.
unfoldable pub await_reader : (ℕ → ℤ) → ℕ → ℕ → ℕ
await_reader loads zero waited = waited
await_reader loads (suc left) waited =
    let rest = await_reader loads left (waited + 1) in
    if eqb_ℤ (loads waited) (pos 0) then rest else waited

abbrev pub max_sleeps : ℕ
max_sleeps = 60

await_reader_from :
    (loads : ℕ → ℤ) (left waited : ℕ)
    → let n = await_reader loads left waited in
      (waited ≤ n)
      × (n ≤ waited + left)
      × (n < waited + left → eqb_ℤ (loads n) (pos 0) ≡ false)
      × ((i : ℕ) → waited ≤ i → i < n → eqb_ℤ (loads i) (pos 0) ≡ true)
unfolding await_reader
await_reader_from loads zero waited =
    (omega arith, omega arith, λ h. absurd (omega arith), λ i h k. absurd (omega arith))
await_reader_from loads (suc left) waited =
    let (a, b, c, d) = await_reader_from loads left (waited + 1) in
    elim (Bool-cases (eqb_ℤ (loads waited) (pos 0))) [
      | inl e ↦ rw e (
        omega (arith, a),
        omega (arith, b),
        λ h. c (omega arith),
        λ i h k. elim (Bool-cases (i == waited)) [
          | inl q ↦ (let same : i ≡ waited = ground arith in rw same e)
          | inr q ↦ d i (ground arith) k
        ],
      )
      | inr e ↦ rw e (omega arith, omega arith, λ h. e, λ i h k. absurd (omega arith))
    ]

-- The wait sleeps at most 60 times, no longer than until the first load that is not 0.
pub await_reader_lem :
    (loads : ℕ → ℤ)
    → let n = await_reader loads max_sleeps 0 in
      (n ≤ max_sleeps)
      × (n < max_sleeps → eqb_ℤ (loads n) (pos 0) ≡ false)
      × ((i : ℕ) → i < n → eqb_ℤ (loads i) (pos 0) ≡ true)
await_reader_lem loads =
    let (a, b, c, d) = await_reader_from loads max_sleeps 0 in (b, c, λ i h. d i (omega arith) h)

module _ {ℓ} {D : Type ℓ} (temperature : ℕ → D) (voltage : D) (source_id : Bytes)
    (now_ns : ℕ → ℤ) where
  -- The sample of a round.
  unfoldable pub authority_sample : ℕ → TelemetrySample D
  authority_sample seq = record {
    source_id = source_id;
    sequence = seq;
    source_timestamp_ns = now_ns seq;
    ingest_timestamp_ns = now_ns seq;
    temperature_c = temperature (seq % 5);
    voltage_v = voltage;
    health_flags = 0;
    schema_version = current_schema_version;
  }

  -- The loop from `seq` on, with `left` rounds to go.
  unfoldable pub write_loop : (ℕ → Bool) → ℕ → ℕ → Writing D
  unfolding authority_sample
  write_loop writes zero seq = record { samples = []; log = [] }
  write_loop writes (suc left) seq =
      let x = authority_sample seq in
      let rest = write_loop writes left (seq + 1) in
      if not (writes seq)
      then record { samples = x ∷ []; log = write_failed seq ∷ [] }
      else record {
        samples = x ∷ rest.samples;
        log = if seq % 10 == 0 then writer_progress seq ∷ rest.log else rest.log;
      }

-- The writes that succeed before the first that fails, of `left` writes from `seq` on.
abbrev pub successes : (ℕ → Bool) → ℕ → ℕ → ℕ
successes writes zero seq = 0
successes writes (suc left) seq =
    let later = successes writes left (seq + 1) in if writes seq then 1 + later else 0

-- The numbers of the samples.
abbrev pub numbers_of {ℓ} : {D : Type ℓ} → List (TelemetrySample D) → List ℕ
numbers_of [] = []
numbers_of (s ∷ ss) = s.sequence ∷ numbers_of ss

-- `n` numbers from `seq` on.
abbrev pub count_from : ℕ → ℕ → List ℕ
count_from seq zero = []
count_from seq (suc n) = seq ∷ count_from (seq + 1) n

abbrev pub count_progress : List Line → ℕ
count_progress [] = 0
count_progress (write_failed seq ∷ ls) = count_progress ls
count_progress (writer_progress seq ∷ ls) = 1 + count_progress ls

-- The lines for writes that fail, with their numbers.
abbrev pub failures_of : List Line → List ℕ
failures_of [] = []
failures_of (write_failed seq ∷ ls) = seq ∷ failures_of ls
failures_of (writer_progress seq ∷ ls) = failures_of ls

-- Is there a round that fails?
abbrev pub fails : (ℕ → Bool) → ℕ → ℕ → Bool
fails writes count seq = ltb (successes writes count seq) count

module _ {ℓ} {D : Type ℓ} (temperature : ℕ → D) (voltage : D) (source_id : Bytes) (now_ns : ℕ → ℤ)
    (writes : ℕ → Bool) where
  write_loop_from :
      (left seq : ℕ)
      → let r = write_loop temperature voltage source_id now_ns writes left (seq + 1) in
        let n = successes writes left (seq + 1) in
        let failed = fails writes left (seq + 1) in
        (numbers_of r.samples ≡ count_from (seq + 1) (if failed then suc n else n))
        × (count_progress r.log + seq / 10 ≡ (seq + n) / 10)
        × (failures_of r.log ≡ (if failed then (seq + 1 + n) ∷ [] else []))
  unfolding write_loop authority_sample
  write_loop_from zero seq = (refl, omega arith, refl)
  write_loop_from (suc left) seq = elim (Bool-cases (writes (seq + 1))) [
    | inl h ↦ ground (arith, write_loop_from left (seq + 1))
    | inr h ↦ ground arith
  ]

  -- A run of `count` writes from sample 1 on hands over the samples in order, up to the first that
  -- `write` refuses, that one included; for every tenth that it accepts there is a line of progress,
  -- and a line of failure names the refused one, if there is one.
  pub write_loop_lem :
      (count : ℕ)
      → let r = write_loop temperature voltage source_id now_ns writes count 1 in
        let n = successes writes count 1 in
        let failed = fails writes count 1 in
        (numbers_of r.samples ≡ count_from 1 (if failed then suc n else n))
        × (count_progress r.log ≡ n / 10)
        × (failures_of r.log ≡ (if failed then (1 + n) ∷ [] else []))
  write_loop_lem count = let (a, b, c) = write_loop_from count 0 in (a, omega (arith, b), c)
