-- ===== src/Programs/DdsPublisher.antt =====
-- apps/dds_publisher.cpp: the loop that publishes, with its injected faults. A clock reading is an
-- argument: `clock round i` is read for the sample `i` of a round. The sleeps and what is printed are
-- not modelled.
pub mod Loop
pub mod Numbers
pub mod Ready
pub mod Clean
pub mod Counts
pub mod Rounds
pub mod Faults
pub mod Setup
pub mod Running
pub mod Sums
pub mod Session
use resilient_dds_data_plane.Base.{
  ℕ, zero, suc, ◌+◌, ◌-◌, ◌%◌, ◌^◌, Bool, true, false, ◌&&◌, List, [], ◌∷◌, ◌++◌, ℤ, pos, ◌-ℤ◌,
  leb_ℤ, Bytes, codes, ltb, ◌==◌, if◌then◌else◌,
}
use resilient_dds_data_plane.Base.Decimal.{show}
use resilient_dds_data_plane.Telemetry.{TelemetrySample, current_schema_version}
use resilient_dds_data_plane.Transport.Subscriber.{to_u64}

-- The options that the loop reads.
pub record Options : Type 0 where
  pub source_id : Bytes
  pub count : ℕ  -- uint64, as the next four
  pub drop_at : ℕ
  pub duplicate_at : ℕ
  pub stale_at : ℕ
  pub schema_drift_at : ℕ
  pub keys : ℕ  -- uint32, at least 1 once the options are read
  pub hot_key : ℤ
  pub hot_multiplier : ℕ  -- uint32, at least 1 once the options are read

-- `key_seq[i]`, and `++key_seq[i]`, inside the bounds only.
unfoldable pub seq_of : List ℕ → ℕ → ℕ
seq_of [] i = 0
seq_of (n ∷ ns) zero = n
seq_of (n ∷ ns) (suc i) = seq_of ns i

unfoldable pub next_seq : List ℕ → ℕ → List ℕ
next_seq [] i = []
next_seq (n ∷ ns) zero = (n + 1) % 2 ^ 64 ∷ ns
next_seq (n ∷ ns) (suc i) = n ∷ next_seq ns i

-- std::vector<std::uint64_t> key_seq(keys, 0)
unfoldable pub no_seqs : ℕ → List ℕ
no_seqs zero = []
no_seqs (suc n) = 0 ∷ no_seqs n

abbrev pub key_index : Options → ℕ → ℕ
key_index o round = (round - 1) % o.keys

abbrev pub repeats : Options → ℕ → ℕ
repeats o round =
    if leb_ℤ (pos 0) o.hot_key && key_index o round == to_u64 o.hot_key % 2 ^ 32
    then o.hot_multiplier
    else 1

unfoldable pub source_of : Options → ℕ → Bytes
source_of o round = if ltb 1 o.keys then codes "key-" ++ show (key_index o round) else o.source_id

-- `temperature n` is 40.0 + n, `voltage` is 27.5.
module _ {ℓ} {D : Type ℓ} (temperature : ℕ → D) (voltage : D) (o : Options)
    (clock : ℕ → ℕ → ℤ) where
  -- The first sample of a round.
  unfoldable pub first_sample : ℕ → ℕ → TelemetrySample D
  unfolding source_of
  first_sample round seq = record {
    source_id = source_of o round;
    sequence = seq;
    source_timestamp_ns =
        if round == o.stale_at then clock round 0 -ℤ pos 2_000_000_000 else clock round 0;
    ingest_timestamp_ns = clock round 0;
    temperature_c = temperature (seq % 5);
    voltage_v = voltage;
    health_flags = 0;
    schema_version =
        if round == o.schema_drift_at then current_schema_version + 1 else current_schema_version;
  }

  -- The extra samples of the hot key, `left` of them behind sample `i`, and at the end the sample
  -- that `s` holds by then.
  unfoldable pub extra_samples :
      ℕ → ℕ → ℕ → List ℕ → TelemetrySample D → List ℕ × List (TelemetrySample D) × TelemetrySample D
  unfolding seq_of next_seq
  extra_samples zero i round seqs s = (seqs, [], s)
  extra_samples (suc left) i round seqs s =
      let seqs' = next_seq seqs (key_index o round) in
      let s' : TelemetrySample D = record s {
        sequence = seq_of seqs' (key_index o round);
        source_timestamp_ns = clock round (i + 1);
        ingest_timestamp_ns = clock round (i + 1);
      } in
      let (seqs'', more, last) = extra_samples left (i + 1) round seqs' s' in
      (seqs'', s' ∷ more, last)

  -- One round: the sequence numbers behind it, and the samples it publishes.
  unfoldable pub publish_round : ℕ → List ℕ → List ℕ × List (TelemetrySample D)
  unfolding first_sample extra_samples seq_of next_seq
  publish_round round seqs =
      let seqs' = next_seq seqs (key_index o round) in
      let s = first_sample round (seq_of seqs' (key_index o round)) in
      let (seqs'', extra, last) = extra_samples (repeats o round - 1) 0 round seqs' s in
      if round == o.drop_at
      then (seqs', [])
      else (seqs'', s ∷ (extra ++ (if round == o.duplicate_at then last ∷ [] else [])))

  -- The rounds from `round`, `left` of them: the program's loop for a count below 2 ^ 64 - 1, behind
  -- which its round, a `std::uint64_t`, wraps around (`Loop`).
  unfoldable pub publish_rounds : ℕ → ℕ → List ℕ → List (TelemetrySample D)
  unfolding publish_round
  publish_rounds zero round seqs = []
  publish_rounds (suc left) round seqs =
      let (seqs', samples) = publish_round round seqs in
      samples ++ publish_rounds left (round + 1) seqs'

  -- Every sample that the program publishes.
  unfoldable pub published : List (TelemetrySample D)
  unfolding publish_rounds no_seqs
  published = publish_rounds o.count 1 (no_seqs o.keys)
