-- ===== src/Programs/DdsPublisher/Loop.antt =====
-- apps/dds_publisher.cpp: the loop of rounds as it is written, its round a `std::uint64_t`. `published`
-- goes by the number of rounds that are left, which is the same below the greatest count.
use resilient_dds_data_plane.Base.{
  ℕ, zero, suc, ◌+◌, ◌-◌, ◌%◌, ◌^◌, ◌<◌, ◌≡◌, refl, true, false, Option, none, some, List, [], ◌++◌,
  ℤ, arith, leb, if◌then◌else◌,
}
use resilient_dds_data_plane.Telemetry.{TelemetrySample}
use resilient_dds_data_plane.Programs.DdsPublisher.{
  Options, publish_round, publish_rounds, published, no_seqs,
}

module _ {ℓ} {D : Type ℓ} (temperature : ℕ → D) (voltage : D) (o : Options)
    (clock : ℕ → ℕ → ℤ) where
  -- `none` is that the fuel ran out.
  unfoldable pub publish_loop : ℕ → ℕ → List ℕ → Option (List (TelemetrySample D))
  publish_loop zero round seqs = none
  publish_loop (suc fuel) round seqs =
      let (seqs', samples) = publish_round temperature voltage o clock round seqs in
      let rest = publish_loop fuel ((round + 1) % 2 ^ 64) seqs' in
      let whole : Option (List (TelemetrySample D)) = elim rest [
        | none ↦ none
        | some more ↦ some (samples ++ more)
      ] in
      if leb round o.count then whole else some []

  publish_loop_from :
      (fuel left round : ℕ) (seqs : List ℕ)
      → o.count < 2 ^ 64 - 1
      → round + left ≡ o.count + 1
      → left < fuel
      → publish_loop fuel round seqs
        ≡ some (publish_rounds temperature voltage o clock left round seqs)
  unfolding publish_loop publish_rounds
  publish_loop_from zero left round seqs c e f = absurd (omega arith)
  publish_loop_from (suc fuel) zero round seqs c e f =
      let last : leb round o.count ≡ false = ground arith in rw last refl
  publish_loop_from (suc fuel) (suc left) round seqs c e f =
      let (seqs', samples) = publish_round temperature voltage o clock round seqs in
      let m : (round + 1) % 2 ^ 64 ≡ round + 1 = omega arith in
      let more : leb round o.count ≡ true = ground arith in
      let rest = publish_loop_from fuel left (round + 1) seqs' c (omega arith) (omega arith) in
      rw (more, m, rest) refl

  -- Below the greatest count the loop publishes what `published` is; one round of fuel for each round
  -- of the program and one more are enough.
  pub publish_loop_lem :
      (fuel : ℕ)
      → o.count < 2 ^ 64 - 1
      → o.count < fuel
      → publish_loop fuel 1 (no_seqs o.keys) ≡ some (published temperature voltage o clock)
  unfolding published
  publish_loop_lem fuel c f = publish_loop_from fuel o.count 1 (no_seqs o.keys) c (omega arith) f

  -- With the greatest count the test `round <= o.count` never fails: no fuel is enough.
  pub publish_loop_forever :
      (fuel round : ℕ) (seqs : List ℕ)
      → o.count ≡ 2 ^ 64 - 1
      → round < 2 ^ 64
      → publish_loop fuel round seqs ≡ none
  unfolding publish_loop
  publish_loop_forever zero round seqs c h = refl
  publish_loop_forever (suc fuel) round seqs c h =
      let (seqs', samples) = publish_round temperature voltage o clock round seqs in
      let more : leb round o.count ≡ true = ground arith in
      let rest = publish_loop_forever fuel ((round + 1) % 2 ^ 64) seqs' c (omega arith) in
      rw (more, rest) refl
