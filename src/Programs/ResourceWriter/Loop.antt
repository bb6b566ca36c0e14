-- ===== src/Programs/ResourceWriter/Loop.antt =====
-- apps/resource_writer.cpp: the loop of writes up to `o.count`.
use resilient_dds_data_plane.Base.{
  ℕ, zero, suc, ◌+◌, ◌-◌, ◌%◌, ◌^◌, ◌<◌, ◌≡◌, refl, Option, none, some, [], ◌∷◌, arith, leb, ◌==◌,
  if◌then◌else◌, length,
}
use resilient_dds_data_plane.Transport.Publisher.{ReturnCode}
use resilient_dds_data_plane.Transport.WriteRules.{is_other}
use resilient_dds_data_plane.Programs.ResourceWriter.{
  Tally, up, tally_write, tally_all, Results, no_writes, exit_code, count_results, tally_all_lem,
}

-- The loop of writes from `seq`, which is a `std::uint64_t`; `write seq` is the result of that write.
-- `none` is that the fuel ran out.
unfoldable pub write_rounds : ℕ → ℕ → (ℕ → ReturnCode × ℕ) → ℕ → Tally → Option Tally
write_rounds zero count write seq t = none
write_rounds (suc fuel) count write seq t =
    let (rc, us) = write seq in
    let rest = write_rounds fuel count write (up seq) (tally_write rc us t) in
    if leb seq count then rest else some t

-- The results of `n` writes, from `seq` on.
abbrev pub results_from : (ℕ → ReturnCode × ℕ) → ℕ → ℕ → Results
results_from write zero seq = []
results_from write (suc n) seq =
    let (rc, us) = write seq in (rc, us) ∷ results_from write n (seq + 1)

length-results_from :
    (write : ℕ → ReturnCode × ℕ) (n seq : ℕ) → length (results_from write n seq) ≡ n
length-results_from write zero seq = refl
length-results_from write (suc n) seq = omega (arith, length-results_from write n (seq + 1))

-- Below 2 ^ 64 - 1 writes, one round for each and one more are enough fuel.
pub write_rounds_lem :
    (write : ℕ → ReturnCode × ℕ) (count fuel n seq : ℕ) (t : Tally)
    → count < 2 ^ 64 - 1
    → seq + n ≡ count + 1
    → n < fuel
    → write_rounds fuel count write seq t ≡ some (tally_all (results_from write n seq) t)
unfolding write_rounds tally_all
write_rounds_lem write count zero n seq t c e f = absurd (omega arith)
write_rounds_lem write count (suc fuel) zero seq t c e f = ground arith
write_rounds_lem write count (suc fuel) (suc n) seq t c e f =
    let (rc, us) = write seq in
    let m : (seq + 1) % 2 ^ 64 ≡ seq + 1 = omega arith in
    let rest =
      write_rounds_lem write count fuel n (seq + 1) (tally_write rc us t) c (omega arith)
        (omega arith) in
    rw m (ground (arith, rest))

-- The test `seq <= o.count` never fails for the count 2 ^ 64 - 1: no fuel is enough.
pub write_rounds_forever :
    (write : ℕ → ReturnCode × ℕ) (fuel seq : ℕ) (t : Tally)
    → seq < 2 ^ 64
    → write_rounds fuel (2 ^ 64 - 1) write seq t ≡ none
unfolding write_rounds
write_rounds_forever write zero seq t h = refl
write_rounds_forever write (suc fuel) seq t h =
    let (rc, us) = write seq in
    ground (
      arith,
      write_rounds_forever write fuel ((seq + 1) % 2 ^ 64) (tally_write rc us t) (omega arith),
    )

-- The exit code by the results of the writes.
pub exit_code-tally_all :
    (write : ℕ → ReturnCode × ℕ) (count : ℕ)
    → count < 2 ^ 64 - 1
    → let ws = results_from write count 1 in
      exit_code (tally_all ws no_writes) ≡ (if count_results is_other ws == 0 then 0 else 4)
unfolding exit_code
exit_code-tally_all write count h =
    let ws = results_from write count 1 in
    let (s, t, o, e, _, _, _, _, _, _) =
      tally_all_lem ws (omega (arith, length-results_from write count 1)) in
    rw e refl
