-- ===== src/Programs/ResourceWriter/Log.antt =====
-- The lines that the loop of apps/resource_writer.cpp prints. Of a line the model has its kind, the
-- number of the write and the time it took; the clock's reading and the number of an error's return
-- code, which comes from the middleware, are left out.
use resilient_dds_data_plane.Base.{
  ℕ, ◌+◌, ◌%◌, ◌^◌, ◌<◌, ◌≡◌, ◌↔◌, true, refl, sym, ◌∙◌, Bool, not, ◌&&◌, ◌||◌, List, [], ◌∷◌, ◌++◌,
  arith, if◌then◌else◌, length, any,
}
use resilient_dds_data_plane.Transport.Publisher.{
  ReturnCode, retcode_ok, retcode_timeout, retcode_out_of_resources, retcode_other, is_ok,
}
use resilient_dds_data_plane.Transport.WriteRules.{is_timeout, is_out_of_resources, is_other}
use resilient_dds_data_plane.Programs.ResourceWriter.{
  Tally, no_writes, tally_write, tally_all, Results, count_results, longest, exit_code, recovers,
  tally_all_lem,
}

pub data Line : Type 0 where
  write_recovered write_timeout write_out_of_resources write_error : ℕ → ℕ → Line

-- The line for write `seq`, if there is one; `t` are the tallies before it.
unfoldable pub line_of : ReturnCode → ℕ → ℕ → Tally → List Line
line_of retcode_ok seq elapsed_us t =
    if t.seen_pressure && not t.recovered then write_recovered seq elapsed_us ∷ [] else []
line_of retcode_timeout seq elapsed_us t = write_timeout seq elapsed_us ∷ []
line_of retcode_out_of_resources seq elapsed_us t = write_out_of_resources seq elapsed_us ∷ []
line_of retcode_other seq elapsed_us t = write_error seq elapsed_us ∷ []

-- The lines of the loop, from write `seq` on.
unfoldable pub log_all : ℕ → Results → Tally → List Line
unfolding line_of tally_write
log_all seq [] t = []
log_all seq ((rc, us) ∷ ws) t =
    line_of rc seq us t ++ log_all ((seq + 1) % 2 ^ 64) ws (tally_write rc us t)

-- The writes of a kind, with their numbers from `seq` on and their times.
abbrev pub numbered : (ReturnCode → Bool) → ℕ → Results → List (ℕ × ℕ)
numbered test seq [] = []
numbered test seq ((rc, us) ∷ ws) =
    let later = numbered test (seq + 1) ws in if test rc then (seq, us) ∷ later else later

-- The first write that succeeds.
abbrev pub first_success : ℕ → Results → List (ℕ × ℕ)
first_success seq [] = []
first_success seq ((rc, us) ∷ ws) =
    let later = first_success (seq + 1) ws in if is_ok rc then (seq, us) ∷ [] else later

-- The first write that succeeds behind one that met pressure.
abbrev pub first_recovery : ℕ → Results → List (ℕ × ℕ)
first_recovery seq [] = []
first_recovery seq ((rc, us) ∷ ws) =
    let later = first_recovery (seq + 1) ws in
    let next = first_success (seq + 1) ws in
    if is_timeout rc || is_out_of_resources rc then next else later

-- What the lines of each kind say.
abbrev pub recoveries_in : List Line → List (ℕ × ℕ)
recoveries_in [] = []
recoveries_in (write_recovered seq us ∷ ls) = (seq, us) ∷ recoveries_in ls
recoveries_in (write_timeout seq us ∷ ls) = recoveries_in ls
recoveries_in (write_out_of_resources seq us ∷ ls) = recoveries_in ls
recoveries_in (write_error seq us ∷ ls) = recoveries_in ls

abbrev pub timeouts_in : List Line → List (ℕ × ℕ)
timeouts_in [] = []
timeouts_in (write_recovered seq us ∷ ls) = timeouts_in ls
timeouts_in (write_timeout seq us ∷ ls) = (seq, us) ∷ timeouts_in ls
timeouts_in (write_out_of_resources seq us ∷ ls) = timeouts_in ls
timeouts_in (write_error seq us ∷ ls) = timeouts_in ls

abbrev pub refusals_in : List Line → List (ℕ × ℕ)
refusals_in [] = []
refusals_in (write_recovered seq us ∷ ls) = refusals_in ls
refusals_in (write_timeout seq us ∷ ls) = refusals_in ls
refusals_in (write_out_of_resources seq us ∷ ls) = (seq, us) ∷ refusals_in ls
refusals_in (write_error seq us ∷ ls) = refusals_in ls

abbrev pub errors_in : List Line → List (ℕ × ℕ)
errors_in [] = []
errors_in (write_recovered seq us ∷ ls) = errors_in ls
errors_in (write_timeout seq us ∷ ls) = errors_in ls
errors_in (write_out_of_resources seq us ∷ ls) = errors_in ls
errors_in (write_error seq us ∷ ls) = (seq, us) ∷ errors_in ls

log_all_from :
    (ws : Results) (seq : ℕ) (t : Tally)
    → seq + length ws < 2 ^ 64
    → let ls = log_all seq ws t in
      (timeouts_in ls ≡ numbered is_timeout seq ws)
      × (refusals_in ls ≡ numbered is_out_of_resources seq ws)
      × (errors_in ls ≡ numbered is_other seq ws)
      × (recoveries_in ls ≡ (
          if t.recovered
          then []
          else if t.seen_pressure
          then first_success seq ws
          else first_recovery seq ws))
unfolding log_all line_of tally_write
log_all_from [] seq t h = ground arith
log_all_from ((retcode_ok, us) ∷ ws) seq t h =
    ground (arith, log_all_from ws (seq + 1) (tally_write retcode_ok us t))
log_all_from ((retcode_timeout, us) ∷ ws) seq t h =
    ground (arith, log_all_from ws (seq + 1) (tally_write retcode_timeout us t))
log_all_from ((retcode_out_of_resources, us) ∷ ws) seq t h =
    ground (arith, log_all_from ws (seq + 1) (tally_write retcode_out_of_resources us t))
log_all_from ((retcode_other, us) ∷ ws) seq t h =
    ground (arith, log_all_from ws (seq + 1) (tally_write retcode_other us t))

length-numbered :
    (test : ReturnCode → Bool) (seq : ℕ) (ws : Results)
    → length (numbered test seq ws) ≡ count_results test ws
length-numbered test seq [] = refl
length-numbered test seq ((rc, us) ∷ ws) = ground (arith, length-numbered test (seq + 1) ws)

length-first_success :
    (seq : ℕ) (ws : Results)
    → length (first_success seq ws) ≡ (if any (λ w. is_ok w.0) ws then 1 else 0)
length-first_success seq [] = refl
length-first_success seq ((rc, us) ∷ ws) = ground (arith, length-first_success (seq + 1) ws)

length-first_recovery :
    (seq : ℕ) (ws : Results) → length (first_recovery seq ws) ≡ (if recovers ws then 1 else 0)
length-first_recovery seq [] = refl
length-first_recovery seq ((rc, us) ∷ ws) =
    ground (arith, length-first_recovery (seq + 1) ws, length-first_success (seq + 1) ws)

-- The lines tell of each write what it was: of fewer than 2 ^ 64 - 1 writes, counted from 1, the lines
-- for timeouts, for failed allocations and for other errors name exactly the writes that ended so,
-- in order and with their times, and a line of recovery names the first write that succeeded behind
-- one that met pressure, if there is one. The summary agrees with the lines and with the writes: its
-- four counts are those of the results and add up to the attempts, `recovered` holds exactly when
-- there is a line of recovery, the three longest times are those of all writes, of the timeouts and
-- of the failed allocations, and the exit code is 0 exactly when there is no line for another error.
pub log_agrees :
    (ws : Results)
    → 1 + length ws < 2 ^ 64
    → let ls = log_all 1 ws no_writes in
      let r = tally_all ws no_writes in
      (timeouts_in ls ≡ numbered is_timeout 1 ws)
      × (refusals_in ls ≡ numbered is_out_of_resources 1 ws)
      × (errors_in ls ≡ numbered is_other 1 ws)
      × (recoveries_in ls ≡ first_recovery 1 ws)
      × (r.timeouts ≡ length (timeouts_in ls))
      × (r.out_of_resources ≡ length (refusals_in ls))
      × (r.errors ≡ length (errors_in ls))
      × ((if r.recovered then 1 else 0) ≡ length (recoveries_in ls))
      × (r.successes ≡ count_results is_ok ws)
      × (r.successes + r.timeouts + r.out_of_resources + r.errors ≡ length ws)
      × (r.max_write_us ≡ longest (λ rc. true) 0 ws)
      × (r.max_timeout_us ≡ longest is_timeout 0 ws)
      × (r.max_out_of_resources_us ≡ longest is_out_of_resources 0 ws)
      × ((exit_code r ≡ 0) ↔ (length (errors_in ls) ≡ 0))
log_agrees ws h =
    let (a, b, c, d) = log_all_from ws 1 no_writes h in
    let (s, t, o, e, sum, x, y, z, q, code) = tally_all_lem ws (omega arith) in
    let other = length-numbered is_other 1 ws in
    (
      a,
      b,
      c,
      d,
      rw a (t ∙ sym (length-numbered is_timeout 1 ws)),
      rw b (o ∙ sym (length-numbered is_out_of_resources 1 ws)),
      rw c (e ∙ sym other),
      rw (d, q) (sym (length-first_recovery 1 ws)),
      s,
      sum,
      x,
      y,
      z,
      rw (c, other) code,
    )
