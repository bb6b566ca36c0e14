-- ===== src/Programs/ResourceWriter.antt =====
-- apps/resource_writer.cpp: a write of the loop, its tallies and the exit code. Of a write the model
-- takes the return code and the time it took on the steady clock. `temperature n` is 40.0 + n.
pub mod Log
pub mod Loop
use resilient_dds_data_plane.Base.{
  ℕ, zero, suc, ℤ, Bytes, Option, none, some, leb, ◌-◌, ◌+◌, ◌%◌, ◌^◌, ◌<◌, max, ◌≡◌, ◌↔◌, refl,
  Bool, true, false, not, ◌&&◌, ◌||◌, List, [], ◌∷◌, arith, ◌==◌, if◌then◌else◌, length, any,
}
use resilient_dds_data_plane.Telemetry.{TelemetrySample, current_schema_version}
use resilient_dds_data_plane.Transport.Publisher.{
  ReturnCode, retcode_ok, retcode_timeout, retcode_out_of_resources, retcode_other, is_ok,
}
use resilient_dds_data_plane.Transport.WriteRules.{is_timeout, is_out_of_resources, is_other}

pub record Tally : Type 0 where
  pub successes : ℕ  -- uint64, as the next three
  pub timeouts : ℕ
  pub out_of_resources : ℕ
  pub errors : ℕ
  pub max_write_us : ℕ
  pub max_timeout_us : ℕ
  pub max_out_of_resources_us : ℕ
  pub seen_pressure : Bool
  pub recovered : Bool

abbrev pub no_writes : Tally
no_writes = record {
  successes = 0;
  timeouts = 0;
  out_of_resources = 0;
  errors = 0;
  max_write_us = 0;
  max_timeout_us = 0;
  max_out_of_resources_us = 0;
  seen_pressure = false;
  recovered = false;
}

abbrev pub up : ℕ → ℕ
up n = (n + 1) % 2 ^ 64

-- What is done with the result of one write.
unfoldable pub tally_write : ReturnCode → ℕ → Tally → Tally
tally_write rc elapsed_us t =
    let timed = record t { max_write_us = max t.max_write_us elapsed_us } in
    elim rc [
      | retcode_ok ↦ record timed {
        successes = up t.successes;
        recovered = if t.seen_pressure && not t.recovered then true else t.recovered;
      }
      | retcode_timeout ↦ record timed {
        timeouts = up t.timeouts;
        seen_pressure = true;
        max_timeout_us = max t.max_timeout_us elapsed_us;
      }
      | retcode_out_of_resources ↦ record timed {
        out_of_resources = up t.out_of_resources;
        seen_pressure = true;
        max_out_of_resources_us = max t.max_out_of_resources_us elapsed_us;
      }
      | retcode_other ↦ record timed { errors = up t.errors }
    ]

-- The results of the writes, in order.
abbrev pub Results : Type 0
Results = List (ReturnCode × ℕ)

unfoldable pub tally_all : Results → Tally → Tally
tally_all [] t = t
tally_all ((rc, us) ∷ ws) t = tally_all ws (tally_write rc us t)

unfoldable pub exit_code : Tally → ℕ
exit_code t = if t.errors == 0 then 0 else 4

module _ {ℓ} {D : Type ℓ} (temperature : ℕ → D) (voltage : D) (source_id : Bytes)
    (now_ns : ℕ → ℤ) where
  -- The sample of a round; `now_ns seq` is the clock's reading for it.
  unfoldable pub resource_sample : ℕ → TelemetrySample D
  resource_sample seq = record {
    source_id = source_id;
    sequence = seq;
    source_timestamp_ns = now_ns seq;
    ingest_timestamp_ns = now_ns seq;
    temperature_c = temperature (seq % 5);
    voltage_v = voltage;
    health_flags = 0;
    schema_version = current_schema_version;
  }

-- How many of the results are of a kind.
abbrev pub count_results : (ReturnCode → Bool) → Results → ℕ
count_results test [] = 0
count_results test ((rc, us) ∷ ws) = (if test rc then 1 else 0) + count_results test ws

-- The longest time of a result of a kind, and `n`.
abbrev pub longest : (ReturnCode → Bool) → ℕ → Results → ℕ
longest test n [] = n
longest test n ((rc, us) ∷ ws) = longest test (if test rc then max n us else n) ws

abbrev pub is_pressure : ReturnCode → Bool
is_pressure rc = is_timeout rc || is_out_of_resources rc

-- Does a write succeed behind one that met pressure?
abbrev pub recovers : Results → Bool
recovers [] = false
recovers ((rc, us) ∷ ws) =
    let later = recovers ws in if is_pressure rc then any (λ w. is_ok w.0) ws else later

recovered_lem :
    (ws : Results) (t : Tally)
    → (tally_all ws t).recovered
      ≡ (t.recovered || (if t.seen_pressure then any (λ w. is_ok w.0) ws else recovers ws))
unfolding tally_all tally_write
recovered_lem [] t = ground arith
recovered_lem ((retcode_ok, us) ∷ ws) t =
    ground (arith, recovered_lem ws (tally_write retcode_ok us t))
recovered_lem ((retcode_timeout, us) ∷ ws) t =
    ground (arith, recovered_lem ws (tally_write retcode_timeout us t))
recovered_lem ((retcode_out_of_resources, us) ∷ ws) t =
    ground (arith, recovered_lem ws (tally_write retcode_out_of_resources us t))
recovered_lem ((retcode_other, us) ∷ ws) t =
    ground (arith, recovered_lem ws (tally_write retcode_other us t))

times_lem :
    (ws : Results) (t : Tally)
    → let r = tally_all ws t in
      (r.max_write_us ≡ longest (λ rc. true) t.max_write_us ws)
      × (r.max_timeout_us ≡ longest is_timeout t.max_timeout_us ws)
      × (r.max_out_of_resources_us ≡ longest is_out_of_resources t.max_out_of_resources_us ws)
unfolding tally_all tally_write
times_lem [] t = (refl, refl, refl)
times_lem ((retcode_ok, us) ∷ ws) t = times_lem ws (tally_write retcode_ok us t)
times_lem ((retcode_timeout, us) ∷ ws) t = times_lem ws (tally_write retcode_timeout us t)
times_lem ((retcode_out_of_resources, us) ∷ ws) t =
    times_lem ws (tally_write retcode_out_of_resources us t)
times_lem ((retcode_other, us) ∷ ws) t = times_lem ws (tally_write retcode_other us t)

counts_lem :
    (ws : Results) (t : Tally)
    → t.successes + t.timeouts + t.out_of_resources + t.errors + length ws < 2 ^ 64
    → let r = tally_all ws t in
      (r.successes ≡ t.successes + count_results is_ok ws)
      × (r.timeouts ≡ t.timeouts + count_results is_timeout ws)
      × (r.out_of_resources ≡ t.out_of_resources + count_results is_out_of_resources ws)
      × (r.errors ≡ t.errors + count_results is_other ws)
unfolding tally_all tally_write
counts_lem [] t h = omega arith
counts_lem ((retcode_ok, us) ∷ ws) t h = ground (arith, counts_lem ws (tally_write retcode_ok us t))
counts_lem ((retcode_timeout, us) ∷ ws) t h =
    ground (arith, counts_lem ws (tally_write retcode_timeout us t))
counts_lem ((retcode_out_of_resources, us) ∷ ws) t h =
    ground (arith, counts_lem ws (tally_write retcode_out_of_resources us t))
counts_lem ((retcode_other, us) ∷ ws) t h =
    ground (arith, counts_lem ws (tally_write retcode_other us t))

count_results_split :
    (ws : Results)
    → count_results is_ok ws
        + count_results is_timeout ws
        + count_results is_out_of_resources ws
        + count_results is_other ws
      ≡ length ws
count_results_split [] = refl
count_results_split ((retcode_ok, us) ∷ ws) = omega (arith, count_results_split ws)
count_results_split ((retcode_timeout, us) ∷ ws) = omega (arith, count_results_split ws)
count_results_split ((retcode_out_of_resources, us) ∷ ws) = omega (arith, count_results_split ws)
count_results_split ((retcode_other, us) ∷ ws) = omega (arith, count_results_split ws)

-- The summary of fewer than 2 ^ 64 writes is right: each write is counted once under its result and
-- the counts add up to the attempts, the three longest times are those of all writes, of the
-- timeouts and of the failed allocations, `recovered` holds exactly when a write succeeded behind
-- one that met pressure, and the exit code is 0 exactly when no write failed in another way.
pub tally_all_lem :
    (ws : Results)
    → length ws < 2 ^ 64
    → let r = tally_all ws no_writes in
      (r.successes ≡ count_results is_ok ws)
      × (r.timeouts ≡ count_results is_timeout ws)
      × (r.out_of_resources ≡ count_results is_out_of_resources ws)
      × (r.errors ≡ count_results is_other ws)
      × (r.successes + r.timeouts + r.out_of_resources + r.errors ≡ length ws)
      × (r.max_write_us ≡ longest (λ rc. true) 0 ws)
      × (r.max_timeout_us ≡ longest is_timeout 0 ws)
      × (r.max_out_of_resources_us ≡ longest is_out_of_resources 0 ws)
      × (r.recovered ≡ recovers ws)
      × ((exit_code r ≡ 0) ↔ (count_results is_other ws ≡ 0))
unfolding exit_code
tally_all_lem ws h = ground (
  arith,
  counts_lem ws no_writes,
  times_lem ws no_writes,
  recovered_lem ws no_writes,
  count_results_split ws,
)
