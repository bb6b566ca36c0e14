-- ===== src/Programs/Examples.antt =====
-- Runs of the programs of apps/.
use resilient_dds_data_plane.Base.{
  ◌+◌, ◌≡◌, ◌↔◌, refl, true, false, none, List, [], ◌∷◌, Bytes, codes, arith, str_eq, length,
  if◌then◌else◌,
}
use resilient_dds_data_plane.Base.Dict
use resilient_dds_data_plane.Transport.Publisher.{
  retcode_ok, retcode_timeout, retcode_out_of_resources,
}
use resilient_dds_data_plane.Programs.ResourceWriter.{Results, no_writes, tally_all, exit_code}
use resilient_dds_data_plane.Programs.ResourceWriter.Log.{
  log_all, timeouts_in, refusals_in, errors_in, recoveries_in, log_agrees,
}
use resilient_dds_data_plane.Programs.AuthorityReader.{
  Seen, handle_hex, new_reader, on_data_available, writers_of, handovers, last_owner, lines_of,
  on_data_available_owners,
}

-- A timeout, and a success behind it.
abbrev results : Results
results =
    (retcode_ok, 30)
    ∷ (retcode_timeout, 50_000)
    ∷ (retcode_out_of_resources, 9)
    ∷ (retcode_ok, 40)
    ∷ []

log_agrees_example :
    let ls = log_all 1 results no_writes in
    let r = tally_all results no_writes in
    (timeouts_in ls ≡ (2, 50_000) ∷ [])
    × (refusals_in ls ≡ (3, 9) ∷ [])
    × (errors_in ls ≡ [])
    × (recoveries_in ls ≡ (4, 40) ∷ [])
    × (r.timeouts ≡ length (timeouts_in ls))
    × (r.out_of_resources ≡ length (refusals_in ls))
    × (r.errors ≡ length (errors_in ls))
    × ((if r.recovered then 1 else 0) ≡ length (recoveries_in ls))
    × (r.successes ≡ 2)
    × (r.successes + r.timeouts + r.out_of_resources + r.errors ≡ 4)
    × (r.max_write_us ≡ 50_000)
    × (r.max_timeout_us ≡ 50_000)
    × (r.max_out_of_resources_us ≡ 9)
    × ((exit_code r ≡ 0) ↔ (length (errors_in ls) ≡ 0))
log_agrees_example = log_agrees results (omega arith)

abbrev radar : Bytes
radar = codes "radar"

-- Two writers take turns on the radar, with another source and an empty sample in between.
abbrev takeover : List Seen
takeover =
    record { source = radar; publication_handle = 1 ∷ []; valid_data = true }
    ∷ record { source = codes "sonar"; publication_handle = 9 ∷ []; valid_data = true }
    ∷ record { source = radar; publication_handle = 1 ∷ []; valid_data = true }
    ∷ record { source = radar; publication_handle = 7 ∷ []; valid_data = false }
    ∷ record { source = radar; publication_handle = 171 ∷ []; valid_data = true }
    ∷ []

on_data_available_owners_example :
    let q = on_data_available takeover new_reader in
    (Dict.find radar q.visible_owner ≡ last_owner none (writers_of radar takeover))
    × (lines_of radar q.log ≡ handovers radar none (writers_of radar takeover))
on_data_available_owners_example = on_data_available_owners radar takeover

takeover_test : writers_of radar takeover ≡ codes "01" ∷ codes "01" ∷ codes "ab" ∷ []
unfolding str_eq handle_hex
takeover_test = refl
