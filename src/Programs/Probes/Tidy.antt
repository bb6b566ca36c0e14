-- ===== src/Programs/Probes/Tidy.antt =====
-- What the probes of apps/ leave behind, and when the writer's wait ends.
use resilient_dds_data_plane.Base.{
  ℕ, zero, suc, ◌+◌, ◌*◌, ◌-◌, ◌/◌, ◌%◌, ◌^◌, ◌<◌, ◌≤◌, ◌≡◌, refl, inl, inr, Bool, true, false,
  ◌&&◌, none, some, ℤ, pos, eqb_ℤ, arith, ◌==◌, if◌then◌else◌, Bool-cases,
}
use resilient_dds_data_plane.Transport.Lifecycle.{no_domain, call, call_all}
use resilient_dds_data_plane.Programs.AuthorityReader.{Reader}
use resilient_dds_data_plane.Transport.Publisher.{ReturnCode}
use resilient_dds_data_plane.Transport.WriteRules.{is_other}
use resilient_dds_data_plane.Programs.ResourceWriter.{no_writes, count_results}
use resilient_dds_data_plane.Programs.ResourceWriter.Loop.{
  results_from, write_rounds_lem, exit_code-tally_all,
}
use resilient_dds_data_plane.Programs.Probes.{
  Answers, Outcome, writer_main, reader_main, authority_writer, authority_reader, resource_reader,
  await_match, matched_code, resource_writer,
}

-- Every call keeps to the rules, and nothing is left at the end.
abbrev pub LeavesNothing : Outcome → Type 0
LeavesNothing o = call_all no_domain o.calls ≡ some no_domain

abbrev pub all_created : Answers → Bool
all_created a = a.participant && (a.topic && (a.endpoint && a.data_endpoint))

module _ (rest : ℕ) where
  writer_cases :
      (p t e d : Bool)
      → let a : Answers = record { participant = p; topic = t; endpoint = e; data_endpoint = d } in
        LeavesNothing (writer_main a rest)
        × ((writer_main a rest).code ≡ (if all_created a then rest else 2))
  unfolding writer_main call_all call
  writer_cases true true true true = (refl, refl)
  writer_cases true true true false = (refl, refl)
  writer_cases true true false d = (refl, refl)
  writer_cases true false true d = (refl, refl)
  writer_cases true false false d = (refl, refl)
  writer_cases false t e d = (refl, refl)

  reader_cases :
      (p t e d : Bool)
      → let a : Answers = record { participant = p; topic = t; endpoint = e; data_endpoint = d } in
        LeavesNothing (reader_main a rest)
        × ((reader_main a rest).code ≡ (if all_created a then rest else 2))
  unfolding reader_main call_all call
  reader_cases true true true true = (refl, refl)
  reader_cases true true true false = (refl, refl)
  reader_cases true true false d = (refl, refl)
  reader_cases true false true d = (refl, refl)
  reader_cases true false false d = (refl, refl)
  reader_cases false t e d = (refl, refl)

-- The number of loads after which the wait ends: that of the first reader seen, or of `n` loads.
abbrev pub first_match : (ℕ → ℤ) → ℕ → ℕ → ℕ
first_match loads zero i = i
first_match loads (suc n) i =
    let later = first_match loads n (i + 1) in if eqb_ℤ (loads i) (pos 0) then later else i + 1

-- The rounds of 50 ms that the limit allows.
abbrev pub wait_rounds : ℕ → ℕ
wait_rounds wait_match_ms = (wait_match_ms + 49) / 50

await_match_from :
    (loads : ℕ → ℤ) (wait_match_ms n i fuel : ℕ) (waited : ℕ)
    → wait_match_ms ≤ 2 ^ 32 - 50
    → waited + 50 * n < wait_match_ms + 50
    → wait_match_ms ≤ waited + 50 * n
    → n < fuel
    → await_match fuel loads wait_match_ms waited i ≡ some (first_match loads n i)
unfolding await_match
await_match_from loads wait_match_ms n i zero waited w h k f = absurd (omega arith)
await_match_from loads wait_match_ms zero i (suc fuel) waited w h k f = ground arith
await_match_from loads wait_match_ms (suc n) i (suc fuel) waited w h k f =
    let m : (waited + 50) % 2 ^ 32 ≡ waited + 50 = omega arith in
    let rest =
      await_match_from loads wait_match_ms n (i + 1) fuel (waited + 50) w (omega arith)
        (omega arith) (omega arith) in
    rw m (ground (arith, rest))

-- The three probes that do not wait for a match keep to the rules of DDS on every path and leave
-- nothing behind: whatever the middleware refuses to create, no entity is made or deleted out of
-- order, and the participant, once made, is emptied and deleted. They return 2 exactly when an
-- entity is refused, and if none is, both the authority writer and the resource reader return 0 and
-- the authority reader 1 or 0, as it has seen no samples or some.
pub probes_leave_nothing :
    (a : Answers) (r : Reader)
    → LeavesNothing (authority_writer a)
      × LeavesNothing (authority_reader a r)
      × LeavesNothing (resource_reader a)
      × ((authority_writer a).code ≡ (if all_created a then 0 else 2))
      × ((authority_reader a r).code
          ≡ (if all_created a then (if r.samples == 0 then 1 else 0) else 2))
      × ((resource_reader a).code ≡ (if all_created a then 0 else 2))
unfolding authority_writer authority_reader resource_reader
probes_leave_nothing a r =
    let aw = writer_cases 0 a.participant a.topic a.endpoint a.data_endpoint in
    let ar =
      reader_cases (if r.samples == 0 then 1 else 0) a.participant a.topic a.endpoint
        a.data_endpoint in
    let rr = reader_cases 0 a.participant a.topic a.endpoint a.data_endpoint in
    (aw.0, ar.0, rr.0, aw.1, ar.1, rr.1)

module _ (fuel : ℕ) (loads : ℕ → ℤ) (count : ℕ) (write : ℕ → ReturnCode × ℕ) (n : ℕ) where
  matched_code_lem :
      count < 2 ^ 64 - 1
      → count < fuel
      → matched_code fuel loads count write n
        ≡ some (
            if eqb_ℤ (loads n) (pos 0)
            then 3
            else (if count_results is_other (results_from write count 1) == 0 then 0 else 4))
  unfolding matched_code
  matched_code_lem c f =
      let all = write_rounds_lem write count fuel count 1 no_writes c (omega arith) f in
      rw all (ground (arith, exit_code-tally_all write count c))

-- With a limit of at most 2 ^ 32 - 50 ms and fewer than 2 ^ 64 - 1 writes the resource writer ends:
-- one load of the match count for each 50 ms of the limit and one more, and one round for each write
-- and one more, are enough fuel. Then it has kept to the rules of DDS and left nothing behind, on
-- every path. It returns 2 if an entity is refused. Otherwise it waits for the first load that sees a
-- reader, or for the last: it returns 3 if the next load sees none, and else 0 if none of its writes,
-- numbered from 1 to the count, fails but by a timeout or for want of resources, and 4 if one does.
pub resource_writer_ends :
    (fuel : ℕ) (a : Answers) (loads : ℕ → ℤ) (wait_match_ms count : ℕ) (write : ℕ → ReturnCode × ℕ)
    → wait_match_ms ≤ 2 ^ 32 - 50
    → wait_rounds wait_match_ms < fuel
    → count < 2 ^ 64 - 1
    → count < fuel
    → (o : Outcome) × (resource_writer fuel a loads wait_match_ms count write ≡ some o)
      × LeavesNothing o
      × (o.code ≡ (
          if all_created a
          then (if eqb_ℤ (loads (first_match loads (wait_rounds wait_match_ms) 0)) (pos 0)
              then 3
              else (if count_results is_other (results_from write count 1) == 0 then 0 else 4))
          else 2))
unfolding resource_writer
resource_writer_ends fuel a loads wait_match_ms count write w f c g =
    let n = first_match loads (wait_rounds wait_match_ms) 0 in
    let code : ℕ =
      if eqb_ℤ (loads n) (pos 0)
      then 3
      else (if count_results is_other (results_from write count 1) == 0 then 0 else 4) in
    let waits =
      await_match_from loads wait_match_ms (wait_rounds wait_match_ms) 0 fuel 0 w (omega arith)
        (omega arith) f in
    let returns = matched_code_lem fuel loads count write n c g in
    let (x, y) = writer_cases code a.participant a.topic a.endpoint a.data_endpoint in
    let (u, z) = writer_cases 2 a.participant a.topic a.endpoint a.data_endpoint in
    elim (Bool-cases (all_created a)) [
      | inl h ↦ (writer_main a code, rw (h, waits, returns) refl, x, y)
      | inr h ↦ (writer_main a 2, rw h refl, u, ground (arith, z))
    ]

even_wait :
    (fuel : ℕ) (loads : ℕ → ℤ) (waited i : ℕ)
    → ((j : ℕ) → loads j ≡ pos 0)
    → waited % 2 ≡ 0
    → waited < 2 ^ 32
    → await_match fuel loads (2 ^ 32 - 1) waited i ≡ none
unfolding await_match
even_wait zero loads waited i h e l = refl
even_wait (suc fuel) loads waited i h e l = ground (
  arith,
  h i,
  even_wait fuel loads ((waited + 50) % 2 ^ 32) (i + 1) h (omega arith) (omega arith),
)

-- The counter of the wait is a `std::uint32_t`, which wraps around: with the limit of 2 ^ 32 - 1 ms
-- and no reader the wait never ends, whatever the fuel.
pub await_match_forever :
    (fuel : ℕ) (loads : ℕ → ℤ)
    → ((i : ℕ) → loads i ≡ pos 0)
    → await_match fuel loads (2 ^ 32 - 1) 0 0 ≡ none
await_match_forever fuel loads h = even_wait fuel loads 0 0 h refl (omega arith)
