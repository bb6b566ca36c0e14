-- ===== src/Programs/Probes.antt =====
-- The `main` functions of apps/authority_writer.cpp, apps/authority_reader.cpp, apps/resource_writer.cpp
-- and apps/resource_reader.cpp: their calls of the DDS factory and of the participant, and their exit
-- codes. What the middleware answers to a creation is an argument; `Outcome.refused` is the entity that
-- the line SETUP_FAILED names.
pub mod Tidy
use resilient_dds_data_plane.Base.{
  ℕ, zero, suc, ◌+◌, ◌%◌, ◌^◌, Bool, true, false, not, ◌&&◌, Option, none, some, List, [], ◌∷◌,
  ◌++◌, ℤ, pos, eqb_ℤ, Bytes, codes, ltb, ◌==◌, if◌then◌else◌,
}
use resilient_dds_data_plane.Transport.Lifecycle.{
  Call, create_participant, create_topic, create_publisher, create_subscriber, create_datawriter,
  create_datareader, tidy_up,
}
use resilient_dds_data_plane.Programs.AuthorityReader
use resilient_dds_data_plane.Programs.AuthorityReader.{Reader}
use resilient_dds_data_plane.Transport.Publisher.{ReturnCode}
use resilient_dds_data_plane.Programs.ResourceWriter.{no_writes, exit_code}
use resilient_dds_data_plane.Programs.ResourceWriter.Loop.{write_rounds}

-- Is the entity created, or is the pointer null?
pub record Answers : Type 0 where
  pub participant : Bool
  pub topic : Bool
  pub endpoint : Bool  -- the publisher or the subscriber
  pub data_endpoint : Bool  -- the data writer or the data reader

pub record Outcome : Type 0 where
  pub calls : List Call
  pub refused : Option Bytes
  pub code : ℕ

-- A writer's `main`: what it does before its data writer is there, and how it ends. `rest` is what it
-- returns after that.
unfoldable pub writer_main : Answers → ℕ → Outcome
writer_main a rest =
    let opened =
      create_participant true ∷ create_topic a.topic ∷ create_publisher a.endpoint ∷ [] in
    if not a.participant
    then record {
      calls = create_participant false ∷ [];
      refused = some (codes "participant");
      code = 2;
    }
    else if not (a.topic && a.endpoint)
    then record {
      calls = opened ++ tidy_up;
      refused = some (if a.topic then codes "publisher" else codes "topic");
      code = 2;
    }
    else if not a.data_endpoint
    then record {
      calls = opened ++ (create_datawriter false ∷ tidy_up);
      refused = some (codes "datawriter");
      code = 2;
    }
    else record {
      calls = opened ++ (create_datawriter true ∷ tidy_up);
      refused = none;
      code = rest;
    }

-- A reader's `main`.
unfoldable pub reader_main : Answers → ℕ → Outcome
reader_main a rest =
    let opened =
      create_participant true ∷ create_topic a.topic ∷ create_subscriber a.endpoint ∷ [] in
    if not a.participant
    then record {
      calls = create_participant false ∷ [];
      refused = some (codes "participant");
      code = 2;
    }
    else if not (a.topic && a.endpoint)
    then record {
      calls = opened ++ tidy_up;
      refused = some (if a.topic then codes "subscriber" else codes "topic");
      code = 2;
    }
    else if not a.data_endpoint
    then record {
      calls = opened ++ (create_datareader false ∷ tidy_up);
      refused = some (codes "datareader");
      code = 2;
    }
    else record {
      calls = opened ++ (create_datareader true ∷ tidy_up);
      refused = none;
      code = rest;
    }

unfoldable pub authority_writer : Answers → Outcome
authority_writer a = writer_main a 0

-- The samples are those the listener has counted at the end.
unfoldable pub authority_reader : Answers → Reader → Outcome
authority_reader a r = reader_main a (if r.samples == 0 then 1 else 0)

unfoldable pub resource_reader : Answers → Outcome
resource_reader a = reader_main a 0

-- The loop that waits for a reader: `loads i` is what load `i` of `matches` yields. The result is the
-- number of loads; `none` is that the fuel ran out.
unfoldable pub await_match : ℕ → (ℕ → ℤ) → ℕ → ℕ → ℕ → Option ℕ
await_match zero loads wait_match_ms waited i = none
await_match (suc fuel) loads wait_match_ms waited i =
    let rest = await_match fuel loads wait_match_ms ((waited + 50) % 2 ^ 32) (i + 1) in
    if ltb waited wait_match_ms
    then if eqb_ℤ (loads i) (pos 0) then rest else some (i + 1)
    else some i

-- What resource_writer returns once it has waited, `n` loads before.
unfoldable pub matched_code : ℕ → (ℕ → ℤ) → ℕ → (ℕ → ReturnCode × ℕ) → ℕ → Option ℕ
matched_code fuel loads count write n =
    let written : Option ℕ = elim (write_rounds fuel count write 1 no_writes) [
      | none ↦ none
      | some t ↦ some (exit_code t)
    ] in
    if eqb_ℤ (loads n) (pos 0) then some 3 else written

-- The loops are reached only behind a data writer. `write seq` is the result of write `seq`; the wait
-- and the writes have `fuel` each.
unfoldable pub resource_writer :
    ℕ → Answers → (ℕ → ℤ) → ℕ → ℕ → (ℕ → ReturnCode × ℕ) → Option Outcome
resource_writer fuel a loads wait_match_ms count write =
    if not (a.participant && (a.topic && (a.endpoint && a.data_endpoint)))
    then some (writer_main a 2)
    else elim (await_match fuel loads wait_match_ms 0 0) [
      | none ↦ none
      | some n ↦ elim (matched_code fuel loads count write n) [
        | none ↦ none
        | some code ↦ some (writer_main a code)
      ]
    ]
