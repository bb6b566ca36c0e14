-- ===== src/Transport/Lifecycle.antt =====
-- The life of the entities of Fast DDS: the calls of the factory and of the participant that
-- src/dds_transport.cpp and the programs of apps/ make, and the rules of DDS that they keep to.
use resilient_dds_data_plane.Base.{
  ℕ, ◌+◌, ◌==◌, Bool, false, ◌&&◌, Option, none, some, List, [], ◌∷◌, if◌then◌else◌,
}

-- A call, and of a creation whether it succeeds.
pub data Call : Type 0 where
  create_participant create_topic create_publisher create_subscriber : Bool → Call
  create_datawriter create_datareader : Bool → Call
  delete_contained_entities delete_participant : Call

-- The end of a participant.
abbrev pub tidy_up : List Call
tidy_up = delete_contained_entities ∷ delete_participant ∷ []

-- The participant of the process, and what it contains.
pub record Domain : Type 0 where
  pub participant : Bool
  pub topic : Bool
  pub endpoint : Bool
  pub contained : ℕ

abbrev pub no_domain : Domain
no_domain = record { participant = false; topic = false; endpoint = false; contained = 0 }

-- What a call does, by the rules of DDS: an entity is made by one that is there, a data writer or
-- reader of a topic and of a publisher or subscriber that are there, and a participant goes when it is
-- empty. `none` is a call against the rules.
unfoldable pub call : Domain → Call → Option Domain
call d (create_participant ok) =
    if d.participant then none else some (record d { participant = ok })
call d (create_topic ok) =
    if d.participant
    then some (record d { topic = ok; contained = (if ok then 1 else 0) + d.contained })
    else none
call d (create_publisher ok) =
    if d.participant
    then some (record d { endpoint = ok; contained = (if ok then 1 else 0) + d.contained })
    else none
call d (create_subscriber ok) =
    if d.participant
    then some (record d { endpoint = ok; contained = (if ok then 1 else 0) + d.contained })
    else none
call d (create_datawriter ok) =
    if d.topic && d.endpoint
    then some (record d { contained = (if ok then 1 else 0) + d.contained })
    else none
call d (create_datareader ok) =
    if d.topic && d.endpoint
    then some (record d { contained = (if ok then 1 else 0) + d.contained })
    else none
call d delete_contained_entities =
    if d.participant
    then some (record d { topic = false; endpoint = false; contained = 0 })
    else none
call d delete_participant =
    if d.participant && (d.contained == 0) then some (record d { participant = false }) else none

unfoldable pub call_all : Domain → List Call → Option Domain
unfolding call
call_all d [] = some d
call_all d (c ∷ cs) = elim (call d c) [ none ↦ none | some e ↦ call_all e cs ]
