-- ===== src/Transport/Teardown.antt =====
-- src/dds_transport.cpp: the calls of Fast DDS that `start` makes, and the destructors of
-- `TelemetryPublisher` and `TelemetrySubscriber`.
use resilient_dds_data_plane.Base.{
  ◌≡◌, Bool, true, false, not, Option, none, some, List, [], ◌∷◌, ◌++◌, ℤ, Bytes, arith,
  if◌then◌else◌,
}
use resilient_dds_data_plane.Metrics.{MetricsRegistry}
use resilient_dds_data_plane.Qos.{QosProfile, validate}
use resilient_dds_data_plane.Transport.Profile.{apply_profile}
use resilient_dds_data_plane.Transport.Security.{
  TransportMode, DdsSecurityConfig, FileSystem, security_config_ok, participant_qos,
}
use resilient_dds_data_plane.Transport.Start.{
  Vendor, Entities, no_entities, has_errors, start_entities,
}
use resilient_dds_data_plane.Transport.Lifecycle.{
  Call, create_participant, create_topic, create_publisher, create_subscriber, create_datawriter,
  create_datareader, tidy_up, no_domain, call, call_all,
}

-- The class that starts.
pub data Side : Type 0 where
  publishing subscribing : Side

abbrev create_group_call : Side → Bool → Call
create_group_call publishing ok = create_publisher ok
create_group_call subscribing ok = create_subscriber ok

abbrev create_endpoint_call : Side → Bool → Call
create_endpoint_call publishing ok = create_datawriter ok
create_endpoint_call subscribing ok = create_datareader ok

module _ (v : Vendor) where
  -- The calls of `start` below the participant `p`.
  unfoldable pub calls_below : Side → v.Participant → Bytes → QosProfile → List Call
  calls_below side p topic_name profile = elim (v.create_topic p topic_name) [
    | none ↦ create_topic false ∷ []
    | some t ↦ create_topic true ∷ elim (v.create_group p) [
      | none ↦ create_group_call side false ∷ []
      | some g ↦
          create_group_call side true
          ∷ elim (v.create_endpoint g t (apply_profile v.endpoint_default profile)) [
            | none ↦ create_endpoint_call side false ∷ []
            | some e ↦ create_endpoint_call side true ∷ []
          ]
    ]
  ]

  -- The calls of `start`.
  unfoldable pub start_calls :
      Side
      → FileSystem
      → ℤ
      → Bytes
      → QosProfile
      → TransportMode
      → Option DdsSecurityConfig
      → List Call
  unfolding calls_below
  start_calls side fs domain_id topic_name profile mode security =
      if has_errors (validate profile)
      then []
      else if not (security_config_ok fs security)
      then []
      else elim (v.create_participant domain_id
          (participant_qos fs v.participant_default mode security)) [
            | none ↦ create_participant false ∷ []
            | some p ↦ create_participant true ∷ calls_below side p topic_name profile
          ]

  -- The calls of the destructor.
  unfoldable pub destroy_calls : Entities v → List Call
  destroy_calls es = elim es.participant [ none ↦ [] | some p ↦ tidy_up ]

-- An adapter that is started once, and destroyed, leaves nothing behind: however the start fails or
-- succeeds, on either side, every call of `start` and of the destructor keeps to the rules of DDS, and
-- at the end no entity is left.
pub start_calls-destroy_calls {ℓ} :
    {D : Type ℓ} (v : Vendor) (side : Side) (fs : FileSystem) (domain_id : ℤ) (topic_name : Bytes)
    (profile : QosProfile) (mode : TransportMode) (security : Option DdsSecurityConfig)
    (m : MetricsRegistry D)
    → let (ok, es, m') =
        start_entities v fs domain_id topic_name profile mode security (no_entities v) m in
      call_all no_domain
        (start_calls v side fs domain_id topic_name profile mode security ++ destroy_calls v es)
      ≡ some no_domain
unfolding start_calls destroy_calls start_entities call_all call
start_calls-destroy_calls v side fs domain_id topic_name profile mode security m = ground arith
