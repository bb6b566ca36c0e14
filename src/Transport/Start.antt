-- ===== src/Transport/Start.antt =====
-- src/dds_transport.cpp: `start`, which a publisher and a subscriber share but for the names of the
-- factories. Fast DDS is the parameter `Vendor`; the metrics registry, which the program shares by
-- reference, is an argument and a result.
use resilient_dds_data_plane.Base.{
  Bool, true, false, not, Option, none, some, List, [], ◌∷◌, ℤ, Bytes, codes, if◌then◌else◌,
}
use resilient_dds_data_plane.Metrics.{MetricsRegistry, increment}
use resilient_dds_data_plane.Qos.{QosProfile, validate}
use resilient_dds_data_plane.Transport.Profile.{EndpointQos, apply_profile}
use resilient_dds_data_plane.Transport.Security.{
  TransportMode, DdsSecurityConfig, FileSystem, ParticipantQos, security_config_ok, participant_qos,
}

-- The factories of Fast DDS; `none` is a null pointer. A group is a Publisher or a Subscriber, an
-- endpoint a DataWriter or a DataReader; `endpoint_default` is DATAWRITER_QOS_DEFAULT or
-- DATAREADER_QOS_DEFAULT.
pub record Vendor : Type 1 where
  pub Participant : Type 0
  pub Topic : Type 0
  pub Group : Type 0
  pub Endpoint : Type 0
  pub participant_default : ParticipantQos
  pub endpoint_default : EndpointQos
  pub create_participant : ℤ → ParticipantQos → Option Participant
  pub create_topic : Participant → Bytes → Option Topic
  pub create_group : Participant → Option Group
  pub create_endpoint : Group → Topic → EndpointQos → Option Endpoint

-- The pointers of an `Impl`, null until `start` sets them.
pub record Entities (v : Vendor) : Type 0 where
  pub participant : Option v.Participant
  pub topic : Option v.Topic
  pub group : Option v.Group
  pub endpoint : Option v.Endpoint

abbrev pub no_entities : (v : Vendor) → Entities v
no_entities v = record { participant = none; topic = none; group = none; endpoint = none }

abbrev pub is_enabled : Option DdsSecurityConfig → Bool
is_enabled none = false
is_enabled (some c) = c.enabled

abbrev pub has_errors : List Bytes → Bool
has_errors [] = false
has_errors (e ∷ es) = true

module _ {ℓ} {D : Type ℓ} (v : Vendor) where
  -- The last step of `start`, once the endpoint is there.
  started : Option DdsSecurityConfig → MetricsRegistry D → MetricsRegistry D
  started security m =
      let counted = increment (codes "rdtf_adapter_initializations_total") 1 m in
      if is_enabled security
      then increment (codes "rdtf_secure_participant_initializations_total") 1 counted
      else counted

  -- The entities below the participant `p`, with a return at the first that is refused.
  create_entities :
      v.Participant
      → Bytes
      → QosProfile
      → Option DdsSecurityConfig
      → Entities v
      → MetricsRegistry D
      → Bool × Entities v × MetricsRegistry D
  unfolding started
  create_entities p topic_name profile security es m = elim (v.create_topic p topic_name) [
    | none ↦ (false, record es { topic = none }, m)
    | some t ↦ elim (v.create_group p) [
      | none ↦ (false, record es { topic = some t; group = none }, m)
      | some g ↦ elim (v.create_endpoint g t (apply_profile v.endpoint_default profile)) [
        | none ↦ (false, record es { topic = some t; group = some g; endpoint = none }, m)
        | some e ↦ (
          true,
          record es { topic = some t; group = some g; endpoint = some e },
          started security m,
        )
      ]
    ]
  ]

  -- `start` of a publisher or of a subscriber: does it succeed, and what it leaves behind.
  unfoldable pub start_entities :
      FileSystem
      → ℤ
      → Bytes
      → QosProfile
      → TransportMode
      → Option DdsSecurityConfig
      → Entities v
      → MetricsRegistry D
      → Bool × Entities v × MetricsRegistry D
  unfolding create_entities
  start_entities fs domain_id topic_name profile mode security es m =
      if has_errors (validate profile)
      then (false, es, increment (codes "rdtf_adapter_init_failures_total") 1 m)
      else if not (security_config_ok fs security)
      then (false, es, increment (codes "rdtf_security_config_failures_total") 1 m)
      else elim (v.create_participant domain_id
          (participant_qos fs v.participant_default mode security)) [
            | none ↦ (
              false,
              record es { participant = none },
              increment (codes "rdtf_adapter_init_failures_total") 1 m,
            )
            | some p ↦
                create_entities p topic_name profile security (record es { participant = some p }) m
          ]
