-- ===== src/Transport/StartRules.antt =====
-- What `start` of src/dds_transport.cpp leaves behind on each path.
use resilient_dds_data_plane.Base.{
  ◌≡◌, ◌≢◌, ◌↔◌, refl, Bool, true, false, not, Option, none, some, List, [], ◌∷◌, ℤ, Bytes, codes,
  arith, if◌then◌else◌,
}
use resilient_dds_data_plane.Metrics.{MetricsRegistry}
use resilient_dds_data_plane.Metrics.Counters.{Update, increment_all}
use resilient_dds_data_plane.Qos.{QosProfile, validate}
use resilient_dds_data_plane.Qos.Validity.{IsSound, validate_iff}
use resilient_dds_data_plane.Transport.Profile.{apply_profile}
use resilient_dds_data_plane.Transport.Security.{
  TransportMode, DdsSecurityConfig, FileSystem, security_config_ok, participant_qos,
}
use resilient_dds_data_plane.Transport.Start.{
  Vendor, Entities, no_entities, is_enabled, has_errors, start_entities,
}

no_errors_iff : (p : QosProfile) → (has_errors (validate p) ≡ false) ↔ IsSound p
no_errors_iff p = ground (arith, nil_iff (validate p), validate_iff p)
  where
    nil_iff : (es : List Bytes) → (has_errors es ≡ false) ↔ (es ≡ [])
    nil_iff [] = ((λ _. refl), (λ _. refl))
    nil_iff (e ∷ es) = ((λ h. cc), (λ h. cc))

-- The increments of a start that succeeds.
abbrev pub started : Option DdsSecurityConfig → List Update
started security =
    (codes "rdtf_adapter_initializations_total", 1)
    ∷ (if is_enabled security
        then (codes "rdtf_secure_participant_initializations_total", 1) ∷ []
        else [])

module _ {ℓ} {D : Type ℓ} (v : Vendor) (fs : FileSystem) (domain_id : ℤ) (topic_name : Bytes)
    (profile : QosProfile) (mode : TransportMode) (security : Option DdsSecurityConfig)
    (m : MetricsRegistry D) where
  abbrev outcome : Bool × Entities v × MetricsRegistry D
  outcome = start_entities v fs domain_id topic_name profile mode security (no_entities v) m

  -- Fast DDS makes every entity, the endpoint with the QoS of the profile.
  abbrev pub Opens : Type 0
  Opens =
      (p : v.Participant) × (t : v.Topic) × (g : v.Group) × (e : v.Endpoint) × (v.create_participant
          domain_id (participant_qos fs v.participant_default mode security)
        ≡ some p)
      × (v.create_topic p topic_name ≡ some t)
      × (v.create_group p ≡ some g)
      × (v.create_endpoint g t (apply_profile v.endpoint_default profile) ≡ some e)

  -- A start succeeds exactly when the profile is sound, the security configuration acceptable, and
  -- Fast DDS makes every entity.
  pub start_iff :
      (outcome.0 ≡ true) ↔ (IsSound profile × (security_config_ok fs security ≡ true) × Opens)
  unfolding start_entities
  start_iff = ground (arith, no_errors_iff profile)

  abbrev failed : List Update
  failed = (codes "rdtf_adapter_init_failures_total", 1) ∷ []

  abbrev insecure : List Update
  insecure = (codes "rdtf_security_config_failures_total", 1) ∷ []

  abbrev has_participant : Bool
  has_participant =
      elim (v.create_participant domain_id
        (participant_qos fs v.participant_default mode security)) [ none ↦ false | some p ↦ true ]

  -- A start that succeeds counts itself once, and once more if it is secured. One that fails counts
  -- a refused profile, a refused security configuration and a missing participant, each once; but a
  -- topic, group or endpoint that Fast DDS refuses leaves every counter as it was.
  pub start_counts :
      outcome.2
      ≡ increment_all
          (if outcome.0
            then started security
            else if has_errors (validate profile)
            then failed
            else if not (security_config_ok fs security)
            then insecure
            else if has_participant
            then []
            else failed)
          m
  unfolding start_entities increment_all
  start_counts = ground arith

  -- A start that succeeds leaves an endpoint.
  pub start_endpoint : outcome.0 ≡ true → outcome.1.endpoint ≢ none
  unfolding start_entities
  start_endpoint h = ground arith
