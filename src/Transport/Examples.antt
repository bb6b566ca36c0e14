-- ===== src/Transport/Examples.antt =====
-- A publisher and a subscriber of src/dds_transport.cpp over a middleware that grants every request.
use resilient_dds_data_plane.Base.{
  ℕ, ◌≤◌, ◌≡◌, ◌↔◌, ◌⊎◌, refl, true, false, none, some, [], ◌∷◌, ◌++◌, ℤ, pos, Bytes, codes, arith,
}
use resilient_dds_data_plane.Metrics.{new_registry}
use resilient_dds_data_plane.Metrics.Counters.{increment_all}
use resilient_dds_data_plane.Qos.{QosProfile, periodic_telemetry, validate}
use resilient_dds_data_plane.Qos.Validity.{IsSound}
use resilient_dds_data_plane.Transport.Profile.{
  Duration, EndpointQos, best_effort_reliability_qos, volatile_durability_qos,
  keep_last_history_qos, automatic_liveliness_qos, apply_profile,
}
use resilient_dds_data_plane.Transport.Limits.{FitsLimits, limits_consistent}
use resilient_dds_data_plane.Transport.Security.{
  defaults, udp_only, DdsSecurityConfig, FileSystem, security_config_ok, ParticipantQos,
  participant_qos, security_from_directory,
}
use resilient_dds_data_plane.Transport.SecurityRules.{
  Authenticates, ControlsAccess, Encrypts, participant_secured,
}
use resilient_dds_data_plane.Transport.Start.{Vendor, no_entities, start_entities}
use resilient_dds_data_plane.Transport.Lifecycle.{no_domain, call_all}
use resilient_dds_data_plane.Transport.Teardown.{
  publishing, start_calls, destroy_calls, start_calls-destroy_calls,
}
use resilient_dds_data_plane.Transport.StartRules.{Opens, start_iff, start_counts}

abbrev endless : Duration
endless = record { seconds = pos 2_147_483_647; nanosec = 4_294_967_295 }

abbrev default_qos : EndpointQos
default_qos = record {
  reliability = best_effort_reliability_qos;
  max_blocking_time = record { seconds = pos 0; nanosec = 100_000_000 };
  durability = volatile_durability_qos;
  history = keep_last_history_qos;
  depth = pos 1;
  max_samples = pos 5000;
  max_instances = pos 10;
  max_samples_per_instance = pos 400;
  deadline_period = endless;
  liveliness = automatic_liveliness_qos;
  lease_duration = endless;
  announcement_period = endless;
}

abbrev bounded : QosProfile
bounded = record periodic_telemetry { max_samples = 64; max_instances = 4 }

limits_consistent_example :
    FitsLimits (apply_profile default_qos bounded)
    ↔ ((bounded.max_samples ≡ 0) ⊎ (bounded.max_instances ≤ bounded.max_samples))
unfolding periodic_telemetry
limits_consistent_example =
    limits_consistent default_qos bounded (omega arith) (omega arith) (omega arith) (omega arith)

-- A machine on which every path is a file.
abbrev machine : FileSystem
machine = record { is_regular_file = λ path. true; absolute = λ path. path }

abbrev keys : DdsSecurityConfig
keys = security_from_directory (codes "/keys") (codes "robot") true

abbrev plain_participant : ParticipantQos
plain_participant = record { use_builtin_transports = true; user_transports = []; properties = [] }

participant_secured_example :
    let props = (participant_qos machine plain_participant udp_only (some keys)).properties in
    (Authenticates machine keys props
      × ControlsAccess machine keys props
      × Encrypts machine keys props)
    × ((props ≡ []) ↔ (keys.enabled ≡ false))
    × ((participant_qos machine plain_participant udp_only none).properties ≡ [])
participant_secured_example = participant_secured machine plain_participant udp_only keys refl

-- A middleware whose entities are numbers.
abbrev generous : Vendor
generous = record {
  Participant = ℤ;
  Topic = Bytes;
  Group = ℕ;
  Endpoint = ℕ;
  participant_default = plain_participant;
  endpoint_default = default_qos;
  create_participant = λ domain_id qos. some domain_id;
  create_topic = λ p name. some name;
  create_group = λ p. some 1;
  create_endpoint = λ g t qos. some 2;
}

start_iff_example :
    ((start_entities {D = ℕ} generous machine
        (pos 7)
        (codes "telemetry")
        bounded
        defaults
        none
        (no_entities generous)
        new_registry).0
      ≡ true)
    ↔ (IsSound bounded
        × (security_config_ok machine none ≡ true)
        × Opens {D = ℕ} generous machine
            (pos 7)
            (codes "telemetry")
            bounded
            defaults
            none
            new_registry)
start_iff_example =
    start_iff generous machine (pos 7) (codes "telemetry") bounded defaults none new_registry

start_counts_example :
    (start_entities {D = ℕ} generous machine
      (pos 7)
      (codes "telemetry")
      bounded
      defaults
      none
      (no_entities generous)
      new_registry).2
    ≡ increment_all ((codes "rdtf_adapter_initializations_total", 1) ∷ []) new_registry
unfolding start_entities validate periodic_telemetry security_config_ok
start_counts_example =
    start_counts generous machine (pos 7) (codes "telemetry") bounded defaults none new_registry

-- It grants everything but the endpoint.
abbrev stingy : Vendor
stingy = record generous { create_endpoint = λ g t qos. none }

start_calls-destroy_calls_example :
    call_all no_domain (
      start_calls stingy publishing machine (pos 7) (codes "telemetry") bounded defaults none
      ++ destroy_calls stingy
          (start_entities {D = ℕ} stingy machine
            (pos 7)
            (codes "telemetry")
            bounded
            defaults
            none
            (no_entities stingy)
            new_registry).1)
    ≡ some no_domain
start_calls-destroy_calls_example =
    start_calls-destroy_calls stingy publishing machine (pos 7) (codes "telemetry") bounded defaults
      none new_registry
