-- ===== src/Transport/Fixtures.antt =====
-- Values for runs of the model: a middleware whose entities are numbers, a publisher, a subscriber and
-- what it takes.
use resilient_dds_data_plane.Base.{
  ℕ, ◌+◌, ◌-◌, ◌*◌, ◌/◌, true, false, some, List, [], ◌∷◌, pos, Bytes, codes, pos_part,
}
use resilient_dds_data_plane.Telemetry.{TelemetrySample}
use resilient_dds_data_plane.Detector.{new_detector}
use resilient_dds_data_plane.Health.State.{HealthPolicy}
use resilient_dds_data_plane.Health.Monitor.{new_monitor}
use resilient_dds_data_plane.Metrics.{new_registry}
use resilient_dds_data_plane.Transport.Profile.{
  Duration, best_effort_reliability_qos, volatile_durability_qos, keep_last_history_qos,
  automatic_liveliness_qos,
}
use resilient_dds_data_plane.Transport.Security.{ParticipantQos}
use resilient_dds_data_plane.Transport.Start.{Vendor}
use resilient_dds_data_plane.Transport.Publisher.{Publisher}
use resilient_dds_data_plane.Transport.Subscriber.{Subscriber, Taken}
use resilient_dds_data_plane.Transport.Latency.{Floats}

abbrev pub nothing : ParticipantQos
nothing = record { use_builtin_transports = true; user_transports = []; properties = [] }

abbrev pub no_time : Duration
no_time = record { seconds = pos 0; nanosec = 0 }

-- A middleware whose entities are numbers.
abbrev pub vendor : Vendor
vendor = record {
  Participant = ℕ;
  Topic = ℕ;
  Group = ℕ;
  Endpoint = ℕ;
  participant_default = nothing;
  endpoint_default = record {
    reliability = best_effort_reliability_qos;
    max_blocking_time = no_time;
    durability = volatile_durability_qos;
    history = keep_last_history_qos;
    depth = pos 1;
    max_samples = pos 5000;
    max_instances = pos 10;
    max_samples_per_instance = pos 400;
    deadline_period = no_time;
    liveliness = automatic_liveliness_qos;
    lease_duration = no_time;
    announcement_period = no_time;
  };
  create_participant = λ domain_id qos. some 1;
  create_topic = λ p name. some 2;
  create_group = λ p. some 3;
  create_endpoint = λ g t qos. some 4;
}

abbrev pub robot : Bytes
robot = codes "robot-1"

abbrev pub reading : ℕ → TelemetrySample ℕ
reading n = record {
  source_id = robot;
  sequence = n;
  source_timestamp_ns = pos (n * 10_000_000);
  ingest_timestamp_ns = pos 0;
  temperature_c = 21;
  voltage_v = 12;
  health_flags = 0;
  schema_version = 1;
}

abbrev pub publisher : Publisher ℕ vendor
publisher = record {
  metrics = new_registry;
  match_count = pos 1;
  total_blocked_us = 0;
  max_blocked_us = 0;
  entities = record { participant = some 1; topic = some 2; group = some 3; endpoint = some 4 };
}

abbrev pub policy : HealthPolicy
policy = record {
  degraded_after_ms = pos 250;
  lost_after_ms = pos 1000;
  degrade_after_misses = 2;
  recover_after_samples = 3;
}

abbrev pub subscriber : Subscriber ℕ vendor
subscriber = record {
  detector =
      new_detector (record {
        max_age_ms = pos 250;
        max_future_skew_ms = pos 100;
        expected_schema_version = 1;
      });
  health = new_monitor policy;
  metrics = new_registry;
  audit = some (record { healthy = true; written = [] });
  latency_us = [];
  source_hint = codes "unknown";
  first_seen = false;
  processing_delay_us = pos 0;
  entities = publisher.entities;
}

-- Sample 1, an instance's end, and sample 4: two samples are missing.
abbrev pub taken : List (Taken ℕ)
taken =
    record { wire = reading 1; valid_data = true; received_ns = pos 11_000_000 }
    ∷ record { wire = reading 2; valid_data = false; received_ns = pos 21_000_000 }
    ∷ record { wire = reading 4; valid_data = true; received_ns = pos 41_000_000 }
    ∷ []

-- Rounded arithmetic on whole numbers, in place of `double`; 99.9 becomes 100.
abbrev pub whole : Floats
whole = record {
  Double = ℕ;
  of_int = pos_part;
  add = λ a b. a + b;
  sub = λ a b. a - b;
  mul = λ a b. a * b;
  div = λ a b. (a + b - 1) / b;
  sqrt = λ a. a;
  ceil = λ a. a;
  p999 = 100;
}
