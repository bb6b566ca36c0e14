-- ===== src/Qos.antt =====
-- include/resilientdds/qos_profiles.hpp and src/qos_profiles.cpp: the named profiles and
-- `validate`.
pub mod Validity
mod Examples
use resilient_dds_data_plane.Base.{
  ℕ, Bool, true, false, not, ◌&&◌, List, [], ◌∷◌, ◌++◌, Bytes, codes, ◌==◌, if◌then◌else◌,
}

pub data Reliability : Type 0 where
  best_effort reliable : Reliability

pub data Durability : Type 0 where
  volatile_data transient_local : Durability

pub data Liveliness : Type 0 where
  automatic manual_by_topic : Liveliness

pub data History : Type 0 where
  keep_last keep_all : History

-- The numbers are `std::uint32_t`.
pub record QosProfile : Type 0 where
  pub name : Bytes
  pub reliability : Reliability
  pub durability : Durability
  pub liveliness : Liveliness
  pub deadline_ms : ℕ
  pub liveliness_lease_ms : ℕ
  pub history_depth : ℕ
  pub history : History
  pub max_samples : ℕ
  pub max_blocking_ms : ℕ
  pub max_instances : ℕ

unfoldable pub critical_control : QosProfile
critical_control = record {
  name = codes "critical_control";
  reliability = reliable;
  durability = transient_local;
  liveliness = manual_by_topic;
  deadline_ms = 100;
  liveliness_lease_ms = 500;
  history_depth = 8;
  history = keep_last;
  max_samples = 0;
  max_blocking_ms = 100;
  max_instances = 0;
}

unfoldable pub periodic_telemetry : QosProfile
periodic_telemetry = record {
  name = codes "periodic_telemetry";
  reliability = reliable;
  durability = transient_local;
  liveliness = automatic;
  deadline_ms = 250;
  liveliness_lease_ms = 1000;
  history_depth = 32;
  history = keep_last;
  max_samples = 0;
  max_blocking_ms = 100;
  max_instances = 0;
}

unfoldable pub high_rate_sensor : QosProfile
high_rate_sensor = record {
  name = codes "high_rate_sensor";
  reliability = best_effort;
  durability = volatile_data;
  liveliness = automatic;
  deadline_ms = 50;
  liveliness_lease_ms = 250;
  history_depth = 4;
  history = keep_last;
  max_samples = 0;
  max_blocking_ms = 100;
  max_instances = 0;
}

abbrev pub is_reliable : Reliability → Bool
is_reliable reliable = true
is_reliable best_effort = false

abbrev pub is_transient_local : Durability → Bool
is_transient_local transient_local = true
is_transient_local volatile_data = false

abbrev pub is_manual : Liveliness → Bool
is_manual manual_by_topic = true
is_manual automatic = false

abbrev pub is_keep_all : History → Bool
is_keep_all keep_all = true
is_keep_all keep_last = false

abbrev check : Bool → Bytes → List Bytes
check bad message = if bad then message ∷ [] else []

unfoldable pub validate : QosProfile → List Bytes
validate p =
    check (p.history_depth == 0) (codes "history_depth must be > 0")
    ++ check (is_manual p.liveliness && p.liveliness_lease_ms == 0)
        (codes "manual liveliness requires a non-zero lease")
    ++ check (is_transient_local p.durability && not (is_reliable p.reliability)) (
        codes
          "transient-local replay should use reliable delivery for deterministic late-joiner recovery")
    ++ check (is_keep_all p.history && is_reliable p.reliability && p.max_samples == 0) (
        codes
          "keep-all reliable history needs max_samples: an undrained reader grows writer memory without bound")
