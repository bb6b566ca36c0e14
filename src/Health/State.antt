-- ===== src/Health/State.antt =====
-- include/resilientdds/health_monitor.hpp: the states, reasons, policy and records of the health
-- model, with the initial values of the fields.
use resilient_dds_data_plane.Base.{ℕ, ◌%◌, ◌^◌, Bool, true, false, ℤ, pos, Bytes, codes}

pub data HealthState : Type 0 where
  healthy degraded lost : HealthState

pub data HealthReason : Type 0 where
  none no_data stale_data deadline_missed liveliness_lost publisher_unmatched : HealthReason
  qos_incompatible recovering : HealthReason

-- to_string(HealthState)
unfoldable pub state_to_string : HealthState → Bytes
state_to_string healthy = codes "healthy"
state_to_string degraded = codes "degraded"
state_to_string lost = codes "lost"

-- to_string(HealthReason)
unfoldable pub reason_to_string : HealthReason → Bytes
reason_to_string none = codes "none"
reason_to_string no_data = codes "no_data"
reason_to_string stale_data = codes "stale_data"
reason_to_string deadline_missed = codes "deadline_missed"
reason_to_string liveliness_lost = codes "liveliness_lost"
reason_to_string publisher_unmatched = codes "publisher_unmatched"
reason_to_string qos_incompatible = codes "qos_incompatible"
reason_to_string recovering = codes "recovering"

pub record HealthPolicy : Type 0 where
  pub degraded_after_ms : ℤ
  pub lost_after_ms : ℤ
  pub degrade_after_misses : ℕ  -- uint32
  pub recover_after_samples : ℕ  -- uint32

pub record HealthSnapshot : Type 0 where
  pub state : HealthState
  pub reason : HealthReason
  pub last_sample_ns : ℤ
  pub age_ms : ℤ
  pub deadline_misses : ℕ
  pub liveliness_losses : ℕ
  pub incompatible_qos_events : ℕ
  pub writer_matched : Bool

pub record SourceState : Type 0 where
  pub state : HealthState
  pub reason : HealthReason
  pub last_sample_ns : ℤ
  pub deadline_misses : ℕ  -- uint64
  pub liveliness_losses : ℕ  -- uint64
  pub incompatible_qos_events : ℕ  -- uint64
  pub consecutive_misses : ℕ  -- uint32
  pub consecutive_fresh : ℕ  -- uint32
  pub writer_matched : Bool
  pub seen : Bool

-- kNsPerMs
abbrev pub ns_per_ms : ℕ
ns_per_ms = 1_000_000

-- The unsigned counters wrap.
abbrev pub u64 : ℕ → ℕ
u64 n = n % 2 ^ 64

abbrev pub u32 : ℕ → ℕ
u32 n = n % 2 ^ 32

abbrev pub is_healthy : HealthState → Bool
is_healthy healthy = true
is_healthy _ = false

abbrev pub is_lost : HealthState → Bool
is_lost lost = true
is_lost _ = false

-- The value of the enumerator, by which two states are compared.
abbrev pub state_code : HealthState → ℕ
state_code healthy = 0
state_code degraded = 1
state_code lost = 2

-- The initial values of the fields.
abbrev pub new_source : SourceState
new_source = record {
  state = lost;
  reason = no_data;
  last_sample_ns = pos 0;
  deadline_misses = 0;
  liveliness_losses = 0;
  incompatible_qos_events = 0;
  consecutive_misses = 0;
  consecutive_fresh = 0;
  writer_matched = false;
  seen = false;
}

abbrev pub empty_snapshot : HealthSnapshot
empty_snapshot = record {
  state = lost;
  reason = no_data;
  last_sample_ns = pos 0;
  age_ms = pos 0;
  deadline_misses = 0;
  liveliness_losses = 0;
  incompatible_qos_events = 0;
  writer_matched = false;
}
