-- ===== src/Programs/ProbeQos.antt =====
-- The QoS that the probes of apps/ ask for: apps/authority_writer.cpp, apps/authority_reader.cpp,
-- apps/resource_writer.cpp and apps/resource_reader.cpp. The defaults of Fast DDS from which they start
-- are arguments.
use resilient_dds_data_plane.Base.{
  ℕ, ◌*◌, ◌/◌, ◌%◌, ◌^◌, ◌<◌, ◌≡◌, ◌↔◌, ℤ, pos, ◌≤ℤ◌, ◌<ℤ◌, ◌*ℤ◌, ◌+ℤ◌, negsuc, arith,
}
use resilient_dds_data_plane.Transport.Profile.{
  Duration, reliable_reliability_qos, volatile_durability_qos, transient_local_durability_qos,
  keep_last_history_qos, keep_all_history_qos, automatic_liveliness_qos, EndpointQos, to_int32,
}
use resilient_dds_data_plane.Transport.Limits.{duration_ns, FitsLimits}
use resilient_dds_data_plane.Transport.Compatible.{IsCompatible}

pub data OwnershipMode : Type 0 where
  shared exclusive : OwnershipMode

pub data OwnershipKind : Type 0 where
  shared_ownership_qos exclusive_ownership_qos : OwnershipKind

-- An endpoint's policies, with those that `apply_profile` does not set.
pub record ProbeQos : Type 0 where
  pub policies : EndpointQos
  pub ownership : OwnershipKind
  pub ownership_strength : ℕ
  pub allocated_samples : ℤ
  pub extra_samples : ℤ

unfoldable pub ownership_kind : OwnershipMode → OwnershipKind
ownership_kind shared = shared_ownership_qos
ownership_kind exclusive = exclusive_ownership_qos

abbrev pub nanoseconds : ℕ → Duration
nanoseconds n = record { seconds = pos 0; nanosec = n }

unfoldable pub authority_writer_qos : ProbeQos → OwnershipMode → ℕ → ProbeQos
unfolding ownership_kind
authority_writer_qos base mode strength = record base {
  policies = record base.policies {
    reliability = reliable_reliability_qos;
    durability = transient_local_durability_qos;
    history = keep_last_history_qos;
    depth = pos 8;
    deadline_period = nanoseconds 100_000_000;
    liveliness = automatic_liveliness_qos;
    lease_duration = nanoseconds 500_000_000;
    announcement_period = nanoseconds 250_000_000;
  };
  ownership = ownership_kind mode;
  ownership_strength = strength;
}

unfoldable pub authority_reader_qos : ProbeQos → OwnershipMode → ProbeQos
unfolding ownership_kind
authority_reader_qos base mode = record base {
  policies = record base.policies {
    reliability = reliable_reliability_qos;
    durability = transient_local_durability_qos;
    history = keep_last_history_qos;
    depth = pos 8;
    deadline_period = nanoseconds 100_000_000;
    liveliness = automatic_liveliness_qos;
    lease_duration = nanoseconds 500_000_000;
  };
  ownership = ownership_kind mode;
}

-- The parts are unsigned 32-bit.
unfoldable pub duration_ms : ℕ → Duration
unfolding to_int32
duration_ms value = record {
  seconds = to_int32 (value / 1000);
  nanosec = value % 1000 * 1_000_000 % 2 ^ 32;
}

unfoldable pub resource_writer_qos : ProbeQos → ℕ → ℕ → ℕ → ProbeQos
unfolding duration_ms to_int32
resource_writer_qos base history_limit extra_samples max_blocking_ms = record base {
  policies = record base.policies {
    reliability = reliable_reliability_qos;
    max_blocking_time = duration_ms max_blocking_ms;
    durability = volatile_durability_qos;
    history = keep_all_history_qos;
    max_samples = to_int32 history_limit;
    max_instances = pos 1;
    max_samples_per_instance = to_int32 history_limit;
  };
  allocated_samples = to_int32 history_limit;
  extra_samples = to_int32 extra_samples;
}

unfoldable pub resource_reader_qos : ProbeQos → ProbeQos
resource_reader_qos base = record base {
  policies = record base.policies {
    reliability = reliable_reliability_qos;
    durability = volatile_durability_qos;
    history = keep_all_history_qos;
    max_samples = pos 5000;
    max_instances = pos 1;
    max_samples_per_instance = pos 5000;
  };
  allocated_samples = pos 256;
}

same_kind : (m n : OwnershipMode) → (ownership_kind m ≡ ownership_kind n) ↔ (m ≡ n)
unfolding ownership_kind
same_kind m n = ground arith

-- Whatever the defaults and the options, the authority writer's lease is longer than its announcement
-- period, an authority reader never refuses an authority writer for the five policies of
-- `IsCompatible`, and their kinds of ownership agree exactly when both are started in one mode.
pub authority_qos_lem :
    (writer reader : ProbeQos) (m n : OwnershipMode) (strength : ℕ)
    → let w = authority_writer_qos writer m strength in
      let r = authority_reader_qos reader n in
      (duration_ns w.policies.announcement_period <ℤ duration_ns w.policies.lease_duration)
      × IsCompatible w.policies r.policies
      × ((w.ownership ≡ r.ownership) ↔ (m ≡ n))
unfolding authority_writer_qos authority_reader_qos duration_ns ◌*ℤ◌ ◌+ℤ◌
authority_qos_lem writer reader m n strength = ground (arith, same_kind m n)

one_instance : (x : ℤ) → x *ℤ 1 ≤ℤ x
unfolding ◌*ℤ◌
one_instance (pos n) = ground arith
one_instance (negsuc n) = ground arith

blocking_time : (ms : ℕ) → ms < 2 ^ 32 → duration_ns (duration_ms ms) ≡ pos (ms * 1_000_000)
unfolding duration_ns duration_ms to_int32 ◌*ℤ◌ ◌+ℤ◌
blocking_time ms h = ground arith

-- Whatever the options, the resource writer and the resource reader keep to the rule of Fast DDS on
-- resource limits, the writer's blocking time is the number of milliseconds asked for if that is an
-- unsigned 32-bit number, and the reader never refuses the writer if the defaults from which they
-- start are compatible.
pub resource_qos_lem :
    (writer reader : ProbeQos) (history_limit extra_samples max_blocking_ms : ℕ)
    → max_blocking_ms < 2 ^ 32
    → IsCompatible writer.policies reader.policies
    → let w = resource_writer_qos writer history_limit extra_samples max_blocking_ms in
      let r = resource_reader_qos reader in
      FitsLimits w.policies
      × FitsLimits r.policies
      × (duration_ns w.policies.max_blocking_time ≡ pos (max_blocking_ms * 1_000_000))
      × IsCompatible w.policies r.policies
unfolding resource_writer_qos resource_reader_qos
resource_qos_lem writer reader history_limit extra_samples max_blocking_ms h c = (
  one_instance (to_int32 history_limit),
  one_instance (pos 5000),
  blocking_time max_blocking_ms h,
  ground (arith, c),
)
