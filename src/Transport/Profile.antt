-- ===== src/Transport/Profile.antt =====
-- src/dds_transport.cpp: `ms_to_duration` and `apply_profile`. `EndpointQos` has the policies of a
-- writer's or a reader's QoS that `apply_profile` sets; what it does not set comes from the base.
use resilient_dds_data_plane.Base.{
  ℕ, ◌-◌, ◌*◌, ◌/◌, ◌%◌, ◌^◌, ℤ, pos, negsuc, ◌*ℤ◌, quot, ltb_ℤ, eqb_ℤ, pos_part, ltb, ◌==◌,
  if◌then◌else◌,
}
use resilient_dds_data_plane.Qos.{
  QosProfile, is_reliable, is_transient_local, is_manual, is_keep_all,
}

-- eprosima::fastrtps::Duration_t: an `int32_t` and a `uint32_t`.
pub record Duration : Type 0 where
  pub seconds : ℤ
  pub nanosec : ℕ

pub data ReliabilityKind : Type 0 where
  best_effort_reliability_qos reliable_reliability_qos : ReliabilityKind

pub data DurabilityKind : Type 0 where
  volatile_durability_qos transient_local_durability_qos : DurabilityKind

pub data HistoryKind : Type 0 where
  keep_last_history_qos keep_all_history_qos : HistoryKind

pub data LivelinessKind : Type 0 where
  automatic_liveliness_qos manual_by_topic_liveliness_qos : LivelinessKind

pub record EndpointQos : Type 0 where
  pub reliability : ReliabilityKind
  pub max_blocking_time : Duration
  pub durability : DurabilityKind
  pub history : HistoryKind
  pub depth : ℤ
  pub max_samples : ℤ
  pub max_instances : ℤ
  pub max_samples_per_instance : ℤ
  pub deadline_period : Duration
  pub liveliness : LivelinessKind
  pub lease_duration : Duration
  pub announcement_period : Duration

-- `static_cast<std::int32_t>` of a `std::uint32_t`.
unfoldable pub to_int32 : ℕ → ℤ
to_int32 n = if ltb n (2 ^ 31) then pos n else negsuc (2 ^ 32 - n - 1)

unfoldable pub ms_to_duration : ℕ → Duration
unfolding to_int32
ms_to_duration ms = record {
  seconds = to_int32 (ms / 1000);
  nanosec = ms % 1000 * 1_000_000 % 2 ^ 32;
}

-- `instances` of `apply_profile`.
abbrev pub wanted_instances : QosProfile → ℤ
wanted_instances p = if ltb 0 p.max_instances then to_int32 p.max_instances else pos 0

-- The limits for a number of instances; a product of two `int32_t` that overflows is undefined.
unfoldable pub limit_instances : QosProfile → EndpointQos → EndpointQos
unfolding to_int32 ◌*ℤ◌
limit_instances p q =
    let instances = wanted_instances p in
    let per_instance = to_int32 p.history_depth in
    let set : EndpointQos = record q { max_instances = instances } in
    if ltb_ℤ (pos 0) instances
    then if p.max_samples == 0
      then record set {
        max_samples_per_instance = per_instance;
        max_samples = per_instance *ℤ pos_part instances;
      }
      else set
    else q

-- The limits for a number of samples.
unfoldable pub limit_samples : QosProfile → EndpointQos → EndpointQos
unfolding to_int32 quot
limit_samples p q =
    let instances = wanted_instances p in
    let n : ℤ = if ltb_ℤ (pos 0) instances then instances else pos 1 in
    let per_instance = quot (to_int32 p.max_samples) (pos_part n) in
    if ltb 0 p.max_samples
    then record q {
      max_samples = to_int32 p.max_samples;
      max_instances = if eqb_ℤ instances (pos 0) then pos 1 else q.max_instances;
      max_samples_per_instance = if ltb_ℤ (pos 0) per_instance then per_instance else pos 1;
    }
    else q

unfoldable pub apply_profile : EndpointQos → QosProfile → EndpointQos
unfolding ms_to_duration limit_instances limit_samples
apply_profile qos p =
    let kinds : EndpointQos = record qos {
      reliability =
          if is_reliable p.reliability
          then reliable_reliability_qos
          else best_effort_reliability_qos;
      max_blocking_time = ms_to_duration p.max_blocking_ms;
      durability =
          if is_transient_local p.durability
          then transient_local_durability_qos
          else volatile_durability_qos;
      history = if is_keep_all p.history then keep_all_history_qos else keep_last_history_qos;
      depth = to_int32 p.history_depth;
    } in
    let limited = limit_samples p (limit_instances p kinds) in
    let lease = ltb 0 p.liveliness_lease_ms in
    record limited {
      deadline_period =
          if ltb 0 p.deadline_ms then ms_to_duration p.deadline_ms else limited.deadline_period;
      liveliness =
          if is_manual p.liveliness
          then manual_by_topic_liveliness_qos
          else automatic_liveliness_qos;
      lease_duration =
          if lease then ms_to_duration p.liveliness_lease_ms else limited.lease_duration;
      announcement_period =
          if lease then ms_to_duration (p.liveliness_lease_ms / 2) else limited.announcement_period;
    }
