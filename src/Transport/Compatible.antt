-- ===== src/Transport/Compatible.antt =====
-- One profile on both sides of a topic: `apply_profile` of src/dds_transport.cpp serves the writer and
-- the reader.
use resilient_dds_data_plane.Base.{ℕ, ◌/◌, ◌^◌, ◌≤◌, ◌<◌, ◌≤ℤ◌, ◌<ℤ◌, arith}
use resilient_dds_data_plane.Qos.{QosProfile}
use resilient_dds_data_plane.Transport.Profile.{
  ReliabilityKind, best_effort_reliability_qos, reliable_reliability_qos, DurabilityKind,
  volatile_durability_qos, transient_local_durability_qos, LivelinessKind, automatic_liveliness_qos,
  manual_by_topic_liveliness_qos, EndpointQos, apply_profile,
}
use resilient_dds_data_plane.Transport.Limits.{duration_ns, duration_ns-ms_to_duration}

abbrev reliability_code : ReliabilityKind → ℕ
reliability_code best_effort_reliability_qos = 0
reliability_code reliable_reliability_qos = 1

abbrev durability_code : DurabilityKind → ℕ
durability_code volatile_durability_qos = 0
durability_code transient_local_durability_qos = 1

abbrev liveliness_code : LivelinessKind → ℕ
liveliness_code automatic_liveliness_qos = 0
liveliness_code manual_by_topic_liveliness_qos = 1

-- The request-offered rules of DDS: the writer offers at least what the reader requests.
pub record IsCompatible (offered requested : EndpointQos) : Type 0 where
  pub reliability : reliability_code requested.reliability ≤ reliability_code offered.reliability
  pub durability : durability_code requested.durability ≤ durability_code offered.durability
  pub deadline : duration_ns offered.deadline_period ≤ℤ duration_ns requested.deadline_period
  pub liveliness : liveliness_code requested.liveliness ≤ liveliness_code offered.liveliness
  pub lease : duration_ns offered.lease_duration ≤ℤ duration_ns requested.lease_duration

-- A writer and a reader of one profile never refuse one another, if the defaults from which they
-- start are compatible in deadline and lease, the two policies that a profile may leave alone.
pub apply_profile-IsCompatible :
    (writer reader : EndpointQos) (p : QosProfile)
    → duration_ns writer.deadline_period ≤ℤ duration_ns reader.deadline_period
    → duration_ns writer.lease_duration ≤ℤ duration_ns reader.lease_duration
    → IsCompatible (apply_profile writer p) (apply_profile reader p)
unfolding apply_profile
apply_profile-IsCompatible writer reader p d l = ground arith

-- A lease is announced before it runs out: Fast DDS refuses a writer whose lease is not longer than
-- its announcement period, and every profile with a lease leaves room.
pub announcement_in_time :
    (q : EndpointQos) (p : QosProfile)
    → 0 < p.liveliness_lease_ms
    → p.liveliness_lease_ms < 2 ^ 32
    → let r = apply_profile q p in duration_ns r.announcement_period <ℤ duration_ns r.lease_duration
unfolding apply_profile
announcement_in_time q p h w = ground (
  arith,
  duration_ns-ms_to_duration p.liveliness_lease_ms,
  duration_ns-ms_to_duration (p.liveliness_lease_ms / 2),
)
