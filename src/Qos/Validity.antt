-- ===== src/Qos/Validity.antt =====
-- Which profiles `validate` of src/qos_profiles.cpp accepts.
use resilient_dds_data_plane.Base.{◌<◌, ◌≡◌, ◌↔◌, refl, [], arith}
use resilient_dds_data_plane.Qos.{
  QosProfile, reliable, transient_local, manual_by_topic, keep_all, critical_control,
  periodic_telemetry, high_rate_sensor, validate,
}

-- What a profile has to promise: a history of at least one sample, a lease where liveliness is
-- asserted by hand, replay only over reliable delivery, and a ceiling on what a writer retains for
-- a reader that does not acknowledge.
pub record IsSound (p : QosProfile) : Type 0 where
  pub keeps_samples : 0 < p.history_depth
  pub has_lease : p.liveliness ≡ manual_by_topic → 0 < p.liveliness_lease_ms
  pub replays_reliably : p.durability ≡ transient_local → p.reliability ≡ reliable
  pub is_bounded : p.history ≡ keep_all → p.reliability ≡ reliable → 0 < p.max_samples

-- `validate` reports no error of a profile exactly when it is sound.
pub validate_iff : (p : QosProfile) → (validate p ≡ []) ↔ IsSound p
unfolding validate
validate_iff p = ground arith

-- The three named profiles are accepted.
pub presets_accepted :
    (validate critical_control ≡ [])
    × (validate periodic_telemetry ≡ [])
    × (validate high_rate_sensor ≡ [])
unfolding validate critical_control periodic_telemetry high_rate_sensor
presets_accepted = (refl, refl, refl)
