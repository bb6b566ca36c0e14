-- ===== src/Health/Faults.antt =====
-- Behaviours of src/health_monitor.cpp that its comments and docs do not describe.
use resilient_dds_data_plane.Base.{
  ◌≤◌, ◌≡◌, ◌≢◌, true, false, List, ℤ, pos, ◌-ℤ◌, ◌*ℤ◌, ◌≤ℤ◌, ◌<ℤ◌, Bytes, arith, All, str_eq_refl,
}
use resilient_dds_data_plane.Base.Dict
use resilient_dds_data_plane.Health.State.{
  healthy, degraded, lost, HealthReason, no_data, qos_incompatible, HealthPolicy, SourceState,
  new_source, ns_per_ms,
}
use resilient_dds_data_plane.Health.Rules.{sample, liveliness, incompatible, decide}
use resilient_dds_data_plane.Health.Monitor.{
  HealthMonitor, state_of, new_monitor, snapshot, on_sample, on_incompatible_qos,
  on_liveliness_lost,
}
use resilient_dds_data_plane.Health.Events.{
  Event, sampled, lease_expired, refused, step, apply, run, events_of, apply_all, calls_isolate,
  policy-run, state_of-step, policy-step,
}
use resilient_dds_data_plane.Health.Safety.{snapshot-decide, IsSilent, apply_all_silent}

-- For a source that has been seen, and whose count of fresh samples has reached the number that
-- recovery takes, an incompatible-QoS report leaves that count alone: the next fresh sample ends the
-- degraded state at once, whatever that number is.
pub incompatible_forgotten :
    (h : HealthMonitor) (id : Bytes) (now_ns age_ms : ℤ)
    → (state_of h id).seen ≡ true
    → h.policy.recover_after_samples ≤ (state_of h id).consecutive_fresh
    → age_ms ≤ℤ h.policy.degraded_after_ms
    → let refusing = on_incompatible_qos h id in
      ((state_of refusing id).state ≡ degraded)
      × ((state_of (on_sample refusing id now_ns age_ms) id).state ≡ healthy)
      × ((state_of (on_sample refusing id now_ns age_ms) id).reason ≡ HealthReason.none)
unfolding step apply sample incompatible
incompatible_forgotten h id now_ns age_ms s c f = ground (
  arith,
  state_of-step h id refused id,
  state_of-step (on_incompatible_qos h id) id (sampled now_ns age_ms) id,
  policy-step h (id, refused),
  str_eq_refl id,
)

-- An incompatible-QoS report takes a source that has been sampled, and whose lease has just expired,
-- back from lost to degraded, while its last sample is not yet `lost_after_ms` old.
pub incompatible_revives :
    (h : HealthMonitor) (id : Bytes) (now_ns : ℤ)
    → (state_of h id).seen ≡ true
    → (state_of h id).last_sample_ns ≢ pos 0
    → now_ns -ℤ (state_of h id).last_sample_ns <ℤ h.policy.lost_after_ms *ℤ ns_per_ms
    → let expired = on_liveliness_lost h id in
      ((snapshot expired id now_ns).state ≡ lost)
      × ((snapshot (on_incompatible_qos expired id) id now_ns).state ≡ degraded)
      × ((snapshot (on_incompatible_qos expired id) id now_ns).reason ≡ qos_incompatible)
unfolding step apply liveliness incompatible decide
incompatible_revives h id now_ns s z l = ground (
  arith,
  snapshot-decide (on_liveliness_lost h id) id now_ns,
  snapshot-decide (on_incompatible_qos (on_liveliness_lost h id) id) id now_ns,
  state_of-step h id lease_expired id,
  state_of-step (on_liveliness_lost h id) id refused id,
  policy-step h (id, lease_expired),
  policy-step (on_liveliness_lost h id) (id, refused),
  str_eq_refl id,
)

decide_unseen :
    (p : HealthPolicy) (st : SourceState) (now_ns : ℤ)
    → st.seen ≡ false
    → ((decide p st now_ns).state ≡ lost) × ((decide p st now_ns).reason ≡ no_data)
unfolding decide
decide_unseen p st now_ns s = ground arith

-- Before its first sample a source is reported lost for `no_data`, whatever the callbacks have
-- said: no deadline, liveliness, match or QoS report shows as the reason.
pub unseen_masks_reason :
    (p : HealthPolicy) (id : Bytes) (cs : List (Bytes × Event)) (now_ns : ℤ)
    → All IsSilent (events_of id cs)
    → let report = snapshot (run (new_monitor p) cs) id now_ns in
      (report.state ≡ lost) × (report.reason ≡ no_data)
unfolding new_monitor state_of Dict.at Dict.find
unseen_masks_reason p id cs now_ns s =
    rw
      (
        snapshot-decide (run (new_monitor p) cs) id now_ns,
        calls_isolate (new_monitor p) id cs,
        policy-run (new_monitor p) cs,
      )
      (decide_unseen p (apply_all p (events_of id cs) new_source) now_ns
        ((apply_all_silent p (events_of id cs) new_source s).1))
