-- ===== src/Health/Examples.antt =====
-- Lives of a source under src/health_monitor.cpp.
use resilient_dds_data_plane.Base.{
  ℕ, ◌*◌, ◌≤◌, ◌≡◌, ◌≢◌, ◌↔◌, refl, true, List, [], ◌∷◌, ℤ, pos, ◌-ℤ◌, ◌*ℤ◌, ◌<ℤ◌, Bytes, codes,
  arith, length, str_eq,
}
use resilient_dds_data_plane.Base.Dict
use resilient_dds_data_plane.Health.State.{
  healthy, degraded, lost, HealthReason, no_data, qos_incompatible, HealthPolicy, ns_per_ms,
  state_code,
}
use resilient_dds_data_plane.Health.Rules.{sample, decide}
use resilient_dds_data_plane.Health.Monitor.{
  HealthMonitor, new_monitor, state_of, change, on_sample, on_liveliness_lost, on_incompatible_qos,
  snapshot,
}
use resilient_dds_data_plane.Health.Events.{
  Event, sampled, missed, lease_expired, refused, match_changed, polled, step, run, events_of,
}
use resilient_dds_data_plane.Health.Invariant.{IsConsistent, run-IsConsistent}
use resilient_dds_data_plane.Health.Safety.{snapshot-healthy, silence_is_lost}
use resilient_dds_data_plane.Health.Recovery.{only_fresh_heals, recovery_takes, bad_news_persists}
use resilient_dds_data_plane.Health.Faults.{
  incompatible_forgotten, incompatible_revives, unseen_masks_reason,
}

abbrev policy : HealthPolicy
policy = record {
  degraded_after_ms = pos 250;
  lost_after_ms = pos 1000;
  degrade_after_misses = 2;
  recover_after_samples = 3;
}

abbrev pump : Bytes
pump = codes "pump"

abbrev valve : Bytes
valve = codes "valve"

abbrev ms : ℕ → ℤ
ms n = pos (n * ns_per_ms)

-- Three fresh samples of the pump.
abbrev warmed : HealthMonitor
warmed = run (new_monitor policy) (
    (pump, sampled (ms 10) (pos 1))
    ∷ (pump, sampled (ms 20) (pos 1))
    ∷ (pump, sampled (ms 30) (pos 1))
    ∷ [])

-- The pump's lease expires after that.
abbrev expired : HealthMonitor
expired = on_liveliness_lost warmed pump

abbrev stale_burst : List (Bytes × Event)
stale_burst =
    (pump, sampled (ms 60) (pos 900))
    ∷ (valve, sampled (ms 61) (pos 1))
    ∷ (pump, sampled (ms 62) (pos 800))
    ∷ (pump, polled (ms 63))
    ∷ []

abbrev fresh_row : List (Bytes × Event)
fresh_row =
    (pump, sampled (ms 60) (pos 1))
    ∷ (valve, lease_expired)
    ∷ (pump, sampled (ms 70) (pos 1))
    ∷ (pump, sampled (ms 80) (pos 1))
    ∷ []

abbrev late_row : List (Bytes × Event)
late_row = (pump, missed) ∷ (valve, refused) ∷ (pump, missed) ∷ []

abbrev silence : List (Bytes × Event)
silence =
    (pump, missed)
    ∷ (valve, sampled (ms 90) (pos 1))
    ∷ (pump, match_changed true)
    ∷ (pump, polled (ms 95))
    ∷ []

run-IsConsistent_example :
    IsConsistent policy (state_of (run (new_monitor policy) stale_burst) pump)
run-IsConsistent_example = run-IsConsistent policy stale_burst pump (omega arith)

snapshot_test : (snapshot warmed pump (ms 40)).state ≡ healthy
unfolding snapshot decide run step on_sample change sample new_monitor state_of Dict.at Dict.find
    Dict.put str_eq ◌*ℤ◌ ◌-ℤ◌
snapshot_test = refl

snapshot-healthy_example :
    let st = state_of warmed pump in
    (st.seen ≡ true)
    × (st.state ≡ healthy)
    × (ms 40 -ℤ st.last_sample_ns <ℤ warmed.policy.degraded_after_ms *ℤ ns_per_ms)
    × (ms 40 -ℤ st.last_sample_ns <ℤ warmed.policy.lost_after_ms *ℤ ns_per_ms)
snapshot-healthy_example = snapshot-healthy warmed pump (ms 40) snapshot_test

-- What the examples need to know of the two monitors.
warmed_lem :
    let st = state_of warmed pump in
    (warmed.policy ≡ policy)
    × (st.seen ≡ true)
    × (st.state ≡ healthy)
    × (st.last_sample_ns ≡ ms 30)
    × (st.consecutive_fresh ≡ 3)
    × (st.consecutive_misses ≡ 0)
unfolding run step on_sample change sample new_monitor state_of Dict.at Dict.find Dict.put str_eq
warmed_lem = (refl, refl, refl, refl, refl, refl)

expired_lem :
    let st = state_of expired pump in
    (expired.policy ≡ policy) × (st.seen ≡ true) × (st.state ≡ lost) × (st.consecutive_fresh ≡ 0)
unfolding run step on_sample on_liveliness_lost change sample new_monitor state_of Dict.at Dict.find
    Dict.put str_eq
expired_lem = (refl, refl, refl, refl)

expired_unhealed : (state_of expired pump).state ≢ healthy
expired_unhealed e = ground (arith, expired_lem)

only_fresh_heals_example : (state_of (run expired stale_burst) pump).state ≢ healthy
unfolding str_eq
only_fresh_heals_example =
    only_fresh_heals expired pump stale_burst
      (rw expired_lem.0 ((λ h. ground arith), ((λ h. ground arith), ((λ h. h), tt))))
      expired_unhealed

recovery_takes_example :
    ((state_of (run expired fresh_row) pump).state ≡ healthy)
    ↔ (expired.policy.recover_after_samples ≤ length (events_of pump fresh_row))
unfolding str_eq
recovery_takes_example =
    recovery_takes expired pump fresh_row
      (rw expired_lem.0 (omega arith, (omega arith, (omega arith, tt))))
      (rw expired_lem.0 (omega arith)) (rw expired_lem.0 (omega arith)) expired_lem.1
      expired_unhealed expired_lem.3

bad_news_persists_example :
    state_code (state_of warmed pump).state
    ≤ state_code (state_of (run warmed ((pump, missed) ∷ (pump, lease_expired) ∷ [])) pump).state
unfolding str_eq
bad_news_persists_example =
    bad_news_persists warmed pump ((pump, missed) ∷ (pump, lease_expired) ∷ [])
      (((λ h. h), (λ e. cc)), (((λ h. h), (λ e. cc)), tt))

silence_is_lost_example : (snapshot (run warmed silence) pump (ms 1030)).state ≡ lost
unfolding str_eq
silence_is_lost_example =
    silence_is_lost warmed pump silence (ms 1030) (tt, (tt, (tt, tt)))
      (unfold ◌*ℤ◌ ◌-ℤ◌ in ground (arith, warmed_lem))

incompatible_forgotten_example :
    let refusing = on_incompatible_qos warmed pump in
    ((state_of refusing pump).state ≡ degraded)
    × ((state_of (on_sample refusing pump (ms 40) (pos 1)) pump).state ≡ healthy)
    × ((state_of (on_sample refusing pump (ms 40) (pos 1)) pump).reason ≡ HealthReason.none)
incompatible_forgotten_example =
    incompatible_forgotten warmed pump (ms 40) (pos 1) warmed_lem.1 (ground (arith, warmed_lem))
      (ground (arith, warmed_lem))

incompatible_revives_example :
    let gone = on_liveliness_lost warmed pump in
    ((snapshot gone pump (ms 40)).state ≡ lost)
    × ((snapshot (on_incompatible_qos gone pump) pump (ms 40)).state ≡ degraded)
    × ((snapshot (on_incompatible_qos gone pump) pump (ms 40)).reason ≡ qos_incompatible)
incompatible_revives_example =
    incompatible_revives warmed pump (ms 40) warmed_lem.1 (λ e. ground (arith, warmed_lem))
      (unfold ◌*ℤ◌ ◌-ℤ◌ in ground (arith, warmed_lem))

unseen_masks_reason_example :
    let report = snapshot (run (new_monitor policy) late_row) pump (ms 1) in
    (report.state ≡ lost) × (report.reason ≡ no_data)
unfolding str_eq
unseen_masks_reason_example = unseen_masks_reason policy pump late_row (ms 1) (tt, (tt, tt))
