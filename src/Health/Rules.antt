-- ===== src/Health/Rules.antt =====
-- src/health_monitor.cpp: what each handler does to the state of its source, and the decision that
-- `tick` and `snapshot` share.
use resilient_dds_data_plane.Base.{
  ◌+◌, Bool, true, false, not, ◌&&◌, ◌||◌, ℤ, pos, ◌-ℤ◌, ◌*ℤ◌, quot, ltb_ℤ, leb_ℤ, eqb_ℤ, ltb, leb,
  ◌==◌, if◌then◌else◌,
}
use resilient_dds_data_plane.Health.State.{
  healthy, degraded, lost, HealthReason, no_data, stale_data, deadline_missed, liveliness_lost,
  publisher_unmatched, qos_incompatible, recovering, HealthPolicy, HealthSnapshot, SourceState,
  ns_per_ms, u64, u32, is_healthy, is_lost, state_code,
}

-- The handlers' bodies, on the state of one source.
unfoldable pub stale_sample : SourceState → SourceState
stale_sample st =
    let t = record st {
      consecutive_fresh = 0;
      seen = true;
      state = if is_healthy st.state then degraded else st.state;
    } in
    record t { reason = if is_lost t.state then t.reason else stale_data }

unfoldable pub fresh_sample : HealthPolicy → SourceState → SourceState
fresh_sample p st =
    let t = record st {
      consecutive_fresh =
          if ltb st.consecutive_fresh p.recover_after_samples
          then u32 (st.consecutive_fresh + 1)
          else st.consecutive_fresh;
    } in
    if not t.seen
    then record t { seen = true; state = healthy; reason = HealthReason.none }
    else if is_healthy t.state
    then record t { reason = HealthReason.none }
    else if leb p.recover_after_samples t.consecutive_fresh
    then record t { state = healthy; reason = HealthReason.none }
    else record t { reason = recovering }

unfoldable pub sample : HealthPolicy → ℤ → ℤ → SourceState → SourceState
unfolding stale_sample fresh_sample
sample p now_ns age_ms st =
    let t = record st { last_sample_ns = now_ns; consecutive_misses = 0 } in
    if ltb_ℤ p.degraded_after_ms age_ms then stale_sample t else fresh_sample p t

unfoldable pub deadline : HealthPolicy → SourceState → SourceState
deadline p st =
    let t = record st {
      deadline_misses = u64 (st.deadline_misses + 1);
      consecutive_misses = u32 (st.consecutive_misses + 1);
      consecutive_fresh = 0;
    } in
    if leb p.degrade_after_misses t.consecutive_misses && is_healthy t.state
    then record t { state = degraded; reason = deadline_missed }
    else t

unfoldable pub liveliness : SourceState → SourceState
liveliness st = record st {
  liveliness_losses = u64 (st.liveliness_losses + 1);
  consecutive_fresh = 0;
  state = lost;
  reason = liveliness_lost;
}

unfoldable pub incompatible : SourceState → SourceState
incompatible st = record st {
  incompatible_qos_events = u64 (st.incompatible_qos_events + 1);
  state = degraded;
  reason = qos_incompatible;
}

unfoldable pub matched : Bool → SourceState → SourceState
matched now_matched st =
    let t = record st { writer_matched = now_matched } in
    if not now_matched
    then record t { consecutive_fresh = 0; state = lost; reason = publisher_unmatched }
    else t

-- Is the reason one that names why the writer is gone?
abbrev is_departure : HealthReason → Bool
is_departure liveliness_lost = true
is_departure publisher_unmatched = true
is_departure _ = false

unfoldable pub decide : HealthPolicy → SourceState → ℤ → HealthSnapshot
decide p st now_ns =
    let out : HealthSnapshot = record {
      state = st.state;
      reason = st.reason;
      last_sample_ns = st.last_sample_ns;
      age_ms = pos 0;
      deadline_misses = st.deadline_misses;
      liveliness_losses = st.liveliness_losses;
      incompatible_qos_events = st.incompatible_qos_events;
      writer_matched = st.writer_matched;
    } in
    let age_ns = now_ns -ℤ st.last_sample_ns in
    let aged : HealthSnapshot = record out { age_ms = quot age_ns ns_per_ms } in
    if not st.seen || eqb_ℤ st.last_sample_ns (pos 0)
    then record out { state = lost; reason = no_data }
    else if leb_ℤ (p.lost_after_ms *ℤ ns_per_ms) age_ns
    then record aged {
      state = lost;
      reason = if is_departure st.reason then st.reason else no_data;
    }
    else if leb_ℤ (p.degraded_after_ms *ℤ ns_per_ms) age_ns && is_healthy st.state
    then record aged { state = degraded; reason = stale_data }
    else aged

-- What `tick` keeps of a decision.
unfoldable pub settle : HealthSnapshot → SourceState → SourceState
settle decided st = record st {
  consecutive_fresh =
      if state_code decided.state == state_code st.state then st.consecutive_fresh else 0;
  state = decided.state;
  reason = decided.reason;
}
