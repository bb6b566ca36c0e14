-- ===== src/Health/Safety.antt =====
-- What a report of the monitor promises: src/health_monitor.cpp, `decide`, `tick` and `snapshot`.
use resilient_dds_data_plane.Base.{
  ◌≤◌, ◌≡◌, refl, true, List, [], ◌∷◌, ℤ, ◌-ℤ◌, ◌*ℤ◌, ◌≤ℤ◌, ◌<ℤ◌, Bytes, arith, All, Option-cases,
  -ℤ_parts, str_eq_refl,
}
use resilient_dds_data_plane.Base.Dict
use resilient_dds_data_plane.Health.State.{
  healthy, lost, HealthPolicy, SourceState, state_code, ns_per_ms,
}
use resilient_dds_data_plane.Health.Rules.{
  deadline, liveliness, incompatible, matched, decide, settle,
}
use resilient_dds_data_plane.Health.Monitor.{HealthMonitor, state_of, snapshot, tick}
use resilient_dds_data_plane.Health.Events.{
  Event, sampled, missed, lease_expired, refused, match_changed, polled, step, apply, run,
  events_of, apply_all, calls_isolate, policy-run, state_of-step,
}

-- A source that is not in the map is reported like one that is new.
pub snapshot-decide :
    (h : HealthMonitor) (id : Bytes) (now_ns : ℤ)
    → snapshot h id now_ns ≡ decide h.policy (state_of h id) now_ns
unfolding snapshot state_of Dict.at decide
snapshot-decide h id now_ns = ground (arith, Option-cases (Dict.find id h.states))

module _ (p : HealthPolicy) (st : SourceState) where
  decide-healthy :
      (now_ns : ℤ)
      → (decide p st now_ns).state ≡ healthy
      → (st.seen ≡ true)
        × (st.state ≡ healthy)
        × (now_ns -ℤ st.last_sample_ns <ℤ p.degraded_after_ms *ℤ ns_per_ms)
        × (now_ns -ℤ st.last_sample_ns <ℤ p.lost_after_ms *ℤ ns_per_ms)
  unfolding decide
  decide-healthy now_ns e = ground arith

  decide_ages :
      (now_ns later_ns : ℤ)
      → now_ns ≤ℤ later_ns
      → (state_code st.state ≤ state_code (decide p st now_ns).state)
        × (state_code (decide p st now_ns).state ≤ state_code (decide p st later_ns).state)
  unfolding decide
  decide_ages now_ns later_ns h =
      ground (arith, -ℤ_parts now_ns st.last_sample_ns, -ℤ_parts later_ns st.last_sample_ns)

  decide-settle :
      (now_ns : ℤ) → decide p (settle (decide p st now_ns) st) now_ns ≡ decide p st now_ns
  unfolding decide settle
  decide-settle now_ns = ground arith

  decide_silent :
      (now_ns : ℤ)
      → p.lost_after_ms *ℤ ns_per_ms ≤ℤ now_ns -ℤ st.last_sample_ns
      → (decide p st now_ns).state ≡ lost
  unfolding decide
  decide_silent now_ns h = ground arith

-- A source is reported healthy only on evidence: a sample has arrived, the last one is younger
-- than both thresholds of the policy, and the state that is kept of the source is healthy.
pub snapshot-healthy :
    (h : HealthMonitor) (id : Bytes) (now_ns : ℤ)
    → (snapshot h id now_ns).state ≡ healthy
    → let st = state_of h id in
      (st.seen ≡ true)
      × (st.state ≡ healthy)
      × (now_ns -ℤ st.last_sample_ns <ℤ h.policy.degraded_after_ms *ℤ ns_per_ms)
      × (now_ns -ℤ st.last_sample_ns <ℤ h.policy.lost_after_ms *ℤ ns_per_ms)
snapshot-healthy h id now_ns e =
    decide-healthy h.policy (state_of h id) now_ns (rw (snapshot-decide h id now_ns) at e)

-- With no further call, time makes a report no better: the report is at least as bad as the state
-- that is kept, and a later one at least as bad as an earlier one.
pub snapshot_ages :
    (h : HealthMonitor) (id : Bytes) (now_ns later_ns : ℤ)
    → now_ns ≤ℤ later_ns
    → (state_code (state_of h id).state ≤ state_code (snapshot h id now_ns).state)
      × (state_code (snapshot h id now_ns).state ≤ state_code (snapshot h id later_ns).state)
snapshot_ages h id now_ns later_ns le =
    rw (snapshot-decide h id now_ns, snapshot-decide h id later_ns)
      (decide_ages h.policy (state_of h id) now_ns later_ns le)

-- `tick` reports what `snapshot` would, and what it keeps does not change the report: asked again
-- at the same time, both give the same answer.
pub tick-snapshot :
    (h : HealthMonitor) (id : Bytes) (now_ns : ℤ)
    → ((tick h id now_ns).1 ≡ snapshot h id now_ns)
      × (snapshot (tick h id now_ns).0 id now_ns ≡ snapshot h id now_ns)
      × ((tick (tick h id now_ns).0 id now_ns).1 ≡ snapshot h id now_ns)
unfolding tick step apply
tick-snapshot h id now_ns = ground (
  arith,
  snapshot-decide h id now_ns,
  snapshot-decide (tick h id now_ns).0 id now_ns,
  state_of-step h id (polled now_ns) id,
  str_eq_refl id,
  decide-settle h.policy (state_of h id) now_ns,
)

-- Is the call no sample?
abbrev pub IsSilent : Event → Type 0
IsSilent (sampled now_ns age_ms) = ⊥
IsSilent missed = Unit
IsSilent lease_expired = Unit
IsSilent refused = Unit
IsSilent (match_changed b) = Unit
IsSilent (polled now_ns) = Unit

apply_silent :
    (p : HealthPolicy) (e : Event) (st : SourceState)
    → IsSilent e
    → ((apply p e st).last_sample_ns ≡ st.last_sample_ns) × ((apply p e st).seen ≡ st.seen)
unfolding apply deadline liveliness incompatible matched settle
apply_silent p (sampled now_ns age_ms) st s = absurd s
apply_silent p missed st s = ground arith
apply_silent p lease_expired st s = ground arith
apply_silent p refused st s = ground arith
apply_silent p (match_changed b) st s = ground arith
apply_silent p (polled now_ns) st s = ground arith

pub apply_all_silent :
    (p : HealthPolicy) (es : List Event) (st : SourceState)
    → All IsSilent es
    → ((apply_all p es st).last_sample_ns ≡ st.last_sample_ns)
      × ((apply_all p es st).seen ≡ st.seen)
unfolding apply_all
apply_all_silent p [] st s = (refl, refl)
apply_all_silent p (e ∷ es) st s =
    ground (arith, apply_all_silent p es (apply p e st), apply_silent p e st, s)

-- Silence is noticed: whatever callbacks and polls there were, and whatever other sources sent, a
-- source that has sent no sample for `lost_after_ms` is reported lost.
pub silence_is_lost :
    (h : HealthMonitor) (id : Bytes) (cs : List (Bytes × Event)) (now_ns : ℤ)
    → All IsSilent (events_of id cs)
    → h.policy.lost_after_ms *ℤ ns_per_ms ≤ℤ now_ns -ℤ (state_of h id).last_sample_ns
    → (snapshot (run h cs) id now_ns).state ≡ lost
silence_is_lost h id cs now_ns s le =
    rw (snapshot-decide (run h cs) id now_ns, calls_isolate h id cs, policy-run h cs)
      (decide_silent h.policy (apply_all h.policy (events_of id cs) (state_of h id)) now_ns
        (rw ((apply_all_silent h.policy (events_of id cs) (state_of h id) s).0) le))
