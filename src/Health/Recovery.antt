-- ===== src/Health/Recovery.antt =====
-- How the monitor of src/health_monitor.cpp falls and recovers: the hysteresis in both directions.
use resilient_dds_data_plane.Base.{
  ℕ, suc, zero, ◌+◌, ◌^◌, ◌≤◌, ◌<◌, ◌≡◌, ◌≢◌, ◌↔◌, refl, ◌⊎◌, inl, inr, true, List, [], ◌∷◌, ◌≤ℤ◌,
  Bytes, arith, All, length, replicate, leb, Bool-cases,
}
use resilient_dds_data_plane.Health.State.{
  HealthState, healthy, degraded, lost, deadline_missed, HealthPolicy, SourceState, state_code,
}
use resilient_dds_data_plane.Health.Rules.{
  sample, deadline, liveliness, incompatible, matched, decide, settle,
}
use resilient_dds_data_plane.Health.Monitor.{HealthMonitor, state_of}
use resilient_dds_data_plane.Health.Events.{
  Event, sampled, missed, lease_expired, refused, match_changed, polled, apply, run, events_of,
  apply_all, calls_isolate,
}

-- Is the call a sample that counts as evidence of recovery?
abbrev pub IsFresh : HealthPolicy → Event → Type 0
IsFresh p (sampled now_ns age_ms) = age_ms ≤ℤ p.degraded_after_ms
IsFresh p missed = ⊥
IsFresh p lease_expired = ⊥
IsFresh p refused = ⊥
IsFresh p (match_changed b) = ⊥
IsFresh p (polled now_ns) = ⊥

apply_unhealed :
    (p : HealthPolicy) (e : Event) (st : SourceState)
    → ¬ IsFresh p e
    → st.state ≢ healthy
    → (apply p e st).state ≢ healthy
unfolding apply sample deadline liveliness incompatible matched decide settle
apply_unhealed p (sampled now_ns age_ms) st f n = ground arith
apply_unhealed p missed st f n = ground arith
apply_unhealed p lease_expired st f n = ground arith
apply_unhealed p refused st f n = ground arith
apply_unhealed p (match_changed b) st f n = ground arith
apply_unhealed p (polled now_ns) st f n = ground arith

apply_all_unhealed :
    (p : HealthPolicy) (es : List Event) (st : SourceState)
    → All (λ e. ¬ IsFresh p e) es
    → st.state ≢ healthy
    → (apply_all p es st).state ≢ healthy
unfolding apply_all
apply_all_unhealed p [] st f n = n
apply_all_unhealed p (e ∷ es) st f n =
    apply_all_unhealed p es (apply p e st) f.1 (apply_unhealed p e st f.0 n)

-- Only fresh samples heal: a source that is not healthy stays so through any calls for it without
-- a fresh sample, a burst of stale retransmissions of any length included.
pub only_fresh_heals :
    (h : HealthMonitor) (id : Bytes) (cs : List (Bytes × Event))
    → All (λ e. ¬ IsFresh h.policy e) (events_of id cs)
    → (state_of h id).state ≢ healthy
    → (state_of (run h cs) id).state ≢ healthy
only_fresh_heals h id cs f n =
    rw (calls_isolate h id cs) (apply_all_unhealed h.policy (events_of id cs) (state_of h id) f n)

-- A call that is neither a fresh sample nor an incompatible-QoS report makes no state better.
setback :
    (p : HealthPolicy) (e : Event) (st : SourceState)
    → ¬ IsFresh p e
    → e ≢ refused
    → state_code st.state ≤ state_code (apply p e st).state
unfolding apply sample deadline liveliness incompatible matched decide settle
setback p (sampled now_ns age_ms) st f n = ground arith
setback p missed st f n = ground arith
setback p lease_expired st f n = ground arith
setback p refused st f n = absurd (n refl)
setback p (match_changed b) st f n = ground arith
setback p (polled now_ns) st f n = ground arith

fresh_recovered :
    (p : HealthPolicy) (e : Event) (st : SourceState)
    → IsFresh p e
    → st.state ≡ healthy
    → (apply p e st).state ≡ healthy
unfolding apply sample
fresh_recovered p (sampled now_ns age_ms) st f e = ground arith
fresh_recovered p missed st f e = absurd f
fresh_recovered p lease_expired st f e = absurd f
fresh_recovered p refused st f e = absurd f
fresh_recovered p (match_changed b) st f e = absurd f
fresh_recovered p (polled now_ns) st f e = absurd f

All-fresh_recovered :
    (p : HealthPolicy) (es : List Event) (st : SourceState)
    → All (IsFresh p) es
    → st.state ≡ healthy
    → (apply_all p es st).state ≡ healthy
unfolding apply_all
All-fresh_recovered p [] st f e = e
All-fresh_recovered p (x ∷ es) st f e =
    All-fresh_recovered p es (apply p x st) f.1 (fresh_recovered p x st f.0 e)

fresh_counts :
    (p : HealthPolicy) (e : Event) (st : SourceState)
    → IsFresh p e
    → p.recover_after_samples < 2 ^ 32
    → st.seen ≡ true
    → st.state ≢ healthy
    → st.consecutive_fresh < p.recover_after_samples
    → ((apply p e st).seen ≡ true)
      × ((apply p e st).consecutive_fresh ≡ st.consecutive_fresh + 1)
      × (((apply p e st).state ≡ healthy) ↔ (p.recover_after_samples ≤ st.consecutive_fresh + 1))
unfolding apply sample
fresh_counts p (sampled now_ns age_ms) st f w s n c = ground arith
fresh_counts p missed st f w s n c = absurd f
fresh_counts p lease_expired st f w s n c = absurd f
fresh_counts p refused st f w s n c = absurd f
fresh_counts p (match_changed b) st f w s n c = absurd f
fresh_counts p (polled now_ns) st f w s n c = absurd f

HealthState-cases : (s : HealthState) → (s ≡ healthy) ⊎ (s ≢ healthy)
HealthState-cases healthy = inl refl
HealthState-cases degraded = inr (λ e. cc)
HealthState-cases lost = inr (λ e. cc)

recovers_after :
    (p : HealthPolicy) (es : List Event) (st : SourceState)
    → All (IsFresh p) es
    → p.recover_after_samples < 2 ^ 32
    → st.seen ≡ true
    → st.state ≢ healthy
    → st.consecutive_fresh < p.recover_after_samples
    → ((apply_all p es st).state ≡ healthy)
      ↔ (p.recover_after_samples ≤ st.consecutive_fresh + length es)
unfolding apply_all
recovers_after p [] st f w s n c = ((λ e. absurd (n e)), (λ le. absurd (omega arith)))
recovers_after p (e ∷ es) st f w s n c = elim (HealthState-cases (apply p e st).state) [
  | inl h ↦ (
    (λ _. omega (arith, (fresh_counts p e st f.0 w s n c).2.0 h)),
    (λ _. All-fresh_recovered p es (apply p e st) f.1 h),
  )
  | inr h ↦
      let (s', c', b) = fresh_counts p e st f.0 w s n c in
      let few : st.consecutive_fresh + 1 < p.recover_after_samples = ground (arith, b) in
      let ih = recovers_after p es (apply p e st) f.1 w s' h (omega arith) in
      ((λ q. omega (arith, ih.0 q)), (λ le. ih.1 (omega arith)))
]

-- Recovery takes as long as configured: from a state that is not healthy, of a source seen before
-- whose count of fresh samples is back at zero, a row of fresh samples heals the source exactly
-- when it holds `recover_after_samples` of them or more, whatever other sources do meanwhile.
pub recovery_takes :
    (h : HealthMonitor) (id : Bytes) (cs : List (Bytes × Event))
    → All (IsFresh h.policy) (events_of id cs)
    → h.policy.recover_after_samples < 2 ^ 32
    → 0 < h.policy.recover_after_samples
    → (state_of h id).seen ≡ true
    → (state_of h id).state ≢ healthy
    → (state_of h id).consecutive_fresh ≡ 0
    → ((state_of (run h cs) id).state ≡ healthy)
      ↔ (h.policy.recover_after_samples ≤ length (events_of id cs))
recovery_takes h id cs f w k s n c =
    let ih = recovers_after h.policy (events_of id cs) (state_of h id) f w s n (omega arith) in
    rw (calls_isolate h id cs) ((λ q. omega (arith, ih.0 q)), (λ le. ih.1 (omega arith)))

miss_degraded :
    (p : HealthPolicy) (n : ℕ) (st : SourceState)
    → st.state ≡ degraded
    → st.reason ≡ deadline_missed
    → let t = apply_all p (replicate n missed) st in
      (t.state ≡ degraded) × (t.reason ≡ deadline_missed)
unfolding apply_all apply deadline
miss_degraded p zero st e r = (e, r)
miss_degraded p (suc n) st e r = miss_degraded p n (deadline p st) (ground arith) (ground arith)

misses :
    (p : HealthPolicy) (n : ℕ) (st : SourceState)
    → p.degrade_after_misses < 2 ^ 32
    → st.state ≡ healthy
    → st.consecutive_misses < p.degrade_after_misses
    → let t = apply_all p (replicate n missed) st in
      ((st.consecutive_misses + n < p.degrade_after_misses) × (t.state ≡ healthy))
      ⊎ ((p.degrade_after_misses ≤ st.consecutive_misses + n)
          × (t.state ≡ degraded)
          × (t.reason ≡ deadline_missed))
unfolding apply_all apply deadline
misses p zero st w e c = inl (omega arith, e)
misses p (suc n) st w e c =
    elim (Bool-cases (leb p.degrade_after_misses (st.consecutive_misses + 1))) [
      | inl h ↦
          let (e', r') = miss_degraded p n (deadline p st) (ground arith) (ground arith) in
          inr (ground arith, e', r')
      | inr h ↦ ground (arith, misses p n (deadline p st))
    ]

-- One late sample is no failure: a healthy source with no run of deadline misses stays healthy
-- through fewer than `degrade_after_misses` of them in a row, and at that number is degraded, for
-- that reason.
pub misses_take :
    (h : HealthMonitor) (id : Bytes) (n : ℕ) (cs : List (Bytes × Event))
    → events_of id cs ≡ replicate n missed
    → h.policy.degrade_after_misses < 2 ^ 32
    → 0 < h.policy.degrade_after_misses
    → (state_of h id).state ≡ healthy
    → (state_of h id).consecutive_misses ≡ 0
    → let st = state_of (run h cs) id in
      ((n < h.policy.degrade_after_misses) × (st.state ≡ healthy))
      ⊎ ((h.policy.degrade_after_misses ≤ n)
          × (st.state ≡ degraded)
          × (st.reason ≡ deadline_missed))
misses_take h id n cs e w k s c =
    rw (calls_isolate h id cs, e) (ground (arith, misses h.policy n (state_of h id)))

apply_all_setback :
    (p : HealthPolicy) (es : List Event) (st : SourceState)
    → All (λ e. (¬ IsFresh p e) × (e ≢ refused)) es
    → state_code st.state ≤ state_code (apply_all p es st).state
unfolding apply_all
apply_all_setback p [] st f = omega arith
apply_all_setback p (e ∷ es) st f =
    omega (arith, setback p e st f.0.0 f.0.1, apply_all_setback p es (apply p e st) f.1)

-- Bad news never improves a source: through calls that are neither fresh samples nor reports of
-- incompatible QoS, its state gets no better.
pub bad_news_persists :
    (h : HealthMonitor) (id : Bytes) (cs : List (Bytes × Event))
    → All (λ e. (¬ IsFresh h.policy e) × (e ≢ refused)) (events_of id cs)
    → state_code (state_of h id).state ≤ state_code (state_of (run h cs) id).state
bad_news_persists h id cs f =
    rw (calls_isolate h id cs) (apply_all_setback h.policy (events_of id cs) (state_of h id) f)
