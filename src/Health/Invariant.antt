-- ===== src/Health/Invariant.antt =====
-- What holds of a source's state between two calls: the reason fits the state.
use resilient_dds_data_plane.Base.{◌^◌, ◌≤◌, ◌<◌, ◌≡◌, ◌⊎◌, true, List, [], ◌∷◌, Bytes, arith}
use resilient_dds_data_plane.Base.Dict
use resilient_dds_data_plane.Health.State.{
  HealthState, healthy, degraded, lost, HealthReason, no_data, stale_data, deadline_missed,
  liveliness_lost, publisher_unmatched, qos_incompatible, recovering, HealthPolicy, SourceState,
  new_source,
}
use resilient_dds_data_plane.Health.Rules.{
  sample, deadline, liveliness, incompatible, matched, decide, settle,
}
use resilient_dds_data_plane.Health.Monitor.{state_of, new_monitor}
use resilient_dds_data_plane.Health.Events.{
  Event, sampled, missed, lease_expired, refused, match_changed, polled, apply, run, events_of,
  apply_all, calls_isolate,
}

-- The reasons that each state may give.
abbrev pub Fits : HealthState → HealthReason → Type 0
Fits healthy r = r ≡ HealthReason.none
Fits degraded r =
    (r ≡ stale_data) ⊎ (r ≡ deadline_missed) ⊎ (r ≡ qos_incompatible) ⊎ (r ≡ recovering)
Fits lost r = (r ≡ no_data) ⊎ (r ≡ liveliness_lost) ⊎ (r ≡ publisher_unmatched) ⊎ (r ≡ recovering)

pub record IsConsistent (p : HealthPolicy) (st : SourceState) : Type 0 where
  pub reason_fits : Fits st.state st.reason
  pub healthy_seen : st.state ≡ healthy → st.seen ≡ true
  pub fresh_capped : st.consecutive_fresh ≤ p.recover_after_samples
  pub misses_word : st.consecutive_misses < 2 ^ 32
  pub counters_words :
      (st.deadline_misses < 2 ^ 64)
      × (st.liveliness_losses < 2 ^ 64)
      × (st.incompatible_qos_events < 2 ^ 64)

module _ (p : HealthPolicy) (st : SourceState) (capped : p.recover_after_samples < 2 ^ 32) where
  apply-IsConsistent : (e : Event) → IsConsistent p st → IsConsistent p (apply p e st)
  unfolding apply sample deadline liveliness incompatible matched decide settle
  apply-IsConsistent (sampled now_ns age_ms) v = ground arith
  apply-IsConsistent missed v = ground arith
  apply-IsConsistent lease_expired v = ground arith
  apply-IsConsistent refused v = ground arith
  apply-IsConsistent (match_changed b) v = ground arith
  apply-IsConsistent (polled now_ns) v = ground arith

apply_all-IsConsistent :
    (p : HealthPolicy) (es : List Event) (st : SourceState)
    → p.recover_after_samples < 2 ^ 32
    → IsConsistent p st
    → IsConsistent p (apply_all p es st)
unfolding apply_all
apply_all-IsConsistent p [] st c v = v
apply_all-IsConsistent p (e ∷ es) st c v =
    apply_all-IsConsistent p es (apply p e st) c (apply-IsConsistent p st c e v)

new_source-IsConsistent : (p : HealthPolicy) → IsConsistent p new_source
new_source-IsConsistent p = ground arith

-- After any calls at all to a new monitor, every source is consistent: its reason is one that its
-- state may give, a healthy source has been sampled, the recovery count never passes the policy's
-- threshold, and the counters stay within their words.
pub run-IsConsistent :
    (p : HealthPolicy) (cs : List (Bytes × Event)) (j : Bytes)
    → p.recover_after_samples < 2 ^ 32
    → IsConsistent p (state_of (run (new_monitor p) cs) j)
unfolding new_monitor state_of Dict.at Dict.find
run-IsConsistent p cs j c =
    rw (calls_isolate (new_monitor p) j cs)
      (apply_all-IsConsistent p (events_of j cs) new_source c (new_source-IsConsistent p))
