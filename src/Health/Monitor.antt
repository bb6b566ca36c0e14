-- ===== src/Health/Monitor.antt =====
-- src/health_monitor.cpp: `HealthMonitor`, a map of sources. A handler takes the monitor and returns
-- the new one; `change` is `auto& state = states_[source_id]` with what follows it.
use resilient_dds_data_plane.Base.{Bool, none, some, [], ℤ, Bytes}
use resilient_dds_data_plane.Base.Dict
use resilient_dds_data_plane.Base.Dict.{Dict}
use resilient_dds_data_plane.Health.State.{
  HealthPolicy, HealthSnapshot, SourceState, new_source, empty_snapshot,
}
use resilient_dds_data_plane.Health.Rules.{
  sample, deadline, liveliness, incompatible, matched, decide, settle,
}

pub record HealthMonitor : Type 0 where
  pub policy : HealthPolicy
  pub states : Dict SourceState

unfoldable pub new_monitor : HealthPolicy → HealthMonitor
new_monitor p = record { policy = p; states = [] }

-- HealthMonitor(degraded_after_ms, lost_after_ms)
unfoldable pub new_monitor_ms : ℤ → ℤ → HealthMonitor
unfolding new_monitor
new_monitor_ms degraded_ms lost_ms = new_monitor (record {
  degraded_after_ms = degraded_ms;
  lost_after_ms = lost_ms;
  degrade_after_misses = 2;
  recover_after_samples = 3;
})

unfoldable pub state_of : HealthMonitor → Bytes → SourceState
state_of h id = Dict.at new_source id h.states

-- Run a handler's body on the source's entry, which is made if it is missing.
unfoldable pub change : Bytes → (SourceState → SourceState) → HealthMonitor → HealthMonitor
unfolding state_of
change id f h = record h { states = Dict.put id (f (state_of h id)) h.states }

unfoldable pub on_sample : HealthMonitor → Bytes → ℤ → ℤ → HealthMonitor
unfolding change sample
on_sample h id now_ns age_ms = change id (sample h.policy now_ns age_ms) h

unfoldable pub on_deadline_missed : HealthMonitor → Bytes → HealthMonitor
unfolding change deadline
on_deadline_missed h id = change id (deadline h.policy) h

unfoldable pub on_liveliness_lost : HealthMonitor → Bytes → HealthMonitor
unfolding change liveliness
on_liveliness_lost h id = change id liveliness h

unfoldable pub on_incompatible_qos : HealthMonitor → Bytes → HealthMonitor
unfolding change incompatible
on_incompatible_qos h id = change id incompatible h

unfoldable pub on_writer_matched : HealthMonitor → Bytes → Bool → HealthMonitor
unfolding change matched
on_writer_matched h id now_matched = change id (matched now_matched) h

unfoldable pub tick : HealthMonitor → Bytes → ℤ → HealthMonitor × HealthSnapshot
unfolding change settle decide
tick h id now_ns =
    let decided = decide h.policy (state_of h id) now_ns in (change id (settle decided) h, decided)

unfoldable pub snapshot : HealthMonitor → Bytes → ℤ → HealthSnapshot
unfolding decide
snapshot h id now_ns = elim (Dict.find id h.states) [
  | none ↦ empty_snapshot
  | some st ↦ decide h.policy st now_ns
]
