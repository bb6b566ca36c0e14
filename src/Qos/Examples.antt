-- ===== src/Qos/Examples.antt =====
-- Profiles under `validate` of src/qos_profiles.cpp.
use resilient_dds_data_plane.Base.{◌≡◌, refl, length}
use resilient_dds_data_plane.Qos.{best_effort, keep_all, critical_control, validate}

-- Reliable, everything kept, and no ceiling: one error.
unbounded_test : length (validate (record critical_control { history = keep_all })) ≡ 1
unfolding validate critical_control
unbounded_test = refl

-- No history, a lease of zero, and replay over a lossy delivery: three errors.
faulty_test :
    length (
      validate (record critical_control {
        history_depth = 0;
        liveliness_lease_ms = 0;
        reliability = best_effort;
      }))
    ≡ 3
unfolding validate critical_control
faulty_test = refl
