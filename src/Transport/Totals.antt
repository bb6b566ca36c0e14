-- ===== src/Transport/Totals.antt =====
-- The registry of src/dds_transport.cpp after any sequence of the listener's callbacks.
use resilient_dds_data_plane.Base.{
  ◌≡◌, refl, sym, ap, ◌∙◌, List, [], ◌∷◌, ◌++◌, ℤ, pos, ltb_ℤ, codes, if◌then◌else◌, Bool-cases,
  inl, inr,
}
use resilient_dds_data_plane.Detector.{AnomalyDetector}
use resilient_dds_data_plane.Detector.Trace
use resilient_dds_data_plane.Metrics.{gauge}
use resilient_dds_data_plane.Metrics.Counters.{
  counters-increment_all, IsValid, Update, increment_all, increment_all-append,
  increment_all-IsValid, gauge-IsValid,
}
use resilient_dds_data_plane.Transport.Start.{Vendor}
use resilient_dds_data_plane.Transport.Subscriber.{
  Subscriber, to_u64, on_requested_deadline_missed, on_liveliness_changed,
  on_requested_incompatible_qos, on_sample_lost, on_subscription_matched,
}
use resilient_dds_data_plane.Transport.Pipeline.{arrivals, on_data_available_lem}
use resilient_dds_data_plane.Transport.Tallies.{updates, metrics-on_data_available}
use resilient_dds_data_plane.Transport.Listener.{
  Callback, data_available, deadline_missed, liveliness_changed, sample_lost, subscription_matched,
  incompatible_qos, handle, handle_all,
}

module _ {ℓ} {D : Type ℓ} where
  -- The increments that a callback makes.
  abbrev pub updates_of : AnomalyDetector → Callback D → List Update
  updates_of d (data_available ts) = updates d (arrivals ts)
  updates_of d (deadline_missed change) = (codes "rdtf_deadline_missed_total", to_u64 change) ∷ []
  updates_of d (liveliness_changed change) =
      if ltb_ℤ (pos 0) change then (codes "rdtf_liveliness_lost_total", to_u64 change) ∷ [] else []
  updates_of d (sample_lost change) =
      (codes "rdtf_middleware_sample_lost_total", to_u64 change) ∷ []
  updates_of d (subscription_matched count) = []
  updates_of d incompatible_qos = (codes "rdtf_incompatible_qos_total", 1) ∷ []

  -- The detector behind a callback.
  abbrev pub detector_after : AnomalyDetector → Callback D → AnomalyDetector
  detector_after d (data_available ts) = (Trace.run d (arrivals ts)).0
  detector_after d _ = d

  abbrev pub all_updates_of : AnomalyDetector → List (Callback D) → List Update
  all_updates_of d [] = []
  all_updates_of d (c ∷ cs) = updates_of d c ++ all_updates_of (detector_after d c) cs

  module _ {v : Vendor} (to_double : ℤ → D) where
    pub handle_updates :
        (c : Callback D) (s : Subscriber D v)
        → ((handle to_double c s).metrics.counters
            ≡ (increment_all (updates_of s.detector c) s.metrics).counters)
          × ((handle to_double c s).detector ≡ detector_after s.detector c)
          × (IsValid s.metrics → IsValid (handle to_double c s).metrics)
    unfolding handle on_requested_deadline_missed on_liveliness_changed
        on_requested_incompatible_qos on_sample_lost on_subscription_matched increment_all gauge
    handle_updates (data_available ts) s =
        let m = metrics-on_data_available ts s in
        (
          ap (λ r. r.counters) m,
          (on_data_available_lem ts s).0,
          λ w. rw m (increment_all-IsValid (updates s.detector (arrivals ts)) s.metrics w),
        )
    handle_updates (deadline_missed change) s = (
      refl,
      refl,
      λ w. increment_all-IsValid (updates_of s.detector (deadline_missed change)) s.metrics w,
    )
    handle_updates (liveliness_changed change) s = elim (Bool-cases (ltb_ℤ (pos 0) change)) [
      | inl h ↦ rw h (
        refl,
        refl,
        λ w.
            increment_all-IsValid ((codes "rdtf_liveliness_lost_total", to_u64 change) ∷ [])
              s.metrics w,
      )
      | inr h ↦ rw h (refl, refl, λ w. w)
    ]
    handle_updates (sample_lost change) s = (
      refl,
      refl,
      λ w. increment_all-IsValid (updates_of s.detector (sample_lost change)) s.metrics w,
    )
    handle_updates (subscription_matched count) s = (
      refl,
      refl,
      λ w. gauge-IsValid (codes "rdtf_subscription_matched") (to_double count) s.metrics w,
    )
    handle_updates incompatible_qos s = (
      refl,
      refl,
      λ w. increment_all-IsValid ((codes "rdtf_incompatible_qos_total", 1) ∷ []) s.metrics w,
    )

    pub handle_all_updates :
        (cs : List (Callback D)) (s : Subscriber D v)
        → ((handle_all to_double cs s).metrics.counters
            ≡ (increment_all (all_updates_of s.detector cs) s.metrics).counters)
          × (IsValid s.metrics → IsValid (handle_all to_double cs s).metrics)
    unfolding handle_all increment_all
    handle_all_updates [] s = (refl, λ w. w)
    handle_all_updates (c ∷ cs) s =
        let (m, d, k) = handle_updates c s in
        let after = handle to_double c s in
        let (n, l) = handle_all_updates cs after in
        let us = all_updates_of (detector_after s.detector c) cs in
        (
          n
              ∙ ap (λ e. (increment_all (all_updates_of e cs) after.metrics).counters) d
              ∙ counters-increment_all us after.metrics
                  (increment_all (updates_of s.detector c) s.metrics) m
              ∙ sym (
                  ap (λ r. r.counters)
                    (increment_all-append (updates_of s.detector c) us s.metrics)),
          λ w. l (k w),
        )
