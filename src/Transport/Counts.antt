-- ===== src/Transport/Counts.antt =====
-- What the counters of src/dds_transport.cpp come to under any sequence of the listener's callbacks.
use resilient_dds_data_plane.Base.{
  ℕ, ◌+◌, ◌%◌, ◌^◌, ◌≡◌, refl, List, [], ◌∷◌, ◌++◌, Bytes, arith, length, length-append, str_eq,
}
use mathlib.Core.List.{append-nil}
use resilient_dds_data_plane.Telemetry.{AnomalyKind, kind_to_string}
use resilient_dds_data_plane.Detector.{AnomalyDetector}
use resilient_dds_data_plane.Detector.Trace
use resilient_dds_data_plane.Metrics.{MetricsRegistry, new_registry}
use resilient_dds_data_plane.Metrics.Counters.{
  counter, Update, increment_all, total, total-append, from_new,
}
use resilient_dds_data_plane.Transport.Pipeline.{arrivals}
use resilient_dds_data_plane.Transport.Tallies.{
  count_kind, count_kind-append, counter_of, total-updates,
}
use resilient_dds_data_plane.Transport.Totals.{updates_of, detector_after, all_updates_of}
use resilient_dds_data_plane.Transport.Listener.{
  Callback, data_available, deadline_missed, liveliness_changed, sample_lost, subscription_matched,
  incompatible_qos, all_arrivals,
}
use resilient_dds_data_plane.Transport.Statuses.{
  samples_name, missed_name, expired_name, lost_name, refused_name, misses_in, expiries_in,
  losses_in, refusals_in, sum_over, total_all, missed_total, expired_total, lost_total,
  refused_total,
}

module _ {ℓ} {D : Type ℓ} where
  -- The counters of the samples themselves, over the callbacks.
  status_total :
      (k : AnomalyKind) (d : AnomalyDetector) (c : Callback D)
      → (total (counter_of k) (updates_of d c)
          ≡ count_kind k (Trace.run d (all_arrivals (c ∷ []))).1)
        × (total samples_name (updates_of d c) ≡ length (all_arrivals (c ∷ [])))
  unfolding str_eq Trace.run kind_to_string
  status_total k d (data_available ts) =
      rw (append-nil (arrivals ts)) (total-updates k d (arrivals ts))
  status_total k d (deadline_missed change) = (refl, refl)
  status_total k d (liveliness_changed change) = ground arith
  status_total k d (sample_lost change) = (refl, refl)
  status_total k d (subscription_matched count) = (refl, refl)
  status_total k d incompatible_qos = (refl, refl)

  arrivals_split :
      (d : AnomalyDetector) (c : Callback D) (cs : List (Callback D))
      → ((Trace.run d (all_arrivals (c ∷ cs))).1
          ≡ (Trace.run d (all_arrivals (c ∷ []))).1
            ++ (Trace.run (detector_after d c) (all_arrivals cs)).1)
        × (length (all_arrivals (c ∷ cs))
            ≡ length (all_arrivals (c ∷ [])) + length (all_arrivals cs))
  unfolding Trace.run
  arrivals_split d (data_available ts) cs = rw (append-nil (arrivals ts)) (
    (Trace.run-append d (arrivals ts) (all_arrivals cs)).1,
    length-append (arrivals ts) (all_arrivals cs),
  )
  arrivals_split d (deadline_missed change) cs = (refl, omega arith)
  arrivals_split d (liveliness_changed change) cs = (refl, omega arith)
  arrivals_split d (sample_lost change) cs = (refl, omega arith)
  arrivals_split d (subscription_matched count) cs = (refl, omega arith)
  arrivals_split d incompatible_qos cs = (refl, omega arith)

  all_total :
      (k : AnomalyKind) (d : AnomalyDetector) (cs : List (Callback D))
      → (total (counter_of k) (all_updates_of d cs)
          ≡ count_kind k (Trace.run d (all_arrivals cs)).1)
        × (total samples_name (all_updates_of d cs) ≡ length (all_arrivals cs))
  unfolding Trace.run
  all_total k d [] = (refl, refl)
  all_total k d (c ∷ cs) =
      let (kinds, samples) = all_total k (detector_after d c) cs in
      let (one, some) = status_total k d c in
      ground (
        arith,
        kinds,
        samples,
        one,
        some,
        total-append (counter_of k) (updates_of d c) (all_updates_of (detector_after d c) cs),
        total-append samples_name (updates_of d c) (all_updates_of (detector_after d c) cs),
        arrivals_split d c cs,
        count_kind-append k (Trace.run d (all_arrivals (c ∷ []))).1
            (Trace.run (detector_after d c) (all_arrivals cs)).1,
      )

-- Increments of no name that `Counted` reads.
abbrev pub Silent : AnomalyKind → List Update → Type 0
Silent k us =
    (total samples_name us ≡ 0)
    × (total (counter_of k) us ≡ 0)
    × (total missed_name us ≡ 0)
    × (total expired_name us ≡ 0)
    × (total lost_name us ≡ 0)
    × (total refused_name us ≡ 0)

module _ {ℓ} {D : Type ℓ} where
  -- A registry whose counters are those that increments make of an empty one.
  abbrev pub CountersOf : List Update → MetricsRegistry D → Type 0
  CountersOf us m = m.counters ≡ (increment_all us (new_registry {D = D})).counters

  pub counter_from :
      (us : List Update) (m : MetricsRegistry D) (k : Bytes)
      → CountersOf us m
      → counter k m ≡ total k us % 2 ^ 64
  unfolding counter
  counter_from us m k e = rw e (from_new D k us)

  -- What the counters come to under the callbacks `cs`, from nothing.
  abbrev pub Counted :
      AnomalyDetector → List (Callback D) → AnomalyKind → MetricsRegistry D → Type 0
  Counted d cs k m =
      (counter samples_name m ≡ length (all_arrivals cs) % 2 ^ 64)
      × (counter (counter_of k) m ≡ count_kind k (Trace.run d (all_arrivals cs)).1 % 2 ^ 64)
      × (counter missed_name m ≡ sum_over misses_in cs % 2 ^ 64)
      × (counter expired_name m ≡ sum_over expiries_in cs % 2 ^ 64)
      × (counter lost_name m ≡ sum_over losses_in cs % 2 ^ 64)
      × (counter refused_name m ≡ sum_over refusals_in cs % 2 ^ 64)

  counter_behind :
      (us ws : List Update) (m : MetricsRegistry D) (k : Bytes) (n : ℕ)
      → CountersOf (us ++ ws) m
      → total k us ≡ 0
      → total k ws ≡ n
      → counter k m ≡ n % 2 ^ 64
  counter_behind us ws m k n e z h =
      rw (counter_from (us ++ ws) m k e, total-append k us ws, z, h) (omega arith)

  pub counted :
      (us : List Update) (d : AnomalyDetector) (cs : List (Callback D)) (k : AnomalyKind)
      (m : MetricsRegistry D)
      → Silent k us
      → CountersOf (us ++ all_updates_of d cs) m
      → Counted d cs k m
  counted us d cs k m (a, b, c, x, y, z) e =
      let ws = all_updates_of d cs in
      let (kinds, samples) = all_total k d cs in
      (
        counter_behind us ws m samples_name _ e a samples,
        counter_behind us ws m (counter_of k) _ e b kinds,
        counter_behind us ws m missed_name _ e c
            (total_all missed_name misses_in missed_total d cs),
        counter_behind us ws m expired_name _ e x
            (total_all expired_name expiries_in expired_total d cs),
        counter_behind us ws m lost_name _ e y (total_all lost_name losses_in lost_total d cs),
        counter_behind us ws m refused_name _ e z
            (total_all refused_name refusals_in refused_total d cs),
      )
