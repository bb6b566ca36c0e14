-- ===== src/Programs/DdsSubscriber/Shown.antt =====
-- What the gauges of apps/dds_subscriber.cpp show at its end.
use resilient_dds_data_plane.Base.{
  ℕ, ◌+◌, ◌≡◌, refl, sym, ◌∙◌, ap, false, Bool-cases, inl, inr, Option, some, List, [], ◌∷◌, ℤ, pos,
  Bytes, codes, arith, ltb, if◌then◌else◌, str_eq,
}
use resilient_dds_data_plane.Health.State.{healthy, degraded, lost}
use resilient_dds_data_plane.Health.Monitor.{snapshot}
use resilient_dds_data_plane.Metrics.{increment, gauge}
use resilient_dds_data_plane.Metrics.Ordered
use resilient_dds_data_plane.Metrics.Ordered.{find-insert_with}
use resilient_dds_data_plane.Metrics.Counters.{IsValid, gauge-IsValid}
use resilient_dds_data_plane.Transport.Start.{Vendor}
use resilient_dds_data_plane.Transport.Subscriber.{
  Subscriber, on_requested_deadline_missed, on_liveliness_changed, on_requested_incompatible_qos,
  on_sample_lost, on_subscription_matched,
}
use resilient_dds_data_plane.Transport.Pipeline.{arrivals}
use resilient_dds_data_plane.Transport.Latency.{Floats, latency}
use resilient_dds_data_plane.Transport.Tallies.{updates, metrics-on_data_available}
use resilient_dds_data_plane.Transport.Listener.{
  Callback, data_available, deadline_missed, liveliness_changed, sample_lost, subscription_matched,
  incompatible_qos, handle, handle_all,
}
use resilient_dds_data_plane.Transport.Totals.{handle_updates, handle_all_updates}
use resilient_dds_data_plane.Programs.DdsSubscriber.Gauges.{ShowsLatencies, shows_latencies}
use resilient_dds_data_plane.Programs.DdsSubscriber.Report.{health_level, values_of, last_value}
use resilient_dds_data_plane.Programs.DdsSubscriber.Ending.{come_in, set_gauges, finish}
use resilient_dds_data_plane.Programs.DdsSubscriber.Dashboard.{gauges-increment_all}

module _ {ℓ} {D : Type ℓ} (to_double : ℤ → D) {v : Vendor} (k : Bytes)
    (other : str_eq (codes "rdtf_subscription_matched") k ≡ false) where
  find-handle :
      (c : Callback D) (s : Subscriber D v)
      → IsValid s.metrics
      → Ordered.find k (handle to_double c s).metrics.gauges ≡ Ordered.find k s.metrics.gauges
  unfolding handle on_requested_deadline_missed on_liveliness_changed on_requested_incompatible_qos
      on_sample_lost on_subscription_matched increment gauge
  find-handle (data_available ts) s w =
      rw
        (
          metrics-on_data_available ts s,
          gauges-increment_all (updates s.detector (arrivals ts)) s.metrics,
        )
        refl
  find-handle (deadline_missed change) s w = refl
  find-handle (liveliness_changed change) s w = ground arith
  find-handle (sample_lost change) s w = refl
  find-handle (subscription_matched count) s w =
      let x = to_double count in
      find-insert_with (codes "rdtf_subscription_matched") k (λ old. x) x s.metrics.gauges w.1
      ∙ rw other refl
  find-handle incompatible_qos s w = refl

  find-handle_all :
      (cs : List (Callback D)) (s : Subscriber D v)
      → IsValid s.metrics
      → Ordered.find k (handle_all to_double cs s).metrics.gauges ≡ Ordered.find k s.metrics.gauges
  unfolding handle_all
  find-handle_all [] s w = refl
  find-handle_all (c ∷ cs) s w =
      find-handle_all cs (handle to_double c s) ((handle_updates to_double c s).2 w)
      ∙ find-handle c s w

module _ (f : Floats) (between : ℕ → List (Callback f.Double)) {v : Vendor} (k : Bytes)
    (other : str_eq (codes "rdtf_subscription_matched") k ≡ false) where
  find-set_gauges :
      (gs : List (Bytes × f.Double)) (i : ℕ) (s : Subscriber f.Double v)
      → IsValid s.metrics
      → (Ordered.find k (set_gauges f between gs i s).metrics.gauges
          ≡ last_value k (Ordered.find k s.metrics.gauges) gs)
        × IsValid (set_gauges f between gs i s).metrics
  unfolding set_gauges gauge
  find-set_gauges [] i s w = (refl, w)
  find-set_gauges ((j, x) ∷ gs) i s w =
      let set : Subscriber f.Double v = record s { metrics = gauge j x s.metrics } in
      let valid = gauge-IsValid j x s.metrics w in
      let (a, b) =
        find-set_gauges gs (i + 1) (handle_all f.of_int (between i) set)
          ((handle_all_updates f.of_int (between i) set).1 valid) in
      (
        rw
            (
              sym (find-insert_with j k (λ old. x) x s.metrics.gauges w.1),
              sym (find-handle_all f.of_int k other (between i) set valid),
            )
            a,
        b,
      )

-- The subscriber when the program asks for the statistics.
abbrev pub at_statistics :
    (f : Floats)
    → (ℕ → List (Callback f.Double))
    → {v : Vendor} → Bytes
    → ℤ
    → Subscriber f.Double v
    → Subscriber f.Double v
at_statistics f between source_id now_ns s =
    let level = f.of_int (health_level (snapshot s.health source_id now_ns).state) in
    set_gauges f between ((codes "rdtf_source_health_state", level) ∷ []) 1
      (handle_all f.of_int (between 0) s)

module _ (f : Floats) (between : ℕ → List (Callback f.Double)) {v : Vendor} (source_id : Bytes)
    (now_ns : ℤ) (s : Subscriber f.Double v) (w : IsValid s.metrics) where
  find-finish :
      (k : Bytes) (y z : Option f.Double)
      → str_eq (codes "rdtf_subscription_matched") k ≡ false
      → let level : Bytes × f.Double = (
        codes "rdtf_source_health_state",
        f.of_int (health_level (snapshot s.health source_id now_ns).state),
      ) in
        let lat = latency f (at_statistics f between source_id now_ns s).latency_us in
        let old = Ordered.find k s.metrics.gauges in
        last_value k old (level ∷ values_of f lat) ≡ y
        → last_value k old (level ∷ []) ≡ z
        → Ordered.find k (finish f between source_id now_ns s).metrics.gauges
          ≡ (if ltb 0 lat.count then y else z)
  unfolding finish
  find-finish k y z other e g =
      let level : Bytes × f.Double = (
        codes "rdtf_source_health_state",
        f.of_int (health_level (snapshot s.health source_id now_ns).state),
      ) in
      let first = handle_all f.of_int (between 0) s in
      let levelled = at_statistics f between source_id now_ns s in
      let lat = latency f levelled.latency_us in
      let kept = handle_all f.of_int (between 2) levelled in
      let first_valid = (handle_all_updates f.of_int (between 0) s).1 w in
      let (set, valid) = find-set_gauges f between k other (level ∷ []) 1 first first_valid in
      let kept_valid = (handle_all_updates f.of_int (between 2) levelled).1 valid in
      let so_far =
        find-handle_all f.of_int k other (between 2) levelled valid
        ∙ set
        ∙ ap (λ o. last_value k o (level ∷ []))
            (find-handle_all f.of_int k other (between 0) s w) in
      elim (Bool-cases (ltb 0 lat.count)) [
        | inl c ↦ rw c (
            (find-set_gauges f between k other (values_of f lat) 3 kept kept_valid).0
            ∙ ap (λ o. last_value k o (values_of f lat)) so_far
            ∙ e)
        | inr c ↦
            rw c
              (find-handle_all f.of_int k other (come_in between 8 3) kept kept_valid ∙ so_far ∙ g)
      ]

-- Whatever callbacks come in at the end, until the registry is rendered: the gauge of the source's
-- health is 2 if the snapshot is healthy, 1 if degraded and 0 if lost. If latencies have been recorded
-- when the program asks for their statistics, the gauge of the minimum shows the least of them and that
-- of the maximum the greatest, and those of the percentiles show the values at their nearest ranks,
-- with fewer latencies than the rank below them and at least that many not above; the gauges of the
-- mean and of the standard deviation show what `latency` computes. Otherwise these gauges are as they
-- were.
pub finish_shows :
    (f : Floats) (between : ℕ → List (Callback f.Double)) {v : Vendor} (source_id : Bytes)
    (now_ns : ℤ) (s : Subscriber f.Double v)
    → IsValid s.metrics
    → let m = (finish f between source_id now_ns s).metrics in
      let level : ℤ = elim (snapshot s.health source_id now_ns).state [
        | healthy ↦ pos 2
        | degraded ↦ pos 1
        | lost ↦ pos 0
      ] in
      (Ordered.find (codes "rdtf_source_health_state") m.gauges ≡ some (f.of_int level))
      × ShowsLatencies f s.metrics m (at_statistics f between source_id now_ns s).latency_us
unfolding health_level str_eq
finish_shows f between source_id now_ns s w =
    let m = (finish f between source_id now_ns s).metrics in
    let samples = (at_statistics f between source_id now_ns s).latency_us in
    let shows = find-finish f between source_id now_ns s w in
    let top = shows (codes "rdtf_source_health_state") _ _ refl refl refl in
    (
      elim (Bool-cases (ltb 0 (latency f samples).count)) [
        | inl c ↦ (rw c at top)
        | inr c ↦ (rw c at top)
      ],
      shows_latencies f s.metrics m samples (
        shows (codes "rdtf_e2e_latency_min_us") _ _ refl refl refl,
        shows (codes "rdtf_e2e_latency_mean_us") _ _ refl refl refl,
        shows (codes "rdtf_e2e_latency_p50_us") _ _ refl refl refl,
        shows (codes "rdtf_e2e_latency_p95_us") _ _ refl refl refl,
        shows (codes "rdtf_e2e_latency_p99_us") _ _ refl refl refl,
        shows (codes "rdtf_e2e_latency_p999_us") _ _ refl refl refl,
        shows (codes "rdtf_e2e_latency_stddev_us") _ _ refl refl refl,
        shows (codes "rdtf_e2e_latency_max_us") _ _ refl refl refl,
      ),
    )
