-- ===== src/Programs/DdsSubscriber/Session.antt =====
-- The run of apps/dds_subscriber.cpp from its options to the registry that it renders.
use resilient_dds_data_plane.Base.{
  ℕ, ◌≡◌, refl, sym, ◌∙◌, ap, true, Option, none, some, List, [], ◌∷◌, ◌++◌, ℤ, pos, Bytes, arith,
  if◌then◌else◌,
}
use resilient_dds_data_plane.Telemetry.{current_schema_version}
use resilient_dds_data_plane.Detector.{AnomalyDetector, new_detector}
use resilient_dds_data_plane.Health.Monitor.{HealthMonitor, new_monitor}
use resilient_dds_data_plane.Metrics.{new_registry}
use resilient_dds_data_plane.Metrics.Counters.{
  counters-increment_all, IsValid, increment_all, increment_all-append,
}
use resilient_dds_data_plane.Audit.{AuditSink}
use resilient_dds_data_plane.Transport.Security.{
  udp_only, defaults, DdsSecurityConfig, FileSystem, security_from_directory,
}
use resilient_dds_data_plane.Transport.Start.{Vendor}
use resilient_dds_data_plane.Transport.StartRules
use resilient_dds_data_plane.Transport.StartRules.{started}
use resilient_dds_data_plane.Transport.Subscriber.{
  new_subscriber, set_source, set_processing_delay_us, start,
}
use resilient_dds_data_plane.Transport.Latency.{Floats}
use resilient_dds_data_plane.Transport.Listener.{Callback, handle}
use resilient_dds_data_plane.Transport.Totals.{
  updates_of, detector_after, all_updates_of, handle_updates,
}
use resilient_dds_data_plane.Programs.DdsSubscriber.{
  Settings, new_poller, Happening, called, polled, decided, settled, Running, happen, happen_all,
  set_up, begin, chosen_profile,
}
use resilient_dds_data_plane.Programs.DdsSubscriber.Ending.{
  come_in, finish, detector_behind, Follows, Follows-append, Follows-finish,
}

module _ {ℓ} {D : Type ℓ} where
  -- The callbacks among what happens.
  abbrev pub callbacks : List (Happening D) → List (Callback D)
  callbacks [] = []
  callbacks (called c ∷ xs) = c ∷ callbacks xs
  callbacks (polled now_ns printed_ns ∷ xs) = callbacks xs
  callbacks (decided now_ns ∷ xs) = callbacks xs
  callbacks (settled printed_ns ∷ xs) = callbacks xs

  -- The rounds of the poller leave the counters alone.
  pub happen_all_updates :
      (to_double : ℤ → D) (source_id : Bytes) (t_start : ℤ) {v : Vendor} (xs : List (Happening D))
      (r : Running D v)
      → let q = happen_all to_double source_id t_start xs r in
        (q.subscriber.metrics.counters
          ≡ (increment_all
              (all_updates_of r.subscriber.detector (callbacks xs))
              r.subscriber.metrics).counters)
        × (IsValid r.subscriber.metrics → IsValid q.subscriber.metrics)
  unfolding happen_all happen increment_all
  happen_all_updates to_double source_id t_start [] r = (refl, λ w. w)
  happen_all_updates to_double source_id t_start (called c ∷ xs) r =
      let s = r.subscriber in
      let after = handle to_double c s in
      let (m, d, k) = handle_updates to_double c s in
      let (n, l) =
        happen_all_updates to_double source_id t_start xs (record r { subscriber = after }) in
      let us = all_updates_of (detector_after s.detector c) (callbacks xs) in
      (
        n
            ∙ ap (λ e. (increment_all (all_updates_of e (callbacks xs)) after.metrics).counters) d
            ∙ counters-increment_all us after.metrics
                (increment_all (updates_of s.detector c) s.metrics) m
            ∙ sym (
                ap (λ g. g.counters) (increment_all-append (updates_of s.detector c) us s.metrics)),
        λ w. l (k w),
      )
  happen_all_updates to_double source_id t_start (polled now_ns printed_ns ∷ xs) r =
      happen_all_updates to_double source_id t_start xs
        (happen to_double source_id t_start (polled now_ns printed_ns) r)
  happen_all_updates to_double source_id t_start (decided now_ns ∷ xs) r =
      happen_all_updates to_double source_id t_start xs
        (happen to_double source_id t_start (decided now_ns) r)
  happen_all_updates to_double source_id t_start (settled printed_ns ∷ xs) r =
      happen_all_updates to_double source_id t_start xs
        (happen to_double source_id t_start (settled printed_ns) r)

module _ {ℓ} {D : Type ℓ} (to_double : ℤ → D) (source_id : Bytes) (t_start : ℤ) {v : Vendor} where
  detector-happen_all :
      (xs : List (Happening D)) (r : Running D v)
      → (happen_all to_double source_id t_start xs r).subscriber.detector
        ≡ detector_behind r.subscriber.detector (callbacks xs)
  unfolding happen_all happen
  detector-happen_all [] r = refl
  detector-happen_all (called c ∷ xs) r =
      let s = r.subscriber in
      detector-happen_all xs (record r { subscriber = handle to_double c s })
      ∙ ap (λ d. detector_behind d (callbacks xs)) (handle_updates to_double c s).1
  detector-happen_all (polled now_ns printed_ns ∷ xs) r =
      detector-happen_all xs (happen to_double source_id t_start (polled now_ns printed_ns) r)
  detector-happen_all (decided now_ns ∷ xs) r =
      detector-happen_all xs (happen to_double source_id t_start (decided now_ns) r)
  detector-happen_all (settled printed_ns ∷ xs) r =
      detector-happen_all xs (happen to_double source_id t_start (settled printed_ns) r)

  Follows-happen_all :
      (xs : List (Happening D)) (r : Running D v)
      → Follows (callbacks xs) r.subscriber (happen_all to_double source_id t_start xs r).subscriber
  Follows-happen_all xs r =
      let (us, keeps) = happen_all_updates to_double source_id t_start xs r in
      record { counters = us; detector = detector-happen_all xs r; valid = keeps }

-- The detector and the monitor that the options set up.
abbrev pub detector_of : Settings → AnomalyDetector
detector_of o = new_detector (record {
  max_age_ms = o.max_age_ms;
  max_future_skew_ms = pos 50;
  expected_schema_version = current_schema_version;
})

abbrev pub monitor_of : HealthMonitor
monitor_of = new_monitor (record {
  degraded_after_ms = pos 250;
  lost_after_ms = pos 1000;
  degrade_after_misses = 2;
  recover_after_samples = 3;
})

abbrev pub security_of : Settings → Option DdsSecurityConfig
security_of o =
    let security = security_from_directory o.security_dir o.security_role true in
    if security.enabled then some security else none

module _ {ℓ} {D : Type ℓ} {v : Vendor} (fs : FileSystem) (o : Settings)
    (audit : Option AuditSink) where
  pub begin_lem :
      (r : Running D v)
      → begin fs o audit ≡ some r
      → (r.subscriber.detector ≡ detector_of o)
        × (r.subscriber.health ≡ monitor_of)
        × (r.subscriber.source_hint ≡ o.source_id)
        × (r.poller ≡ new_poller)
        × (r.subscriber.metrics ≡ increment_all (started (security_of o)) (new_registry {D = D}))
  unfolding begin start set_up set_source set_processing_delay_us new_subscriber
  begin_lem r h =
      let m =
        StartRules.start_counts v fs o.domain o.topic (chosen_profile o)
          (if o.allow_shm then defaults else udp_only) (security_of o) (new_registry {D = D}) in
      ground (arith, m)

-- The run from behind the setting up to the end.
pub Follows-session :
    (f : Floats) {v : Vendor} (source_id : Bytes) (t_start : ℤ) (xs : List (Happening f.Double))
    (now_ns : ℤ) (between : ℕ → List (Callback f.Double)) (r : Running f.Double v)
    → let q = happen_all f.of_int source_id t_start xs r in
      Follows
        (callbacks xs ++ come_in between 11 0)
        r.subscriber
        (finish f between source_id now_ns q.subscriber)
Follows-session f source_id t_start xs now_ns between r =
    let q = happen_all f.of_int source_id t_start xs r in
    Follows-append (callbacks xs) (come_in between 11 0) r.subscriber q.subscriber
      (finish f between source_id now_ns q.subscriber)
      (Follows-happen_all f.of_int source_id t_start xs r)
      (Follows-finish f between source_id now_ns q.subscriber)
