-- ===== src/Programs/DdsSubscriber/Dashboard.antt =====
-- What a reader makes of the metrics that apps/dds_subscriber.cpp prints and writes to its file.
use resilient_dds_data_plane.Base.{
  ℕ, ◌+◌, ◌≡◌, refl, sym, inl, inr, true, Option, some, List, [], ◌∷◌, ◌++◌, ℤ, Bytes, codes, ltb,
  arith, Bool-cases,
}
use resilient_dds_data_plane.Base.Decimal.{show}
use resilient_dds_data_plane.Metrics.{
  MetricsRegistry, new_registry, increment, gauge, render_prometheus,
}
use resilient_dds_data_plane.Metrics.Counters.{Update, increment_all, increment_all-append}
use resilient_dds_data_plane.Metrics.Reading.{
  is_plain, names_unbroken, entries, read_metrics, read_metrics-render_prometheus,
}
use resilient_dds_data_plane.Health.Monitor.{snapshot}
use resilient_dds_data_plane.Audit.{AuditSink}
use resilient_dds_data_plane.Transport.Security.{DdsSecurityConfig, FileSystem}
use resilient_dds_data_plane.Transport.Start.{Vendor, is_enabled}
use resilient_dds_data_plane.Transport.StartRules.{started}
use resilient_dds_data_plane.Transport.Subscriber.{
  Subscriber, on_requested_deadline_missed, on_liveliness_changed, on_requested_incompatible_qos,
  on_sample_lost, on_subscription_matched,
}
use resilient_dds_data_plane.Transport.Pipeline.{arrivals}
use resilient_dds_data_plane.Transport.Latency.{Floats, latency}
use resilient_dds_data_plane.Transport.Tallies.{updates, metrics-on_data_available}
use resilient_dds_data_plane.Transport.Listener.{
  Callback, data_available, deadline_missed, liveliness_changed, sample_lost, subscription_matched,
  incompatible_qos, handle, handle_all, all_arrivals,
}
use resilient_dds_data_plane.Transport.Totals.{all_updates_of}
use resilient_dds_data_plane.Transport.Names.{
  ids_unbroken, updates_unbroken, updates_unbroken-append, names_unbroken-increment_all,
  names_unbroken-gauge, updates_unbroken-all_updates_of,
}
use resilient_dds_data_plane.Programs.DdsSubscriber.{
  Settings, Happening, called, polled, decided, settled, Running, happen, happen_all, begin,
}
use resilient_dds_data_plane.Programs.DdsSubscriber.Report.{health_level, values_of}
use resilient_dds_data_plane.Programs.DdsSubscriber.Ending.{come_in, set_gauges, finish}
use resilient_dds_data_plane.Programs.DdsSubscriber.Session.{
  callbacks, detector_of, security_of, begin_lem, Follows-session,
}

module _ {ℓ} {D : Type ℓ} where
  pub gauges-increment_all :
      (us : List Update) (m : MetricsRegistry D) → (increment_all us m).gauges ≡ m.gauges
  unfolding increment_all increment
  gauges-increment_all [] m = refl
  gauges-increment_all ((name, value) ∷ us) m = gauges-increment_all us (increment name value m)

  module _ (to_double : ℤ → D) {v : Vendor} where
    names_unbroken-handle :
        (c : Callback D) (s : Subscriber D v)
        → names_unbroken s.metrics.gauges ≡ true
        → names_unbroken (handle to_double c s).metrics.gauges ≡ true
    unfolding handle on_requested_deadline_missed on_liveliness_changed
        on_requested_incompatible_qos on_sample_lost on_subscription_matched increment
    names_unbroken-handle (data_available ts) s h =
        rw
          (
            metrics-on_data_available ts s,
            gauges-increment_all (updates s.detector (arrivals ts)) s.metrics,
          )
          h
    names_unbroken-handle (deadline_missed change) s h = h
    names_unbroken-handle (liveliness_changed change) s h = ground arith
    names_unbroken-handle (sample_lost change) s h = h
    names_unbroken-handle (subscription_matched count) s h =
        names_unbroken-gauge (codes "rdtf_subscription_matched") (to_double count) s.metrics refl h
    names_unbroken-handle incompatible_qos s h = h

    names_unbroken-happen_all :
        (source_id : Bytes) (t_start : ℤ) (xs : List (Happening D)) (r : Running D v)
        → names_unbroken r.subscriber.metrics.gauges ≡ true
        → names_unbroken (happen_all to_double source_id t_start xs r).subscriber.metrics.gauges
          ≡ true
    unfolding happen_all happen
    names_unbroken-happen_all source_id t_start [] r h = h
    names_unbroken-happen_all source_id t_start (called c ∷ xs) r h =
        names_unbroken-happen_all source_id t_start xs
          (record r { subscriber = handle to_double c r.subscriber })
          (names_unbroken-handle c r.subscriber h)
    names_unbroken-happen_all source_id t_start (polled now_ns printed_ns ∷ xs) r h =
        names_unbroken-happen_all source_id t_start xs
          (happen to_double source_id t_start (polled now_ns printed_ns) r) h
    names_unbroken-happen_all source_id t_start (decided now_ns ∷ xs) r h =
        names_unbroken-happen_all source_id t_start xs
          (happen to_double source_id t_start (decided now_ns) r) h
    names_unbroken-happen_all source_id t_start (settled printed_ns ∷ xs) r h =
        names_unbroken-happen_all source_id t_start xs
          (happen to_double source_id t_start (settled printed_ns) r) h

    names_unbroken-handle_all :
        (cs : List (Callback D)) (s : Subscriber D v)
        → names_unbroken s.metrics.gauges ≡ true
        → names_unbroken (handle_all to_double cs s).metrics.gauges ≡ true
    unfolding handle_all
    names_unbroken-handle_all [] s h = h
    names_unbroken-handle_all (c ∷ cs) s h =
        names_unbroken-handle_all cs (handle to_double c s) (names_unbroken-handle c s h)

started_unbroken : (o : Option DdsSecurityConfig) → updates_unbroken (started o) ≡ true
started_unbroken o = elim (Bool-cases (is_enabled o)) [ inl h ↦ rw h refl | inr h ↦ rw h refl ]

module _ (f : Floats) (between : ℕ → List (Callback f.Double)) {v : Vendor} where
  names_unbroken-set_gauges :
      (gs : List (Bytes × f.Double)) (i : ℕ) (s : Subscriber f.Double v)
      → names_unbroken gs ≡ true
      → names_unbroken s.metrics.gauges ≡ true
      → names_unbroken (set_gauges f between gs i s).metrics.gauges ≡ true
  unfolding set_gauges
  names_unbroken-set_gauges [] i s g h = h
  names_unbroken-set_gauges ((k, x) ∷ gs) i s g h =
      let set : Subscriber f.Double v = record s { metrics = gauge k x s.metrics } in
      names_unbroken-set_gauges gs (i + 1) (handle_all f.of_int (between i) set) (ground arith) (
        names_unbroken-handle_all f.of_int (between i) set
          (names_unbroken-gauge k x s.metrics (ground arith) h))

  names_unbroken-finish :
      (source_id : Bytes) (now_ns : ℤ) (s : Subscriber f.Double v)
      → names_unbroken s.metrics.gauges ≡ true
      → names_unbroken (finish f between source_id now_ns s).metrics.gauges ≡ true
  unfolding finish
  names_unbroken-finish source_id now_ns s h =
      let snap = snapshot s.health source_id now_ns in
      let level : Bytes × f.Double =
        (codes "rdtf_source_health_state", f.of_int (health_level snap.state)) in
      let first = handle_all f.of_int (between 0) s in
      let levelled = set_gauges f between (level ∷ []) 1 first in
      let lat = latency f levelled.latency_us in
      let kept = handle_all f.of_int (between 2) levelled in
      let plain = names_unbroken-handle_all f.of_int (between 2) levelled (
        names_unbroken-set_gauges (level ∷ []) 1 first refl
          (names_unbroken-handle_all f.of_int (between 0) s h)) in
      elim (Bool-cases (ltb 0 lat.count)) [
        | inl c ↦ rw c (names_unbroken-set_gauges (values_of f lat) 3 kept refl plain)
        | inr c ↦ rw c (names_unbroken-handle_all f.of_int (come_in between 8 3) kept plain)
      ]

-- Where no source id of a valid sample has a line break, the metrics that a run of the subscriber
-- prints can be trusted line by line: whatever callbacks and rounds of the poller come in, callbacks
-- still at the end included, a reader of the text gets each counter of the final registry with its
-- value and each gauge as it is printed, in order and nothing else. Gauges are taken to be printed
-- without blanks and line breaks.
pub session_reads :
    (f : Floats) {v : Vendor} (fixed : f.Double → Bytes) (fs : FileSystem) (o : Settings)
    (audit : Option AuditSink) (r : Running f.Double v) (t_start : ℤ)
    (xs : List (Happening f.Double)) (now_ns : ℤ) (between : ℕ → List (Callback f.Double))
    → begin fs o audit ≡ some r
    → ((x : f.Double) → is_plain (fixed x) ≡ true)
    → ids_unbroken (all_arrivals (callbacks xs ++ come_in between 11 0)) ≡ true
    → let q = happen_all f.of_int o.source_id t_start xs r in
      let m = (finish f between o.source_id now_ns q.subscriber).metrics in
      read_metrics (render_prometheus fixed m) ≡ entries show m.counters ++ entries fixed m.gauges
unfolding new_registry
session_reads f fixed fs o audit r t_start xs now_ns between h p u =
    let (d, e, i, w, g) = begin_lem fs o audit r h in
    let n = new_registry {D = f.Double} in
    let start = started (security_of o) in
    let cs = callbacks xs ++ come_in between 11 0 in
    let us = all_updates_of (detector_of o) cs in
    let q = happen_all f.of_int o.source_id t_start xs r in
    let end = finish f between o.source_id now_ns q.subscriber in
    let whole = Follows-session f o.source_id t_start xs now_ns between r in
    let all_us =
      updates_unbroken-append start us (started_unbroken (security_of o))
        (updates_unbroken-all_updates_of (detector_of o) cs u) in
    let counters : names_unbroken end.metrics.counters ≡ true =
      rw (whole.counters, d, g, sym (increment_all-append start us n))
        (names_unbroken-increment_all (start ++ us) n all_us refl) in
    let gauges =
      names_unbroken-happen_all f.of_int o.source_id t_start xs r
        (rw (g, gauges-increment_all start n) refl) in
    read_metrics-render_prometheus fixed end.metrics p counters
      (names_unbroken-finish f between o.source_id now_ns q.subscriber gauges)
