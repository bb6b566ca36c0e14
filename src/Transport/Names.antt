-- ===== src/Transport/Names.antt =====
-- The names of the metrics of src/dds_transport.cpp, where no source id has a line break.
use resilient_dds_data_plane.Base.{
  ◌+◌, ◌%◌, ◌^◌, ◌≡◌, refl, Bool, true, ◌&&◌, List, [], ◌∷◌, ◌++◌, ℤ, Bytes, codes, arith,
}
use mathlib.Core.List.{append-nil}
use resilient_dds_data_plane.Base.Lines.{unbroken}
use resilient_dds_data_plane.Telemetry.{
  AnomalyKind, duplicate, sequence_gap, out_of_order, stale, future_timestamp, schema_mismatch,
  kind_to_string, TelemetrySample,
}
use resilient_dds_data_plane.Detector.{
  AnomalyDetector, AnomalyEvent, evaluate, schema_events, freshness_events, sequence_guard,
}
use resilient_dds_data_plane.Detector.Trace
use resilient_dds_data_plane.Metrics.{MetricsRegistry, increment, gauge}
use resilient_dds_data_plane.Metrics.Ordered.{SortedMap, insert_with}
use resilient_dds_data_plane.Metrics.Counters.{Update, increment_all}
use resilient_dds_data_plane.Metrics.Reading.{names_unbroken}
use resilient_dds_data_plane.Transport.Subscriber.{kind_counter, kind_key_counter, key_counter}
use resilient_dds_data_plane.Transport.Pipeline.{arrivals}
use resilient_dds_data_plane.Transport.Tallies.{updates, event_updates}
use resilient_dds_data_plane.Transport.Listener.{
  Callback, data_available, deadline_missed, liveliness_changed, sample_lost, subscription_matched,
  incompatible_qos, all_arrivals,
}
use resilient_dds_data_plane.Transport.Totals.{updates_of, detector_after, all_updates_of}

unbroken-append : (s t : Bytes) → unbroken s ≡ true → unbroken t ≡ true → unbroken (s ++ t) ≡ true
unbroken-append [] t h k = k
unbroken-append (c ∷ s) t h k = ground (arith, unbroken-append s t)

names_unbroken-insert_with {ℓ} :
    {V : Type ℓ} (k : Bytes) (f : V → V) (d : V) (m : SortedMap V)
    → unbroken k ≡ true
    → names_unbroken m ≡ true
    → names_unbroken (insert_with k f d m) ≡ true
unfolding insert_with
names_unbroken-insert_with k f d [] u h = ground arith
names_unbroken-insert_with k f d ((j, v) ∷ m) u h =
    ground (arith, names_unbroken-insert_with k f d m)

-- Updates of names without line breaks.
abbrev pub updates_unbroken : List Update → Bool
updates_unbroken [] = true
updates_unbroken ((name, value) ∷ us) = unbroken name && updates_unbroken us

pub updates_unbroken-append :
    (us ws : List Update)
    → updates_unbroken us ≡ true
    → updates_unbroken ws ≡ true
    → updates_unbroken (us ++ ws) ≡ true
updates_unbroken-append [] ws h k = k
updates_unbroken-append ((name, value) ∷ us) ws h k = ground (arith, updates_unbroken-append us ws)

pub names_unbroken-increment_all {ℓ} :
    {D : Type ℓ} (us : List Update) (m : MetricsRegistry D)
    → updates_unbroken us ≡ true
    → names_unbroken m.counters ≡ true
    → names_unbroken (increment_all us m).counters ≡ true
unfolding increment_all increment
names_unbroken-increment_all [] m u h = h
names_unbroken-increment_all ((name, value) ∷ us) m u h =
    names_unbroken-increment_all us (increment name value m) (ground arith) (
      names_unbroken-insert_with name (λ old. (old + value) % 2 ^ 64) 0 m.counters (ground arith) h)

pub names_unbroken-gauge {ℓ} :
    {D : Type ℓ} (name : Bytes) (x : D) (m : MetricsRegistry D)
    → unbroken name ≡ true
    → names_unbroken m.gauges ≡ true
    → names_unbroken (gauge name x m).gauges ≡ true
unfolding gauge
names_unbroken-gauge name x m = names_unbroken-insert_with name (λ old. x) x m.gauges

unbroken-kind_to_string : (k : AnomalyKind) → unbroken (kind_to_string k) ≡ true
unfolding kind_to_string
unbroken-kind_to_string duplicate = refl
unbroken-kind_to_string sequence_gap = refl
unbroken-kind_to_string out_of_order = refl
unbroken-kind_to_string stale = refl
unbroken-kind_to_string future_timestamp = refl
unbroken-kind_to_string schema_mismatch = refl

abbrev sources_unbroken : List AnomalyEvent → Bool
sources_unbroken [] = true
sources_unbroken (e ∷ es) = unbroken e.source_id && sources_unbroken es

event_updates_unbroken :
    (es : List AnomalyEvent)
    → sources_unbroken es ≡ true
    → updates_unbroken (event_updates es) ≡ true
unfolding kind_counter kind_key_counter
event_updates_unbroken [] h = refl
event_updates_unbroken (e ∷ es) h =
    let kind = kind_to_string e.kind in
    let id = unbroken-append e.source_id (codes "\"}") (ground arith) refl in
    ground (
      arith,
      unbroken-append kind (codes "_total") (unbroken-kind_to_string e.kind) refl,
      unbroken-append kind (codes "\",key=\"" ++ (e.source_id ++ codes "\"}"))
          (unbroken-kind_to_string e.kind) id,
      event_updates_unbroken es,
    )

sources_unbroken-append :
    (es fs : List AnomalyEvent)
    → sources_unbroken es ≡ true
    → sources_unbroken fs ≡ true
    → sources_unbroken (es ++ fs) ≡ true
sources_unbroken-append [] fs h k = k
sources_unbroken-append (e ∷ es) fs h k = ground (arith, sources_unbroken-append es fs)

module _ {ℓ} {D : Type ℓ} where
  sources_unbroken-evaluate :
      (d : AnomalyDetector) (x : TelemetrySample D) (now_ns : ℤ)
      → unbroken x.source_id ≡ true
      → sources_unbroken (evaluate d x now_ns).1 ≡ true
  unfolding evaluate schema_events freshness_events sequence_guard
  sources_unbroken-evaluate d x now_ns h = ground arith

  -- No source id of a sample has a line break.
  abbrev pub ids_unbroken : List (Trace.Arrival D) → Bool
  ids_unbroken [] = true
  ids_unbroken ((x, now_ns) ∷ xs) = unbroken x.source_id && ids_unbroken xs

  ids_unbroken-append :
      (xs ys : List (Trace.Arrival D))
      → ids_unbroken (xs ++ ys) ≡ true
      → (ids_unbroken xs ≡ true) × (ids_unbroken ys ≡ true)
  ids_unbroken-append [] ys h = (refl, h)
  ids_unbroken-append ((x, now_ns) ∷ xs) ys h = ground (arith, ids_unbroken-append xs ys)

  updates_unbroken-updates :
      (d : AnomalyDetector) (xs : List (Trace.Arrival D))
      → ids_unbroken xs ≡ true
      → updates_unbroken (updates d xs) ≡ true
  unfolding key_counter
  updates_unbroken-updates d [] h = refl
  updates_unbroken-updates d ((x, now_ns) ∷ xs) h =
      let (d', found) = evaluate d x now_ns in
      let id = unbroken-append x.source_id (codes "\"}") (ground arith) refl in
      let events =
        event_updates_unbroken found (sources_unbroken-evaluate d x now_ns (ground arith)) in
      let rest = updates_unbroken-updates d' xs (ground arith) in
      ground (arith, id, updates_unbroken-append (event_updates found) (updates d' xs) events rest)

  updates_unbroken-updates_of :
      (d : AnomalyDetector) (c : Callback D)
      → ids_unbroken (all_arrivals (c ∷ [])) ≡ true
      → updates_unbroken (updates_of d c) ≡ true
  updates_unbroken-updates_of d (data_available ts) h =
      updates_unbroken-updates d (arrivals ts) (ids_unbroken-append (arrivals ts) [] h).0
  updates_unbroken-updates_of d (deadline_missed change) h = refl
  updates_unbroken-updates_of d (liveliness_changed change) h = ground arith
  updates_unbroken-updates_of d (sample_lost change) h = refl
  updates_unbroken-updates_of d (subscription_matched count) h = refl
  updates_unbroken-updates_of d incompatible_qos h = refl

  pub updates_unbroken-all_updates_of :
      (d : AnomalyDetector) (cs : List (Callback D))
      → ids_unbroken (all_arrivals cs) ≡ true
      → updates_unbroken (all_updates_of d cs) ≡ true
  updates_unbroken-all_updates_of d [] h = refl
  updates_unbroken-all_updates_of d (c ∷ cs) h =
      let (one, rest) = split c cs h in
      updates_unbroken-append (updates_of d c) (all_updates_of (detector_after d c) cs)
        (updates_unbroken-updates_of d c one)
        (updates_unbroken-all_updates_of (detector_after d c) cs rest)
    where
      split :
          (c : Callback D) (cs : List (Callback D))
          → ids_unbroken (all_arrivals (c ∷ cs)) ≡ true
          → (ids_unbroken (all_arrivals (c ∷ [])) ≡ true) × (ids_unbroken (all_arrivals cs) ≡ true)
      split (data_available ts) cs h =
          let (a, b) = ids_unbroken-append (arrivals ts) (all_arrivals cs) h in
          (rw (append-nil (arrivals ts)) a, b)
      split (deadline_missed change) cs h = (refl, h)
      split (liveliness_changed change) cs h = (refl, h)
      split (sample_lost change) cs h = (refl, h)
      split (subscription_matched count) cs h = (refl, h)
      split incompatible_qos cs h = (refl, h)
