-- ===== src/Transport/Tallies.antt =====
-- What the counters that `on_data_available` of src/dds_transport.cpp increments come to.
use resilient_dds_data_plane.Base.{
  ℕ, ◌+◌, ◌%◌, ◌^◌, ◌≤◌, ◌<◌, ◌≡◌, refl, sym, ◌∙◌, inl, inr, true, false, List, [], ◌∷◌, ◌++◌, ℤ,
  ◌-ℤ◌, quot, Bytes, codes, arith, ◌==◌, if◌then◌else◌, length, length-append, str_eq, Bool-cases,
}
use resilient_dds_data_plane.Telemetry.{
  AnomalyKind, duplicate, sequence_gap, out_of_order, stale, future_timestamp, schema_mismatch,
  kind_code, kind_to_string,
}
use resilient_dds_data_plane.Detector.{AnomalyDetector, AnomalyEvent, evaluate}
use resilient_dds_data_plane.Detector.Trace
use resilient_dds_data_plane.Metrics.{new_registry}
use resilient_dds_data_plane.Metrics.Counters.{
  IsValid, counter-increment_all, Update, increment_all, counter, total, total-append,
  increment_all-append, from_new,
}
use resilient_dds_data_plane.Transport.Start.{Vendor}
use resilient_dds_data_plane.Transport.Subscriber.{
  Subscriber, Taken, latency_cap, kind_counter, kind_key_counter, key_counter, received,
  record_latency, report, report_all, accept, take_sample, on_data_available,
}
use resilient_dds_data_plane.Transport.Pipeline.{arrivals, take_sample_valid, take_sample_invalid}

abbrev pub event_updates : List AnomalyEvent → List Update
event_updates [] = []
event_updates (e ∷ es) = (kind_counter e, 1) ∷ (kind_key_counter e, 1) ∷ event_updates es

abbrev pub sample_updates : Bytes → List Update
sample_updates id = (codes "rdtf_samples_received_total", 1) ∷ (key_counter id, 1) ∷ []

abbrev pub updates {ℓ} : {D : Type ℓ} → AnomalyDetector → List (Trace.Arrival D) → List Update
updates d [] = []
updates d ((x, now_ns) ∷ xs) =
    let (d', found) = evaluate d x now_ns in
    (sample_updates x.source_id ++ event_updates found) ++ updates d' xs

-- How many events are of a kind.
abbrev pub count_kind : AnomalyKind → List AnomalyEvent → ℕ
count_kind k [] = 0
count_kind k (e ∷ es) = (if kind_code e.kind == kind_code k then 1 else 0) + count_kind k es

pub count_kind-append :
    (k : AnomalyKind) (xs ys : List AnomalyEvent)
    → count_kind k (xs ++ ys) ≡ count_kind k xs + count_kind k ys
count_kind-append k [] ys = omega arith
count_kind-append k (e ∷ xs) ys = ground (arith, count_kind-append k xs ys)

-- The counter of a kind.
abbrev pub counter_of : AnomalyKind → Bytes
counter_of k = codes "rdtf_anomaly_" ++ (kind_to_string k ++ codes "_total")

module _ {ℓ} {D : Type ℓ} {v : Vendor} where
  metrics-report_all :
      (observed : ℤ) (es : List AnomalyEvent) (s : Subscriber D v)
      → (report_all observed es s).metrics ≡ increment_all (event_updates es) s.metrics
  unfolding report_all report increment_all
  metrics-report_all observed [] s = refl
  metrics-report_all observed (e ∷ es) s = metrics-report_all observed es (report observed e s)

  metrics-take_sample :
      (t : Taken D) (s : Subscriber D v)
      → t.valid_data ≡ true
      → (take_sample t s).metrics
        ≡ increment_all
            (sample_updates (received t).source_id
              ++ event_updates (evaluate s.detector (received t) t.received_ns).1)
            s.metrics
  unfolding take_sample accept increment_all
  metrics-take_sample t s h = ground (
    arith,
    metrics-report_all t.received_ns (evaluate s.detector (received t) t.received_ns).1
        (accept t s),
  )

  pub metrics-on_data_available :
      (ts : List (Taken D)) (s : Subscriber D v)
      → (on_data_available ts s).metrics
        ≡ increment_all (updates s.detector (arrivals ts)) s.metrics
  unfolding on_data_available increment_all
  metrics-on_data_available [] s = refl
  metrics-on_data_available (t ∷ ts) s = elim (Bool-cases t.valid_data) [
    | inl h ↦ ground (
      arith,
      metrics-take_sample t s h,
      take_sample_valid t s h,
      metrics-on_data_available ts (take_sample t s),
      increment_all-append
          (sample_updates (received t).source_id
            ++ event_updates (evaluate s.detector (received t) t.received_ns).1)
          (updates (evaluate s.detector (received t) t.received_ns).0 (arrivals ts)) s.metrics,
    )
    | inr h ↦ ground (arith, take_sample_invalid t s h, metrics-on_data_available ts s)
  ]

total-event_updates_received :
    (es : List AnomalyEvent) → total (codes "rdtf_samples_received_total") (event_updates es) ≡ 0
unfolding kind_counter kind_key_counter str_eq
total-event_updates_received [] = refl
total-event_updates_received (e ∷ es) = omega (arith, total-event_updates_received es)

pub same_counter :
    (j k : AnomalyKind) → str_eq (counter_of j) (counter_of k) ≡ (kind_code j == kind_code k)
unfolding kind_to_string str_eq
same_counter duplicate k = ground arith
same_counter sequence_gap k = ground arith
same_counter out_of_order k = ground arith
same_counter stale k = ground arith
same_counter future_timestamp k = ground arith
same_counter schema_mismatch k = ground arith

kind_key_other :
    (k : AnomalyKind) (e : AnomalyEvent) → str_eq (kind_key_counter e) (counter_of k) ≡ false
unfolding kind_key_counter kind_to_string str_eq
kind_key_other duplicate e = refl
kind_key_other sequence_gap e = refl
kind_key_other out_of_order e = refl
kind_key_other stale e = refl
kind_key_other future_timestamp e = refl
kind_key_other schema_mismatch e = refl

total-sample_updates :
    (k : AnomalyKind) (id : Bytes)
    → (total (counter_of k) (sample_updates id) ≡ 0)
      × (total (codes "rdtf_samples_received_total") (sample_updates id) ≡ 1)
unfolding key_counter str_eq
total-sample_updates k id = (refl, refl)

total-event_updates :
    (k : AnomalyKind) (es : List AnomalyEvent)
    → total (counter_of k) (event_updates es) ≡ count_kind k es
unfolding kind_counter
total-event_updates k [] = refl
total-event_updates k (e ∷ es) =
    rw (same_counter e.kind k, kind_key_other k e) (ground (arith, total-event_updates k es))

module _ {ℓ} {D : Type ℓ} where
  pub total-updates :
      (k : AnomalyKind) (d : AnomalyDetector) (xs : List (Trace.Arrival D))
      → (total (counter_of k) (updates d xs) ≡ count_kind k (Trace.run d xs).1)
        × (total (codes "rdtf_samples_received_total") (updates d xs) ≡ length xs)
  unfolding Trace.run
  total-updates k d [] = (refl, refl)
  total-updates k d ((x, now_ns) ∷ xs) =
      let (d', found) = evaluate d x now_ns in
      ground (
        arith,
        total-updates k d' xs,
        total-append (counter_of k) (sample_updates x.source_id ++ event_updates found)
            (updates d' xs),
        total-append (codes "rdtf_samples_received_total")
            (sample_updates x.source_id ++ event_updates found) (updates d' xs),
        total-append (counter_of k) (sample_updates x.source_id) (event_updates found),
        total-append (codes "rdtf_samples_received_total") (sample_updates x.source_id)
            (event_updates found),
        total-sample_updates k x.source_id,
        total-event_updates k found,
        total-event_updates_received found,
        count_kind-append k found (Trace.run d' xs).1,
      )

-- The metrics tell the truth about the stream: from an empty registry, the counter of received
-- samples is the number of valid samples, and the counter of each kind of anomaly the number of
-- events of that kind which the detector reports of them, both modulo 2 ^ 64.
pub on_data_available_counts {ℓ} :
    {D : Type ℓ} {v : Vendor} (ts : List (Taken D)) (s : Subscriber D v) (k : AnomalyKind)
    → s.metrics ≡ new_registry
    → let m = (on_data_available ts s).metrics in
      (counter (codes "rdtf_samples_received_total") m ≡ length (arrivals ts) % 2 ^ 64)
      × (counter (counter_of k) m ≡ count_kind k (Trace.run s.detector (arrivals ts)).1 % 2 ^ 64)
on_data_available_counts {D} ts s k e =
    let (kinds, samples) = total-updates k s.detector (arrivals ts) in
    rw (metrics-on_data_available ts s, e)
      (
        from_new D (codes "rdtf_samples_received_total") (updates s.detector (arrivals ts))
            ∙ rw samples,
        from_new D (counter_of k) (updates s.detector (arrivals ts)) ∙ rw kinds,
      )

-- In a registry with its maps in order, the counter of a kind grows by the events of that kind.
pub counter-on_data_available {ℓ} :
    {D : Type ℓ} {v : Vendor} (ts : List (Taken D)) (s : Subscriber D v) (k : AnomalyKind)
    → IsValid s.metrics
    → counter (counter_of k) s.metrics < 2 ^ 64
    → counter (counter_of k) (on_data_available ts s).metrics
      ≡ (counter (counter_of k) s.metrics + count_kind k (Trace.run s.detector (arrivals ts)).1)
        % 2 ^ 64
counter-on_data_available ts s k v w =
    let (kinds, samples) = total-updates k s.detector (arrivals ts) in
    rw (metrics-on_data_available ts s, sym kinds)
      (counter-increment_all (counter_of k) (updates s.detector (arrivals ts)) s.metrics v w)

length-record_latency :
    (x : ℤ) (l : List ℤ) → length l ≤ latency_cap → length (record_latency x l) ≤ latency_cap
unfolding record_latency
length-record_latency x l h = ground (arith, length-append l (x ∷ []))

-- A latency record within its cap never grows past it, however many samples arrive.
pub latency_bounded {ℓ} :
    {D : Type ℓ} {v : Vendor} (ts : List (Taken D)) (s : Subscriber D v)
    → length s.latency_us ≤ latency_cap
    → length (on_data_available ts s).latency_us ≤ latency_cap
unfolding on_data_available
latency_bounded [] s h = h
latency_bounded (t ∷ ts) s h = latency_bounded ts (take_sample t s) step
  where
    step : length (take_sample t s).latency_us ≤ latency_cap
    step = elim (Bool-cases t.valid_data) [
      | inl e ↦
          let latency = quot (t.received_ns -ℤ (received t).source_timestamp_ns) 1000 in
          rw ((take_sample_valid t s e).3) (length-record_latency latency s.latency_us h)
      | inr e ↦ rw (take_sample_invalid t s e) h
    ]
