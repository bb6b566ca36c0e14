-- ===== src/Transport/Pipeline.antt =====
-- `on_data_available` of src/dds_transport.cpp as the components that it feeds: each ends up where the
-- valid samples alone would bring it.
use resilient_dds_data_plane.Base.{
  ◌≡◌, refl, sym, ap, inl, inr, true, false, Option, none, some, List, [], ◌∷◌, ◌++◌, ℤ, ◌-ℤ◌, quot,
  Bytes, arith, if◌then◌else◌, Bool-cases,
}
use resilient_dds_data_plane.Detector.{AnomalyDetector, AnomalyEvent, evaluate}
use resilient_dds_data_plane.Detector.Trace
use resilient_dds_data_plane.Health.Events
use resilient_dds_data_plane.Audit.{AuditSink}
use resilient_dds_data_plane.Audit.Journal.{Entry, write_all, write_all-append}
use resilient_dds_data_plane.Transport.Start.{Vendor}
use resilient_dds_data_plane.Transport.Subscriber.{
  Subscriber, Taken, received, record_latency, report, report_all, accept, take_sample,
  on_data_available,
}

-- The entries of the events of one sample.
abbrev pub entries_of : ℤ → List AnomalyEvent → List Entry
entries_of observed [] = []
entries_of observed (e ∷ es) = (e, observed) ∷ entries_of observed es

module _ {ℓ} {D : Type ℓ} where
  -- The valid samples, as arrivals at the detector.
  abbrev pub arrivals : List (Taken D) → List (Trace.Arrival D)
  arrivals [] = []
  arrivals (t ∷ ts) =
      let rest = arrivals ts in if t.valid_data then (received t, t.received_ns) ∷ rest else rest

  -- The arrivals, as calls to the health monitor: each with the sample's own age.
  abbrev pub calls : List (Trace.Arrival D) → List (Bytes × Events.Event)
  calls [] = []
  calls ((x, now_ns) ∷ xs) =
      (x.source_id, Events.sampled now_ns (quot (now_ns -ℤ x.source_timestamp_ns) 1_000_000))
      ∷ calls xs

  -- What the detector reports of the arrivals, each event with the time of its sample.
  abbrev pub findings : AnomalyDetector → List (Trace.Arrival D) → List Entry
  findings d [] = []
  findings d ((x, now_ns) ∷ xs) =
      let (d', found) = evaluate d x now_ns in entries_of now_ns found ++ findings d' xs

-- The sink after some more entries, where there is one.
abbrev pub audited : Option AuditSink → List Entry → Option AuditSink
audited none es = none
audited (some sink) es = some (write_all sink es)

audited_nil : (a : Option AuditSink) → audited a [] ≡ a
unfolding write_all
audited_nil none = refl
audited_nil (some sink) = refl

audited-append :
    (a : Option AuditSink) (es fs : List Entry) → audited a (es ++ fs) ≡ audited (audited a es) fs
audited-append none es fs = refl
audited-append (some sink) es fs = ap some (write_all-append sink es fs)

module _ {ℓ} {D : Type ℓ} {v : Vendor} where
  report_all_lem :
      (observed : ℤ) (es : List AnomalyEvent) (s : Subscriber D v)
      → let r = report_all observed es s in
        (r.detector ≡ s.detector)
        × (r.health ≡ s.health)
        × (r.audit ≡ audited s.audit (entries_of observed es))
        × (r.latency_us ≡ s.latency_us)
  unfolding report_all report write_all
  report_all_lem observed [] s = ground arith
  report_all_lem observed (e ∷ es) s =
      ground (arith, report_all_lem observed es (report observed e s))

  pub take_sample_invalid :
      (t : Taken D) (s : Subscriber D v) → t.valid_data ≡ false → take_sample t s ≡ s
  unfolding take_sample
  take_sample_invalid t s h = ground arith

  pub take_sample_valid :
      (t : Taken D) (s : Subscriber D v)
      → t.valid_data ≡ true
      → let x = received t in
        let r = take_sample t s in
        let (d, found) = evaluate s.detector x t.received_ns in
        (r.detector ≡ d)
        × (r.health
            ≡ Events.step s.health (
              x.source_id,
              Events.sampled t.received_ns
                  (quot (t.received_ns -ℤ x.source_timestamp_ns) 1_000_000),
            ))
        × (r.audit ≡ audited s.audit (entries_of t.received_ns found))
        × (r.latency_us
            ≡ record_latency (quot (t.received_ns -ℤ x.source_timestamp_ns) 1000) s.latency_us)
  unfolding take_sample accept Events.step
  take_sample_valid t s h = ground (
    arith,
    report_all_lem t.received_ns (evaluate s.detector (received t) t.received_ns).1 (accept t s),
  )

  -- However the samples come in, and whatever invalid ones are among them: the detector and the
  -- health monitor end up as a run over the valid samples alone leaves them, the monitor being told
  -- each sample's own age, and the audit file, where there is one, has grown by exactly the events
  -- that the detector reports of them, in order and with the time of their sample.
  pub on_data_available_lem :
      (ts : List (Taken D)) (s : Subscriber D v)
      → let r = on_data_available ts s in
        let xs = arrivals ts in
        (r.detector ≡ (Trace.run s.detector xs).0)
        × (r.health ≡ Events.run s.health (calls xs))
        × (r.audit ≡ audited s.audit (findings s.detector xs))
  unfolding on_data_available Trace.run Events.run
  on_data_available_lem [] s = (refl, refl, sym (audited_nil s.audit))
  on_data_available_lem (t ∷ ts) s = elim (Bool-cases t.valid_data) [
    | inl h ↦ ground (
      arith,
      take_sample_valid t s h,
      on_data_available_lem ts (take_sample t s),
      audited-append s.audit
          (entries_of t.received_ns (evaluate s.detector (received t) t.received_ns).1)
          (findings (evaluate s.detector (received t) t.received_ns).0 (arrivals ts)),
    )
    | inr h ↦ ground (arith, take_sample_invalid t s h, on_data_available_lem ts s)
  ]
