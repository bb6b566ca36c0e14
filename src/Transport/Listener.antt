-- ===== src/Transport/Listener.antt =====
-- The listener of `TelemetrySubscriber` in src/dds_transport.cpp under any sequence of its callbacks.
use resilient_dds_data_plane.Base.{
  ◌≡◌, refl, ap, ◌∙◌, inl, inr, List, [], ◌∷◌, ◌++◌, ℤ, pos, ltb_ℤ, Bytes, arith, if◌then◌else◌,
  Bool-cases,
}
use resilient_dds_data_plane.Detector.{AnomalyEvent}
use resilient_dds_data_plane.Detector.Trace
use resilient_dds_data_plane.Health.Events
use resilient_dds_data_plane.Transport.Start.{Vendor}
use resilient_dds_data_plane.Transport.Subscriber.{
  Subscriber, Taken, accept, report, report_all, take_sample, on_data_available,
  on_requested_deadline_missed, on_liveliness_changed, on_requested_incompatible_qos,
  on_sample_lost, on_subscription_matched,
}
use resilient_dds_data_plane.Transport.Pipeline.{arrivals, calls, on_data_available_lem}

pub data Callback {ℓ} (D : Type ℓ) : Type ℓ where
  data_available : List (Taken D) → Callback D
  deadline_missed liveliness_changed sample_lost subscription_matched : ℤ → Callback D
  incompatible_qos : Callback D

module _ {ℓ} {D : Type ℓ} (to_double : ℤ → D) {v : Vendor} where
  -- The callback's handler.
  unfoldable pub handle : Callback D → Subscriber D v → Subscriber D v
  handle (data_available ts) s = on_data_available ts s
  handle (deadline_missed change) s = on_requested_deadline_missed change s
  handle (liveliness_changed change) s = on_liveliness_changed change s
  handle (sample_lost change) s = on_sample_lost change s
  handle (subscription_matched count) s = on_subscription_matched to_double count s
  handle incompatible_qos s = on_requested_incompatible_qos s

  unfoldable pub handle_all : List (Callback D) → Subscriber D v → Subscriber D v
  unfolding handle
  handle_all [] s = s
  handle_all (c ∷ cs) s = handle_all cs (handle c s)

module _ {ℓ} {D : Type ℓ} where
  -- The source of the last valid sample; `hint` if there is none.
  abbrev pub last_source : Bytes → List (Trace.Arrival D) → Bytes
  last_source hint [] = hint
  last_source hint ((x, now_ns) ∷ xs) = last_source x.source_id xs

  -- What the health monitor is told: of a sample its own source, of a status the source of the last
  -- valid sample before it.
  abbrev pub told : Bytes → List (Callback D) → List (Bytes × Events.Event)
  told hint [] = []
  told hint (data_available ts ∷ cs) =
      calls (arrivals ts) ++ told (last_source hint (arrivals ts)) cs
  told hint (deadline_missed change ∷ cs) = (hint, Events.missed) ∷ told hint cs
  told hint (liveliness_changed change ∷ cs) =
      let rest = told hint cs in
      if ltb_ℤ (pos 0) change then (hint, Events.lease_expired) ∷ rest else rest
  told hint (sample_lost change ∷ cs) = told hint cs
  told hint (subscription_matched count ∷ cs) =
      (hint, Events.match_changed (ltb_ℤ (pos 0) count)) ∷ told hint cs
  told hint (incompatible_qos ∷ cs) = (hint, Events.refused) ∷ told hint cs

  -- The arrivals at the detector.
  abbrev pub all_arrivals : List (Callback D) → List (Trace.Arrival D)
  all_arrivals [] = []
  all_arrivals (data_available ts ∷ cs) = arrivals ts ++ all_arrivals cs
  all_arrivals (deadline_missed change ∷ cs) = all_arrivals cs
  all_arrivals (liveliness_changed change ∷ cs) = all_arrivals cs
  all_arrivals (sample_lost change ∷ cs) = all_arrivals cs
  all_arrivals (subscription_matched count ∷ cs) = all_arrivals cs
  all_arrivals (incompatible_qos ∷ cs) = all_arrivals cs

module _ {ℓ} {D : Type ℓ} {v : Vendor} where
  source_hint-report_all :
      (observed : ℤ) (es : List AnomalyEvent) (s : Subscriber D v)
      → (report_all observed es s).source_hint ≡ s.source_hint
  unfolding report_all report
  source_hint-report_all observed [] s = refl
  source_hint-report_all observed (e ∷ es) s =
      source_hint-report_all observed es (report observed e s)

  pub source_hint-on_data_available :
      (ts : List (Taken D)) (s : Subscriber D v)
      → (on_data_available ts s).source_hint ≡ last_source s.source_hint (arrivals ts)
  unfolding on_data_available take_sample accept
  source_hint-on_data_available [] s = refl
  source_hint-on_data_available (t ∷ ts) s = elim (Bool-cases t.valid_data) [
    | inl h ↦ rw h (
        source_hint-on_data_available ts _
        ∙ ap (λ hint. last_source hint (arrivals ts)) (source_hint-report_all t.received_ns _ _))
    | inr h ↦ rw h (source_hint-on_data_available ts s)
  ]

-- Whatever callbacks come in, in whatever order, the health monitor is told of every sample under its
-- own source, and of every status under the source of the last valid sample before it (the one that
-- `set_source` named, while there is none); and the detector sees the valid samples, in order.
pub handle_all_lem {ℓ} :
    {D : Type ℓ} (to_double : ℤ → D) {v : Vendor} (cs : List (Callback D)) (s : Subscriber D v)
    → let r = handle_all to_double cs s in
      (r.health ≡ Events.run s.health (told s.source_hint cs))
      × (r.detector ≡ (Trace.run s.detector (all_arrivals cs)).0)
unfolding handle_all handle on_requested_deadline_missed on_liveliness_changed
    on_requested_incompatible_qos on_sample_lost on_subscription_matched Events.run Events.step
    Trace.run
handle_all_lem to_double [] s = (refl, refl)
handle_all_lem to_double (data_available ts ∷ cs) s =
    let h = on_data_available ts s in
    let xs = arrivals ts in
    let (a, b) = handle_all_lem to_double cs h in
    let (d, e, f) = on_data_available_lem ts s in
    let i = source_hint-on_data_available ts s in
    (
      rw (Events.run-append s.health (calls xs) (told (last_source s.source_hint xs) cs), a, i, e)
          refl,
      rw ((Trace.run-append s.detector xs (all_arrivals cs)).0, b, d) refl,
    )
handle_all_lem to_double (deadline_missed change ∷ cs) s = handle_all_lem to_double cs _
handle_all_lem to_double (liveliness_changed change ∷ cs) s =
    elim (Bool-cases (ltb_ℤ (pos 0) change)) [
      | inl h ↦ ground (arith, handle_all_lem to_double cs (on_liveliness_changed change s))
      | inr h ↦ ground (arith, handle_all_lem to_double cs s)
    ]
handle_all_lem to_double (sample_lost change ∷ cs) s = handle_all_lem to_double cs _
handle_all_lem to_double (subscription_matched count ∷ cs) s = handle_all_lem to_double cs _
handle_all_lem to_double (incompatible_qos ∷ cs) s = handle_all_lem to_double cs _
