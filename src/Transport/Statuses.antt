-- ===== src/Transport/Statuses.antt =====
-- What the status callbacks of src/dds_transport.cpp add to the counters.
use resilient_dds_data_plane.Base.{
  ℕ, ◌+◌, ◌≡◌, refl, false, List, [], ◌∷◌, ◌++◌, pos, ltb_ℤ, Bytes, codes, arith, if◌then◌else◌,
  str_eq,
}
use resilient_dds_data_plane.Detector.{AnomalyDetector, AnomalyEvent, evaluate}
use resilient_dds_data_plane.Detector.Trace
use resilient_dds_data_plane.Metrics.Counters.{total, total-append}
use resilient_dds_data_plane.Transport.Subscriber.{
  to_u64, kind_counter, kind_key_counter, key_counter,
}
use resilient_dds_data_plane.Transport.Pipeline.{arrivals}
use resilient_dds_data_plane.Transport.Tallies.{updates, event_updates, sample_updates}
use resilient_dds_data_plane.Transport.Totals.{updates_of, detector_after, all_updates_of}
use resilient_dds_data_plane.Transport.Listener.{
  Callback, data_available, deadline_missed, liveliness_changed, sample_lost, subscription_matched,
  incompatible_qos,
}

-- What the callbacks report, one at a time and together.
module _ {ℓ} {D : Type ℓ} where
  abbrev pub misses_in : Callback D → ℕ
  misses_in (deadline_missed change) = to_u64 change
  misses_in _ = 0

  abbrev pub expiries_in : Callback D → ℕ
  expiries_in (liveliness_changed change) = if ltb_ℤ (pos 0) change then to_u64 change else 0
  expiries_in _ = 0

  abbrev pub losses_in : Callback D → ℕ
  losses_in (sample_lost change) = to_u64 change
  losses_in _ = 0

  abbrev pub refusals_in : Callback D → ℕ
  refusals_in incompatible_qos = 1
  refusals_in _ = 0

  abbrev pub sum_over : (Callback D → ℕ) → List (Callback D) → ℕ
  sum_over f [] = 0
  sum_over f (c ∷ cs) = f c + sum_over f cs

-- A name that no sample counts under.
record IsForeign (k : Bytes) : Type 0 where
  samples : str_eq (codes "rdtf_samples_received_total") k ≡ false
  keys : (id : Bytes) → str_eq (key_counter id) k ≡ false
  kinds : (e : AnomalyEvent) → str_eq (kind_counter e) k ≡ false
  kind_keys : (e : AnomalyEvent) → str_eq (kind_key_counter e) k ≡ false

abbrev pub samples_name : Bytes
samples_name = codes "rdtf_samples_received_total"

abbrev pub missed_name : Bytes
missed_name = codes "rdtf_deadline_missed_total"

abbrev pub expired_name : Bytes
expired_name = codes "rdtf_liveliness_lost_total"

abbrev pub lost_name : Bytes
lost_name = codes "rdtf_middleware_sample_lost_total"

abbrev pub refused_name : Bytes
refused_name = codes "rdtf_incompatible_qos_total"

names-IsForeign :
    IsForeign missed_name × IsForeign expired_name × IsForeign lost_name × IsForeign refused_name
unfolding str_eq key_counter kind_counter kind_key_counter
names-IsForeign = (
  record { samples = refl; keys = λ id. refl; kinds = λ e. refl; kind_keys = λ e. refl },
  record { samples = refl; keys = λ id. refl; kinds = λ e. refl; kind_keys = λ e. refl },
  record { samples = refl; keys = λ id. refl; kinds = λ e. refl; kind_keys = λ e. refl },
  record { samples = refl; keys = λ id. refl; kinds = λ e. refl; kind_keys = λ e. refl },
)

total-event_updates_foreign :
    (k : Bytes) → IsForeign k → (es : List AnomalyEvent) → total k (event_updates es) ≡ 0
total-event_updates_foreign k w [] = refl
total-event_updates_foreign k w (e ∷ es) =
    rw (w.kinds e, w.kind_keys e) (omega (arith, total-event_updates_foreign k w es))

module _ {ℓ} {D : Type ℓ} where
  total-updates_foreign :
      (k : Bytes)
      → IsForeign k
      → (d : AnomalyDetector) (xs : List (Trace.Arrival D)) → total k (updates d xs) ≡ 0
  total-updates_foreign k w d [] = refl
  total-updates_foreign k w d ((x, now_ns) ∷ xs) =
      let (d', found) = evaluate d x now_ns in
      rw
        (
          total-append k (sample_updates x.source_id ++ event_updates found) (updates d' xs),
          w.samples,
          w.keys x.source_id,
          total-event_updates_foreign k w found,
          total-updates_foreign k w d' xs,
        )
        refl

  pub total_all :
      (k : Bytes) (f : Callback D → ℕ)
      → ((d : AnomalyDetector) (c : Callback D) → total k (updates_of d c) ≡ f c)
      → (d : AnomalyDetector) (cs : List (Callback D))
      → total k (all_updates_of d cs) ≡ sum_over f cs
  total_all k f one d [] = refl
  total_all k f one d (c ∷ cs) = omega (
    arith,
    total-append k (updates_of d c) (all_updates_of (detector_after d c) cs),
    one d c,
    total_all k f one (detector_after d c) cs,
  )

  pub missed_total :
      (d : AnomalyDetector) (c : Callback D) → total missed_name (updates_of d c) ≡ misses_in c
  unfolding str_eq
  missed_total d (data_available ts) =
      total-updates_foreign missed_name names-IsForeign.0 d (arrivals ts)
  missed_total d (deadline_missed change) = omega arith
  missed_total d (liveliness_changed change) = ground arith
  missed_total d (sample_lost change) = refl
  missed_total d (subscription_matched count) = refl
  missed_total d incompatible_qos = refl

  pub expired_total :
      (d : AnomalyDetector) (c : Callback D) → total expired_name (updates_of d c) ≡ expiries_in c
  unfolding str_eq
  expired_total d (data_available ts) =
      total-updates_foreign expired_name names-IsForeign.1 d (arrivals ts)
  expired_total d (deadline_missed change) = refl
  expired_total d (liveliness_changed change) = ground arith
  expired_total d (sample_lost change) = refl
  expired_total d (subscription_matched count) = refl
  expired_total d incompatible_qos = refl

  pub lost_total :
      (d : AnomalyDetector) (c : Callback D) → total lost_name (updates_of d c) ≡ losses_in c
  unfolding str_eq
  lost_total d (data_available ts) =
      total-updates_foreign lost_name names-IsForeign.2 d (arrivals ts)
  lost_total d (deadline_missed change) = refl
  lost_total d (liveliness_changed change) = ground arith
  lost_total d (sample_lost change) = omega arith
  lost_total d (subscription_matched count) = refl
  lost_total d incompatible_qos = refl

  pub refused_total :
      (d : AnomalyDetector) (c : Callback D) → total refused_name (updates_of d c) ≡ refusals_in c
  unfolding str_eq
  refused_total d (data_available ts) =
      total-updates_foreign refused_name names-IsForeign.3 d (arrivals ts)
  refused_total d (deadline_missed change) = refl
  refused_total d (liveliness_changed change) = ground arith
  refused_total d (sample_lost change) = refl
  refused_total d (subscription_matched count) = refl
  refused_total d incompatible_qos = refl
