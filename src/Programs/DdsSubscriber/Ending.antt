-- ===== src/Programs/DdsSubscriber/Ending.antt =====
-- apps/dds_subscriber.cpp: the end, from the snapshot to the rendering, while the listener is still
-- registered. `between i` are the callbacks that come in behind step i: the snapshot, the gauge of the
-- health, the statistics, and the eight gauges of the latencies. Each of these steps holds the mutex
-- of the registry or of the statistics, except for the snapshot, which holds none.
use mathlib.Core.List.{append_assoc}
use resilient_dds_data_plane.Base.{
  ℕ, zero, suc, ◌+◌, ◌≡◌, refl, sym, ◌∙◌, ap, Bool-cases, inl, inr, List, [], ◌∷◌, ◌++◌, length, ℤ,
  Bytes, codes, ltb, if◌then◌else◌,
}
use resilient_dds_data_plane.Detector.{AnomalyDetector}
use resilient_dds_data_plane.Health.Monitor.{snapshot}
use resilient_dds_data_plane.Metrics.{gauge}
use resilient_dds_data_plane.Metrics.Counters.{
  IsValid, counters-increment_all, increment_all, increment_all-append, gauge-IsValid,
}
use resilient_dds_data_plane.Transport.Start.{Vendor}
use resilient_dds_data_plane.Transport.Subscriber.{Subscriber}
use resilient_dds_data_plane.Transport.Latency.{Floats, latency}
use resilient_dds_data_plane.Transport.Listener.{Callback, handle, handle_all}
use resilient_dds_data_plane.Transport.Totals.{
  updates_of, detector_after, all_updates_of, handle_updates, handle_all_updates,
}
use resilient_dds_data_plane.Programs.DdsSubscriber.Report.{health_level, values_of}

module _ {ℓ} {D : Type ℓ} (between : ℕ → List (Callback D)) where
  -- The callbacks behind `n` steps, from step `i` on.
  abbrev pub come_in : ℕ → ℕ → List (Callback D)
  come_in zero i = []
  come_in (suc n) i = between i ++ come_in n (i + 1)

module _ (f : Floats) (between : ℕ → List (Callback f.Double)) {v : Vendor} where
  -- The gauges that are set, from step `i` on.
  unfoldable pub set_gauges :
      List (Bytes × f.Double) → ℕ → Subscriber f.Double v → Subscriber f.Double v
  unfolding handle_all
  set_gauges [] i s = s
  set_gauges ((k, x) ∷ gs) i s =
      set_gauges gs (i + 1)
        (handle_all f.of_int (between i) (record s { metrics = gauge k x s.metrics }))

  unfoldable pub finish : Bytes → ℤ → Subscriber f.Double v → Subscriber f.Double v
  unfolding set_gauges handle_all
  finish source_id now_ns s =
      let snap = snapshot s.health source_id now_ns in
      let level : Bytes × f.Double =
        (codes "rdtf_source_health_state", f.of_int (health_level snap.state)) in
      let levelled = set_gauges (level ∷ []) 1 (handle_all f.of_int (between 0) s) in
      let lat = latency f levelled.latency_us in
      let kept = handle_all f.of_int (between 2) levelled in
      let shown = set_gauges (values_of f lat) 3 kept in
      if ltb 0 lat.count then shown else handle_all f.of_int (come_in between 8 3) kept

module _ {ℓ} {D : Type ℓ} where
  -- The detector behind the callbacks.
  abbrev pub detector_behind : AnomalyDetector → List (Callback D) → AnomalyDetector
  detector_behind d [] = d
  detector_behind d (c ∷ cs) = detector_behind (detector_after d c) cs

  all_updates_of-append :
      (d : AnomalyDetector) (cs ds : List (Callback D))
      → (all_updates_of d (cs ++ ds)
          ≡ all_updates_of d cs ++ all_updates_of (detector_behind d cs) ds)
        × (detector_behind d (cs ++ ds) ≡ detector_behind (detector_behind d cs) ds)
  all_updates_of-append d [] ds = (refl, refl)
  all_updates_of-append d (c ∷ cs) ds =
      let (a, b) = all_updates_of-append (detector_after d c) cs ds in
      let after = detector_after d c in
      (
        rw a (
            sym (
              append_assoc (updates_of d c) (all_updates_of after cs)
                (all_updates_of (detector_behind after cs) ds))),
        b,
      )

  module _ {v : Vendor} where
    -- The counters of `t` are those of `s` behind the callbacks.
    pub record Follows (cs : List (Callback D)) (s t : Subscriber D v) : Type ℓ where
      pub counters :
          t.metrics.counters ≡ (increment_all (all_updates_of s.detector cs) s.metrics).counters
      pub detector : t.detector ≡ detector_behind s.detector cs
      pub valid : IsValid s.metrics → IsValid t.metrics

    pub Follows-append :
        (cs ds : List (Callback D)) (s t u : Subscriber D v)
        → Follows cs s t
        → Follows ds t u
        → Follows (cs ++ ds) s u
    Follows-append cs ds s t u a b =
        let (e, d) = all_updates_of-append s.detector cs ds in
        let us = all_updates_of (detector_behind s.detector cs) ds in
        record {
          counters =
              b.counters
              ∙ ap (λ x. (increment_all (all_updates_of x ds) t.metrics).counters) a.detector
              ∙ counters-increment_all us t.metrics
                  (increment_all (all_updates_of s.detector cs) s.metrics) a.counters
              ∙ sym (
                  ap (λ g. g.counters)
                    (increment_all-append (all_updates_of s.detector cs) us s.metrics))
              ∙ ap (λ l. (increment_all l s.metrics).counters) (sym e);
          detector = b.detector ∙ ap (λ x. detector_behind x ds) a.detector ∙ sym d;
          valid = λ w. b.valid (a.valid w);
        }

    detector-handle_all :
        (to_double : ℤ → D) (cs : List (Callback D)) (s : Subscriber D v)
        → (handle_all to_double cs s).detector ≡ detector_behind s.detector cs
    unfolding handle_all
    detector-handle_all to_double [] s = refl
    detector-handle_all to_double (c ∷ cs) s =
        detector-handle_all to_double cs (handle to_double c s)
        ∙ ap (λ d. detector_behind d cs) (handle_updates to_double c s).1

    Follows-handle_all :
        (to_double : ℤ → D) (cs : List (Callback D)) (s : Subscriber D v)
        → Follows cs s (handle_all to_double cs s)
    Follows-handle_all to_double cs s =
        let (a, b) = handle_all_updates to_double cs s in
        record { counters = a; detector = detector-handle_all to_double cs s; valid = b }

    Follows-gauge :
        (k : Bytes) (x : D) (cs : List (Callback D)) (s t : Subscriber D v)
        → Follows cs (record s { metrics = gauge k x s.metrics }) t
        → Follows cs s t
    unfolding gauge
    Follows-gauge k x cs s t h = record {
      counters =
          h.counters
          ∙ counters-increment_all (all_updates_of s.detector cs) (gauge k x s.metrics) s.metrics
              refl;
      detector = h.detector;
      valid = λ w. h.valid (gauge-IsValid k x s.metrics w);
    }

module _ (f : Floats) (between : ℕ → List (Callback f.Double)) {v : Vendor} where
  Follows-set_gauges :
      (gs : List (Bytes × f.Double)) (i : ℕ) (s : Subscriber f.Double v)
      → Follows (come_in between (length gs) i) s (set_gauges f between gs i s)
  unfolding set_gauges increment_all
  Follows-set_gauges [] i s = record { counters = refl; detector = refl; valid = λ w. w }
  Follows-set_gauges ((k, x) ∷ gs) i s =
      let set : Subscriber f.Double v = record s { metrics = gauge k x s.metrics } in
      let next = handle_all f.of_int (between i) set in
      Follows-append (between i) (come_in between (length gs) (i + 1)) s next
        (set_gauges f between gs (i + 1) next)
        (Follows-gauge k x (between i) s next (Follows-handle_all f.of_int (between i) set))
        (Follows-set_gauges gs (i + 1) next)

  pub Follows-finish :
      (source_id : Bytes) (now_ns : ℤ) (s : Subscriber f.Double v)
      → Follows (come_in between 11 0) s (finish f between source_id now_ns s)
  unfolding finish set_gauges
  Follows-finish source_id now_ns s =
      let snap = snapshot s.health source_id now_ns in
      let level : Bytes × f.Double =
        (codes "rdtf_source_health_state", f.of_int (health_level snap.state)) in
      let first = handle_all f.of_int (between 0) s in
      let levelled = set_gauges f between (level ∷ []) 1 first in
      let lat = latency f levelled.latency_us in
      let kept = handle_all f.of_int (between 2) levelled in
      let last = finish f between source_id now_ns s in
      let rest : Follows (come_in between 8 3) kept last = elim (Bool-cases (ltb 0 lat.count)) [
        | inl h ↦ rw h (Follows-set_gauges (values_of f lat) 3 kept)
        | inr h ↦ rw h (Follows-handle_all f.of_int (come_in between 8 3) kept)
      ] in
      let behind : Follows (between 2 ++ come_in between 8 3) levelled last =
        Follows-append (between 2) (come_in between 8 3) levelled kept last
          (Follows-handle_all f.of_int (between 2) levelled) rest in
      let one : Follows (between 1) first levelled =
        Follows-gauge level.0 level.1 (between 1) first levelled (
          Follows-handle_all f.of_int (between 1)
            (record first { metrics = gauge level.0 level.1 first.metrics })) in
      Follows-append (between 0) (between 1 ++ (between 2 ++ come_in between 8 3)) s first last
        (Follows-handle_all f.of_int (between 0) s)
        (Follows-append (between 1) (between 2 ++ come_in between 8 3) first levelled last one
          behind)
