-- ===== src/Programs/Simulator/Account.antt =====
-- What the metrics and the audit file of apps/simulator.cpp say of the detector.
use resilient_dds_data_plane.Base.{
  ℕ, zero, suc, ◌+◌, ◌%◌, ◌^◌, ◌≡◌, refl, sym, ◌∙◌, List, [], ◌∷◌, ◌++◌, ℤ, pos, ◌+ℤ◌, Bytes, codes,
  arith, str_eq, length,
}
use resilient_dds_data_plane.Telemetry.{AnomalyKind, kind_to_string, current_schema_version}
use resilient_dds_data_plane.Detector.{AnomalyDetector, AnomalyEvent, new_detector, evaluate}
use resilient_dds_data_plane.Detector.Trace
use resilient_dds_data_plane.Health.Monitor.{on_sample}
use resilient_dds_data_plane.Metrics.{new_registry, increment, gauge}
use resilient_dds_data_plane.Metrics.Counters.{
  Update, counter, total, total-append, increment_all, increment_all-append, from_new,
}
use resilient_dds_data_plane.Audit.{AuditSink}
use resilient_dds_data_plane.Audit.Journal.{write_all, write_all-append}
use resilient_dds_data_plane.Transport.Subscriber.{kind_counter}
use resilient_dds_data_plane.Transport.Pipeline.{entries_of, findings}
use resilient_dds_data_plane.Transport.Tallies.{
  count_kind, count_kind-append, counter_of, same_counter,
}
use resilient_dds_data_plane.Programs.Simulator.{
  Simulation, simulated_sample, tell, simulated_round, simulated_rounds, new_simulation, wind_up,
}

-- The increments for some events.
abbrev kind_updates : List AnomalyEvent → List Update
kind_updates [] = []
kind_updates (e ∷ es) = (kind_counter e, 1) ∷ kind_updates es

abbrev pub received_name : Bytes
received_name = codes "rdtf_samples_received_total"

abbrev pub missed_name : Bytes
missed_name = codes "rdtf_deadline_missed_total"

module _ {ℓ} {D : Type ℓ} where
  -- The increments for some samples.
  abbrev sample_updates : AnomalyDetector → List (Trace.Arrival D) → List Update
  sample_updates d [] = []
  sample_updates d ((x, now_ns) ∷ xs) =
      let (d', found) = evaluate d x now_ns in
      (received_name, 1) ∷ kind_updates found ++ sample_updates d' xs

  pub tell_lem :
      (es : List AnomalyEvent) (r : Simulation D)
      → let q = tell es r in
        (q.detector ≡ r.detector)
        × (q.health ≡ r.health)
        × (q.now_ns ≡ r.now_ns)
        × (q.audit ≡ write_all r.audit (entries_of r.now_ns es))
        × (q.metrics ≡ increment_all (kind_updates es) r.metrics)
  unfolding tell write_all increment_all
  tell_lem [] r = (refl, refl, refl, refl, refl)
  tell_lem (e ∷ es) r = tell_lem es _

  module _ (temperature voltage : D) where
    -- The samples of `left` rounds from `seq` on, the round before at `now_ns`.
    abbrev pub simulated_arrivals : ℕ → ℕ → ℤ → List (Trace.Arrival D)
    simulated_arrivals zero seq now_ns = []
    simulated_arrivals (suc left) seq now_ns =
        let now = now_ns +ℤ pos 100_000_000 in
        (simulated_sample temperature voltage seq now, now) ∷ simulated_arrivals left (seq + 1) now

    simulated_rounds_lem :
        (left seq : ℕ) (r : Simulation D)
        → let q = simulated_rounds temperature voltage left seq r in
          let xs = simulated_arrivals left seq r.now_ns in
          (q.detector ≡ (Trace.run r.detector xs).0)
          × (q.audit ≡ write_all r.audit (findings r.detector xs))
          × (q.metrics ≡ increment_all (sample_updates r.detector xs) r.metrics)
    unfolding simulated_rounds simulated_round Trace.run write_all increment_all
    simulated_rounds_lem zero seq r = (refl, refl, refl)
    simulated_rounds_lem (suc left) seq r =
        let now = r.now_ns +ℤ pos 100_000_000 in
        let s = simulated_sample temperature voltage seq now in
        let (d, found) = evaluate r.detector s now in
        let heard : Simulation D = record {
          detector = d;
          health = on_sample r.health s.source_id now (pos 0);
          metrics = increment received_name 1 r.metrics;
          audit = r.audit;
          now_ns = now;
        } in
        let (a, b, c, e, f) = tell_lem found heard in
        let next = simulated_round temperature voltage seq r in
        let (x, y, z) = simulated_rounds_lem left (seq + 1) next in
        let xs = simulated_arrivals left (seq + 1) now in
        (
          rw (x, a, c) refl,
          y ∙ rw (a, c, e) (sym (write_all-append r.audit (entries_of now found) (findings d xs))),
          z
              ∙ rw (a, c, f)
                  (sym (
                    increment_all-append (kind_updates found) (sample_updates d xs) heard.metrics)),
        )

kind_totals :
    (k : AnomalyKind) (es : List AnomalyEvent)
    → (total (counter_of k) (kind_updates es) ≡ count_kind k es)
      × (total received_name (kind_updates es) ≡ 0)
      × (total missed_name (kind_updates es) ≡ 0)
unfolding kind_counter str_eq
kind_totals k [] = (refl, refl, refl)
kind_totals k (e ∷ es) = rw (same_counter e.kind k) (ground (arith, kind_totals k es))

module _ {ℓ} {D : Type ℓ} where
  sample_totals :
      (k : AnomalyKind) (d : AnomalyDetector) (xs : List (Trace.Arrival D))
      → (total (counter_of k) (sample_updates d xs) ≡ count_kind k (Trace.run d xs).1)
        × (total received_name (sample_updates d xs) ≡ length xs)
        × (total missed_name (sample_updates d xs) ≡ 0)
  unfolding Trace.run str_eq kind_to_string
  sample_totals k d [] = (refl, refl, refl)
  sample_totals k d ((x, now_ns) ∷ xs) =
      let (d', found) = evaluate d x now_ns in
      ground (
        arith,
        sample_totals k d' xs,
        kind_totals k found,
        total-append (counter_of k) (kind_updates found) (sample_updates d' xs),
        total-append received_name (kind_updates found) (sample_updates d' xs),
        total-append missed_name (kind_updates found) (sample_updates d' xs),
        count_kind-append k found (Trace.run d' xs).1,
      )

abbrev pub simulator_detector : AnomalyDetector
simulator_detector = new_detector (record {
  max_age_ms = pos 250;
  max_future_skew_ms = pos 50;
  expected_schema_version = current_schema_version;
})

length-simulated_arrivals {ℓ} :
    {D : Type ℓ} (temperature voltage : D) (left seq : ℕ) (now_ns : ℤ)
    → length (simulated_arrivals temperature voltage left seq now_ns) ≡ left
length-simulated_arrivals temperature voltage zero seq now_ns = refl
length-simulated_arrivals temperature voltage (suc left) seq now_ns = omega (
  arith,
  length-simulated_arrivals temperature voltage left (seq + 1) (now_ns +ℤ pos 100_000_000),
)

module _ {ℓ} {D : Type ℓ} (level : ℤ → D) where
  -- What follows the loop adds a missed deadline.
  counter-wind_up :
      (name : Bytes) (us : List Update) (r : Simulation D)
      → r.metrics ≡ increment_all us (new_registry {D = D})
      → counter name (wind_up level r).0.metrics
        ≡ (total name us + total name ((missed_name, 1) ∷ [])) % 2 ^ 64
  unfolding wind_up counter gauge increment_all
  counter-wind_up name us r e =
      rw
        (
          e,
          sym (increment_all-append us ((missed_name, 1) ∷ []) (new_registry {D = D})),
          sym (total-append name us ((missed_name, 1) ∷ [])),
        )
        (from_new D name (us ++ (missed_name, 1) ∷ []))

  module _ (temperature voltage : D) (audit : AuditSink) (k : AnomalyKind) (left : ℕ) where
    pub rounds_account :
        let r =
          (wind_up level (simulated_rounds temperature voltage left 1 (new_simulation audit))).0 in
        let xs = simulated_arrivals temperature voltage left 1 (pos 1_000_000_000) in
        (r.audit ≡ write_all audit (findings simulator_detector xs))
        × (counter (counter_of k) r.metrics
            ≡ count_kind k (Trace.run simulator_detector xs).1 % 2 ^ 64)
        × (counter received_name r.metrics ≡ left % 2 ^ 64)
        × (counter missed_name r.metrics ≡ 1)
    unfolding new_simulation wind_up str_eq kind_to_string
    rounds_account =
        let start : Simulation D = new_simulation audit in
        let q = simulated_rounds temperature voltage left 1 start in
        let xs = simulated_arrivals temperature voltage left 1 (pos 1_000_000_000) in
        let us = sample_updates simulator_detector xs in
        let (d, a, m) = simulated_rounds_lem temperature voltage left 1 start in
        let (kinds, received, missed) = sample_totals k simulator_detector xs in
        let n = length-simulated_arrivals temperature voltage left 1 (pos 1_000_000_000) in
        (
          a,
          counter-wind_up (counter_of k) us q m ∙ omega (arith, kinds),
          counter-wind_up received_name us q m ∙ omega (arith, received, n),
          counter-wind_up missed_name us q m ∙ omega (arith, missed),
        )
