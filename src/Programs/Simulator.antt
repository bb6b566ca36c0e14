-- ===== src/Programs/Simulator.antt =====
-- apps/simulator.cpp: twenty samples with injected faults through the detector, the monitor, the
-- registry and the audit sink. `audit` is the sink as it was opened; `level` is the number of an
-- enumerator's gauge as a double. The lines printed for single events are not modelled.
pub mod Account
pub mod Outcome
use resilient_dds_data_plane.Base.{
  ℕ, zero, suc, ◌+◌, ◌≡◌, refl, ap, ◌∙◌, List, [], ◌∷◌, ◌++◌, ℤ, pos, ◌-ℤ◌, ◌+ℤ◌, Bytes, codes,
  arith, ◌==◌, if◌then◌else◌,
}
use resilient_dds_data_plane.Telemetry.{TelemetrySample, current_schema_version}
use resilient_dds_data_plane.Detector.{AnomalyDetector, AnomalyEvent, new_detector, evaluate}
use resilient_dds_data_plane.Health.State.{HealthSnapshot}
use resilient_dds_data_plane.Health.Monitor.{
  HealthMonitor, new_monitor_ms, on_sample, on_deadline_missed, snapshot,
}
use resilient_dds_data_plane.Metrics.{MetricsRegistry, new_registry, increment, gauge}
use resilient_dds_data_plane.Audit.{AuditSink, write}
use resilient_dds_data_plane.Transport.Subscriber.{kind_counter}
use resilient_dds_data_plane.Programs.DdsSubscriber.Report.{health_level}

abbrev pub simulated_source : Bytes
simulated_source = codes "radar-01"

-- The variables of `main`.
pub record Simulation {ℓ} (D : Type ℓ) : Type ℓ where
  pub detector : AnomalyDetector
  pub health : HealthMonitor
  pub metrics : MetricsRegistry D
  pub audit : AuditSink
  pub now_ns : ℤ

module _ {ℓ} {D : Type ℓ} where
  unfoldable pub new_simulation : AuditSink → Simulation D
  unfolding new_detector new_monitor_ms new_registry
  new_simulation audit = record {
    detector = new_detector (record {
      max_age_ms = pos 250;
      max_future_skew_ms = pos 50;
      expected_schema_version = current_schema_version;
    });
    health = new_monitor_ms (pos 250) (pos 1000);
    metrics = new_registry;
    audit = audit;
    now_ns = pos 1_000_000_000;
  }

  -- The body of the loop over a sample's events, for all of them.
  unfoldable pub tell : List AnomalyEvent → Simulation D → Simulation D
  unfolding kind_counter
  tell [] r = r
  tell (e ∷ es) r = tell es (record r {
    metrics = increment (kind_counter e) 1 r.metrics;
    audit = write r.audit e r.now_ns;
  })

  -- What follows the loop.
  unfoldable pub wind_up : (ℤ → D) → Simulation D → Simulation D × HealthSnapshot
  unfolding health_level
  wind_up level r =
      let health = on_deadline_missed r.health simulated_source in
      let missed = increment (codes "rdtf_deadline_missed_total") 1 r.metrics in
      let snap = snapshot health simulated_source (r.now_ns +ℤ pos 300_000_000) in
      (
        record r {
          health = health;
          metrics =
              gauge (codes "rdtf_source_health_state") (level (health_level snap.state)) missed;
        },
        snap,
      )

module _ {ℓ} {D : Type ℓ} (temperature voltage : D) where
  -- The sample of a round, with the fault that the round injects.
  unfoldable pub simulated_sample : ℕ → ℤ → TelemetrySample D
  simulated_sample seq now_ns = record {
    source_id = simulated_source;
    sequence = if seq == 6 then 8 else if seq == 9 then 8 else seq;
    source_timestamp_ns = if seq == 12 then now_ns -ℤ pos 900_000_000 else now_ns -ℤ pos 10_000_000;
    ingest_timestamp_ns = now_ns;
    temperature_c = temperature;
    voltage_v = voltage;
    health_flags = 0;
    schema_version = if seq == 15 then 2 else 1;
  }

  unfoldable pub simulated_round : ℕ → Simulation D → Simulation D
  unfolding simulated_sample tell
  simulated_round seq r =
      let now = r.now_ns +ℤ pos 100_000_000 in
      let s = simulated_sample seq now in
      let (d, events) = evaluate r.detector s now in
      tell events (record {
        detector = d;
        health = on_sample r.health s.source_id now (pos 0);
        metrics = increment (codes "rdtf_samples_received_total") 1 r.metrics;
        audit = r.audit;
        now_ns = now;
      })

  -- `left` rounds of the loop, from `seq` on.
  unfoldable pub simulated_rounds : ℕ → ℕ → Simulation D → Simulation D
  unfolding simulated_round
  simulated_rounds zero seq r = r
  simulated_rounds (suc left) seq r = simulated_rounds left (seq + 1) (simulated_round seq r)

  -- The whole program.
  unfoldable pub simulate : (ℤ → D) → AuditSink → Simulation D × HealthSnapshot
  unfolding simulated_rounds new_simulation wind_up
  simulate level audit = wind_up level (simulated_rounds 20 1 (new_simulation audit))
