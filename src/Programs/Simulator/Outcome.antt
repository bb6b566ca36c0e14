-- ===== src/Programs/Simulator/Outcome.antt =====
-- What apps/simulator.cpp shows at the end.
use resilient_dds_data_plane.Base.{
  ℕ, zero, suc, ◌+◌, ◌%◌, ◌^◌, ◌≡◌, refl, ap, ◌∙◌, ℤ, quot, negate, pos, ◌+ℤ◌, ◌*ℤ◌, ◌-ℤ◌, str_eq,
}
use resilient_dds_data_plane.Base.Dict
use resilient_dds_data_plane.Telemetry.{
  duplicate, sequence_gap, out_of_order, stale, future_timestamp, schema_mismatch, AnomalyKind,
}
use resilient_dds_data_plane.Detector.{
  schema_events, freshness_events, sample_age_ms, sequence_guard, evaluate, new_detector,
}
use resilient_dds_data_plane.Detector.Trace
use resilient_dds_data_plane.Health.State.{HealthSnapshot, degraded, stale_data}
use resilient_dds_data_plane.Health.Monitor.{
  HealthMonitor, new_monitor_ms, on_sample, on_deadline_missed, snapshot,
}
use resilient_dds_data_plane.Health.Rules.{decide, sample, deadline}
use resilient_dds_data_plane.Metrics.{increment}
use resilient_dds_data_plane.Metrics.Counters.{counter}
use resilient_dds_data_plane.Audit.{AuditSink}
use resilient_dds_data_plane.Audit.Journal.{write_all}
use resilient_dds_data_plane.Transport.Pipeline.{findings}
use resilient_dds_data_plane.Transport.Tallies.{count_kind, counter_of}
use resilient_dds_data_plane.Programs.Simulator.{
  Simulation, simulated_source, simulated_sample, simulated_round, simulated_rounds, new_simulation,
  wind_up, simulate,
}
use resilient_dds_data_plane.Programs.Simulator.Account.{
  received_name, missed_name, simulated_arrivals, simulator_detector, tell_lem, rounds_account,
}

-- The monitor and the clock after some rounds.
abbrev watched : ℕ → HealthMonitor → ℤ → HealthMonitor × ℤ
watched zero h now_ns = (h, now_ns)
watched (suc left) h now_ns =
    let now = now_ns +ℤ pos 100_000_000 in
    watched left (on_sample h simulated_source now (pos 0)) now

module _ {ℓ} {D : Type ℓ} (temperature voltage : D) where
  simulated_rounds-watched :
      (left seq : ℕ) (r : Simulation D)
      → let q = simulated_rounds temperature voltage left seq r in
        (q.health, q.now_ns) ≡ watched left r.health r.now_ns
  unfolding simulated_rounds simulated_round simulated_sample
  simulated_rounds-watched zero seq r = refl
  simulated_rounds-watched (suc left) seq r =
      let now = r.now_ns +ℤ pos 100_000_000 in
      let s = simulated_sample temperature voltage seq now in
      let (d, found) = evaluate r.detector s now in
      let heard : Simulation D = record {
        detector = d;
        health = on_sample r.health s.source_id now (pos 0);
        metrics = increment received_name 1 r.metrics;
        audit = r.audit;
        now_ns = now;
      } in
      let (a, b, c, e, f) = tell_lem found heard in
      simulated_rounds-watched left (seq + 1) (simulated_round temperature voltage seq r)
      ∙ rw (b, c) refl

abbrev last_look : HealthSnapshot
last_look =
    let (h, now_ns) = watched 20 (new_monitor_ms (pos 250) (pos 1000)) (pos 1_000_000_000) in
    snapshot (on_deadline_missed h simulated_source) simulated_source (now_ns +ℤ pos 300_000_000)

last_look_lem : (last_look.state ≡ degraded) × (last_look.reason ≡ stale_data)
unfolding new_monitor_ms on_sample on_deadline_missed snapshot decide Dict.find Dict.put Dict.at
    str_eq sample deadline ◌+ℤ◌ ◌*ℤ◌ ◌-ℤ◌
last_look_lem = (refl, refl)

final_look {ℓ} :
    {D : Type ℓ} (temperature voltage : D) (level : ℤ → D) (audit : AuditSink)
    → (simulate temperature voltage level audit).1 ≡ last_look
unfolding simulate wind_up new_simulation
final_look temperature voltage level audit =
    let start = new_simulation audit in
    let e = simulated_rounds-watched temperature voltage 20 1 start in
    ap
      (λ w.
        snapshot (on_deadline_missed w.0 simulated_source) simulated_source
          (w.1 +ℤ pos 300_000_000))
      e

-- What the faults of the loop show as: the numbers 8, 7, 8, 8, 10 in place of 6 to 10 make two gaps, one
-- sample out of order and two duplicates.
abbrev pub simulated_faults : AnomalyKind → ℕ
simulated_faults duplicate = 2
simulated_faults sequence_gap = 2
simulated_faults out_of_order = 1
simulated_faults stale = 1
simulated_faults future_timestamp = 0
simulated_faults schema_mismatch = 1

count_simulated {ℓ} :
    {D : Type ℓ} (temperature voltage : D) (k : AnomalyKind)
    → let xs = simulated_arrivals temperature voltage 20 1 (pos 1_000_000_000) in
      count_kind k (Trace.run simulator_detector xs).1 ≡ simulated_faults k
unfolding Trace.run evaluate schema_events simulated_sample new_detector freshness_events
    sample_age_ms quot ◌-ℤ◌ ◌+ℤ◌ negate sequence_guard Dict.at Dict.find Dict.put str_eq
count_simulated temperature voltage duplicate = refl
count_simulated temperature voltage sequence_gap = refl
count_simulated temperature voltage out_of_order = refl
count_simulated temperature voltage stale = refl
count_simulated temperature voltage future_timestamp = refl
count_simulated temperature voltage schema_mismatch = refl

-- The simulator accounts for what it injects. Whatever sink it opens, the sink is sent the events that
-- a new detector reports of the twenty samples, in order and each with the time of its sample; the
-- registry counts two duplicates, two gaps, and one sample each out of order, stale and with another
-- schema, none from the future, the twenty samples, and one missed deadline; and the health shown
-- 300 ms behind the last sample is degraded for stale data.
pub simulate_accounts {ℓ} :
    {D : Type ℓ} (temperature voltage : D) (level : ℤ → D) (audit : AuditSink) (k : AnomalyKind)
    → let (r, snap) = simulate temperature voltage level audit in
      let xs = simulated_arrivals temperature voltage 20 1 (pos 1_000_000_000) in
      (r.audit ≡ write_all audit (findings simulator_detector xs))
      × (counter (counter_of k) r.metrics ≡ simulated_faults k)
      × (counter received_name r.metrics ≡ 20)
      × (counter missed_name r.metrics ≡ 1)
      × (snap.state ≡ degraded)
      × (snap.reason ≡ stale_data)
unfolding simulate
simulate_accounts temperature voltage level audit k =
    let (a, b, c, d) = rounds_account level temperature voltage audit k 20 in
    let look = final_look temperature voltage level audit in
    (
      a,
      b ∙ rw (count_simulated temperature voltage k) (small k),
      c,
      d,
      ap (λ w. w.state) look ∙ last_look_lem.0,
      ap (λ w. w.reason) look ∙ last_look_lem.1,
    )
  where
    small : (k : AnomalyKind) → simulated_faults k % 2 ^ 64 ≡ simulated_faults k
    small duplicate = refl
    small sequence_gap = refl
    small out_of_order = refl
    small stale = refl
    small future_timestamp = refl
    small schema_mismatch = refl
