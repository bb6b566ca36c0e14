-- ===== src/Transport/Streams.antt =====
-- A row of writes and a row of samples through src/dds_transport.cpp.
use resilient_dds_data_plane.Base.{Bytes, ◌++◌, true, pos_part, ℕ, ◌≡◌, refl, [], ◌∷◌, pos, codes}
use resilient_dds_data_plane.Detector.Trace
use resilient_dds_data_plane.Health.Events
use resilient_dds_data_plane.Base.Decimal.{show}
use resilient_dds_data_plane.Metrics.{new_registry, render_prometheus}
use resilient_dds_data_plane.Metrics.Counters.{IsValid}
use resilient_dds_data_plane.Transport.Subscriber.{Taken, on_data_available}
use resilient_dds_data_plane.Transport.Pipeline.{
  arrivals, calls, findings, audited, on_data_available_lem,
}
use resilient_dds_data_plane.Transport.Latency.{latency}
use resilient_dds_data_plane.Transport.Ranks.{IsAtRank, latency-IsAtRank}
use resilient_dds_data_plane.Transport.Percentiles.{Within}
use resilient_dds_data_plane.Transport.Listener.{data_available, sample_lost, handle_all}
use resilient_dds_data_plane.Transport.Forgery.{Reads, forged_metric}
use resilient_dds_data_plane.Transport.Fixtures.{reading, subscriber, taken, whole}

on_data_available_lem_example :
    let r = on_data_available taken subscriber in
    let xs = arrivals taken in
    (r.detector ≡ (Trace.run subscriber.detector xs).0)
    × (r.health ≡ Events.run subscriber.health (calls xs))
    × (r.audit ≡ audited subscriber.audit (findings subscriber.detector xs))
on_data_available_lem_example = on_data_available_lem taken subscriber

latency-IsAtRank_example :
    let r = latency whole (pos 900 ∷ pos 20 ∷ pos 35 ∷ []) in
    (r.count ≡ 3)
    × Within r.min_us r.max_us (pos 900 ∷ pos 20 ∷ pos 35 ∷ [])
    × IsAtRank whole 50 (pos 900 ∷ pos 20 ∷ pos 35 ∷ []) r.p50_us
    × IsAtRank whole 95 (pos 900 ∷ pos 20 ∷ pos 35 ∷ []) r.p95_us
    × IsAtRank whole 99 (pos 900 ∷ pos 20 ∷ pos 35 ∷ []) r.p99_us
    × IsAtRank whole whole.p999 (pos 900 ∷ pos 20 ∷ pos 35 ∷ []) r.p999_us
latency-IsAtRank_example = latency-IsAtRank whole (pos 900) (pos 20 ∷ pos 35 ∷ [])

-- A source id that names the gauge of the source's health, on a line of its own.
abbrev forger : Bytes
forger =
    codes "x"
    ++ (b'\n' ∷ ((codes "rdtf_source_health_state" ++ (b' ' ∷ codes "2.000")) ++ (b'\n' ∷ [])))

abbrev forging : Taken ℕ
forging = record {
  wire = record (reading 1) { source_id = forger };
  valid_data = true;
  received_ns = pos 11_000_000;
}

no_metrics : IsValid subscriber.metrics
unfolding new_registry
no_metrics = (tt, tt)

forged_metric_example :
    Reads
      (codes "rdtf_source_health_state", codes "2.000")
      (render_prometheus show
        (handle_all pos_part
          (data_available (forging ∷ []) ∷ sample_lost (pos 1) ∷ [])
          subscriber).metrics)
forged_metric_example =
    forged_metric pos_part show forging [] (sample_lost (pos 1) ∷ []) subscriber (codes "x")
      (codes "rdtf_source_health_state") (codes "2.000") [] no_metrics refl refl refl refl
