-- ===== src/Transport/Subscriber.antt =====
-- src/dds_transport.cpp: `TelemetrySubscriber` and its listener. The detector, the monitor, the
-- registry and the sink, which the program shares by reference, are fields; `audit` is `none` where
-- the pointer is null. What the callbacks print on standard output is not modelled, nor the sleep
-- that simulates a slow consumer.
use resilient_dds_data_plane.Base.{
  ℕ, ◌-◌, ◌%◌, ◌^◌, negsuc, Bool, true, false, not, Option, none, some, List, [], ◌∷◌, ◌++◌, ℤ, pos,
  ◌-ℤ◌, quot, ltb_ℤ, Bytes, codes, ltb, if◌then◌else◌, length,
}
use resilient_dds_data_plane.Telemetry.{TelemetrySample, kind_to_string}
use resilient_dds_data_plane.Detector.{AnomalyDetector, AnomalyEvent, evaluate}
use resilient_dds_data_plane.Health.Monitor.{
  HealthMonitor, on_sample, on_deadline_missed, on_liveliness_lost, on_incompatible_qos,
  on_writer_matched,
}
use resilient_dds_data_plane.Metrics.{MetricsRegistry, increment, gauge}
use resilient_dds_data_plane.Audit.{AuditSink, write}
use resilient_dds_data_plane.Qos.{QosProfile}
use resilient_dds_data_plane.Transport.Security.{TransportMode, DdsSecurityConfig, FileSystem}
use resilient_dds_data_plane.Transport.Start.{Vendor, Entities, no_entities, start_entities}

pub record Subscriber {ℓ} (D : Type ℓ) (v : Vendor) : Type ℓ where
  pub detector : AnomalyDetector
  pub health : HealthMonitor
  pub metrics : MetricsRegistry D
  pub audit : Option AuditSink
  pub latency_us : List ℤ
  pub source_hint : Bytes
  pub first_seen : Bool
  pub processing_delay_us : ℤ
  pub entities : Entities v

-- What `take_next_sample` yields while it returns RETCODE_OK, with the clock when it is received.
-- Its `ingest_timestamp_ns` is the publisher's.
pub record Taken {ℓ} (D : Type ℓ) : Type ℓ where
  pub wire : TelemetrySample D
  pub valid_data : Bool
  pub received_ns : ℤ

abbrev pub latency_cap : ℕ
latency_cap = 1_000_000

-- The counters of an event: of its kind, and of its kind and key.
unfoldable pub kind_counter : AnomalyEvent → Bytes
kind_counter e = codes "rdtf_anomaly_" ++ (kind_to_string e.kind ++ codes "_total")

unfoldable pub kind_key_counter : AnomalyEvent → Bytes
kind_key_counter e =
    codes "rdtf_anomaly_by_key{kind=\""
    ++ (kind_to_string e.kind ++ (codes "\",key=\"" ++ (e.source_id ++ codes "\"}")))

unfoldable pub key_counter : Bytes → Bytes
key_counter id = codes "rdtf_samples_received_by_key{key=\"" ++ (id ++ codes "\"}")

-- `static_cast<std::uint64_t>` of a signed count.
unfoldable pub to_u64 : ℤ → ℕ
to_u64 (pos n) = n % 2 ^ 64
to_u64 (negsuc n) = 2 ^ 64 - (n % 2 ^ 64) - 1

unfoldable pub record_latency : ℤ → List ℤ → List ℤ
record_latency latency l = if ltb (length l) latency_cap then l ++ (latency ∷ []) else l

module _ {ℓ} {D : Type ℓ} where
  -- The sample that is built from a wire sample.
  unfoldable pub received : Taken D → TelemetrySample D
  received t = record t.wire { ingest_timestamp_ns = t.received_ns }

  module _ {v : Vendor} where
    unfoldable pub new_subscriber :
        AnomalyDetector → HealthMonitor → MetricsRegistry D → Option AuditSink → Subscriber D v
    new_subscriber d h m a = record {
      detector = d;
      health = h;
      metrics = m;
      audit = a;
      latency_us = [];
      source_hint = codes "unknown";
      first_seen = false;
      processing_delay_us = pos 0;
      entities = no_entities v;
    }

    unfoldable pub set_source : Bytes → Subscriber D v → Subscriber D v
    set_source id s = record s { source_hint = id }

    unfoldable pub set_processing_delay_us : ℤ → Subscriber D v → Subscriber D v
    set_processing_delay_us delay s = record s { processing_delay_us = delay }

    unfoldable pub start :
        FileSystem
        → ℤ
        → Bytes
        → QosProfile
        → TransportMode
        → Option DdsSecurityConfig
        → Subscriber D v
        → Subscriber D v × Bool
    start fs domain_id topic_name profile mode security s =
        let (ok, es, m) =
          start_entities v fs domain_id topic_name profile mode security s.entities s.metrics in
        (record s { entities = es; metrics = m }, ok)

    -- The body of the loop over a sample's events.
    unfoldable pub report : ℤ → AnomalyEvent → Subscriber D v → Subscriber D v
    unfolding kind_counter kind_key_counter
    report observed e s = record s {
      metrics = increment (kind_key_counter e) 1 (increment (kind_counter e) 1 s.metrics);
      audit = elim s.audit [ none ↦ none | some sink ↦ some (write sink e observed) ];
    }

    unfoldable pub report_all : ℤ → List AnomalyEvent → Subscriber D v → Subscriber D v
    report_all observed [] s = s
    report_all observed (e ∷ es) s = report_all observed es (report observed e s)

    -- What is done with a valid sample before its events are reported.
    unfoldable pub accept : Taken D → Subscriber D v → Subscriber D v
    unfolding received record_latency key_counter
    accept t s =
        let x = received t in
        let age_ns = t.received_ns -ℤ x.source_timestamp_ns in
        record s {
          source_hint = x.source_id;
          first_seen = true;
          latency_us = record_latency (quot age_ns 1000) s.latency_us;
          metrics =
              increment (key_counter x.source_id) 1
                (increment (codes "rdtf_samples_received_total") 1 s.metrics);
          health = on_sample s.health x.source_id t.received_ns (quot age_ns 1_000_000);
          detector = (evaluate s.detector x t.received_ns).0;
        }

    -- One round of the loop of `on_data_available`.
    unfoldable pub take_sample : Taken D → Subscriber D v → Subscriber D v
    take_sample t s =
        if not t.valid_data
        then s
        else report_all t.received_ns (evaluate s.detector (received t) t.received_ns).1
            (accept t s)

    unfoldable pub on_data_available : List (Taken D) → Subscriber D v → Subscriber D v
    on_data_available [] s = s
    on_data_available (t ∷ ts) s = on_data_available ts (take_sample t s)

    -- The status callbacks, which name the last source seen. `to_double`
    -- converts an integer.
    unfoldable pub on_requested_deadline_missed : ℤ → Subscriber D v → Subscriber D v
    on_requested_deadline_missed total_count_change s = record s {
      metrics =
          increment (codes "rdtf_deadline_missed_total") (to_u64 total_count_change) s.metrics;
      health = on_deadline_missed s.health s.source_hint;
    }

    unfoldable pub on_liveliness_changed : ℤ → Subscriber D v → Subscriber D v
    on_liveliness_changed not_alive_count_change s =
        if ltb_ℤ (pos 0) not_alive_count_change
        then record s {
          metrics =
              increment (codes "rdtf_liveliness_lost_total") (to_u64 not_alive_count_change)
                s.metrics;
          health = on_liveliness_lost s.health s.source_hint;
        }
        else s

    unfoldable pub on_requested_incompatible_qos : Subscriber D v → Subscriber D v
    on_requested_incompatible_qos s = record s {
      metrics = increment (codes "rdtf_incompatible_qos_total") 1 s.metrics;
      health = on_incompatible_qos s.health s.source_hint;
    }

    unfoldable pub on_sample_lost : ℤ → Subscriber D v → Subscriber D v
    on_sample_lost total_count_change s = record s {
      metrics =
          increment (codes "rdtf_middleware_sample_lost_total") (to_u64 total_count_change)
            s.metrics;
    }

    unfoldable pub on_subscription_matched : (ℤ → D) → ℤ → Subscriber D v → Subscriber D v
    on_subscription_matched to_double current_count s = record s {
      metrics = gauge (codes "rdtf_subscription_matched") (to_double current_count) s.metrics;
      health = on_writer_matched s.health s.source_hint (ltb_ℤ (pos 0) current_count);
    }
