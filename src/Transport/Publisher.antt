-- ===== src/Transport/Publisher.antt =====
-- src/dds_transport.cpp: `TelemetryPublisher`. Of a call of Fast DDS's `write` the model takes the
-- return code, the time it took on the steady clock, which does not go back, and how often the
-- compare-exchange after it failed spuriously. The metrics registry is a field.
use resilient_dds_data_plane.Base.{
  ℕ, zero, suc, ◌+◌, ◌%◌, ◌^◌, Bool, true, false, Option, none, some, ℤ, pos, ltb_ℤ, Bytes, codes,
  ltb, ◌==◌, if◌then◌else◌,
}
use resilient_dds_data_plane.Metrics.{MetricsRegistry, increment, gauge}
use resilient_dds_data_plane.Qos.{QosProfile}
use resilient_dds_data_plane.Telemetry.{TelemetrySample}
use resilient_dds_data_plane.Transport.Security.{TransportMode, DdsSecurityConfig, FileSystem}
use resilient_dds_data_plane.Transport.Start.{Vendor, Entities, no_entities, start_entities}

pub data ReturnCode : Type 0 where
  retcode_ok retcode_timeout retcode_out_of_resources retcode_other : ReturnCode

-- A call of `write`: its return code, its microseconds, the spurious failures that followed.
pub record WriteOutcome : Type 0 where
  pub rc : ReturnCode
  pub blocked_us : ℕ
  pub spurious : ℕ

pub record Publisher {ℓ} (D : Type ℓ) (v : Vendor) : Type ℓ where
  pub metrics : MetricsRegistry D
  pub match_count : ℤ
  pub total_blocked_us : ℕ  -- uint64
  pub max_blocked_us : ℕ  -- uint64
  pub entities : Entities v

abbrev pub is_ok : ReturnCode → Bool
is_ok retcode_ok = true
is_ok _ = false

-- The compare-exchange loop that raises `stored` to `blocked`: a failure loads the stored value.
unfoldable pub raise_max : ℕ → ℕ → ℕ → ℕ → ℕ
raise_max zero blocked prev stored =
    if ltb prev blocked
    then if prev == stored then blocked else if ltb stored blocked then blocked else stored
    else stored
raise_max (suc spurious) blocked prev stored =
    let again = raise_max spurious blocked stored stored in
    if ltb prev blocked then again else stored

-- The name of the counter for a kind of failure.
unfoldable pub failure_counter : ReturnCode → Bytes
failure_counter retcode_timeout = codes "rdtf_publish_timeout_total"
failure_counter retcode_out_of_resources = codes "rdtf_publish_out_of_resources_total"
failure_counter _ = codes "rdtf_publish_other_error_total"

module _ {ℓ} {D : Type ℓ} {v : Vendor} where
  unfoldable pub new_publisher : MetricsRegistry D → Publisher D v
  new_publisher m = record {
    metrics = m;
    match_count = pos 0;
    total_blocked_us = 0;
    max_blocked_us = 0;
    entities = no_entities v;
  }

  unfoldable pub start :
      FileSystem
      → ℤ
      → Bytes
      → QosProfile
      → TransportMode
      → Option DdsSecurityConfig
      → Publisher D v
      → Publisher D v × Bool
  start fs domain_id topic_name profile mode security p =
      let (ok, es, m) =
        start_entities v fs domain_id topic_name profile mode security p.entities p.metrics in
      (record p { entities = es; metrics = m }, ok)

  -- `publish`, of which the caller learns whether the write succeeded. The wire type has the
  -- fields of the sample; it reaches Fast DDS alone.
  unfoldable pub publish : TelemetrySample D → WriteOutcome → Publisher D v → Publisher D v × Bool
  unfolding raise_max failure_counter
  publish s w p = elim p.entities.endpoint [
    | none ↦ (p, false)
    | some writer ↦ (
      record p {
        total_blocked_us = (p.total_blocked_us + w.blocked_us) % 2 ^ 64;
        max_blocked_us = raise_max w.spurious w.blocked_us p.max_blocked_us p.max_blocked_us;
        metrics =
            if is_ok w.rc
            then increment (codes "rdtf_samples_published_total") 1 p.metrics
            else increment (failure_counter w.rc) 1
                (increment (codes "rdtf_publish_failures_total") 1 p.metrics);
      },
      is_ok w.rc,
    )
  ]

  -- The listener's callbacks. `to_double` converts an integer.
  unfoldable pub on_publication_matched : (ℤ → D) → ℤ → Publisher D v → Publisher D v
  on_publication_matched to_double current_count p = record p {
    match_count = current_count;
    metrics = gauge (codes "rdtf_publication_matched") (to_double current_count) p.metrics;
  }

  unfoldable pub on_offered_deadline_missed : Publisher D v → Publisher D v
  on_offered_deadline_missed p = record p {
    metrics = increment (codes "rdtf_offered_deadline_missed_total") 1 p.metrics;
  }

  unfoldable pub on_offered_incompatible_qos : Publisher D v → Publisher D v
  on_offered_incompatible_qos p = record p {
    metrics = increment (codes "rdtf_offered_incompatible_qos_total") 1 p.metrics;
  }

  unfoldable pub matched : Publisher D v → Bool
  matched p = ltb_ℤ (pos 0) p.match_count

  -- write_stats: the total and the longest time.
  unfoldable pub write_stats : Publisher D v → ℕ × ℕ
  write_stats p = (p.total_blocked_us, p.max_blocked_us)
