-- ===== src/Programs/Streams.antt =====
-- Runs of the subscriber program of apps/dds_subscriber.cpp, from its start.
use resilient_dds_data_plane.Base.{
  ◌==◌, if◌then◌else◌, ◌++◌, ◌+◌, ◌*◌, ℤ, length, true, ℕ, pos_part, negsuc, str_eq, is_empty, ◌≡◌,
  refl, false, none, some, List, [], ◌∷◌, pos, codes,
}
use resilient_dds_data_plane.Telemetry.{duplicate}
use resilient_dds_data_plane.Metrics.{new_registry, increment}
use resilient_dds_data_plane.Metrics.Ordered
use resilient_dds_data_plane.Qos.{validate, periodic_telemetry}
use resilient_dds_data_plane.Transport.Security.{FileSystem, security_config_ok}
use resilient_dds_data_plane.Transport.Start.{start_entities}
use resilient_dds_data_plane.Transport.Subscriber.{start}
use resilient_dds_data_plane.Transport.Listener.{
  Callback, data_available, deadline_missed, liveliness_changed, sample_lost, incompatible_qos,
}
use resilient_dds_data_plane.Transport.Fixtures.{vendor, taken, whole}
use resilient_dds_data_plane.Programs.DdsSubscriber.{
  no_settings, new_poller, Happening, called, polled, decided, settled, Running, set_up, begin,
  happen_all,
}
use resilient_dds_data_plane.Programs.DdsSubscriber.Session.{callbacks}
use resilient_dds_data_plane.Audit.{AuditSink}
use resilient_dds_data_plane.Audit.Journal.{write_all}
use resilient_dds_data_plane.Health.State.{degraded, stale_data}
use resilient_dds_data_plane.Metrics.Counters.{counter}
use resilient_dds_data_plane.Transport.Pipeline.{findings}
use resilient_dds_data_plane.Transport.Tallies.{counter_of}
use resilient_dds_data_plane.Programs.Simulator.{simulate}
use resilient_dds_data_plane.Programs.Simulator.Account.{simulated_arrivals, simulator_detector}
use resilient_dds_data_plane.Programs.Simulator.Outcome.{simulate_accounts}
use resilient_dds_data_plane.Telemetry.{TelemetrySample}
use resilient_dds_data_plane.Transport.Publisher
use resilient_dds_data_plane.Transport.Publisher.{Publisher, retcode_ok, retcode_timeout}
use resilient_dds_data_plane.Programs.DdsPublisher.{published}
use resilient_dds_data_plane.Programs.DdsPublisher.Setup
use resilient_dds_data_plane.Programs.DdsPublisher.Running
use resilient_dds_data_plane.Programs.DdsPublisher.Session.{publisher_accounts}
use resilient_dds_data_plane.Base.Decimal.{show, all_digits_show}
use resilient_dds_data_plane.Metrics.{render_prometheus}
use resilient_dds_data_plane.Metrics.Reading.{is_plain, digits_plain, entries, read_metrics}
use resilient_dds_data_plane.Programs.DdsSubscriber.Dashboard.{session_reads}
use resilient_dds_data_plane.Programs.DdsSubscriber.Ending.{come_in, finish}
use resilient_dds_data_plane.Transport.Subscriber.{received}
use resilient_dds_data_plane.Transport.Listener.{all_arrivals}
use resilient_dds_data_plane.Transport.Names.{ids_unbroken}

-- Samples, a lost sample within a round of the poller, two expired leases of which one is renewed, and
-- a refused match.
abbrev eventful : List (Happening ℕ)
eventful =
    polled (pos 1_000_000) (pos 1_500_000)
    ∷ called (data_available taken)
    ∷ polled (pos 42_000_000) (pos 42_500_000)
    ∷ decided (pos 43_000_000)
    ∷ called (sample_lost (pos 3))
    ∷ settled (pos 43_500_000)
    ∷ called (deadline_missed (pos 2))
    ∷ called (liveliness_changed (pos 1))
    ∷ called (liveliness_changed (negsuc 0))
    ∷ polled (pos 62_000_000) (pos 62_500_000)
    ∷ called incompatible_qos
    ∷ []

abbrev no_files : FileSystem
no_files = record { is_regular_file = λ path. false; absolute = λ path. path }

-- The program behind its setting up.
abbrev begun : Running ℕ vendor
begun = record {
  subscriber = record (set_up no_settings none) {
    entities = record { participant = some 1; topic = some 2; group = some 3; endpoint = some 4 };
    metrics = increment (codes "rdtf_adapter_initializations_total") 1 new_registry;
  };
  poller = new_poller;
}

begins : begin no_files no_settings none ≡ some begun
unfolding begin start start_entities set_up validate str_eq periodic_telemetry security_config_ok
    is_empty
begins = refl

-- A sample is lost while the gauges of the latencies are set.
abbrev late : ℕ → List (Callback ℕ)
late i = if i == 4 then sample_lost (pos 2) ∷ [] else []

abbrev opened : AuditSink
opened = record { healthy = true; written = [] }

simulate_accounts_example :
    let (r, snap) = simulate 42 27 pos_part opened in
    let xs = simulated_arrivals {D = ℕ} 42 27 20 1 (pos 1_000_000_000) in
    (r.audit ≡ write_all opened (findings simulator_detector xs))
    × (counter (counter_of duplicate) r.metrics ≡ 2)
    × (counter (codes "rdtf_samples_received_total") r.metrics ≡ 20)
    × (counter (codes "rdtf_deadline_missed_total") r.metrics ≡ 1)
    × (snap.state ≡ degraded)
    × (snap.reason ≡ stale_data)
simulate_accounts_example = simulate_accounts 42 27 pos_part opened duplicate

-- Two rounds of the publisher.
abbrev two_rounds : Setup.Settings
two_rounds = record Setup.no_settings { count = 2 }

abbrev sent : ℕ → TelemetrySample ℕ
sent n = record {
  source_id = codes "radar-01";
  sequence = n;
  source_timestamp_ns = pos (50 * n);
  ingest_timestamp_ns = pos (50 * n);
  temperature_c = 40 + n;
  voltage_v = 27;
  health_flags = 0;
  schema_version = 1;
}

-- The second write meets a full history, and a deadline is missed in between.
abbrev written : List (Running.Happening ℕ)
written =
    Running.matched_changed (pos 1)
    ∷ Running.wrote (sent 1, record { rc = retcode_ok; blocked_us = 40; spurious = 1 })
    ∷ Running.deadline_missed
    ∷ Running.wrote (sent 2, record { rc = retcode_timeout; blocked_us = 90; spurious = 0 })
    ∷ []

abbrev started : Publisher ℕ vendor
started = record {
  metrics = increment (codes "rdtf_adapter_initializations_total") 1 new_registry;
  match_count = pos 0;
  total_blocked_us = 0;
  max_blocked_us = 0;
  entities = record { participant = some 1; topic = some 2; group = some 3; endpoint = some 4 };
}

starts : Setup.begin no_files two_rounds ≡ some started
unfolding Setup.begin Publisher.start start_entities validate str_eq periodic_telemetry
    security_config_ok is_empty
starts = refl

abbrev clock : ℕ → ℕ → ℤ
clock round i = pos (50 * round + i)

abbrev warm : ℕ → ℕ
warm n = 40 + n

in_order :
    Running.samples_of (Running.writes_of written)
    ≡ published warm 27 (Setup.loop_options two_rounds) clock
unfolding published
in_order = refl

publisher_accounts_example :
    let m = Running.final_metrics (λ n. n) (Running.happen_all pos_part written started) in
    (counter (codes "rdtf_samples_published_total") m ≡ 1)
    × (counter (codes "rdtf_publish_failures_total") m ≡ 1)
    × (counter (codes "rdtf_publish_timeout_total") m ≡ 1)
    × (counter (codes "rdtf_publish_out_of_resources_total") m ≡ 0)
    × (counter (codes "rdtf_publish_other_error_total") m ≡ 0)
    × (2 ≡ length (published warm 27 (Setup.loop_options two_rounds) clock))
    × (Ordered.find (codes "rdtf_write_blocked_total_us") m.gauges ≡ some 130)
    × (Ordered.find (codes "rdtf_write_blocked_max_us") m.gauges ≡ some 90)
publisher_accounts_example =
    publisher_accounts (λ n. n) pos_part warm 27 no_files two_rounds clock started written starts
      in_order

shown_plain : (x : ℕ) → is_plain (show x) ≡ true
shown_plain x = digits_plain (show x) (all_digits_show x)

eventful_unbroken : ids_unbroken (all_arrivals (callbacks eventful ++ come_in late 11 0)) ≡ true
unfolding received
eventful_unbroken = refl

session_reads_example :
    let q = happen_all pos_part no_settings.source_id (pos 0) eventful begun in
    let m = (finish whole late no_settings.source_id (pos 63_000_000) q.subscriber).metrics in
    read_metrics (render_prometheus show m) ≡ entries show m.counters ++ entries show m.gauges
session_reads_example =
    session_reads whole show no_files no_settings none begun (pos 0) eventful (pos 63_000_000) late
      begins shown_plain eventful_unbroken
