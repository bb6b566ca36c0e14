-- ===== src/Programs/Runs.antt =====
-- Runs of the publisher, of the subscriber and of the probes of apps/.
use resilient_dds_data_plane.Base.{
  ℕ, ◌+◌, ◌*◌, ◌≡◌, refl, inl, inr, true, false, some, List, [], ◌∷◌, ℤ, pos, negsuc, codes, arith,
  if◌then◌else◌, pos_part, ltb, ◌==◌, starts_with,
}
use resilient_dds_data_plane.Detector.{DetectorConfig, new_detector}
use resilient_dds_data_plane.Detector.Trace
use resilient_dds_data_plane.Transport.Subscriber.{Subscriber, on_data_available}
use resilient_dds_data_plane.Health.Events
use resilient_dds_data_plane.Base.Dict
use resilient_dds_data_plane.Health.Monitor.{snapshot, new_monitor}
use resilient_dds_data_plane.Metrics.{new_registry}
use resilient_dds_data_plane.Metrics.Ordered
use resilient_dds_data_plane.Metrics.Counters.{counter, IsValid}
use resilient_dds_data_plane.Transport.Tallies.{counter_of}
use resilient_dds_data_plane.Telemetry.{
  AnomalyKind, duplicate, sequence_gap, out_of_order, schema_mismatch,
}
use resilient_dds_data_plane.Programs.EndToEnd.{taken_from, injected_counters}
use resilient_dds_data_plane.Transport.Publisher.{ReturnCode, retcode_ok, retcode_timeout}
use resilient_dds_data_plane.Transport.Listener.{
  Callback, data_available, liveliness_changed, sample_lost, handle_all,
}
use resilient_dds_data_plane.Transport.Fixtures.{vendor, robot, subscriber, taken, whole}
use resilient_dds_data_plane.Programs.AuthorityReader.{Reader}
use resilient_dds_data_plane.Programs.DdsPublisher.{Options, published}
use resilient_dds_data_plane.Programs.DdsPublisher.Numbers.{delivered}
use resilient_dds_data_plane.Programs.DdsPublisher.Ready.{has_sequence_event}
use resilient_dds_data_plane.Programs.DdsPublisher.Clean.{published_clean}
use resilient_dds_data_plane.Programs.DdsPublisher.Rounds.{IsSingle}
use resilient_dds_data_plane.Programs.DdsPublisher.Setup
use resilient_dds_data_plane.Programs.DdsSubscriber.{
  Happening, called, polled, new_poller, happen_all,
}
use resilient_dds_data_plane.Programs.DdsSubscriber.Polling.{
  calls_of, verdicts, verdicts_of, collapse, happen_all_lem,
}
use resilient_dds_data_plane.Programs.DdsSubscriber.Gauges.{ShowsLatencies}
use resilient_dds_data_plane.Programs.DdsSubscriber.Ending.{set_gauges, finish}
use resilient_dds_data_plane.Programs.DdsSubscriber.Shown.{finish_shows}
use resilient_dds_data_plane.Programs.Probes.{
  Answers, Outcome, authority_writer, authority_reader, resource_reader, resource_writer,
}
use resilient_dds_data_plane.Programs.Probes.Tidy.{
  LeavesNothing, probes_leave_nothing, resource_writer_ends,
}
use resilient_dds_data_plane.Programs.CommandLine.PublisherOptions.{arguments, parse}
use resilient_dds_data_plane.Programs.CommandLine.DdsPublisher.{IsSound, parse-arguments_publisher}

abbrev celsius : ℕ → ℕ
celsius n = 40 + n

abbrev volts : ℕ
volts = 28

-- Five rounds over three keys, the second of which has two samples a round.
abbrev fan_out : Options
fan_out = record {
  source_id = codes "radar-01";
  count = 5;
  drop_at = 0;
  duplicate_at = 9;
  stale_at = 2;
  schema_drift_at = 3;
  keys = 3;
  hot_key = pos 1;
  hot_multiplier = 2;
}

abbrev checks : DetectorConfig
checks = record { max_age_ms = pos 250; max_future_skew_ms = pos 50; expected_schema_version = 1 }

abbrev clock : ℕ → ℕ → ℤ
clock round i = pos (1_000_000_000 + 50_000_000 * round + i)

abbrev arrives : ℕ → ℤ
arrives n = pos (1_000_500_000 + 50_000_000 * n)

published_clean_example :
    has_sequence_event
      (Trace.run
        (new_detector checks)
        (delivered arrives 0 (published celsius volts fan_out clock))).1
    ≡ false
published_clean_example =
    published_clean celsius volts fan_out clock arrives checks (omega arith) (omega arith)
      (inl refl) (inr (omega arith)) (omega arith)

-- Eight rounds: round 3 is dropped, round 5 doubled, round 6 drifts.
abbrev faulty : Options
faulty = record {
  source_id = codes "radar-01";
  count = 8;
  drop_at = 3;
  duplicate_at = 5;
  stale_at = 0;
  schema_drift_at = 6;
  keys = 1;
  hot_key = negsuc 0;
  hot_multiplier = 1;
}

faulty-IsSingle : IsSingle faulty
faulty-IsSingle = record { one_key = refl; not_hot = refl }

subscriber_new : subscriber.detector ≡ new_detector subscriber.detector.config
unfolding new_detector
subscriber_new = refl

no_anomalies : (k : AnomalyKind) → counter (counter_of k) subscriber.metrics ≡ 0
unfolding new_registry counter Ordered.find
no_anomalies k = refl

subscriber-IsValid : IsValid subscriber.metrics
unfolding new_registry
subscriber-IsValid = (tt, tt)

injected_counters_example :
    let ts = taken_from arrives 0 (published celsius volts faulty clock) in
    let m = (on_data_available ts subscriber).metrics in
    (counter (counter_of duplicate) m ≡ 1)
    × (counter (counter_of sequence_gap) m ≡ 1)
    × (counter (counter_of out_of_order) m ≡ 0)
    × (counter (counter_of schema_mismatch) m ≡ 1)
unfolding new_detector
injected_counters_example =
    injected_counters celsius volts faulty clock arrives subscriber.detector.config subscriber
      faulty-IsSingle (omega arith) refl subscriber_new subscriber-IsValid no_anomalies

-- The poller between the callbacks.
abbrev happenings : List (Happening ℕ)
happenings =
    polled (pos 1_000_000) (pos 1_500_000)
    ∷ called (data_available taken)
    ∷ polled (pos 42_000_000) (pos 42_500_000)
    ∷ polled (pos 43_000_000) (pos 43_500_000)
    ∷ called (liveliness_changed (pos 1))
    ∷ polled (pos 62_000_000) (pos 62_500_000)
    ∷ []

happen_all_lem_example :
    let r =
      happen_all pos_part robot
        (pos 0)
        happenings
        (record { subscriber = subscriber; poller = new_poller }) in
    let cs = calls_of robot (codes "unknown") happenings in
    (r.subscriber.health ≡ Events.run subscriber.health cs)
    × (verdicts_of r.poller.log ≡ collapse (verdicts subscriber.health cs))
happen_all_lem_example = happen_all_lem pos_part robot (pos 0) happenings subscriber refl

-- Two latencies are recorded.
abbrev measured : Subscriber ℕ vendor
measured = record subscriber { latency_us = pos 900 ∷ pos 20 ∷ [] }

measured-IsValid : IsValid measured.metrics
unfolding new_registry
measured-IsValid = (tt, tt)

-- A sample is lost behind the gauge of the mean.
abbrev meanwhile : ℕ → List (Callback ℕ)
meanwhile i = if i == 4 then sample_lost (pos 2) ∷ [] else []

finish_shows_example :
    let m = (finish whole meanwhile robot (pos 62_000_000) measured).metrics in
    (Ordered.find (codes "rdtf_source_health_state") m.gauges ≡ some 0)
    × ShowsLatencies whole measured.metrics m (pos 900 ∷ pos 20 ∷ [])
unfolding snapshot Dict.find new_monitor handle_all set_gauges
finish_shows_example = finish_shows whole meanwhile robot (pos 62_000_000) measured measured-IsValid

-- The subscriber entity is refused.
abbrev refused_group : Answers
refused_group = record { participant = true; topic = true; endpoint = false; data_endpoint = true }

abbrev read_once : Reader
read_once = record { visible_owner = []; samples = 1; matches = pos 1; log = [] }

probes_leave_nothing_example :
    LeavesNothing (authority_writer refused_group)
    × LeavesNothing (authority_reader refused_group read_once)
    × LeavesNothing (resource_reader refused_group)
    × ((authority_writer refused_group).code ≡ 2)
    × ((authority_reader refused_group read_once).code ≡ 2)
    × ((resource_reader refused_group).code ≡ 2)
probes_leave_nothing_example = probes_leave_nothing refused_group read_once

abbrev granted : Answers
granted = record { participant = true; topic = true; endpoint = true; data_endpoint = true }

-- A reader appears at the third load.
abbrev late_reader : ℕ → ℤ
late_reader i = if ltb i 2 then pos 0 else pos 1

-- The second of three writes times out.
abbrev results : ℕ → ReturnCode × ℕ
results seq = if seq == 2 then (retcode_timeout, 50_000) else (retcode_ok, 30)

resource_writer_ends_example :
    (o : Outcome) × (resource_writer 5 granted late_reader 200 3 results ≡ some o)
    × LeavesNothing o
    × (o.code ≡ 0)
resource_writer_ends_example =
    resource_writer_ends 5 granted late_reader 200 3 results (omega arith) (omega arith)
      (omega arith) (omega arith)

abbrev given : Setup.Settings
given = record Setup.no_settings {
  domain = negsuc 2;
  history_keep_all = pos 1;
  keys = 12;
  hot_key = pos 3;
  allow_shm = true;
}

given-IsSound : IsSound given
unfolding starts_with
given-IsSound = record {
  domain = refl;
  topic = refl;
  profile = refl;
  source_id = refl;
  security_dir = refl;
  security_role = refl;
  count = omega arith;
  rate_hz = omega arith;
  drop_at = omega arith;
  duplicate_at = omega arith;
  stale_at = omega arith;
  schema_drift_at = omega arith;
  stall_at = omega arith;
  wait_match_ms = omega arith;
  history_keep_all = refl;
  max_samples = refl;
  max_blocking_ms = refl;
  keys = omega arith;
  hot_key = refl;
  hot_multiplier = omega arith;
  max_instances = refl;
  rate_hz_positive = omega arith;
  keys_positive = omega arith;
  hot_multiplier_positive = omega arith;
}

parse-arguments_publisher_example : parse (arguments given) ≡ some given
parse-arguments_publisher_example = parse-arguments_publisher given given-IsSound
