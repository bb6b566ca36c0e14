-- ===== src/Programs/DdsSubscriber.antt =====
-- apps/dds_subscriber.cpp: the setting up, the poller thread beside the listener's callbacks, and the
-- gauges at the end. `HealthMonitor` has no mutex, so a round of the poller and a callback that touch
-- it at the same time are a data race, to which C++ gives no meaning. The two threads are modelled as
-- a sequence of callbacks and rounds in some order, in which a round is whole (`polled`) or comes in
-- two parts (`decided`, `settled`) with callbacks between them; a callback is whole. `log` is what the
-- poller prints. The sleeps and the other lines printed are not modelled.
pub mod Polling
pub mod Gauges
pub mod Report
pub mod Ending
pub mod Session
pub mod Dashboard
pub mod Shown
use resilient_dds_data_plane.Base.{
  ℕ, ◌^◌, ◌%◌, Bool, true, false, ◌||◌, not, Option, none, some, List, [], ◌∷◌, ◌++◌, ℤ, pos,
  negsuc, ◌-ℤ◌, quot, ltb_ℤ, pos_part, Bytes, codes, ltb, ◌==◌, if◌then◌else◌, str_eq,
}
use resilient_dds_data_plane.Telemetry.{current_schema_version}
use resilient_dds_data_plane.Detector.{AnomalyDetector, new_detector}
use resilient_dds_data_plane.Health.State.{
  HealthState, healthy, degraded, lost, HealthReason, none, no_data, stale_data, deadline_missed,
  liveliness_lost, publisher_unmatched, qos_incompatible, recovering, HealthSnapshot, state_code,
}
use resilient_dds_data_plane.Health.Rules.{decide, settle}
use resilient_dds_data_plane.Health.Monitor.{
  HealthMonitor, change, state_of, new_monitor, tick, snapshot,
}
use resilient_dds_data_plane.Metrics.{MetricsRegistry, new_registry, gauge, render_prometheus}
use resilient_dds_data_plane.Audit.{AuditSink}
use resilient_dds_data_plane.Qos.{
  QosProfile, critical_control, high_rate_sensor, periodic_telemetry,
}
use resilient_dds_data_plane.Transport.Security.{
  TransportMode, udp_only, defaults, DdsSecurityConfig, FileSystem, security_from_directory,
}
use resilient_dds_data_plane.Transport.Start.{Vendor}
use resilient_dds_data_plane.Transport.Subscriber.{
  Subscriber, new_subscriber, set_source, set_processing_delay_us, start,
}
use resilient_dds_data_plane.Transport.Latency.{Floats, Latency, latency}
use resilient_dds_data_plane.Transport.Listener.{Callback, handle}

unfoldable pub pick : Bytes → QosProfile
pick name =
    if str_eq name (codes "critical_control")
    then critical_control
    else if str_eq name (codes "high_rate_sensor")
    then high_rate_sensor
    else periodic_telemetry

-- The value of the enumerator, by which two reasons are compared.
abbrev pub reason_code : HealthReason → ℕ
reason_code none = 0
reason_code no_data = 1
reason_code stale_data = 2
reason_code deadline_missed = 3
reason_code liveliness_lost = 4
reason_code publisher_unmatched = 5
reason_code qos_incompatible = 6
reason_code recovering = 7

-- The variables that the options set.
pub record Settings : Type 0 where
  pub domain : ℤ
  pub topic : Bytes
  pub profile_name : Bytes
  pub source_id : Bytes
  pub audit_path : Bytes
  pub metrics_path : Bytes
  pub security_dir : Bytes
  pub security_role : Bytes
  pub duration_s : ℤ
  pub start_delay_ms : ℤ
  pub poll_ms : ℤ
  pub process_delay_us : ℤ
  pub max_instances : ℤ
  pub allow_shm : Bool
  pub max_age_ms : ℤ

-- The initial values.
abbrev pub no_settings : Settings
no_settings = record {
  domain = pos 0;
  topic = codes "SystemTelemetry";
  profile_name = codes "periodic_telemetry";
  source_id = codes "radar-01";
  audit_path = codes "resilientdds-audit.jsonl";
  metrics_path = [];
  security_dir = [];
  security_role = codes "subscriber";
  duration_s = pos 10;
  start_delay_ms = pos 0;
  poll_ms = pos 20;
  process_delay_us = pos 0;
  max_instances = negsuc 0;
  allow_shm = false;
  max_age_ms = pos 250;
}

unfoldable pub chosen_profile : Settings → QosProfile
unfolding pick
chosen_profile o =
    let profile = pick o.profile_name in
    if ltb_ℤ o.max_instances (pos 0)
    then profile
    else record profile { max_instances = pos_part o.max_instances }

pub record HealthAt : Type 0 where
  pub t_ms : ℤ
  pub state : HealthState
  pub reason : HealthReason
  pub age_ms : ℤ
  pub writer_matched : Bool

-- The poller's variables.
pub record Poller : Type 0 where
  pub last : HealthState
  pub last_reason : HealthReason
  pub first : Bool
  pub deciding : Option HealthSnapshot  -- what `tick` has decided and not yet written
  pub log : List HealthAt

abbrev pub new_poller : Poller
new_poller = record { last = lost; last_reason = no_data; first = true; deciding = none; log = [] }

-- A round of the poller with the snapshot that `tick` returns. `printed_ns` is the clock when it
-- prints, `t_start` the clock at the start.
unfoldable pub note : ℤ → ℤ → HealthSnapshot → Poller → Poller
note t_start printed_ns snap p =
    if p.first
      || (not (state_code snap.state == state_code p.last)
          || not (reason_code snap.reason == reason_code p.last_reason))
    then record p {
      last = snap.state;
      last_reason = snap.reason;
      first = false;
      log =
          p.log
          ++ (record {
            t_ms = quot (printed_ns -ℤ t_start) 1_000_000;
            state = snap.state;
            reason = snap.reason;
            age_ms = snap.age_ms;
            writer_matched = snap.writer_matched;
          }
              ∷ []);
    }
    else p

-- A callback of the listener, or a round of the poller with its two clock readings; or the parts of
-- a round that other calls come between: `tick` reads the source's entry and decides, and later writes
-- its verdict to the entry, upon which the poller prints.
pub data Happening {ℓ} (D : Type ℓ) : Type ℓ where
  called : Callback D → Happening D
  polled : ℤ → ℤ → Happening D
  decided : ℤ → Happening D
  settled : ℤ → Happening D

pub record Running {ℓ} (D : Type ℓ) (v : Vendor) : Type ℓ where
  pub subscriber : Subscriber D v
  pub poller : Poller

module _ {ℓ} {D : Type ℓ} (to_double : ℤ → D) (source_id : Bytes) (t_start : ℤ) {v : Vendor} where
  unfoldable pub happen : Happening D → Running D v → Running D v
  unfolding note handle
  happen (called c) r = record r { subscriber = handle to_double c r.subscriber }
  happen (polled now_ns printed_ns) r =
      let (health, snap) = tick r.subscriber.health source_id now_ns in
      record {
        subscriber = record r.subscriber { health = health };
        poller = note t_start printed_ns snap r.poller;
      }
  happen (decided now_ns) r =
      let h = r.subscriber.health in
      record {
        subscriber = record r.subscriber { health = change source_id (λ st. st) h };
        poller = record r.poller {
          deciding = some (decide h.policy (state_of h source_id) now_ns);
        };
      }
  happen (settled printed_ns) r =
      let h = r.subscriber.health in
      let p = record r.poller { deciding = none } in
      record {
        subscriber = record r.subscriber {
          health = elim r.poller.deciding [
            | none ↦ h
            | some snap ↦ change source_id (settle snap) h
          ];
        };
        poller = elim r.poller.deciding [ none ↦ p | some snap ↦ note t_start printed_ns snap p ];
      }

  unfoldable pub happen_all : List (Happening D) → Running D v → Running D v
  unfolding happen
  happen_all [] r = r
  happen_all (x ∷ xs) r = happen_all xs (happen x r)

module _ {ℓ} {D : Type ℓ} {v : Vendor} where
  -- The subscriber before `start`. `audit` is `none` if the file did not open.
  unfoldable pub set_up : Settings → Option AuditSink → Subscriber D v
  unfolding new_detector new_monitor new_registry new_subscriber set_source set_processing_delay_us
  set_up o audit =
      let detector = new_detector (record {
        max_age_ms = o.max_age_ms;
        max_future_skew_ms = pos 50;
        expected_schema_version = current_schema_version;
      }) in
      let health = new_monitor (record {
        degraded_after_ms = pos 250;
        lost_after_ms = pos 1000;
        degrade_after_misses = 2;
        recover_after_samples = 3;
      }) in
      set_processing_delay_us o.process_delay_us
        (set_source o.source_id (new_subscriber detector health new_registry audit))

  -- The program up to the poller: `none` is the exit with code 1.
  unfoldable pub begin : FileSystem → Settings → Option AuditSink → Option (Running D v)
  unfolding set_up chosen_profile security_from_directory start
  begin fs o audit =
      let security = security_from_directory o.security_dir o.security_role true in
      let mode = if o.allow_shm then defaults else udp_only in
      let (s, ok) =
        start fs o.domain o.topic (chosen_profile o) mode
          (if security.enabled then some security else none) (set_up o audit) in
      if ok then some (record { subscriber = s; poller = new_poller }) else none
