-- ===== src/Programs/DdsPublisher/Setup.antt =====
-- apps/dds_publisher.cpp: the options, and the program up to the wait for a reader. What is printed is
-- not modelled.
use resilient_dds_data_plane.Base.{
  ℕ, Bool, true, false, Option, none, some, [], ℤ, pos, negsuc, ltb_ℤ, eqb_ℤ, pos_part, Bytes,
  codes, if◌then◌else◌, str_eq,
}
use resilient_dds_data_plane.Metrics.{new_registry}
use resilient_dds_data_plane.Qos.{
  QosProfile, critical_control, high_rate_sensor, periodic_telemetry, keep_last, keep_all,
}
use resilient_dds_data_plane.Transport.Security.{
  udp_only, defaults, FileSystem, security_from_directory,
}
use resilient_dds_data_plane.Transport.Start.{Vendor}
use resilient_dds_data_plane.Transport.Publisher.{Publisher, new_publisher, start}
use resilient_dds_data_plane.Programs.DdsPublisher.{Options}

unfoldable pub pick : Bytes → QosProfile
pick name =
    if str_eq name (codes "critical_control")
    then critical_control
    else if str_eq name (codes "high_rate_sensor")
    then high_rate_sensor
    else periodic_telemetry

-- All the options; those that a profile's own value stands behind are -1 if they are not given.
pub record Settings : Type 0 where
  pub domain : ℤ
  pub topic : Bytes
  pub profile : Bytes
  pub source_id : Bytes
  pub security_dir : Bytes
  pub security_role : Bytes
  pub count : ℕ
  pub rate_hz : ℕ
  pub drop_at : ℕ
  pub duplicate_at : ℕ
  pub stale_at : ℕ
  pub schema_drift_at : ℕ
  pub stall_at : ℕ
  pub wait_match_ms : ℕ
  pub history_keep_all : ℤ
  pub max_samples : ℤ
  pub max_blocking_ms : ℤ
  pub keys : ℕ
  pub hot_key : ℤ
  pub hot_multiplier : ℕ
  pub max_instances : ℤ
  pub allow_shm : Bool

-- The initial values.
abbrev pub no_settings : Settings
no_settings = record {
  domain = pos 0;
  topic = codes "SystemTelemetry";
  profile = codes "periodic_telemetry";
  source_id = codes "radar-01";
  security_dir = [];
  security_role = codes "publisher";
  count = 50;
  rate_hz = 20;
  drop_at = 0;
  duplicate_at = 0;
  stale_at = 0;
  schema_drift_at = 0;
  stall_at = 0;
  wait_match_ms = 3000;
  history_keep_all = negsuc 0;
  max_samples = negsuc 0;
  max_blocking_ms = negsuc 0;
  keys = 1;
  hot_key = negsuc 0;
  hot_multiplier = 1;
  max_instances = negsuc 0;
  allow_shm = false;
}

-- Those that the loop reads.
abbrev pub loop_options : Settings → Options
loop_options o = record {
  source_id = o.source_id;
  count = o.count;
  drop_at = o.drop_at;
  duplicate_at = o.duplicate_at;
  stale_at = o.stale_at;
  schema_drift_at = o.schema_drift_at;
  keys = o.keys;
  hot_key = o.hot_key;
  hot_multiplier = o.hot_multiplier;
}

-- An override that is not negative, as an unsigned number.
abbrev override : ℤ → ℕ → ℕ
override z n = if ltb_ℤ z (pos 0) then n else pos_part z

-- The profile that is picked, with the overrides.
unfoldable pub chosen_profile : Settings → QosProfile
unfolding pick
chosen_profile o =
    let profile = pick o.profile in
    record profile {
      history =
          if ltb_ℤ o.history_keep_all (pos 0)
          then profile.history
          else if eqb_ℤ o.history_keep_all (pos 0)
          then keep_last
          else keep_all;
      max_samples = override o.max_samples profile.max_samples;
      max_blocking_ms = override o.max_blocking_ms profile.max_blocking_ms;
      max_instances = override o.max_instances profile.max_instances;
    }

module _ {ℓ} {D : Type ℓ} {v : Vendor} where
  -- The program up to the loop: `none` is the exit with code 1.
  unfoldable pub begin : FileSystem → Settings → Option (Publisher D v)
  unfolding chosen_profile security_from_directory new_publisher new_registry start
  begin fs o =
      let security = security_from_directory o.security_dir o.security_role true in
      let mode = if o.allow_shm then defaults else udp_only in
      let (p, ok) =
        start fs o.domain o.topic (chosen_profile o) mode
          (if security.enabled then some security else none) (new_publisher new_registry) in
      if ok then some p else none
