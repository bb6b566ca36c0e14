-- ===== src/Programs/CommandLine/DdsPublisher.antt =====
-- The command line of apps/dds_publisher.cpp, read back.
use resilient_dds_data_plane.Base.{
  ℕ, ◌^◌, ◌<◌, ◌≡◌, refl, ap, ◌∙◌, Bool, true, false, some, Bytes, codes, arith, ◌==◌,
  if◌then◌else◌, str_eq, Bool-cases, inl, inr, any,
}
use resilient_dds_data_plane.Base.Decimal.{show}
use resilient_dds_data_plane.Programs.DdsPublisher.Setup.{Settings, no_settings}
use resilient_dds_data_plane.Programs.CommandLine.{strtoull, u32, then_set, scan}
use resilient_dds_data_plane.Programs.CommandLine.Numbers.{strtoull-show, is_int, atoi-show_ℤ}
use resilient_dds_data_plane.Programs.CommandLine.Scan.{
  looks_like_name, show_no_name, show_ℤ_no_name, all_values, not_name, set_all, scan-flatten,
  any-flatten,
}
use resilient_dds_data_plane.Programs.CommandLine.PublisherOptions.{
  set, is_allow_shm, settle, parse, is_switch, history_no_name, history_read, pairs, arguments,
}

set-ignores : (k v : Bytes) (o : Settings) → looks_like_name k ≡ false → set k v o ≡ some o
unfolding set
set-ignores k v o h =
    rw
      (
        not_name k (codes "domain") h,
        not_name k (codes "topic") h,
        not_name k (codes "profile") h,
        not_name k (codes "source-id") h,
        not_name k (codes "security-dir") h,
        not_name k (codes "security-role") h,
        not_name k (codes "count") h,
        not_name k (codes "rate-hz") h,
        not_name k (codes "drop-at") h,
        not_name k (codes "duplicate-at") h,
        not_name k (codes "stale-at") h,
        not_name k (codes "schema-drift-at") h,
        not_name k (codes "stall-at") h,
        not_name k (codes "wait-match-ms") h,
        not_name k (codes "history") h,
        not_name k (codes "max-samples") h,
        not_name k (codes "max-blocking-ms") h,
        not_name k (codes "keys") h,
        not_name k (codes "hot-key") h,
        not_name k (codes "hot-multiplier") h,
        not_name k (codes "max-instances") h,
      )
      refl

-- The settings with numbers in the range of their types, and texts that do not start with two
-- dashes.
pub record IsSound (o : Settings) : Type 0 where
  pub domain : is_int o.domain ≡ true
  pub topic : looks_like_name o.topic ≡ false
  pub profile : looks_like_name o.profile ≡ false
  pub source_id : looks_like_name o.source_id ≡ false
  pub security_dir : looks_like_name o.security_dir ≡ false
  pub security_role : looks_like_name o.security_role ≡ false
  pub count : o.count < 2 ^ 64
  pub rate_hz : o.rate_hz < 2 ^ 32
  pub drop_at : o.drop_at < 2 ^ 64
  pub duplicate_at : o.duplicate_at < 2 ^ 64
  pub stale_at : o.stale_at < 2 ^ 64
  pub schema_drift_at : o.schema_drift_at < 2 ^ 64
  pub stall_at : o.stall_at < 2 ^ 32
  pub wait_match_ms : o.wait_match_ms < 2 ^ 32
  pub history_keep_all : is_switch o.history_keep_all ≡ true
  pub max_samples : is_int o.max_samples ≡ true
  pub max_blocking_ms : is_int o.max_blocking_ms ≡ true
  pub keys : o.keys < 2 ^ 32
  pub hot_key : is_int o.hot_key ≡ true
  pub hot_multiplier : o.hot_multiplier < 2 ^ 32
  pub max_instances : is_int o.max_instances ≡ true
  pub rate_hz_positive : 0 < o.rate_hz
  pub keys_positive : 0 < o.keys
  pub hot_multiplier_positive : 0 < o.hot_multiplier

unsigned : (n : ℕ) → n < 2 ^ 32 → u32 (strtoull (show n)) ≡ n
unsigned n h = rw (strtoull-show n (omega arith)) (omega arith)

-- The settings after each pair.
set_all-pairs :
    (o : Settings)
    → IsSound o
    → set_all set (pairs o) no_settings ≡ some (record o { allow_shm = false })
unfolding set str_eq
set_all-pairs o h =
    rw
      (
        atoi-show_ℤ o.domain h.domain,
        strtoull-show o.count h.count,
        unsigned o.rate_hz h.rate_hz,
        strtoull-show o.drop_at h.drop_at,
        strtoull-show o.duplicate_at h.duplicate_at,
        strtoull-show o.stale_at h.stale_at,
        strtoull-show o.schema_drift_at h.schema_drift_at,
        unsigned o.stall_at h.stall_at,
        unsigned o.wait_match_ms h.wait_match_ms,
        history_read o.history_keep_all h.history_keep_all,
        atoi-show_ℤ o.max_samples h.max_samples,
        atoi-show_ℤ o.max_blocking_ms h.max_blocking_ms,
        unsigned o.keys h.keys,
        atoi-show_ℤ o.hot_key h.hot_key,
        unsigned o.hot_multiplier h.hot_multiplier,
        atoi-show_ℤ o.max_instances h.max_instances,
      )
      refl

no_names : (o : Settings) → IsSound o → all_values (pairs o) ≡ true
no_names o h =
    rw
      (
        show_ℤ_no_name o.domain,
        h.topic,
        h.profile,
        h.source_id,
        h.security_dir,
        h.security_role,
        show_no_name o.count,
        show_no_name o.rate_hz,
        show_no_name o.drop_at,
        show_no_name o.duplicate_at,
        show_no_name o.stale_at,
        show_no_name o.schema_drift_at,
        show_no_name o.stall_at,
        show_no_name o.wait_match_ms,
        history_no_name o.history_keep_all,
        show_ℤ_no_name o.max_samples,
        show_ℤ_no_name o.max_blocking_ms,
        show_no_name o.keys,
        show_ℤ_no_name o.hot_key,
        show_no_name o.hot_multiplier,
        show_ℤ_no_name o.max_instances,
      )
      refl

-- The pairs do not hold the option without a value.
flag_lem : (o : Settings) → IsSound o → any is_allow_shm (arguments o) ≡ o.allow_shm
unfolding str_eq
flag_lem o h = elim (Bool-cases o.allow_shm) [
  | inl s ↦ rw s refl
  | inr s ↦ rw s (any-flatten (codes "allow-shm") (pairs o) (no_names o h))
]

scan_lem :
    (o : Settings)
    → IsSound o
    → scan set (arguments o) no_settings ≡ some (record o { allow_shm = false })
unfolding scan set str_eq
scan_lem o h =
    let read =
      scan-flatten set set-ignores (pairs o) no_settings (no_names o h) ∙ set_all-pairs o h in
    elim (Bool-cases o.allow_shm) [ inl s ↦ rw s read | inr s ↦ rw s read ]

same_flag : (b : Bool) → (if b then true else false) ≡ b
same_flag true = refl
same_flag false = refl

settled : (o : Settings) → IsSound o → settle (arguments o) (record o { allow_shm = false }) ≡ o
unfolding settle
settled o h =
    let nz_rate_hz : (o.rate_hz == 0) ≡ false = ground (arith, h.rate_hz_positive) in
    let nz_keys : (o.keys == 0) ≡ false = ground (arith, h.keys_positive) in
    let nz_hot_multiplier : (o.hot_multiplier == 0) ≡ false =
      ground (arith, h.hot_multiplier_positive) in
    rw (flag_lem o h, nz_rate_hz, nz_keys, nz_hot_multiplier)
      (ap (λ b. record o { allow_shm = b }) (same_flag o.allow_shm))

-- The publisher reads the settings back from the command line that `arguments` writes for them: first
-- `--allow-shm`, if shared memory is allowed, and then every other option in a fixed order, with the
-- numbers in decimal. The numbers are in the range of their types, no text starts with two dashes, the
-- rate, the keys and the multiplier are not 0, and the history is one of its two words. It says nothing
-- of other orders, of options left out or given twice, or of other spellings of a number.
pub parse-arguments_publisher : (o : Settings) → IsSound o → parse (arguments o) ≡ some o
unfolding parse
parse-arguments_publisher o h =
    ap (λ r. then_set r (settle (arguments o))) (scan_lem o h) ∙ ap (λ r. some r) (settled o h)
