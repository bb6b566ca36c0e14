-- ===== src/Programs/CommandLine/ResourceWriter.antt =====
-- The options of apps/resource_writer.cpp, and the command line that gives them.
use resilient_dds_data_plane.Base.{
  ℕ, ◌^◌, ◌<◌, ◌≡◌, refl, ◌∙◌, true, false, Option, some, List, [], ◌∷◌, ℤ, pos, Bytes, codes,
  arith, ◌==◌, if◌then◌else◌, str_eq,
}
use resilient_dds_data_plane.Base.Decimal.{show, show_ℤ}
use resilient_dds_data_plane.Programs.CommandLine.{atoi, stoull, u32, then_set, scan}
use resilient_dds_data_plane.Programs.CommandLine.Numbers.{stoull-show, is_int, atoi-show_ℤ}
use resilient_dds_data_plane.Programs.CommandLine.Scan.{
  looks_like_name, show_no_name, show_ℤ_no_name, flatten, all_values, not_name, set_all,
  scan-flatten,
}

pub record Options : Type 0 where
  pub domain : ℤ
  pub topic : Bytes
  pub source_id : Bytes
  pub count : ℕ
  pub rate_hz : ℕ
  pub history_limit : ℕ
  pub extra_samples : ℕ
  pub max_blocking_ms : ℕ
  pub wait_match_ms : ℕ
  pub start_delay_ms : ℕ

-- The initial values.
abbrev pub no_options : Options
no_options = record {
  domain = pos 191;
  topic = codes "ResourceBoundTelemetry";
  source_id = codes "resource-channel-01";
  count = 600;
  rate_hz = 200;
  history_limit = 8;
  extra_samples = 1;
  max_blocking_ms = 50;
  wait_match_ms = 5000;
  start_delay_ms = 0;
}

-- The body of the loop of `parse`.
unfoldable pub set : Bytes → Bytes → Options → Option Options
set k v o =
    if str_eq k (codes "--domain")
    then then_set (atoi v) (λ n. record o { domain = n })
    else if str_eq k (codes "--topic")
    then some (record o { topic = v })
    else if str_eq k (codes "--source-id")
    then some (record o { source_id = v })
    else if str_eq k (codes "--count")
    then then_set (stoull v) (λ n. record o { count = n })
    else if str_eq k (codes "--rate-hz")
    then then_set (stoull v) (λ n. record o { rate_hz = u32 n })
    else if str_eq k (codes "--history-limit")
    then then_set (stoull v) (λ n. record o { history_limit = u32 n })
    else if str_eq k (codes "--extra-samples")
    then then_set (stoull v) (λ n. record o { extra_samples = u32 n })
    else if str_eq k (codes "--max-blocking-ms")
    then then_set (stoull v) (λ n. record o { max_blocking_ms = u32 n })
    else if str_eq k (codes "--wait-match-ms")
    then then_set (stoull v) (λ n. record o { wait_match_ms = u32 n })
    else if str_eq k (codes "--start-delay-ms")
    then then_set (stoull v) (λ n. record o { start_delay_ms = u32 n })
    else some o

-- `parse`, on the arguments behind the program's name.
unfoldable pub parse : List Bytes → Option Options
unfolding scan set
parse args = then_set (scan set args no_options) (λ o. record o {
  rate_hz = if o.rate_hz == 0 then 1 else o.rate_hz;
  history_limit = if o.history_limit == 0 then 1 else o.history_limit;
})

-- The command line that gives all the options.
abbrev pub pairs : Options → List (Bytes × Bytes)
pairs o =
    (codes "--domain", show_ℤ o.domain)
    ∷ (codes "--topic", o.topic)
    ∷ (codes "--source-id", o.source_id)
    ∷ (codes "--count", show o.count)
    ∷ (codes "--rate-hz", show o.rate_hz)
    ∷ (codes "--history-limit", show o.history_limit)
    ∷ (codes "--extra-samples", show o.extra_samples)
    ∷ (codes "--max-blocking-ms", show o.max_blocking_ms)
    ∷ (codes "--wait-match-ms", show o.wait_match_ms)
    ∷ (codes "--start-delay-ms", show o.start_delay_ms)
    ∷ []

set-ignores : (k v : Bytes) (o : Options) → looks_like_name k ≡ false → set k v o ≡ some o
unfolding set
set-ignores k v o h =
    rw
      (
        not_name k (codes "domain") h,
        not_name k (codes "topic") h,
        not_name k (codes "source-id") h,
        not_name k (codes "count") h,
        not_name k (codes "rate-hz") h,
        not_name k (codes "history-limit") h,
        not_name k (codes "extra-samples") h,
        not_name k (codes "max-blocking-ms") h,
        not_name k (codes "wait-match-ms") h,
        not_name k (codes "start-delay-ms") h,
      )
      refl

-- The options after each pair.
set_all-pairs :
    (o : Options)
    → is_int o.domain ≡ true
    → o.count < 2 ^ 64
    → o.rate_hz < 2 ^ 32
    → o.history_limit < 2 ^ 32
    → o.extra_samples < 2 ^ 32
    → o.max_blocking_ms < 2 ^ 32
    → o.wait_match_ms < 2 ^ 32
    → o.start_delay_ms < 2 ^ 32
    → set_all set (pairs o) no_options ≡ some o
unfolding set str_eq
set_all-pairs o h1 h2 h3 h4 h5 h6 h7 h8 =
    let small_rate_hz : u32 o.rate_hz ≡ o.rate_hz = omega arith in
    let small_history_limit : u32 o.history_limit ≡ o.history_limit = omega arith in
    let small_extra_samples : u32 o.extra_samples ≡ o.extra_samples = omega arith in
    let small_max_blocking_ms : u32 o.max_blocking_ms ≡ o.max_blocking_ms = omega arith in
    let small_wait_match_ms : u32 o.wait_match_ms ≡ o.wait_match_ms = omega arith in
    let small_start_delay_ms : u32 o.start_delay_ms ≡ o.start_delay_ms = omega arith in
    rw
      (
        atoi-show_ℤ o.domain h1,
        stoull-show o.count h2,
        stoull-show o.rate_hz (omega arith),
        small_rate_hz,
        stoull-show o.history_limit (omega arith),
        small_history_limit,
        stoull-show o.extra_samples (omega arith),
        small_extra_samples,
        stoull-show o.max_blocking_ms (omega arith),
        small_max_blocking_ms,
        stoull-show o.wait_match_ms (omega arith),
        small_wait_match_ms,
        stoull-show o.start_delay_ms (omega arith),
        small_start_delay_ms,
      )
      refl

no_names :
    (o : Options)
    → looks_like_name o.topic ≡ false
    → looks_like_name o.source_id ≡ false
    → all_values (pairs o) ≡ true
no_names o t_topic t_source_id =
    rw
      (
        show_ℤ_no_name o.domain,
        t_topic,
        t_source_id,
        show_no_name o.count,
        show_no_name o.rate_hz,
        show_no_name o.history_limit,
        show_no_name o.extra_samples,
        show_no_name o.max_blocking_ms,
        show_no_name o.wait_match_ms,
        show_no_name o.start_delay_ms,
      )
      refl

-- The resource writer reads back every command line that gives all its options, with numbers in the range of
-- their types, rate and history limit not 0, and texts that do not start with two dashes.
pub parse-flatten_resource_writer :
    (o : Options)
    → is_int o.domain ≡ true
    → o.count < 2 ^ 64
    → o.rate_hz < 2 ^ 32
    → o.history_limit < 2 ^ 32
    → o.extra_samples < 2 ^ 32
    → o.max_blocking_ms < 2 ^ 32
    → o.wait_match_ms < 2 ^ 32
    → o.start_delay_ms < 2 ^ 32
    → 0 < o.rate_hz
    → 0 < o.history_limit
    → looks_like_name o.topic ≡ false
    → looks_like_name o.source_id ≡ false
    → parse (flatten (pairs o)) ≡ some o
unfolding parse
parse-flatten_resource_writer o h1 h2 h3 h4 h5 h6 h7 h8 z_rate_hz z_history_limit t_topic
      t_source_id =
    let read = scan-flatten set set-ignores (pairs o) no_options (no_names o t_topic t_source_id) in
    let nz_rate_hz : (o.rate_hz == 0) ≡ false = ground arith in
    let nz_history_limit : (o.history_limit == 0) ≡ false = ground arith in
    rw (read ∙ set_all-pairs o h1 h2 h3 h4 h5 h6 h7 h8, nz_rate_hz, nz_history_limit) refl
