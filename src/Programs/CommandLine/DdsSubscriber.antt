-- ===== src/Programs/CommandLine/DdsSubscriber.antt =====
-- The options of apps/dds_subscriber.cpp, and the command line that gives them.
use resilient_dds_data_plane.Base.{
  ◌≡◌, refl, ap, ◌∙◌, Bool, true, false, Option, some, List, [], ◌∷◌, Bytes, codes, if◌then◌else◌,
  str_eq, Bool-cases, inl, inr, any,
}
use resilient_dds_data_plane.Base.Decimal.{show_ℤ}
use resilient_dds_data_plane.Programs.DdsSubscriber.{Settings, no_settings}
use resilient_dds_data_plane.Programs.CommandLine.{atoi, atoll, then_set, scan}
use resilient_dds_data_plane.Programs.CommandLine.Numbers.{
  is_int, atoi-show_ℤ, is_long, atoll-show_ℤ,
}
use resilient_dds_data_plane.Programs.CommandLine.Scan.{
  looks_like_name, show_ℤ_no_name, flatten, all_values, not_name, set_all, scan-flatten,
  any-flatten,
}

-- The body of the loop over the pairs.
unfoldable pub set : Bytes → Bytes → Settings → Option Settings
set k v o =
    if str_eq k (codes "--domain")
    then then_set (atoi v) (λ n. record o { domain = n })
    else if str_eq k (codes "--topic")
    then some (record o { topic = v })
    else if str_eq k (codes "--profile")
    then some (record o { profile_name = v })
    else if str_eq k (codes "--source-id")
    then some (record o { source_id = v })
    else if str_eq k (codes "--audit-out")
    then some (record o { audit_path = v })
    else if str_eq k (codes "--metrics-out")
    then some (record o { metrics_path = v })
    else if str_eq k (codes "--security-dir")
    then some (record o { security_dir = v })
    else if str_eq k (codes "--security-role")
    then some (record o { security_role = v })
    else if str_eq k (codes "--duration-s")
    then then_set (atoi v) (λ n. record o { duration_s = n })
    else if str_eq k (codes "--start-delay-ms")
    then then_set (atoi v) (λ n. record o { start_delay_ms = n })
    else if str_eq k (codes "--max-age-ms")
    then then_set (atoll v) (λ n. record o { max_age_ms = n })
    else if str_eq k (codes "--poll-ms")
    then then_set (atoi v) (λ n. record o { poll_ms = n })
    else if str_eq k (codes "--process-delay-us")
    then then_set (atoi v) (λ n. record o { process_delay_us = n })
    else if str_eq k (codes "--max-instances")
    then then_set (atoi v) (λ n. record o { max_instances = n })
    else some o

abbrev is_allow_shm : Bytes → Bool
is_allow_shm a = str_eq a (codes "--allow-shm")

-- What follows the loop.
unfoldable pub settle : List Bytes → Settings → Settings
settle args o = record o { allow_shm = if any is_allow_shm args then true else o.allow_shm }

-- The options, from the arguments behind the program's name.
unfoldable pub parse : List Bytes → Option Settings
unfolding scan set settle
parse args = then_set (scan set args no_settings) (λ o. settle args o)

-- The pairs that give all the options but `--allow-shm`.
abbrev pub pairs : Settings → List (Bytes × Bytes)
pairs o =
    (codes "--domain", show_ℤ o.domain)
    ∷ (codes "--topic", o.topic)
    ∷ (codes "--profile", o.profile_name)
    ∷ (codes "--source-id", o.source_id)
    ∷ (codes "--audit-out", o.audit_path)
    ∷ (codes "--metrics-out", o.metrics_path)
    ∷ (codes "--security-dir", o.security_dir)
    ∷ (codes "--security-role", o.security_role)
    ∷ (codes "--duration-s", show_ℤ o.duration_s)
    ∷ (codes "--start-delay-ms", show_ℤ o.start_delay_ms)
    ∷ (codes "--max-age-ms", show_ℤ o.max_age_ms)
    ∷ (codes "--poll-ms", show_ℤ o.poll_ms)
    ∷ (codes "--process-delay-us", show_ℤ o.process_delay_us)
    ∷ (codes "--max-instances", show_ℤ o.max_instances)
    ∷ []

-- The command line that gives all the options.
abbrev pub arguments : Settings → List Bytes
arguments o = if o.allow_shm then codes "--allow-shm" ∷ flatten (pairs o) else flatten (pairs o)

set-ignores : (k v : Bytes) (o : Settings) → looks_like_name k ≡ false → set k v o ≡ some o
unfolding set
set-ignores k v o h =
    rw
      (
        not_name k (codes "domain") h,
        not_name k (codes "topic") h,
        not_name k (codes "profile") h,
        not_name k (codes "source-id") h,
        not_name k (codes "audit-out") h,
        not_name k (codes "metrics-out") h,
        not_name k (codes "security-dir") h,
        not_name k (codes "security-role") h,
        not_name k (codes "duration-s") h,
        not_name k (codes "start-delay-ms") h,
        not_name k (codes "max-age-ms") h,
        not_name k (codes "poll-ms") h,
        not_name k (codes "process-delay-us") h,
        not_name k (codes "max-instances") h,
      )
      refl

-- The settings with numbers in the range of their types, and texts that do not start with two
-- dashes.
pub record IsSound (o : Settings) : Type 0 where
  pub domain : is_int o.domain ≡ true
  pub topic : looks_like_name o.topic ≡ false
  pub profile_name : looks_like_name o.profile_name ≡ false
  pub source_id : looks_like_name o.source_id ≡ false
  pub audit_path : looks_like_name o.audit_path ≡ false
  pub metrics_path : looks_like_name o.metrics_path ≡ false
  pub security_dir : looks_like_name o.security_dir ≡ false
  pub security_role : looks_like_name o.security_role ≡ false
  pub duration_s : is_int o.duration_s ≡ true
  pub start_delay_ms : is_int o.start_delay_ms ≡ true
  pub max_age_ms : is_long o.max_age_ms ≡ true
  pub poll_ms : is_int o.poll_ms ≡ true
  pub process_delay_us : is_int o.process_delay_us ≡ true
  pub max_instances : is_int o.max_instances ≡ true

-- The settings after each pair.
set_all-pairs :
    (o : Settings)
    → IsSound o
    → set_all set (pairs o) no_settings ≡ some (record o { allow_shm = false })
unfolding set str_eq
set_all-pairs o h =
    rw
      (
        atoi-show_ℤ o.domain h.domain,
        atoi-show_ℤ o.duration_s h.duration_s,
        atoi-show_ℤ o.start_delay_ms h.start_delay_ms,
        atoll-show_ℤ o.max_age_ms h.max_age_ms,
        atoi-show_ℤ o.poll_ms h.poll_ms,
        atoi-show_ℤ o.process_delay_us h.process_delay_us,
        atoi-show_ℤ o.max_instances h.max_instances,
      )
      refl

no_names : (o : Settings) → IsSound o → all_values (pairs o) ≡ true
no_names o h =
    rw
      (
        show_ℤ_no_name o.domain,
        h.topic,
        h.profile_name,
        h.source_id,
        h.audit_path,
        h.metrics_path,
        h.security_dir,
        h.security_role,
        show_ℤ_no_name o.duration_s,
        show_ℤ_no_name o.start_delay_ms,
        show_ℤ_no_name o.max_age_ms,
        show_ℤ_no_name o.poll_ms,
        show_ℤ_no_name o.process_delay_us,
        show_ℤ_no_name o.max_instances,
      )
      refl

-- The pairs do not hold the option without a value.
flag_lem : (o : Settings) → IsSound o → any is_allow_shm (arguments o) ≡ o.allow_shm
unfolding str_eq
flag_lem o h = elim (Bool-cases o.allow_shm) [
  | inl s ↦ rw s refl
  | inr s ↦ rw s (any-flatten (codes "allow-shm") (pairs o) (no_names o h))
]

scan_lem :
    (o : Settings)
    → IsSound o
    → scan set (arguments o) no_settings ≡ some (record o { allow_shm = false })
unfolding scan set str_eq
scan_lem o h =
    let read =
      scan-flatten set set-ignores (pairs o) no_settings (no_names o h) ∙ set_all-pairs o h in
    elim (Bool-cases o.allow_shm) [ inl s ↦ rw s read | inr s ↦ rw s read ]

same_flag : (b : Bool) → (if b then true else false) ≡ b
same_flag true = refl
same_flag false = refl

settled : (o : Settings) → IsSound o → settle (arguments o) (record o { allow_shm = false }) ≡ o
unfolding settle
settled o h = rw (flag_lem o h) (ap (λ b. record o { allow_shm = b }) (same_flag o.allow_shm))

-- The subscriber reads back every command line that gives all its options, `--allow-shm` or not:
-- numbers in the range of their types, and no text that starts with two dashes.
pub parse-arguments_subscriber : (o : Settings) → IsSound o → parse (arguments o) ≡ some o
unfolding parse
parse-arguments_subscriber o h =
    ap (λ r. then_set r (settle (arguments o))) (scan_lem o h) ∙ ap (λ r. some r) (settled o h)
