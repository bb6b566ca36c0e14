-- ===== src/Programs/CommandLine/PublisherOptions.antt =====
-- The options of apps/dds_publisher.cpp, and the command line that gives them.
use resilient_dds_data_plane.Base.{
  ◌≡◌, refl, Bool, true, false, ◌||◌, Option, some, List, [], ◌∷◌, ℤ, pos, Bytes, codes, arith,
  eqb_ℤ, ◌==◌, if◌then◌else◌, str_eq, starts_with, Bool-cases, inl, inr, any,
}
use resilient_dds_data_plane.Base.Decimal.{show, show_ℤ}
use resilient_dds_data_plane.Programs.DdsPublisher.Setup.{Settings, no_settings}
use resilient_dds_data_plane.Programs.CommandLine.{atoi, strtoull, u32, then_set, scan}
use resilient_dds_data_plane.Programs.CommandLine.Scan.{looks_like_name, flatten}

-- The body of the loop over the pairs.
unfoldable pub set : Bytes → Bytes → Settings → Option Settings
set k v o =
    if str_eq k (codes "--domain")
    then then_set (atoi v) (λ n. record o { domain = n })
    else if str_eq k (codes "--topic")
    then some (record o { topic = v })
    else if str_eq k (codes "--profile")
    then some (record o { profile = v })
    else if str_eq k (codes "--source-id")
    then some (record o { source_id = v })
    else if str_eq k (codes "--security-dir")
    then some (record o { security_dir = v })
    else if str_eq k (codes "--security-role")
    then some (record o { security_role = v })
    else if str_eq k (codes "--count")
    then some (record o { count = strtoull v })
    else if str_eq k (codes "--rate-hz")
    then some (record o { rate_hz = u32 (strtoull v) })
    else if str_eq k (codes "--drop-at")
    then some (record o { drop_at = strtoull v })
    else if str_eq k (codes "--duplicate-at")
    then some (record o { duplicate_at = strtoull v })
    else if str_eq k (codes "--stale-at")
    then some (record o { stale_at = strtoull v })
    else if str_eq k (codes "--schema-drift-at")
    then some (record o { schema_drift_at = strtoull v })
    else if str_eq k (codes "--stall-at")
    then some (record o { stall_at = u32 (strtoull v) })
    else if str_eq k (codes "--wait-match-ms")
    then some (record o { wait_match_ms = u32 (strtoull v) })
    else if str_eq k (codes "--history")
    then some (record o { history_keep_all = if str_eq v (codes "keep_all") then pos 1 else pos 0 })
    else if str_eq k (codes "--max-samples")
    then then_set (atoi v) (λ n. record o { max_samples = n })
    else if str_eq k (codes "--max-blocking-ms")
    then then_set (atoi v) (λ n. record o { max_blocking_ms = n })
    else if str_eq k (codes "--keys")
    then some (record o { keys = u32 (strtoull v) })
    else if str_eq k (codes "--hot-key")
    then then_set (atoi v) (λ n. record o { hot_key = n })
    else if str_eq k (codes "--hot-multiplier")
    then some (record o { hot_multiplier = u32 (strtoull v) })
    else if str_eq k (codes "--max-instances")
    then then_set (atoi v) (λ n. record o { max_instances = n })
    else some o

abbrev pub is_allow_shm : Bytes → Bool
is_allow_shm a = str_eq a (codes "--allow-shm")

-- What follows the loop.
unfoldable pub settle : List Bytes → Settings → Settings
settle args o = record o {
  allow_shm = if any is_allow_shm args then true else o.allow_shm;
  rate_hz = if o.rate_hz == 0 then 1 else o.rate_hz;
  keys = if o.keys == 0 then 1 else o.keys;
  hot_multiplier = if o.hot_multiplier == 0 then 1 else o.hot_multiplier;
}

-- The options, from the arguments behind the program's name.
unfoldable pub parse : List Bytes → Option Settings
unfolding scan set settle
parse args = then_set (scan set args no_settings) (λ o. settle args o)

abbrev pub history_name : ℤ → Bytes
history_name z = if eqb_ℤ z (pos 1) then codes "keep_all" else codes "keep_last"

-- Is the switch given?
abbrev pub is_switch : ℤ → Bool
is_switch z = eqb_ℤ z (pos 0) || eqb_ℤ z (pos 1)

pub history_no_name : (z : ℤ) → looks_like_name (history_name z) ≡ false
unfolding starts_with
history_no_name z = elim (Bool-cases (eqb_ℤ z (pos 1))) [ inl h ↦ rw h refl | inr h ↦ rw h refl ]

pub history_read :
    (z : ℤ)
    → is_switch z ≡ true
    → (if str_eq (history_name z) (codes "keep_all") then pos 1 else pos 0) ≡ z
unfolding str_eq
history_read z h = elim (Bool-cases (eqb_ℤ z (pos 1))) [
  | inl e ↦ rw e (ground arith)
  | inr e ↦ rw e (ground arith)
]

-- The pairs that give all the options but `--allow-shm`.
abbrev pub pairs : Settings → List (Bytes × Bytes)
pairs o =
    (codes "--domain", show_ℤ o.domain)
    ∷ (codes "--topic", o.topic)
    ∷ (codes "--profile", o.profile)
    ∷ (codes "--source-id", o.source_id)
    ∷ (codes "--security-dir", o.security_dir)
    ∷ (codes "--security-role", o.security_role)
    ∷ (codes "--count", show o.count)
    ∷ (codes "--rate-hz", show o.rate_hz)
    ∷ (codes "--drop-at", show o.drop_at)
    ∷ (codes "--duplicate-at", show o.duplicate_at)
    ∷ (codes "--stale-at", show o.stale_at)
    ∷ (codes "--schema-drift-at", show o.schema_drift_at)
    ∷ (codes "--stall-at", show o.stall_at)
    ∷ (codes "--wait-match-ms", show o.wait_match_ms)
    ∷ (codes "--history", history_name o.history_keep_all)
    ∷ (codes "--max-samples", show_ℤ o.max_samples)
    ∷ (codes "--max-blocking-ms", show_ℤ o.max_blocking_ms)
    ∷ (codes "--keys", show o.keys)
    ∷ (codes "--hot-key", show_ℤ o.hot_key)
    ∷ (codes "--hot-multiplier", show o.hot_multiplier)
    ∷ (codes "--max-instances", show_ℤ o.max_instances)
    ∷ []

-- The command line that gives all the options.
abbrev pub arguments : Settings → List Bytes
arguments o = if o.allow_shm then codes "--allow-shm" ∷ flatten (pairs o) else flatten (pairs o)
