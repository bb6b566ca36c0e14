-- ===== src/Programs/CommandLine/AuthorityWriter.antt =====
-- The options of apps/authority_writer.cpp, and the command line that gives them.
use resilient_dds_data_plane.Base.{
  ℕ, ◌^◌, ◌<◌, ◌≡◌, refl, ◌∙◌, true, false, Option, some, List, [], ◌∷◌, ℤ, pos, Bytes, codes,
  arith, ◌==◌, if◌then◌else◌, str_eq, starts_with,
}
use resilient_dds_data_plane.Base.Decimal.{show, show_ℤ}
use resilient_dds_data_plane.Programs.ProbeQos.{OwnershipMode, shared, exclusive}
use resilient_dds_data_plane.Programs.CommandLine.{atoi, stoull, u32, then_set, scan}
use resilient_dds_data_plane.Programs.CommandLine.Numbers.{stoull-show, is_int, atoi-show_ℤ}
use resilient_dds_data_plane.Programs.CommandLine.Scan.{
  looks_like_name, show_no_name, show_ℤ_no_name, flatten, all_values, not_name, set_all,
  scan-flatten,
}

pub record Options : Type 0 where
  pub domain : ℤ
  pub topic : Bytes
  pub source_id : Bytes
  pub role : Bytes
  pub ownership : OwnershipMode
  pub strength : ℕ
  pub count : ℕ
  pub rate_hz : ℕ

-- The initial values.
abbrev pub no_options : Options
no_options = record {
  domain = pos 181;
  topic = codes "SystemTelemetry";
  source_id = codes "command-channel-01";
  role = codes "writer";
  ownership = exclusive;
  strength = 0;
  count = 10000;
  rate_hz = 50;
}

-- The body of the loop of `parse`.
unfoldable pub set : Bytes → Bytes → Options → Option Options
set k v o =
    if str_eq k (codes "--domain")
    then then_set (atoi v) (λ n. record o { domain = n })
    else if str_eq k (codes "--topic")
    then some (record o { topic = v })
    else if str_eq k (codes "--source-id")
    then some (record o { source_id = v })
    else if str_eq k (codes "--role")
    then some (record o { role = v })
    else if str_eq k (codes "--strength")
    then then_set (stoull v) (λ n. record o { strength = u32 n })
    else if str_eq k (codes "--count")
    then then_set (stoull v) (λ n. record o { count = n })
    else if str_eq k (codes "--rate-hz")
    then then_set (stoull v) (λ n. record o { rate_hz = u32 n })
    else if str_eq k (codes "--ownership")
    then some (record o { ownership = if str_eq v (codes "shared") then shared else exclusive })
    else some o

-- `parse`, on the arguments behind the program's name.
unfoldable pub parse : List Bytes → Option Options
unfolding scan set
parse args =
    then_set (scan set args no_options)
      (λ o. if o.rate_hz == 0 then record o { rate_hz = 1 } else o)

abbrev pub mode_name : OwnershipMode → Bytes
mode_name shared = codes "shared"
mode_name exclusive = codes "exclusive"

-- The command line that gives all the options.
abbrev pub pairs : Options → List (Bytes × Bytes)
pairs o =
    (codes "--domain", show_ℤ o.domain)
    ∷ (codes "--topic", o.topic)
    ∷ (codes "--source-id", o.source_id)
    ∷ (codes "--role", o.role)
    ∷ (codes "--strength", show o.strength)
    ∷ (codes "--count", show o.count)
    ∷ (codes "--rate-hz", show o.rate_hz)
    ∷ (codes "--ownership", mode_name o.ownership)
    ∷ []

set-ignores : (k v : Bytes) (o : Options) → looks_like_name k ≡ false → set k v o ≡ some o
unfolding set
set-ignores k v o h =
    rw
      (
        not_name k (codes "domain") h,
        not_name k (codes "topic") h,
        not_name k (codes "source-id") h,
        not_name k (codes "role") h,
        not_name k (codes "strength") h,
        not_name k (codes "count") h,
        not_name k (codes "rate-hz") h,
        not_name k (codes "ownership") h,
      )
      refl

pub mode_no_name : (m : OwnershipMode) → looks_like_name (mode_name m) ≡ false
unfolding starts_with
mode_no_name shared = refl
mode_no_name exclusive = refl

pub mode_read :
    (m : OwnershipMode) → (if str_eq (mode_name m) (codes "shared") then shared else exclusive) ≡ m
unfolding str_eq
mode_read shared = refl
mode_read exclusive = refl

-- The options after each pair.
set_all-pairs :
    (o : Options)
    → is_int o.domain ≡ true
    → o.strength < 2 ^ 32
    → o.count < 2 ^ 64
    → o.rate_hz < 2 ^ 32
    → set_all set (pairs o) no_options ≡ some o
unfolding set str_eq
set_all-pairs o d s c r =
    let small : u32 o.strength ≡ o.strength = omega arith in
    let small_rate : u32 o.rate_hz ≡ o.rate_hz = omega arith in
    rw
      (
        atoi-show_ℤ o.domain d,
        stoull-show o.strength (omega arith),
        stoull-show o.count c,
        stoull-show o.rate_hz (omega arith),
        mode_read o.ownership,
        small,
        small_rate,
      )
      refl

no_names :
    (o : Options)
    → looks_like_name o.topic ≡ false
    → looks_like_name o.source_id ≡ false
    → looks_like_name o.role ≡ false
    → all_values (pairs o) ≡ true
unfolding starts_with
no_names o t i r =
    let m : looks_like_name (mode_name o.ownership) ≡ false = mode_no_name o.ownership in
    rw
      (
        show_ℤ_no_name o.domain,
        t,
        i,
        r,
        show_no_name o.strength,
        show_no_name o.count,
        show_no_name o.rate_hz,
        m,
      )
      refl

-- The authority writer reads back every command line that gives all its options: if the domain is an
-- `int`, the strength and the rate unsigned 32-bit numbers and the count an unsigned 64-bit one, the
-- rate is not 0, and no text starts with two dashes, then parsing the names and values, printed in
-- decimal, yields those options.
pub parse-flatten_authority_writer :
    (o : Options)
    → is_int o.domain ≡ true
    → o.strength < 2 ^ 32
    → o.count < 2 ^ 64
    → 0 < o.rate_hz
    → o.rate_hz < 2 ^ 32
    → looks_like_name o.topic ≡ false
    → looks_like_name o.source_id ≡ false
    → looks_like_name o.role ≡ false
    → parse (flatten (pairs o)) ≡ some o
unfolding parse
parse-flatten_authority_writer o d s c p r t i n =
    let read = scan-flatten set set-ignores (pairs o) no_options (no_names o t i n) in
    let rate : (o.rate_hz == 0) ≡ false = ground arith in
    rw (read ∙ set_all-pairs o d s c r, rate) refl
