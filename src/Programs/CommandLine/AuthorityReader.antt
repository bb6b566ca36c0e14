-- ===== src/Programs/CommandLine/AuthorityReader.antt =====
-- The options of apps/authority_reader.cpp, and the command line that gives them.
use resilient_dds_data_plane.Base.{
  ◌≡◌, refl, ◌∙◌, true, false, Option, some, List, [], ◌∷◌, ℤ, pos, Bytes, codes, if◌then◌else◌,
  str_eq,
}
use resilient_dds_data_plane.Base.Decimal.{show_ℤ}
use resilient_dds_data_plane.Programs.ProbeQos.{OwnershipMode, shared, exclusive}
use resilient_dds_data_plane.Programs.CommandLine.{atoi, then_set, scan}
use resilient_dds_data_plane.Programs.CommandLine.Numbers.{is_int, atoi-show_ℤ}
use resilient_dds_data_plane.Programs.CommandLine.Scan.{
  looks_like_name, show_ℤ_no_name, flatten, all_values, not_name, set_all, scan-flatten,
}
use resilient_dds_data_plane.Programs.CommandLine.AuthorityWriter.{
  mode_name, mode_no_name, mode_read,
}

pub record Options : Type 0 where
  pub domain : ℤ
  pub topic : Bytes
  pub duration_s : ℤ
  pub ownership : OwnershipMode

-- The initial values.
abbrev pub no_options : Options
no_options = record {
  domain = pos 181;
  topic = codes "SystemTelemetry";
  duration_s = pos 10;
  ownership = exclusive;
}

-- The body of the loop of `parse`.
unfoldable pub set : Bytes → Bytes → Options → Option Options
set k v o =
    if str_eq k (codes "--domain")
    then then_set (atoi v) (λ n. record o { domain = n })
    else if str_eq k (codes "--topic")
    then some (record o { topic = v })
    else if str_eq k (codes "--duration-s")
    then then_set (atoi v) (λ n. record o { duration_s = n })
    else if str_eq k (codes "--ownership")
    then some (record o { ownership = if str_eq v (codes "shared") then shared else exclusive })
    else some o

-- `parse`, on the arguments behind the program's name.
unfoldable pub parse : List Bytes → Option Options
unfolding scan set
parse args = scan set args no_options

-- The command line that gives all the options.
abbrev pub pairs : Options → List (Bytes × Bytes)
pairs o =
    (codes "--domain", show_ℤ o.domain)
    ∷ (codes "--topic", o.topic)
    ∷ (codes "--duration-s", show_ℤ o.duration_s)
    ∷ (codes "--ownership", mode_name o.ownership)
    ∷ []

set-ignores : (k v : Bytes) (o : Options) → looks_like_name k ≡ false → set k v o ≡ some o
unfolding set
set-ignores k v o h =
    rw
      (
        not_name k (codes "domain") h,
        not_name k (codes "topic") h,
        not_name k (codes "duration-s") h,
        not_name k (codes "ownership") h,
      )
      refl

-- The options after each pair.
set_all-pairs :
    (o : Options)
    → is_int o.domain ≡ true
    → is_int o.duration_s ≡ true
    → set_all set (pairs o) no_options ≡ some o
unfolding set str_eq
set_all-pairs o h1 h2 =
    rw (atoi-show_ℤ o.domain h1, atoi-show_ℤ o.duration_s h2, mode_read o.ownership) refl

no_names : (o : Options) → looks_like_name o.topic ≡ false → all_values (pairs o) ≡ true
no_names o t_topic =
    rw (show_ℤ_no_name o.domain, t_topic, show_ℤ_no_name o.duration_s, mode_no_name o.ownership)
      refl

-- The authority reader reads back every command line that gives all its options, with numbers in the range of
-- their types and texts that do not start with two dashes.
pub parse-flatten_authority_reader :
    (o : Options)
    → is_int o.domain ≡ true
    → is_int o.duration_s ≡ true
    → looks_like_name o.topic ≡ false
    → parse (flatten (pairs o)) ≡ some o
unfolding parse
parse-flatten_authority_reader o h1 h2 t_topic =
    let read = scan-flatten set set-ignores (pairs o) no_options (no_names o t_topic) in
    read ∙ set_all-pairs o h1 h2
