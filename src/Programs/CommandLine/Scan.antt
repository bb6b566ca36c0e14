-- ===== src/Programs/CommandLine/Scan.antt =====
-- The scan of Programs.CommandLine on a command line of pairs. Every argument is tried as a name, the
-- values too, so that a value must not look like a name.
use resilient_dds_data_plane.Base.{
  any, ℕ, ◌+◌, ℤ, pos, negsuc, all, ◌≡◌, refl, ◌∙◌, Bool, true, false, ◌&&◌, Option, some, List, [],
  ◌∷◌, Bytes, codes, arith, starts_with, str_eq, if◌then◌else◌, Option-cases, inl, inr,
}
use resilient_dds_data_plane.Base.Decimal.{is_digit, show, show_ℤ, all_digits_show}
use resilient_dds_data_plane.Programs.CommandLine.{and_then, scan}

abbrev pub looks_like_name : Bytes → Bool
looks_like_name = starts_with (codes "--")

-- A command line: names, each with its value.
abbrev pub flatten : List (Bytes × Bytes) → List Bytes
flatten [] = []
flatten ((k, v) ∷ ps) = k ∷ v ∷ flatten ps

abbrev pub all_values : List (Bytes × Bytes) → Bool
all_values [] = true
all_values ((k, v) ∷ ps) = (if looks_like_name v then false else true) && all_values ps

-- What is no name is no option.
pub not_name : (k r : Bytes) → looks_like_name k ≡ false → str_eq k (b'-' ∷ b'-' ∷ r) ≡ false
unfolding starts_with str_eq
not_name [] r h = refl
not_name (c ∷ []) r h = ground arith
not_name (c ∷ d ∷ k) r h = ground arith

digits_no_name : (s : Bytes) → all is_digit s ≡ true → looks_like_name s ≡ false
unfolding starts_with
digits_no_name [] h = refl
digits_no_name (c ∷ s) h = ground arith

minus_no_name : (s : Bytes) → all is_digit s ≡ true → looks_like_name (b'-' ∷ s) ≡ false
unfolding starts_with
minus_no_name [] h = refl
minus_no_name (c ∷ s) h = ground arith

-- Printed numbers look like no name.
pub show_no_name : (n : ℕ) → looks_like_name (show n) ≡ false
show_no_name n = digits_no_name (show n) (all_digits_show n)

pub show_ℤ_no_name : (z : ℤ) → looks_like_name (show_ℤ z) ≡ false
unfolding show_ℤ
show_ℤ_no_name (pos n) = show_no_name n
show_ℤ_no_name (negsuc n) = minus_no_name (show (n + 1)) (all_digits_show (n + 1))

-- The options set one after another.
abbrev pub set_all {ℓ} :
    {O : Type ℓ} → (Bytes → Bytes → O → Option O) → List (Bytes × Bytes) → O → Option O
set_all set [] o = some o
set_all set ((k, v) ∷ ps) o = and_then (set k v o) (λ p. set_all set ps p)

module _ {ℓ} {O : Type ℓ} (set : Bytes → Bytes → O → Option O)
    (ignores : (k v : Bytes) (o : O) → looks_like_name k ≡ false → set k v o ≡ some o) where
  skip_value :
      (v : Bytes) (ps : List (Bytes × Bytes)) (o : O)
      → looks_like_name v ≡ false
      → scan set (v ∷ flatten ps) o ≡ scan set (flatten ps) o
  unfolding scan
  skip_value v [] o h = refl
  skip_value v ((k, w) ∷ ps) o h = rw (ignores v k o h) refl

  pub scan-flatten :
      (ps : List (Bytes × Bytes)) (o : O)
      → all_values ps ≡ true
      → scan set (flatten ps) o ≡ set_all set ps o
  unfolding scan
  scan-flatten [] o h = refl
  scan-flatten ((k, v) ∷ ps) o h = elim (Option-cases (set k v o)) [
    | inl e ↦ rw e refl
    | inr (p, e) ↦
        rw e (skip_value v ps p (ground (arith, h)) ∙ scan-flatten ps p (ground (arith, h)))
  ]

-- An option without a value is found among the names alone.
pub any-flatten :
    (r : Bytes) (ps : List (Bytes × Bytes))
    → all_values ps ≡ true
    → any (λ a. str_eq a (b'-' ∷ b'-' ∷ r)) (flatten ps)
      ≡ any (λ p. str_eq p.0 (b'-' ∷ b'-' ∷ r)) ps
any-flatten r [] h = refl
any-flatten r ((k, v) ∷ ps) h = ground (arith, h, not_name v r, any-flatten r ps)
