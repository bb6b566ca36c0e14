-- ===== src/Metrics/Reading.antt =====
-- What src/metrics.cpp prints, read back: each line is cut at its last blank.
use resilient_dds_data_plane.Base.{
  ℕ, ◌≡◌, refl, sym, ap, ◌∙◌, Bool, true, not, ◌&&◌, Option, none, some, List, [], ◌∷◌, ◌++◌, Bytes,
  arith, ◌==◌, all, if◌then◌else◌,
}
use mathlib.Core.List.{append_assoc, append-nil}
use resilient_dds_data_plane.Base.Lines.{split_lines, unbroken, split_lines-line}
use resilient_dds_data_plane.Base.Decimal.{show, all_digits_show, is_digit}
use resilient_dds_data_plane.Metrics.Ordered.{SortedMap}
use resilient_dds_data_plane.Metrics.{MetricsRegistry, lines, render_prometheus}

-- A line's name and value.
abbrev pub split_last : Bytes → Option (Bytes × Bytes)
split_last [] = none
split_last (c ∷ s) = elim (split_last s) [
  | none ↦ if c == b' ' then some ([], s) else none
  | some (name, value) ↦ some (c ∷ name, value)
]

abbrev pub add_read : Option (Bytes × Bytes) → List (Bytes × Bytes) → List (Bytes × Bytes)
add_read none es = es
add_read (some e) es = e ∷ es

abbrev pub read_each : List Bytes → List (Bytes × Bytes)
read_each [] = []
read_each (l ∷ ls) = add_read (split_last l) (read_each ls)

abbrev pub read_metrics : Bytes → List (Bytes × Bytes)
read_metrics text = read_each (split_lines text).0

-- Neither a blank nor a line break.
abbrev pub is_plain : Bytes → Bool
is_plain = all (λ c. not (c == b'\n') && not (c == b' '))

abbrev pub entries {ℓ} : {A : Type ℓ} → (A → Bytes) → SortedMap A → List (Bytes × Bytes)
entries print [] = []
entries print ((k, v) ∷ m) = (k, print v) ∷ entries print m

abbrev pub names_unbroken {ℓ} : {A : Type ℓ} → SortedMap A → Bool
names_unbroken [] = true
names_unbroken ((k, v) ∷ m) = unbroken k && names_unbroken m

split_last_plain : (value : Bytes) → is_plain value ≡ true → split_last value ≡ none
split_last_plain [] h = refl
split_last_plain (c ∷ s) h = ground (arith, split_last_plain s)

split_last_lem :
    (name value : Bytes)
    → is_plain value ≡ true
    → split_last (name ++ (b' ' ∷ value)) ≡ some (name, value)
split_last_lem [] value h = rw (split_last_plain value h) refl
split_last_lem (c ∷ name) value h = rw (split_last_lem name value h) refl

unbroken_value : (value : Bytes) → is_plain value ≡ true → unbroken value ≡ true
unbroken_value [] h = refl
unbroken_value (c ∷ s) h = ground (arith, unbroken_value s)

unbroken_pair :
    (name value : Bytes)
    → unbroken name ≡ true
    → is_plain value ≡ true
    → unbroken (name ++ (b' ' ∷ value)) ≡ true
unbroken_pair [] value h k = unbroken_value value k
unbroken_pair (c ∷ name) value h k = ground (arith, unbroken_pair name value)

pub read_line :
    (name value rest : Bytes)
    → unbroken name ≡ true
    → is_plain value ≡ true
    → read_metrics ((name ++ (b' ' ∷ value)) ++ (b'\n' ∷ rest)) ≡ (name, value) ∷ read_metrics rest
read_line name value rest h k =
    rw
      (
        split_lines-line (name ++ (b' ' ∷ value)) rest (unbroken_pair name value h k),
        split_last_lem name value k,
      )
      refl

module _ {ℓ} {A : Type ℓ} (print : A → Bytes) (plain : (a : A) → is_plain (print a) ≡ true) where
  read_metrics-lines :
      (m : SortedMap A) (rest : Bytes)
      → names_unbroken m ≡ true
      → read_metrics (lines print m ++ rest) ≡ entries print m ++ read_metrics rest
  unfolding lines
  read_metrics-lines [] rest h = refl
  read_metrics-lines ((k, v) ∷ m) rest h =
      let text = read_line k (print v) (lines print m ++ rest) (ground (arith, h)) (plain v) in
      let same : lines print ((k, v) ∷ m) ++ rest
          ≡ (k ++ (b' ' ∷ print v)) ++ (b'\n' ∷ (lines print m ++ rest)) =
        simp append_assoc in
      rw same (text ∙ ap (λ es. (k, print v) ∷ es) (read_metrics-lines m rest (ground (arith, h))))

pub digits_plain : (s : Bytes) → all is_digit s ≡ true → is_plain s ≡ true
digits_plain [] h = refl
digits_plain (c ∷ s) h = ground (arith, digits_plain s)

-- What is rendered can be read back: cut into lines, and each line at its last blank, the text gives
-- every counter with its value in decimal and every gauge with its value as it is printed, in order
-- and nothing else, if no name holds a line break and gauges are printed without blanks and line
-- breaks.
pub read_metrics-render_prometheus {ℓ} :
    {D : Type ℓ} (fixed : D → Bytes) (m : MetricsRegistry D)
    → ((x : D) → is_plain (fixed x) ≡ true)
    → names_unbroken m.counters ≡ true
    → names_unbroken m.gauges ≡ true
    → read_metrics (render_prometheus fixed m) ≡ entries show m.counters ++ entries fixed m.gauges
unfolding render_prometheus split_lines
read_metrics-render_prometheus fixed m p c g =
    let shown = λ (n : ℕ). digits_plain (show n) (all_digits_show n) in
    let last = read_metrics-lines fixed p m.gauges [] g in
    read_metrics-lines show shown m.counters (lines fixed m.gauges) c
    ∙ ap (λ es. entries show m.counters ++ es)
        (sym (ap read_metrics (append-nil (lines fixed m.gauges)))
          ∙ last
          ∙ append-nil (entries fixed m.gauges))
