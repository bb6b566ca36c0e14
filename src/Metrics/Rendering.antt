-- ===== src/Metrics/Rendering.antt =====
-- What src/metrics.cpp prints.
use resilient_dds_data_plane.Base.{
  ℕ, ◌≡◌, inl, inr, [], ◌∷◌, ◌++◌, Bytes, arith, some, str_eq, eq_of_str_eq, Bool-cases,
}
use mathlib.Core.List.{append_assoc}
use resilient_dds_data_plane.Base.Decimal.{show}
use resilient_dds_data_plane.Metrics.Ordered.{SortedMap, find}
use resilient_dds_data_plane.Metrics.{MetricsRegistry, line, lines, render_prometheus}

-- `part` stands somewhere in `text`.
abbrev pub Contains : Bytes → Bytes → Type 0
Contains part text = (before : Bytes) × (after : Bytes) × (text ≡ before ++ part ++ after)

module _ {ℓ} {A : Type ℓ} (print : A → Bytes) where
  lines-Contains :
      (k : Bytes) (v : A) (m : SortedMap A)
      → find k m ≡ some v
      → Contains (line print (k, v)) (lines print m)
  unfolding find lines
  lines-Contains k v [] e = cc
  lines-Contains k v ((j, w) ∷ m) e = elim (Bool-cases (str_eq j k)) [
    | inl h ↦ ([], lines print m, ground (arith, eq_of_str_eq j k))
    | inr h ↦
        let (before, after, p) = lines-Contains k v m (rw h at e) in
        (line print (j, w) ++ before, after, rw p (simp append_assoc))
  ]

-- A counter of any value is printed, on a line of its own with its name and its value in decimal.
pub render_shows_counter {ℓ} :
    {D : Type ℓ} (fixed : D → Bytes) (m : MetricsRegistry D) (k : Bytes) (v : ℕ)
    → find k m.counters ≡ some v
    → Contains (line show (k, v)) (render_prometheus fixed m)
unfolding render_prometheus
render_shows_counter fixed m k v e =
    let (before, after, p) = lines-Contains show k v m.counters e in
    (before, after ++ lines fixed m.gauges, rw p (simp append_assoc))

-- A gauge is printed, on a line of its own with its name and its value.
pub render_shows_gauge {ℓ} :
    {D : Type ℓ} (fixed : D → Bytes) (m : MetricsRegistry D) (k : Bytes) (x : D)
    → find k m.gauges ≡ some x
    → Contains (line fixed (k, x)) (render_prometheus fixed m)
unfolding render_prometheus
render_shows_gauge fixed m k x e =
    let (before, after, p) = lines-Contains fixed k x m.gauges e in
    (lines show m.counters ++ before, after, rw p (simp append_assoc))
