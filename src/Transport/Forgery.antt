-- ===== src/Transport/Forgery.antt =====
-- A source id with line breaks, in the metrics of src/dds_transport.cpp.
use resilient_dds_data_plane.Base.{
  ℕ, ◌+◌, ◌%◌, ◌^◌, ◌≡◌, refl, subst, sym, ap, ◌∙◌, inl, inr, true, Option, none, some, List, [],
  ◌∷◌, ◌++◌, ℤ, Bytes, codes, ◌==◌, str_eq, Bool-cases, str_eq_refl,
}
use mathlib.Core.List.{append_assoc}
use resilient_dds_data_plane.Base.Decimal.{show}
use resilient_dds_data_plane.Base.Lines.{split_lines, unbroken}
use resilient_dds_data_plane.Detector.{evaluate}
use resilient_dds_data_plane.Metrics.{MetricsRegistry, increment, line, render_prometheus}
use resilient_dds_data_plane.Metrics.Ordered.{find, find-insert_with, value_or}
use resilient_dds_data_plane.Metrics.Counters.{IsValid, Update, increment_all, increment-IsValid}
use resilient_dds_data_plane.Metrics.Rendering.{render_shows_counter}
use resilient_dds_data_plane.Metrics.Reading.{
  add_read, split_last, is_plain, read_each, read_metrics, read_line,
}
use resilient_dds_data_plane.Transport.Start.{Vendor}
use resilient_dds_data_plane.Transport.Subscriber.{Subscriber, Taken, received, key_counter}
use resilient_dds_data_plane.Transport.Pipeline.{arrivals}
use resilient_dds_data_plane.Transport.Tallies.{event_updates, updates}
use resilient_dds_data_plane.Transport.Listener.{Callback, data_available, handle_all}
use resilient_dds_data_plane.Transport.Totals.{detector_after, all_updates_of, handle_all_updates}

module _ {ℓ} {D : Type ℓ} where
  -- A counter that has been incremented.
  abbrev IsNamed : Bytes → MetricsRegistry D → Type 0
  IsNamed k m = (v : ℕ) × (find k m.counters ≡ some v)

  IsNamed-increment :
      (k name : Bytes) (value : ℕ) (m : MetricsRegistry D)
      → IsValid m
      → IsNamed k m
      → IsNamed k (increment name value m)
  unfolding increment
  IsNamed-increment k name value m w (v, e) =
      let f : ℕ → ℕ = λ old. (old + value) % 2 ^ 64 in
      let found = find-insert_with name k f 0 m.counters w.0 in
      elim (Bool-cases (str_eq name k)) [
        | inl h ↦ (f (value_or 0 (find name m.counters)), found ∙ rw h refl)
        | inr h ↦ (v, found ∙ rw (h, e) refl)
      ]

  IsNamed-increment_self :
      (k : Bytes) (value : ℕ) (m : MetricsRegistry D) → IsValid m → IsNamed k (increment k value m)
  unfolding increment
  IsNamed-increment_self k value m w =
      let f : ℕ → ℕ = λ old. (old + value) % 2 ^ 64 in
      (
        f (value_or 0 (find k m.counters)),
        find-insert_with k k f 0 m.counters w.0 ∙ rw (str_eq_refl k) refl,
      )

  IsNamed-increment_all :
      (k : Bytes) (us : List Update) (m : MetricsRegistry D)
      → IsValid m
      → IsNamed k m
      → IsNamed k (increment_all us m)
  unfolding increment_all
  IsNamed-increment_all k [] m w n = n
  IsNamed-increment_all k ((name, value) ∷ us) m w n =
      IsNamed-increment_all k us (increment name value m) (increment-IsValid name value m w)
        (IsNamed-increment k name value m w n)

-- Behind a line break the lines are those of the rest.
split_lines-break :
    (u s : Bytes)
    → (l : Bytes) × (ls : List Bytes) × (split_lines (u ++ (b'\n' ∷ s))
        ≡ (l ∷ (ls ++ (split_lines s).0), (split_lines s).1))
unfolding split_lines
split_lines-break [] s = ([], [], refl)
split_lines-break (c ∷ u) s =
    let (l, ls, e) = split_lines-break u s in
    elim (Bool-cases (c == b'\n')) [
      | inl h ↦ ([], l ∷ ls, rw (h, e) refl)
      | inr h ↦ (c ∷ l, ls, rw (h, ap (λ q. q.0) e, ap (λ q. q.1) e) refl)
    ]

add_read-append :
    (o : Option (Bytes × Bytes)) (es fs : List (Bytes × Bytes))
    → add_read o (es ++ fs) ≡ add_read o es ++ fs
add_read-append none es fs = refl
add_read-append (some e) es fs = refl

read_each-append : (xs ys : List Bytes) → read_each (xs ++ ys) ≡ read_each xs ++ read_each ys
read_each-append [] ys = refl
read_each-append (x ∷ xs) ys =
    ap (add_read (split_last x)) (read_each-append xs ys)
    ∙ add_read-append (split_last x) (read_each xs) (read_each ys)

read_metrics-break :
    (u s : Bytes)
    → (es : List (Bytes × Bytes)) × (read_metrics (u ++ (b'\n' ∷ s)) ≡ es ++ read_metrics s)
read_metrics-break u s =
    let (l, ls, e) = split_lines-break u s in
    (read_each (l ∷ ls), rw e (read_each-append (l ∷ ls) (split_lines s).0))

-- `text` can be read as some metrics, among them one of this name and value.
abbrev pub Reads : Bytes × Bytes → Bytes → Type 0
Reads e text =
    (es : List (Bytes × Bytes)) × (fs : List (Bytes × Bytes)) × (read_metrics text ≡ es ++ (e ∷ fs))

Reads-forged :
    (before name value rest : Bytes)
    → unbroken name ≡ true
    → is_plain value ≡ true
    → Reads (name, value) (before ++ (b'\n' ∷ ((name ++ (b' ' ∷ value)) ++ (b'\n' ∷ rest))))
Reads-forged before name value rest n p =
    let (es, e) = read_metrics-break before ((name ++ (b' ' ∷ value)) ++ (b'\n' ∷ rest)) in
    (es, read_metrics rest, e ∙ ap (λ fs. es ++ fs) (read_line name value rest n p))

module _ {ℓ} {D : Type ℓ} {v : Vendor} (to_double : ℤ → D) where
  -- The counter of a source is there from its first valid sample on.
  IsNamed-handle_all :
      (t : Taken D) (ts : List (Taken D)) (cs : List (Callback D)) (s : Subscriber D v)
      → IsValid s.metrics
      → t.valid_data ≡ true
      → IsNamed
          (key_counter t.wire.source_id)
          (handle_all to_double (data_available (t ∷ ts) ∷ cs) s).metrics
  unfolding increment_all received
  IsNamed-handle_all t ts cs s w h =
      let (e, k) = handle_all_updates to_double (data_available (t ∷ ts) ∷ cs) s in
      let later =
        (event_updates (evaluate s.detector (received t) t.received_ns).1
          ++ updates (evaluate s.detector (received t) t.received_ns).0 (arrivals ts))
        ++ all_updates_of (detector_after s.detector (data_available (t ∷ ts))) cs in
      let first : MetricsRegistry D = increment (codes "rdtf_samples_received_total") 1 s.metrics in
      let key = key_counter t.wire.source_id in
      let valid = increment-IsValid (codes "rdtf_samples_received_total") 1 s.metrics w in
      let counted : increment_all (all_updates_of s.detector (data_available (t ∷ ts) ∷ cs))
            s.metrics
          ≡ increment_all later (increment key 1 first) =
        rw h refl in
      let (n, found) =
        IsNamed-increment_all key later (increment key 1 first)
          (increment-IsValid key 1 first valid) (IsNamed-increment_self key 1 first valid) in
      (n, rw (e, counted) found)

-- A sample can forge metrics. Once a valid sample has come in whose source id has a line break, then a
-- text of the form `name value`, and then another line break, whoever reads the rendered metrics line
-- by line reads that value for that name, a gauge of the program's own among others, whatever
-- callbacks follow. Its conditions: the name holds no line break, the value no blank and no line break,
-- and the registry's maps are in order.
pub forged_metric {ℓ} :
    {D : Type ℓ} {v : Vendor} (to_double : ℤ → D) (fixed : D → Bytes) (t : Taken D)
    (ts : List (Taken D)) (cs : List (Callback D)) (s : Subscriber D v)
    (before name value rest : Bytes)
    → IsValid s.metrics
    → t.valid_data ≡ true
    → t.wire.source_id ≡ before ++ (b'\n' ∷ ((name ++ (b' ' ∷ value)) ++ (b'\n' ∷ rest)))
    → unbroken name ≡ true
    → is_plain value ≡ true
    → Reads
        (name, value)
        (render_prometheus fixed (handle_all to_double (data_available (t ∷ ts) ∷ cs) s).metrics)
unfolding key_counter
forged_metric to_double fixed t ts cs s before name value rest w h id n p =
    let m = (handle_all to_double (data_available (t ∷ ts) ∷ cs) s).metrics in
    let (k, found) = IsNamed-handle_all to_double t ts cs s w h in
    let (start, end, text) = render_shows_counter fixed m (key_counter t.wire.source_id) k found in
    let prefix = codes "rdtf_samples_received_by_key{key=\"" in
    let ahead = start ++ (prefix ++ before) in
    let behind = rest ++ (codes "\"}" ++ ((b' ' ∷ []) ++ (show k ++ ((b'\n' ∷ []) ++ end)))) in
    let same : start ++ line show (key_counter t.wire.source_id, k) ++ end
        ≡ ahead ++ (b'\n' ∷ ((name ++ (b' ' ∷ value)) ++ (b'\n' ∷ behind))) =
      rw id (simp append_assoc) in
    subst (Reads (name, value)) (sym (text ∙ same)) (Reads-forged ahead name value behind n p)
