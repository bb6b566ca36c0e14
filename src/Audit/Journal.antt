-- ===== src/Audit/Journal.antt =====
-- The file that src/audit_sink.cpp writes: one line a record, none of which holds a line break.
use resilient_dds_data_plane.Base.{
  ℕ, ◌≡◌, refl, sym, ◌∙◌, true, false, not, List, [], ◌∷◌, ◌++◌, ℤ, Bytes, arith, ◌==◌,
  if◌then◌else◌, all-append, map, Bool-cases, inl, inr,
}
use resilient_dds_data_plane.Base.Lines.{
  split_lines, unbroken, split_lines-line, unbroken-show, unbroken-show_ℤ,
}
use mathlib.Core.List.{append_assoc, append-nil}
use resilient_dds_data_plane.Telemetry.{
  AnomalyKind, duplicate, sequence_gap, out_of_order, stale, future_timestamp, schema_mismatch,
  kind_to_string,
}
use resilient_dds_data_plane.Detector.{AnomalyEvent}
use resilient_dds_data_plane.Audit.{AuditSink, record_of, write, escape_byte, escape_json}

-- An event, and when it was observed.
abbrev pub Entry : Type 0
Entry = AnomalyEvent × ℤ

unfoldable pub write_all : AuditSink → List Entry → AuditSink
write_all sink [] = sink
write_all sink ((e, at_ns) ∷ es) = write_all (write sink e at_ns) es

pub write_all-append :
    (sink : AuditSink) (xs ys : List Entry)
    → write_all sink (xs ++ ys) ≡ write_all (write_all sink xs) ys
unfolding write_all
write_all-append sink [] ys = refl
write_all-append sink ((e, at_ns) ∷ xs) ys = write_all-append (write sink e at_ns) xs ys

unbroken_kind : (k : AnomalyKind) → unbroken (kind_to_string k) ≡ true
unfolding kind_to_string
unbroken_kind duplicate = refl
unbroken_kind sequence_gap = refl
unbroken_kind out_of_order = refl
unbroken_kind stale = refl
unbroken_kind future_timestamp = refl
unbroken_kind schema_mismatch = refl

unbroken-escape_byte : (c : ℕ) → unbroken (escape_byte c) ≡ true
unfolding escape_byte
unbroken-escape_byte c = ground arith

unbroken-escape_json : (s : Bytes) → unbroken (escape_json s) ≡ true
unfolding escape_json
unbroken-escape_json [] = refl
unbroken-escape_json (c ∷ s) = rw (
  all-append (λ b. not (b == b'\n')) (escape_byte c) (escape_json s),
  unbroken-escape_byte c,
  unbroken-escape_json s,
)

unbroken-record_of : (e : AnomalyEvent) (at_ns : ℤ) → unbroken (record_of e at_ns) ≡ true
unfolding record_of
unbroken-record_of e at_ns =
    simp (all-append, unbroken-show, unbroken-show_ℤ, unbroken_kind, unbroken-escape_json)

-- What the entries come to in the file.
abbrev journal : List Entry → Bytes
journal [] = []
journal ((e, at_ns) ∷ es) = record_of e at_ns ++ b'\n' ∷ journal es

write-healthy :
    (sink : AuditSink) (e : AnomalyEvent) (at_ns : ℤ)
    → sink.healthy ≡ true
    → ((write sink e at_ns).healthy ≡ true)
      × ((write sink e at_ns).written ≡ sink.written ++ (record_of e at_ns ++ b'\n' ∷ []))
unfolding write
write-healthy sink e at_ns h = ground arith

written-write_all :
    (sink : AuditSink) (es : List Entry)
    → sink.healthy ≡ true
    → (write_all sink es).written ≡ sink.written ++ journal es
unfolding write_all
written-write_all sink [] h = sym (append-nil sink.written)
written-write_all sink ((e, at_ns) ∷ es) h =
    let (h', w) = write-healthy sink e at_ns h in
    written-write_all (write sink e at_ns) es h' ∙ rw w (simp append_assoc)

write_bad :
    (sink : AuditSink) (e : AnomalyEvent) (at_ns : ℤ)
    → sink.healthy ≡ false
    → write sink e at_ns ≡ sink
unfolding write
write_bad sink e at_ns h = ground arith

write_all_bad :
    (sink : AuditSink) (es : List Entry) → sink.healthy ≡ false → write_all sink es ≡ sink
unfolding write_all
write_all_bad sink [] h = refl
write_all_bad sink ((e, at_ns) ∷ es) h = rw (write_bad sink e at_ns h) (write_all_bad sink es h)

split_lines-journal :
    (es : List Entry) → split_lines (journal es) ≡ (map (λ x. record_of x.0 x.1) es, [])
unfolding split_lines
split_lines-journal [] = refl
split_lines-journal ((e, at_ns) ∷ es) = rw (
  split_lines-line (record_of e at_ns) (journal es) (unbroken-record_of e at_ns),
  split_lines-journal es,
)

-- What an open sink writes to an empty file is one line for each event, in the order of the calls:
-- cut at the line breaks, the text gives back exactly their records, with nothing left over. A sink
-- whose stream has gone bad writes nothing.
pub split_lines-write_all :
    (sink : AuditSink) (es : List Entry)
    → sink.written ≡ []
    → split_lines (write_all sink es).written
      ≡ (if sink.healthy then map (λ x. record_of x.0 x.1) es else [], [])
unfolding split_lines
split_lines-write_all sink es w = elim (Bool-cases sink.healthy) [
  | inl h ↦ rw (written-write_all sink es h, w, h) (split_lines-journal es)
  | inr h ↦ rw (write_all_bad sink es h, w, h) refl
]
