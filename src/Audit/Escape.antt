-- ===== src/Audit/Escape.antt =====
-- `escape_json` of src/audit_sink.cpp against a reader of JSON strings.
use mathlib.Core.List.{append_assoc}
use resilient_dds_data_plane.Base.{
  ℕ, zero, suc, ◌+◌, ◌-◌, ◌*◌, ◌<◌, ◌≡◌, refl, true, false, Option, none, some, [], ◌∷◌, ◌++◌,
  Bytes, arith, ltb, leb, ◌==◌, if◌then◌else◌, ◌&&◌,
}
use resilient_dds_data_plane.Audit.{escape_byte, escape_json, hex_digit}

-- Where a reader stands: in plain text, behind a backslash, or with hexadecimal digits to come.
pub data Mode : Type 0 where
  plain slash : Mode
  hex : ℕ → ℕ → Mode

pub data Class : Type 0 where
  quote backslash control ordinary : Class

classify : ℕ → Class
classify c =
    if c == b'"'
    then quote
    else if c == b'\\'
    then backslash
    else if ltb c 0x20
    then control
    else ordinary

hex_value : ℕ → Option ℕ
hex_value c =
    if leb b'0' c && leb c b'9'
    then some (c - b'0')
    else if leb b'a' c && leb c b'f'
    then some (c - b'a' + 10)
    else none

-- The two-character escapes that a reader knows.
unescape : ℕ → Option ℕ
unescape c =
    if c == b'\\'
    then some b'\\'
    else if c == b'"'
    then some b'"'
    else if c == b'n'
    then some b'\n'
    else if c == b'r'
    then some b'\r'
    else if c == b't'
    then some b'\t'
    else none

abbrev prepend : ℕ → Option (Bytes × Bytes) → Option (Bytes × Bytes)
prepend c none = none
prepend c (some (s, rest)) = some (c ∷ s, rest)

-- The string up to the closing quote, and what follows that; `none` if the text is not such.
unfoldable pub read_string : Mode → Bytes → Option (Bytes × Bytes)
unfolding classify hex_value unescape
read_string m [] = none
read_string plain (c ∷ s) = elim (classify c) [
  | quote ↦ some ([], s)
  | backslash ↦ read_string slash s
  | control ↦ none
  | ordinary ↦ prepend c (read_string plain s)
]
read_string slash (c ∷ s) = elim (c == b'u') [
  | true ↦ read_string (hex 3 0) s
  | false ↦ elim (unescape c) [ none ↦ none | some b ↦ prepend b (read_string plain s) ]
]
read_string (hex left v) (c ∷ s) = elim (hex_value c) [
  | none ↦ none
  | some d ↦ elim left [
    | zero ↦ prepend (v * 16 + d) (read_string plain s)
    | suc n ↦ read_string (hex n (v * 16 + d)) s
  ]
]

hex_value-hex_digit : (n : ℕ) → n < 16 → hex_value (hex_digit n) ≡ some n
unfolding hex_value
hex_value-hex_digit n h = ground arith

read_string-escape_byte :
    (c : ℕ) (s : Bytes) → read_string plain (escape_byte c ++ s) ≡ prepend c (read_string plain s)
unfolding read_string escape_byte
read_string-escape_byte c s = ground arith

-- Whatever bytes a string holds, a reader of JSON strings gets them back from what `escape_json`
-- makes of it, and stops at the closing quote that the caller puts behind it.
pub read_string-escape_json :
    (s rest : Bytes) → read_string plain (escape_json s ++ b'"' ∷ rest) ≡ some (s, rest)
unfolding escape_json read_string
read_string-escape_json [] rest = refl
read_string-escape_json (c ∷ s) rest = rw (
  append_assoc (escape_byte c) (escape_json s) (b'"' ∷ rest),
  read_string-escape_byte c (escape_json s ++ b'"' ∷ rest),
  read_string-escape_json s rest,
)
