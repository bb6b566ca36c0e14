-- ===== src/Audit.antt =====
-- include/resilientdds/audit_sink.hpp and src/audit_sink.cpp: `AuditSink`, a file of one JSON object
-- a line. The sink is the stream's state and what it has written; `write` holds a mutex throughout,
-- so the calls of several threads are a sequence. A stream that goes bad does so between two calls.
pub mod Escape
pub mod Journal
mod Examples
use resilient_dds_data_plane.Base.{
  ℕ, ◌+◌, ◌-◌, ◌/◌, ◌%◌, Bool, true, false, List, [], ◌∷◌, ◌++◌, ℤ, Bytes, codes, ltb, ◌==◌,
  if◌then◌else◌,
}
use resilient_dds_data_plane.Base.Decimal.{show, show_ℤ}
use resilient_dds_data_plane.Telemetry.{kind_to_string}
use resilient_dds_data_plane.Detector.{AnomalyEvent}

-- A hexadecimal digit as `std::hex` prints it.
abbrev pub hex_digit : ℕ → ℕ
hex_digit n = if ltb n 10 then b'0' + n else b'a' + (n - 10)

-- One byte of `escape_json`.
unfoldable pub escape_byte : ℕ → Bytes
escape_byte ch =
    if ch == b'\\'
    then b'\\' ∷ b'\\' ∷ []
    else if ch == b'"'
    then b'\\' ∷ b'"' ∷ []
    else if ch == b'\n'
    then b'\\' ∷ b'n' ∷ []
    else if ch == b'\r'
    then b'\\' ∷ b'r' ∷ []
    else if ch == b'\t'
    then b'\\' ∷ b't' ∷ []
    else if ltb ch 0x20
    then b'\\' ∷ b'u' ∷ b'0' ∷ b'0' ∷ hex_digit (ch / 16) ∷ hex_digit (ch % 16) ∷ []
    else ch ∷ []

unfoldable pub escape_json : Bytes → Bytes
unfolding escape_byte
escape_json [] = []
escape_json (ch ∷ s) = escape_byte ch ++ escape_json s

pub record AuditSink : Type 0 where
  pub healthy : Bool
  pub written : Bytes

-- The line that `write` sends to the stream, up to the newline.
unfoldable pub record_of : AnomalyEvent → ℤ → Bytes
record_of e observed_at_ns =
    codes "{\"observed_at_ns\":"
    ++ (show_ℤ observed_at_ns
        ++ (codes ",\"source_id\":\""
            ++ (escape_json e.source_id
                ++ (codes "\",\"sequence\":"
                    ++ (show e.sequence
                        ++ (codes ",\"kind\":\""
                            ++ (kind_to_string e.kind
                                ++ (codes "\",\"missing_samples\":"
                                    ++ (show e.missing_samples
                                        ++ (codes ",\"age_ms\":"
                                            ++ (show_ℤ e.age_ms
                                                ++ (codes ",\"detail\":\""
                                                    ++ (escape_json e.detail
                                                        ++ codes "\"}")))))))))))))

unfoldable pub write : AuditSink → AnomalyEvent → ℤ → AuditSink
write sink e observed_at_ns =
    if sink.healthy
    then record sink { written = sink.written ++ (record_of e observed_at_ns ++ (b'\n' ∷ [])) }
    else sink

unfoldable pub good : AuditSink → Bool
good sink = sink.healthy
