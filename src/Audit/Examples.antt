-- ===== src/Audit/Examples.antt =====
-- Records of src/audit_sink.cpp.
use resilient_dds_data_plane.Base.{
  ◌≡◌, refl, true, some, List, [], ◌∷◌, ◌++◌, Bytes, codes, pos, negsuc, map,
}
use resilient_dds_data_plane.Base.Decimal.{show, show_ℤ}
use resilient_dds_data_plane.Telemetry.{stale, kind_to_string}
use resilient_dds_data_plane.Detector.{AnomalyEvent}
use resilient_dds_data_plane.Audit.{AuditSink, escape_byte, escape_json, record_of}
use resilient_dds_data_plane.Audit.Escape.{plain, read_string, read_string-escape_json}
use resilient_dds_data_plane.Base.Lines.{split_lines}
use resilient_dds_data_plane.Audit.Journal.{Entry, write_all, split_lines-write_all}

-- An identifier with a quote, a line break and a control character.
abbrev hostile : Bytes
hostile = b'a' ∷ b'"' ∷ b'\n' ∷ 1 ∷ []

abbrev finding : AnomalyEvent
finding = record {
  kind = stale;
  source_id = hostile;
  sequence = 7;
  missing_samples = 0;
  age_ms = pos 300;
  detail = codes "late";
}

abbrev sink : AuditSink
sink = record { healthy = true; written = [] }

abbrev entries : List Entry
entries = (finding, pos 5) ∷ (finding, negsuc 4) ∷ []

escape_json_test : escape_json hostile ≡ codes "a\\\"\\n\\u0001"
unfolding escape_json escape_byte
escape_json_test = refl

read_string-escape_json_example :
    read_string plain (escape_json hostile ++ b'"' ∷ b',' ∷ []) ≡ some (hostile, b',' ∷ [])
read_string-escape_json_example = read_string-escape_json hostile (b',' ∷ [])

split_lines-write_all_example :
    split_lines (write_all sink entries).written ≡ (map (λ x. record_of x.0 x.1) entries, [])
split_lines-write_all_example = split_lines-write_all sink entries refl

record_of_test :
    record_of (record finding { source_id = codes "a" }) (negsuc 4)
    ≡ codes
        "{\"observed_at_ns\":-5,\"source_id\":\"a\",\"sequence\":7,\"kind\":\"stale\",\"missing_samples\":0,\"age_ms\":300,\"detail\":\"late\"}"
unfolding record_of escape_json escape_byte show show_ℤ kind_to_string
record_of_test = refl
