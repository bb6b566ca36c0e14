-- ===== src/Telemetry.antt =====
-- include/resilientdds/telemetry.hpp: the sample that the program passes round, and the kinds of
-- anomaly. `D` is the type `double`, of which samples only carry values.
use resilient_dds_data_plane.Base.{ℕ, ℤ, Bytes, codes}

-- kCurrentSchemaVersion
abbrev pub current_schema_version : ℕ
current_schema_version = 1

pub record TelemetrySample {ℓ} (D : Type ℓ) : Type ℓ where
  pub source_id : Bytes
  pub sequence : ℕ  -- uint64
  pub source_timestamp_ns : ℤ
  pub ingest_timestamp_ns : ℤ
  pub temperature_c : D
  pub voltage_v : D
  pub health_flags : ℕ  -- uint32
  pub schema_version : ℕ  -- uint32

pub data AnomalyKind : Type 0 where
  duplicate sequence_gap out_of_order stale future_timestamp schema_mismatch : AnomalyKind

-- The value of the enumerator, by which two kinds are compared.
abbrev pub kind_code : AnomalyKind → ℕ
kind_code duplicate = 0
kind_code sequence_gap = 1
kind_code out_of_order = 2
kind_code stale = 3
kind_code future_timestamp = 4
kind_code schema_mismatch = 5

-- to_string(AnomalyKind)
unfoldable pub kind_to_string : AnomalyKind → Bytes
kind_to_string duplicate = codes "duplicate"
kind_to_string sequence_gap = codes "sequence_gap"
kind_to_string out_of_order = codes "out_of_order"
kind_to_string stale = codes "stale"
kind_to_string future_timestamp = codes "future_timestamp"
kind_to_string schema_mismatch = codes "schema_mismatch"
