-- ===== src/Programs/DdsPublisher/Running.antt =====
-- The run of apps/dds_publisher.cpp from its options to the registry that it renders: the wait for a
-- reader, the loop's writes among the listener's callbacks, and the gauges at the end. The sleeps and
-- what else is printed are not modelled.
use resilient_dds_data_plane.Base.{ℕ, Bool, Option, List, [], ◌∷◌, ℤ, pos, codes, if◌then◌else◌}
use resilient_dds_data_plane.Telemetry.{TelemetrySample}
use resilient_dds_data_plane.Metrics.{MetricsRegistry, gauge}
use resilient_dds_data_plane.Transport.Start.{Vendor}
use resilient_dds_data_plane.Transport.Publisher.{
  Publisher, publish, on_publication_matched, on_offered_deadline_missed,
  on_offered_incompatible_qos, write_stats,
}
use resilient_dds_data_plane.Transport.WriteRules.{Write}
use resilient_dds_data_plane.Programs.Probes.{await_match}

-- The wait for a reader, which is the loop of resource_writer: `matched i` is what call `i` of
-- `matched` yields.
unfoldable pub await_reader : ℕ → (ℕ → Bool) → ℕ → Option ℕ
unfolding await_match
await_reader fuel matched wait_match_ms =
    await_match fuel (λ i. if matched i then pos 1 else pos 0) wait_match_ms 0 0

-- A write of the loop, or a callback of the listener.
pub data Happening {ℓ} (D : Type ℓ) : Type ℓ where
  wrote : Write D → Happening D
  matched_changed : ℤ → Happening D
  deadline_missed incompatible_qos : Happening D

module _ {ℓ} {D : Type ℓ} {v : Vendor} where
  unfoldable pub happen : (ℤ → D) → Happening D → Publisher D v → Publisher D v
  happen to_double (wrote (s, w)) p = (publish s w p).0
  happen to_double (matched_changed count) p = on_publication_matched to_double count p
  happen to_double deadline_missed p = on_offered_deadline_missed p
  happen to_double incompatible_qos p = on_offered_incompatible_qos p

  unfoldable pub happen_all : (ℤ → D) → List (Happening D) → Publisher D v → Publisher D v
  unfolding happen
  happen_all to_double [] p = p
  happen_all to_double (x ∷ xs) p = happen_all to_double xs (happen to_double x p)

  -- The registry at the end, whose rendering is printed. `of_nat` converts a `std::uint64_t`.
  unfoldable pub final_metrics : (ℕ → D) → Publisher D v → MetricsRegistry D
  unfolding write_stats
  final_metrics of_nat p =
      let (total_us, max_us) = write_stats p in
      gauge (codes "rdtf_write_blocked_max_us") (of_nat max_us)
        (gauge (codes "rdtf_write_blocked_total_us") (of_nat total_us) p.metrics)

module _ {ℓ} {D : Type ℓ} where
  -- The writes among what happens.
  abbrev pub writes_of : List (Happening D) → List (Write D)
  writes_of [] = []
  writes_of (wrote w ∷ xs) = w ∷ writes_of xs
  writes_of (matched_changed count ∷ xs) = writes_of xs
  writes_of (deadline_missed ∷ xs) = writes_of xs
  writes_of (incompatible_qos ∷ xs) = writes_of xs

  -- The samples that are written.
  abbrev pub samples_of : List (Write D) → List (TelemetrySample D)
  samples_of [] = []
  samples_of ((s, w) ∷ ws) = s ∷ samples_of ws
