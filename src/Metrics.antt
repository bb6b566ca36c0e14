-- ===== src/Metrics.antt =====
-- include/resilientdds/metrics.hpp and src/metrics.cpp: `MetricsRegistry`. Its operations hold one
-- mutex throughout, so calls of several threads are a sequence of calls in some order. `D` is the
-- type `double`; `fixed` prints one with three decimals, as the standard library's stream does.
pub mod Ordered
pub mod Counters
pub mod Rendering
pub mod Reading
pub mod Bag
pub mod Threads
mod Examples
use resilient_dds_data_plane.Base.{ℕ, ◌+◌, ◌%◌, ◌^◌, List, [], ◌∷◌, ◌++◌, Bytes, codes}
use resilient_dds_data_plane.Base.Decimal.{show}
use Ordered.{SortedMap, insert_with}

pub record MetricsRegistry {ℓ} (D : Type ℓ) : Type ℓ where
  pub counters : SortedMap ℕ
  pub gauges : SortedMap D

module _ {ℓ} {D : Type ℓ} where
  unfoldable pub new_registry : MetricsRegistry D
  new_registry = record { counters = []; gauges = [] }

  -- `counters_[name] += value`, on `std::uint64_t`.
  unfoldable pub increment : Bytes → ℕ → MetricsRegistry D → MetricsRegistry D
  increment name value m = record m {
    counters = insert_with name (λ old. (old + value) % 2 ^ 64) 0 m.counters;
  }

  -- `gauges_[name] = value`.
  unfoldable pub gauge : Bytes → D → MetricsRegistry D → MetricsRegistry D
  gauge name value m = record m { gauges = insert_with name (λ old. value) value m.gauges }

-- One line of the Prometheus text format.
abbrev pub line {ℓ} : {A : Type ℓ} → (A → Bytes) → Bytes × A → Bytes
line print (name, value) = name ++ (b' ' ∷ []) ++ print value ++ (b'\n' ∷ [])

unfoldable pub lines {ℓ} : {A : Type ℓ} → (A → Bytes) → SortedMap A → Bytes
lines print [] = []
lines print (e ∷ m) = line print e ++ lines print m

unfoldable pub render_prometheus {ℓ} : {D : Type ℓ} → (D → Bytes) → MetricsRegistry D → Bytes
render_prometheus fixed m = lines show m.counters ++ lines fixed m.gauges
