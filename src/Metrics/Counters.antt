-- ===== src/Metrics/Counters.antt =====
-- What the counters of src/metrics.cpp come to after any sequence of increments.
use mathlib.Core.List.{Permᴰ}
use resilient_dds_data_plane.Base.{
  ℕ, ◌+◌, ◌%◌, ◌^◌, ◌<◌, ◌≡◌, refl, ap, ◌∙◌, List, [], ◌∷◌, ◌++◌, Bytes, arith, if◌then◌else◌,
  str_eq, eq_of_str_eq, str_eq_comm,
}
use resilient_dds_data_plane.Metrics.Ordered.{
  IsSorted, find, find-insert_with, insert_with-IsSorted, sorted_ext, value_or,
}
use resilient_dds_data_plane.Metrics.{MetricsRegistry, new_registry, increment, gauge}

-- A counter that has never been incremented reads 0.
unfoldable pub counter {ℓ} : {D : Type ℓ} → Bytes → MetricsRegistry D → ℕ
counter k m = value_or 0 (find k m.counters)

-- A call of `increment`.
abbrev pub Update : Type 0
Update = Bytes × ℕ

unfoldable pub increment_all {ℓ} :
    {D : Type ℓ} → List Update → MetricsRegistry D → MetricsRegistry D
increment_all [] m = m
increment_all ((name, value) ∷ us) m = increment_all us (increment name value m)

-- The sum of the values that are added to a counter.
abbrev pub total : Bytes → List Update → ℕ
total k [] = 0
total k ((name, value) ∷ us) = (if str_eq name k then value else 0) + total k us

pub total-append : (k : Bytes) (us ws : List Update) → total k (us ++ ws) ≡ total k us + total k ws
total-append k [] ws = omega arith
total-append k ((name, value) ∷ us) ws = omega (arith, total-append k us ws)

pub increment_all-append {ℓ} :
    {D : Type ℓ} (us ws : List Update) (m : MetricsRegistry D)
    → increment_all (us ++ ws) m ≡ increment_all ws (increment_all us m)
unfolding increment_all
increment_all-append [] ws m = refl
increment_all-append ((name, value) ∷ us) ws m = increment_all-append us ws (increment name value m)

abbrev pub IsValid {ℓ} : {D : Type ℓ} → MetricsRegistry D → Type 0
IsValid m = IsSorted m.counters × IsSorted m.gauges

module _ {ℓ} {D : Type ℓ} where
  pub counter-increment :
      (k name : Bytes) (value : ℕ) (m : MetricsRegistry D)
      → IsValid m
      → counter k (increment name value m)
        ≡ (if str_eq name k then (counter k m + value) % 2 ^ 64 else counter k m)
  unfolding counter increment
  counter-increment k name value m v = ground (
    arith,
    eq_of_str_eq name k,
    find-insert_with name k (λ old. (old + value) % 2 ^ 64) 0 m.counters v.0,
  )

  pub increment-IsValid :
      (name : Bytes) (value : ℕ) (m : MetricsRegistry D)
      → IsValid m
      → IsValid (increment name value m)
  unfolding increment
  increment-IsValid name value m v =
      (insert_with-IsSorted name (λ old. (old + value) % 2 ^ 64) 0 m.counters v.0, v.1)

  pub gauge-IsValid :
      (name : Bytes) (value : D) (m : MetricsRegistry D) → IsValid m → IsValid (gauge name value m)
  unfolding gauge
  gauge-IsValid name value m v = (v.0, insert_with-IsSorted name (λ old. value) value m.gauges v.1)

  -- In a registry whose maps are in order, a counter grows by the sum of its increments, modulo
  -- 2 ^ 64, whatever other counters are incremented in between.
  pub counter-increment_all :
      (k : Bytes) (us : List Update) (m : MetricsRegistry D)
      → IsValid m
      → counter k m < 2 ^ 64
      → counter k (increment_all us m) ≡ (counter k m + total k us) % 2 ^ 64
  unfolding increment_all
  counter-increment_all k [] m v w = omega arith
  counter-increment_all k ((name, value) ∷ us) m v w = ground (
    arith,
    counter-increment k name value m v,
    counter-increment_all k us (increment name value m) (increment-IsValid name value m v),
  )

  module _ (a b : Bytes) (x y : ℕ) (m : MetricsRegistry D) (v : IsValid m) where
    find_commute :
        (i : Bytes)
        → find i (increment b y (increment a x m)).counters
          ≡ find i (increment a x (increment b y m)).counters
    unfolding increment
    find_commute i = ground (
      arith,
      find-insert_with b i (λ old. (old + y) % 2 ^ 64) 0 (increment a x m).counters
          (increment-IsValid a x m v).0,
      find-insert_with a i (λ old. (old + x) % 2 ^ 64) 0 (increment b y m).counters
          (increment-IsValid b y m v).0,
      find-insert_with b i (λ old. (old + y) % 2 ^ 64) 0 m.counters v.0,
      find-insert_with a i (λ old. (old + x) % 2 ^ 64) 0 m.counters v.0,
      find-insert_with b a (λ old. (old + y) % 2 ^ 64) 0 m.counters v.0,
      find-insert_with a b (λ old. (old + x) % 2 ^ 64) 0 m.counters v.0,
      eq_of_str_eq a b,
      eq_of_str_eq a i,
      eq_of_str_eq b i,
      str_eq_comm a b,
    )

    pub increment_commute : increment b y (increment a x m) ≡ increment a x (increment b y m)
    unfolding increment
    increment_commute =
        ap (λ c. record m { counters = c })
          (sorted_ext (increment b y (increment a x m)).counters
            (increment a x (increment b y m)).counters
            (increment-IsValid b y (increment a x m) (increment-IsValid a x m v)).0
            (increment-IsValid a x (increment b y m) (increment-IsValid b y m v)).0 find_commute)

  pub increment_all-IsValid :
      (us : List Update) (m : MetricsRegistry D) → IsValid m → IsValid (increment_all us m)
  unfolding increment_all
  increment_all-IsValid [] m v = v
  increment_all-IsValid ((name, value) ∷ us) m v =
      increment_all-IsValid us (increment name value m) (increment-IsValid name value m v)

  -- The order in which threads get the lock does not show: from a registry whose maps are in order,
  -- any rearrangement of the increments leaves the same registry.
  pub increment_all-perm :
      {us ws : List Update}
      → Permᴰ us ws
      → (m : MetricsRegistry D) → IsValid m
      → increment_all us m ≡ increment_all ws m
  unfolding increment_all
  increment_all-perm Permᴰ.nil m v = refl
  increment_all-perm (Permᴰ.cons {b = b} e p) m v =
      rw e (increment_all-perm p (increment b.0 b.1 m) (increment-IsValid b.0 b.1 m v))
  increment_all-perm (Permᴰ.swap {a' = a} {b' = b} {l = l} e f) m v =
      rw (e, f) (ap (increment_all l) (increment_commute b.0 a.0 b.1 a.1 m v))
  increment_all-perm (Permᴰ.trans p q) m v = increment_all-perm p m v ∙ increment_all-perm q m v

module _ {ℓ} {D : Type ℓ} where
  -- Increments read and write the counters alone.
  pub counters-increment_all :
      (us : List Update) (m n : MetricsRegistry D)
      → m.counters ≡ n.counters
      → (increment_all us m).counters ≡ (increment_all us n).counters
  unfolding increment_all increment
  counters-increment_all [] m n e = e
  counters-increment_all ((name, value) ∷ us) m n e =
      counters-increment_all us (increment name value m) (increment name value n) (rw e refl)

pub new_registry-IsValid {ℓ} : (D : Type ℓ) → IsValid (new_registry {D = D})
unfolding new_registry
new_registry-IsValid D = (tt, tt)

-- From an empty registry a counter is the sum of its increments.
pub from_new {ℓ} :
    (D : Type ℓ) (k : Bytes) (us : List Update)
    → counter k (increment_all us (new_registry {D = D})) ≡ total k us % 2 ^ 64
unfolding new_registry counter find
from_new D k us =
    omega (arith, counter-increment_all k us (new_registry {D = D}) (new_registry-IsValid D))
