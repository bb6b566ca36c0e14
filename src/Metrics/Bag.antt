-- ===== src/Metrics/Bag.antt =====
-- The counters of src/metrics.cpp as the bag of the increments that were made, in whatever order the
-- threads got the mutex.
use mathlib.Core.List.{Permᴰ}
use mathlib.Core.Quot
use mathlib.Core.Quot.{Quot, Quot-set}
use native.Mathlib.Nat.{ℕ_set}
use resilient_dds_data_plane.Base.{
  ℕ, ◌+◌, ◌%◌, ◌^◌, ◌≡◌, refl, sym, ap, ◌∙◌, List, [], ◌∷◌, Bytes, arith,
}
use resilient_dds_data_plane.Metrics.{MetricsRegistry, new_registry, increment}
use resilient_dds_data_plane.Metrics.Ordered.{SortedMap, find, value_or, insert_with}
use resilient_dds_data_plane.Metrics.Counters.{
  new_registry-IsValid, Update, IsValid, counter, total, increment_all, increment_commute,
  increment-IsValid, increment_all-perm, from_new,
}

abbrev Rearranged : List Update → List Update → Type 0
Rearranged us ws = Permᴰ us ws

-- Increments without an order.
abbrev pub Bag : Type 0
Bag = Quot Rearranged

abbrev pub no_increments : Bag
no_increments = Quot.mk []

abbrev pub put : Update → Bag → Bag
put u = Quot.lift Quot-set (λ us. Quot.mk (u ∷ us)) (λ us ws p. Quot.sound (Permᴰ.cons refl p))

pub put_comm : (u w : Update) (b : Bag) → put u (put w b) ≡ put w (put u b)
put_comm u w = Quot.ind (λ b. Quot-set _ _) (λ us. Quot.sound (Permᴰ.swap refl refl))

total-perm : (k : Bytes) (us ws : List Update) → Permᴰ us ws → total k us ≡ total k ws
total-perm k us ws Permᴰ.nil = refl
total-perm k us ws (Permᴰ.cons {b = b} {l₁ = l₁} {l₂ = l₂} e p) =
    rw e (omega (arith, total-perm k l₁ l₂ p))
total-perm k us ws (Permᴰ.swap {a' = a} {b' = b} e f) = rw (e, f) (omega arith)
total-perm k us ws (Permᴰ.trans p q) = total-perm k _ _ p ∙ total-perm k _ _ q

-- The sum of the increments of a counter.
pub total_of : Bytes → Bag → ℕ
total_of k = Quot.lift ℕ_set (total k) (total-perm k)

abbrev empty_registry : MetricsRegistry ℕ
empty_registry = new_registry

SortedMap-set : IsSet (SortedMap ℕ)
SortedMap-set = hlevel

-- The map that increments make of an empty one.
pub counters_of : Bag → SortedMap ℕ
counters_of =
    Quot.lift SortedMap-set (λ us. (increment_all us empty_registry).counters)
      (λ us ws p.
        ap (λ m. m.counters) (increment_all-perm p empty_registry (new_registry-IsValid ℕ)))

-- A registry with the counters that the increments make.
abbrev pub Represents {ℓ} : {D : Type ℓ} → MetricsRegistry D → Bag → Type 0
Represents m b = m.counters ≡ counters_of b

pub new_registry-Represents {ℓ} : (D : Type ℓ) → Represents (new_registry {D = D}) no_increments
unfolding counters_of new_registry increment_all
new_registry-Represents D = refl

increment_all-increment :
    (u : Update) (us : List Update) (m : MetricsRegistry ℕ)
    → IsValid m
    → increment_all us (increment u.0 u.1 m) ≡ increment u.0 u.1 (increment_all us m)
unfolding increment_all
increment_all-increment u [] m v = refl
increment_all-increment u ((name, value) ∷ us) m v =
    ap (increment_all us) (sym (increment_commute name u.0 value u.1 m v))
    ∙ increment_all-increment u us (increment name value m) (increment-IsValid name value m v)

pub counters_of-put :
    (u : Update) (b : Bag)
    → counters_of (put u b) ≡ insert_with u.0 (λ old. (old + u.1) % 2 ^ 64) 0 (counters_of b)
unfolding counters_of increment_all increment
counters_of-put u =
    Quot.ind (λ b. SortedMap-set _ _)
      (λ us.
        ap (λ m. m.counters) (increment_all-increment u us empty_registry (new_registry-IsValid ℕ)))

pub find-counters_of :
    (k : Bytes) (b : Bag) → value_or 0 (find k (counters_of b)) ≡ total_of k b % 2 ^ 64
unfolding counters_of total_of counter
find-counters_of k = Quot.ind (λ b. ℕ_set _ _) (λ us. from_new ℕ k us)
