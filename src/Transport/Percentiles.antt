-- ===== src/Transport/Percentiles.antt =====
-- What the statistics of src/dds_transport.cpp say of the samples.
use resilient_dds_data_plane.Base.{
  ℕ, zero, suc, ◌-◌, ◌≤◌, ◌<◌, min, ◌≡◌, inl, inr, refl, sym, subst, ap, ◌∙◌, List, [], ◌∷◌, ℤ, pos,
  ◌≤ℤ◌, leb_ℤ, length, arith, Bool-cases,
}
use mathlib.Core.List.{Perm}
use mathlib.Core.List.Perm
use resilient_dds_data_plane.Transport.Latency.{
  Floats, insert, sort, elem_or, rank, pct, statistics, latency,
}

-- `x` is at most the first sample, and the samples ascend.
abbrev pub From : ℤ → List ℤ → Type 0
From x [] = Unit
From x (y ∷ ys) = (x ≤ℤ y) × From y ys

abbrev pub IsSorted : List ℤ → Type 0
IsSorted [] = Unit
IsSorted (x ∷ xs) = From x xs

From-insert : (z x : ℤ) (xs : List ℤ) → z ≤ℤ x → From z xs → From z (insert x xs)
unfolding insert
From-insert z x [] h s = (h, tt)
From-insert z x (y ∷ ys) h s = ground (arith, From-insert y x ys)

insert-IsSorted : (x : ℤ) (xs : List ℤ) → IsSorted xs → IsSorted (insert x xs)
unfolding insert
insert-IsSorted x [] s = tt
insert-IsSorted x (y ∷ ys) s = ground (arith, From-insert y x ys)

pub sort-IsSorted : (xs : List ℤ) → IsSorted (sort xs)
unfolding sort
sort-IsSorted [] = tt
sort-IsSorted (x ∷ xs) = insert-IsSorted x (sort xs) (sort-IsSorted xs)

insert-perm : (x : ℤ) (xs : List ℤ) → Perm (insert x xs) (x ∷ xs)
unfolding insert
insert-perm x [] = Perm.refl (x ∷ [])
insert-perm x (y ∷ ys) = elim (Bool-cases (leb_ℤ x y)) [
  | inl h ↦ rw h (Perm.refl (x ∷ y ∷ ys))
  | inr h ↦ rw h (Perm.trans (Perm.cons y (insert-perm x ys)) (Perm.swap x y ys))
]

sort-perm : (xs : List ℤ) → Perm (sort xs) xs
unfolding sort
sort-perm [] = Perm.nil
sort-perm (x ∷ xs) = Perm.trans (insert-perm x (sort xs)) (Perm.cons x (sort-perm xs))

pub From-elem_or :
    (x : ℤ) (xs : List ℤ) (i : ℕ) → From x xs → i < length xs → x ≤ℤ elem_or xs i (pos 0)
unfolding elem_or
From-elem_or x [] i s h = elim h [ ]
From-elem_or x (y ∷ ys) zero s h = s.0
From-elem_or x (y ∷ ys) (suc i) s h = omega (arith, From-elem_or y ys i s.1 (omega arith), s.0)

elem_or_mono :
    (xs : List ℤ) (i j : ℕ)
    → IsSorted xs
    → i ≤ j
    → j < length xs
    → elem_or xs i (pos 0) ≤ℤ elem_or xs j (pos 0)
unfolding elem_or
elem_or_mono [] i j s h k = elim k [ ]
elem_or_mono (x ∷ xs) zero zero s h k = omega arith
elem_or_mono (x ∷ xs) zero (suc j) s h k = From-elem_or x xs j s (omega arith)
elem_or_mono (x ∷ xs) (suc i) zero s h k = absurd (omega arith)
elem_or_mono (x ∷ xs) (suc i) (suc j) s h k =
    elem_or_mono xs i j (tail x xs s) (omega arith) (omega arith)
  where
    tail : (z : ℤ) (zs : List ℤ) → From z zs → IsSorted zs
    tail z [] t = tt
    tail z (w ∷ zs) t = t.1

length-insert : (x : ℤ) (xs : List ℤ) → length (insert x xs) ≡ suc (length xs)
unfolding insert
length-insert x [] = refl
length-insert x (y ∷ ys) = ground (arith, length-insert x ys)

pub length-sort : (xs : List ℤ) → length (sort xs) ≡ length xs
unfolding sort
length-sort [] = refl
length-sort (x ∷ xs) = length-insert x (sort xs) ∙ ap suc (length-sort xs)

-- Every sample lies between the two.
abbrev pub Within : ℤ → ℤ → List ℤ → Type 0
Within lo hi [] = Unit
Within lo hi (x ∷ xs) = (lo ≤ℤ x) × (x ≤ℤ hi) × Within lo hi xs

Within-insert :
    (lo hi x : ℤ) (xs : List ℤ)
    → Within lo hi (insert x xs)
    → (lo ≤ℤ x) × (x ≤ℤ hi) × Within lo hi xs
unfolding insert
Within-insert lo hi x [] w = w
Within-insert lo hi x (y ∷ ys) w = elim (Bool-cases (leb_ℤ x y)) [
  | inl h ↦ (rw h at w)
  | inr h ↦
      let v : Within lo hi (y ∷ insert x ys) = rw h at w in
      let (a, b, c) = Within-insert lo hi x ys v.2 in (a, b, (v.0, v.1, c))
]

pub Within-sort : (lo hi : ℤ) (xs : List ℤ) → Within lo hi (sort xs) → Within lo hi xs
unfolding sort
Within-sort lo hi [] w = tt
Within-sort lo hi (x ∷ xs) w =
    let (a, b, c) = Within-insert lo hi x (sort xs) w in (a, b, Within-sort lo hi xs c)

sorted-Within :
    (lo x : ℤ) (xs : List ℤ)
    → lo ≤ℤ x
    → From x xs
    → Within lo (elem_or (x ∷ xs) (length xs) (pos 0)) (x ∷ xs)
unfolding elem_or
sorted-Within lo x [] h s = (h, omega arith, tt)
sorted-Within lo x (y ∷ ys) h s = (
  h,
  From-elem_or x (y ∷ ys) (length ys) s (omega arith),
  sorted-Within lo y ys (omega (arith, s.0)) s.1,
)

-- What is asked of the arithmetic: the rank that is computed for a percentile grows with the
-- percentile, as it does where rounding is monotone.
pub record RanksAscend (f : Floats) : Type 0 where
  pub p50-p95 : (n : ℕ) → rank f (f.of_int (pos 50)) n ≤ rank f (f.of_int (pos 95)) n
  pub p95-p99 : (n : ℕ) → rank f (f.of_int (pos 95)) n ≤ rank f (f.of_int (pos 99)) n
  pub p99-p999 : (n : ℕ) → rank f (f.of_int (pos 99)) n ≤ rank f f.p999 n

module _ (f : Floats) where
  pub rank_pos : (p : f.Double) (n : ℕ) → 0 < rank f p n
  unfolding rank
  rank_pos p n = ground arith

  pct_mono :
      (xs : List ℤ) (p q : f.Double)
      → IsSorted xs
      → 0 < length xs
      → rank f p (length xs) ≤ rank f q (length xs)
      → (elem_or xs 0 (pos 0) ≤ℤ pct f xs p)
        × (pct f xs p ≤ℤ pct f xs q)
        × (pct f xs q ≤ℤ elem_or xs (length xs - 1) (pos 0))
  unfolding pct
  pct_mono xs p q s h r =
      let i = min (rank f p (length xs)) (length xs) - 1 in
      let j = min (rank f q (length xs)) (length xs) - 1 in
      (
        elem_or_mono xs 0 i s (omega arith) (omega arith),
        elem_or_mono xs i j s (omega arith) (omega arith),
        elem_or_mono xs j (length xs - 1) s (omega arith) (omega arith),
      )

-- The sorted samples of a call that has some.
pub sorted_ends :
    (ys xs : List ℤ)
    → IsSorted ys
    → 0 < length ys
    → (Within (elem_or ys 0 (pos 0)) (elem_or ys (length ys - 1) (pos 0)) ys
        → Within (elem_or ys 0 (pos 0)) (elem_or ys (length ys - 1) (pos 0)) xs)
    → Within (elem_or ys 0 (pos 0)) (elem_or ys (length ys - 1) (pos 0)) xs
unfolding elem_or
sorted_ends [] xs s h w = absurd (omega arith)
sorted_ends (y ∷ ys) xs s h w =
    let e : length (y ∷ ys) - 1 ≡ length ys = omega arith in
    w (
      subst (λ i. Within y (elem_or (y ∷ ys) i (pos 0)) (y ∷ ys)) (sym e)
        (sorted-Within y y ys (omega arith) s))

-- When at least one latency is recorded and the computed ranks grow with the percentile, the count
-- is the number of the recorded latencies, the percentiles lie in order between the minimum and the
-- maximum, and every recorded latency lies between these two.
pub latency_ordered :
    (f : Floats) (x : ℤ) (xs : List ℤ)
    → RanksAscend f
    → let r = latency f (x ∷ xs) in
      (r.count ≡ length (x ∷ xs))
      × (r.min_us ≤ℤ r.p50_us)
      × (r.p50_us ≤ℤ r.p95_us)
      × (r.p95_us ≤ℤ r.p99_us)
      × (r.p99_us ≤ℤ r.p999_us)
      × (r.p999_us ≤ℤ r.max_us)
      × Within r.min_us r.max_us (x ∷ xs)
unfolding latency statistics
latency_ordered f x xs r =
    let ys = sort (x ∷ xs) in
    let n = length-sort (x ∷ xs) in
    let s = sort-IsSorted (x ∷ xs) in
    let h : 0 < length ys = omega (arith, n) in
    let a = pct_mono f ys (f.of_int (pos 50)) (f.of_int (pos 95)) s h (r.p50-p95 (length ys)) in
    let b = pct_mono f ys (f.of_int (pos 95)) (f.of_int (pos 99)) s h (r.p95-p99 (length ys)) in
    let c = pct_mono f ys (f.of_int (pos 99)) f.p999 s h (r.p99-p999 (length ys)) in
    (n, a.0, a.1, b.1, c.1, c.2, sorted_ends ys (x ∷ xs) s h (Within-sort _ _ (x ∷ xs)))
