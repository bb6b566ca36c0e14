-- ===== src/Transport/Ranks.antt =====
-- The percentiles of src/dds_transport.cpp by the nearest rank.
use resilient_dds_data_plane.Base.{
  ℕ, zero, suc, ◌+◌, ◌-◌, ◌≤◌, ◌<◌, min, ◌≡◌, inl, inr, refl, List, [], ◌∷◌, ℤ, pos, ◌≤ℤ◌, leb_ℤ,
  ltb_ℤ, length, arith, Bool-cases, if◌then◌else◌, Bool,
}
use resilient_dds_data_plane.Transport.Latency.{
  Floats, insert, sort, elem_or, rank, pct, statistics, latency,
}
use resilient_dds_data_plane.Transport.Percentiles.{
  sorted_ends, Within, Within-sort, IsSorted, From, sort-IsSorted, length-sort, From-elem_or,
  rank_pos,
}

-- How many samples pass a test.
abbrev pub count_if : (ℤ → Bool) → List ℤ → ℕ
count_if test [] = 0
count_if test (x ∷ xs) = (if test x then 1 else 0) + count_if test xs

count_if-insert :
    (test : ℤ → Bool) (x : ℤ) (xs : List ℤ) → count_if test (insert x xs) ≡ count_if test (x ∷ xs)
unfolding insert
count_if-insert test x [] = refl
count_if-insert test x (y ∷ ys) = elim (Bool-cases (leb_ℤ x y)) [
  | inl h ↦ rw h refl
  | inr h ↦ rw h (omega (arith, count_if-insert test x ys))
]

count_if-sort : (test : ℤ → Bool) (xs : List ℤ) → count_if test (sort xs) ≡ count_if test xs
unfolding sort
count_if-sort test [] = refl
count_if-sort test (x ∷ xs) = omega (arith, count_if-insert test x (sort xs), count_if-sort test xs)

-- The samples below `v`, and those up to `v`.
abbrev pub below : ℤ → List ℤ → ℕ
below v = count_if (λ x. ltb_ℤ x v)

abbrev pub up_to : ℤ → List ℤ → ℕ
up_to v = count_if (λ x. leb_ℤ x v)

none_below : (v x : ℤ) (xs : List ℤ) → v ≤ℤ x → From x xs → below v (x ∷ xs) ≡ 0
none_below v x [] h s = ground arith
none_below v x (y ∷ ys) h s = ground (arith, none_below v y ys (omega (arith, s.0)) s.1)

-- In ascending order the sample at `i` has at most `i` samples below it, and more than `i` up to it.
elem_or_ranks :
    (x : ℤ) (xs : List ℤ) (i : ℕ)
    → From x xs
    → i < length (x ∷ xs)
    → let v = elem_or (x ∷ xs) i (pos 0) in (below v (x ∷ xs) ≤ i) × (i < up_to v (x ∷ xs))
unfolding elem_or
elem_or_ranks x xs zero s h = ground (arith, none_below x x xs (omega arith) s)
elem_or_ranks x [] (suc i) s h = absurd (omega arith)
elem_or_ranks x (y ∷ ys) (suc i) s h =
    ground
      (arith, elem_or_ranks y ys i s.1 (omega arith), From-elem_or x (y ∷ ys) i s (omega arith))

sorted_ranks :
    (ys : List ℤ) (i : ℕ)
    → IsSorted ys
    → i < length ys
    → let v = elem_or ys i (pos 0) in (below v ys ≤ i) × (i < up_to v ys)
sorted_ranks [] i s h = absurd (omega arith)
sorted_ranks (y ∷ ys) i s h = elem_or_ranks y ys i s h

-- The sample at `i` in ascending order, among the samples as they came.
pub elem_or-sort_ranks :
    (xs : List ℤ) (i : ℕ)
    → i < length xs
    → let v = elem_or (sort xs) i (pos 0) in (below v xs ≤ i) × (i < up_to v xs)
elem_or-sort_ranks xs i h =
    let v = elem_or (sort xs) i (pos 0) in
    let ranks = sorted_ranks (sort xs) i (sort-IsSorted xs) (omega (arith, length-sort xs, h)) in
    rw (count_if-sort (λ x. ltb_ℤ x v) xs, count_if-sort (λ x. leb_ℤ x v) xs) at ranks

-- The nearest rank: `v` stands at the rank of the percentile `p` among the samples in ascending order.
abbrev pub IsAtRank : (f : Floats) → f.Double → List ℤ → ℤ → Type 0
IsAtRank f p samples v =
    let r = min (rank f p (length samples)) (length samples) in
    (below v samples < r) × (r ≤ up_to v samples)

pct-IsAtRank :
    (f : Floats) (p : f.Double) (ys : List ℤ)
    → IsSorted ys
    → 0 < length ys
    → IsAtRank f p ys (pct f ys p)
unfolding pct
pct-IsAtRank f p [] s h = absurd (omega arith)
pct-IsAtRank f p (y ∷ ys) s h =
    let n = length (y ∷ ys) in
    let ranks = elem_or_ranks y ys (min (rank f p n) n - 1) s (omega (arith, rank_pos f p n)) in
    (omega (arith, ranks, rank_pos f p n), omega (arith, ranks, rank_pos f p n))

IsAtRank-sort :
    (f : Floats) (p : f.Double) (xs : List ℤ) → 0 < length xs → IsAtRank f p xs (pct f (sort xs) p)
IsAtRank-sort f p xs h =
    let v = pct f (sort xs) p in
    let at_rank = pct-IsAtRank f p (sort xs) (sort-IsSorted xs) (omega (arith, length-sort xs)) in
    rw (length-sort xs, count_if-sort (λ x. ltb_ℤ x v) xs, count_if-sort (λ x. leb_ℤ x v) xs) at
      at_rank

-- The statistics are those of the recorded latencies: once there are some, the count is their number,
-- every one of them lies between the minimum and the maximum, and the percentiles are those of the
-- nearest rank, that is, whatever the arithmetic makes of the rank of a percentile, capped by the
-- number of latencies, fewer latencies than that rank lie below the value reported and at least that
-- many do not lie above it.
pub latency-IsAtRank :
    (f : Floats) (x : ℤ) (xs : List ℤ)
    → let r = latency f (x ∷ xs) in
      (r.count ≡ length (x ∷ xs))
      × Within r.min_us r.max_us (x ∷ xs)
      × IsAtRank f (f.of_int (pos 50)) (x ∷ xs) r.p50_us
      × IsAtRank f (f.of_int (pos 95)) (x ∷ xs) r.p95_us
      × IsAtRank f (f.of_int (pos 99)) (x ∷ xs) r.p99_us
      × IsAtRank f f.p999 (x ∷ xs) r.p999_us
unfolding latency statistics
latency-IsAtRank f x xs =
    let n = length-sort (x ∷ xs) in
    let s = sort-IsSorted (x ∷ xs) in
    (
      n,
      sorted_ends (sort (x ∷ xs)) (x ∷ xs) s (omega (arith, n)) (Within-sort _ _ (x ∷ xs)),
      IsAtRank-sort f (f.of_int (pos 50)) (x ∷ xs) (omega arith),
      IsAtRank-sort f (f.of_int (pos 95)) (x ∷ xs) (omega arith),
      IsAtRank-sort f (f.of_int (pos 99)) (x ∷ xs) (omega arith),
      IsAtRank-sort f f.p999 (x ∷ xs) (omega arith),
    )
