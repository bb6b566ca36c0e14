-- ===== src/Transport/Latency.antt =====
-- `TelemetrySubscriber::latency` of src/dds_transport.cpp: the statistics of the recorded latencies.
-- `Floats` is the arithmetic on `double` that it does.
use resilient_dds_data_plane.Base.{
  ℕ, zero, suc, ◌-◌, min, List, [], ◌∷◌, ℤ, pos, ◌+ℤ◌, leb_ℤ, ◌==◌, if◌then◌else◌, length,
}

pub record Floats : Type 1 where
  pub Double : Type 0
  pub of_int : ℤ → Double
  pub add : Double → Double → Double
  pub sub : Double → Double → Double
  pub mul : Double → Double → Double
  pub div : Double → Double → Double
  pub sqrt : Double → Double
  -- `static_cast<std::size_t>(std::ceil(x))`.
  pub ceil : Double → ℕ
  -- The literal 99.9.
  pub p999 : Double

-- `std::sort` on `int64_t`.
unfoldable pub insert : ℤ → List ℤ → List ℤ
insert x [] = x ∷ []
insert x (y ∷ ys) = let rest = insert x ys in if leb_ℤ x y then x ∷ y ∷ ys else y ∷ rest

unfoldable pub sort : List ℤ → List ℤ
unfolding insert
sort [] = []
sort (x ∷ xs) = insert x (sort xs)

-- `samples[i]`, read inside the bounds only.
unfoldable pub elem_or : List ℤ → ℕ → ℤ → ℤ
elem_or [] i d = d
elem_or (x ∷ xs) zero d = x
elem_or (x ∷ xs) (suc i) d = elem_or xs i d

unfoldable pub sum_ℤ : ℤ → List ℤ → ℤ
sum_ℤ acc [] = acc
sum_ℤ acc (x ∷ xs) = sum_ℤ (acc +ℤ x) xs

module _ (f : Floats) where
  open f use {Double, of_int, add, sub, mul, div, sqrt, ceil, p999}

  -- The rank of the percentile `p` among `n` samples, from 1.
  unfoldable pub rank : Double → ℕ → ℕ
  rank p n =
      let r = ceil (div (mul p (of_int (pos n))) (of_int (pos 100))) in if r == 0 then 1 else r

  -- `pct`, on the sorted samples.
  unfoldable pub pct : List ℤ → Double → ℤ
  unfolding rank elem_or
  pct samples p = elem_or samples (min (rank p (length samples)) (length samples) - 1) (pos 0)

  unfoldable pub sum_squares : Double → Double → List ℤ → Double
  sum_squares mean sq [] = sq
  sum_squares mean sq (x ∷ xs) =
      let d = sub (of_int x) mean in sum_squares mean (add sq (mul d d)) xs

  pub record Latency : Type 0 where
    pub count : ℕ
    pub min_us : ℤ
    pub p50_us : ℤ
    pub p95_us : ℤ
    pub p99_us : ℤ
    pub p999_us : ℤ
    pub max_us : ℤ
    pub mean_us : Double
    pub stddev_us : Double

  -- The initial values of the fields.
  unfoldable pub no_latency : Latency
  no_latency = record {
    count = 0;
    min_us = pos 0;
    p50_us = pos 0;
    p95_us = pos 0;
    p99_us = pos 0;
    p999_us = pos 0;
    max_us = pos 0;
    mean_us = of_int (pos 0);
    stddev_us = of_int (pos 0);
  }

  -- The statistics of samples that are sorted and not empty.
  unfoldable pub statistics : List ℤ → Latency
  unfolding pct sum_squares sum_ℤ elem_or
  statistics samples =
      let n = of_int (pos (length samples)) in
      let mean = div (of_int (sum_ℤ (pos 0) samples)) n in
      record {
        count = length samples;
        min_us = elem_or samples 0 (pos 0);
        p50_us = pct samples (of_int (pos 50));
        p95_us = pct samples (of_int (pos 95));
        p99_us = pct samples (of_int (pos 99));
        p999_us = pct samples p999;
        max_us = elem_or samples (length samples - 1) (pos 0);
        mean_us = mean;
        stddev_us = sqrt (div (sum_squares mean (of_int (pos 0)) samples) n);
      }

  unfoldable pub latency : List ℤ → Latency
  unfolding no_latency
  latency [] = no_latency
  latency (x ∷ xs) = statistics (sort (x ∷ xs))
