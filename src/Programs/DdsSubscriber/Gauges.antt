-- ===== src/Programs/DdsSubscriber/Gauges.antt =====
-- What the gauges of the latencies show, which apps/dds_subscriber.cpp sets at its end.
use resilient_dds_data_plane.Base.{
  ◌<◌, ◌≤◌, ◌-◌, ◌≡◌, true, arith, length, All, some, List, [], ◌∷◌, ℤ, pos, Bytes, codes, ltb,
  if◌then◌else◌,
}
use resilient_dds_data_plane.Metrics.{MetricsRegistry}
use resilient_dds_data_plane.Metrics.Ordered
use resilient_dds_data_plane.Metrics.Ordered.{SortedMap, value_or, find-insert_with}
use resilient_dds_data_plane.Transport.Latency.{Floats, no_latency, statistics, latency, sort}
use resilient_dds_data_plane.Transport.Percentiles.{length-sort}
use resilient_dds_data_plane.Transport.Ranks.{
  below, up_to, IsAtRank, elem_or-sort_ranks, latency-IsAtRank,
}

-- The ends of the samples, by counts.
latency_ends :
    (f : Floats) (x : ℤ) (xs : List ℤ)
    → let samples = x ∷ xs in
      let r = latency f samples in
      ((below r.min_us samples ≡ 0) × (0 < up_to r.min_us samples))
      × ((below r.max_us samples < length samples) × (length samples ≤ up_to r.max_us samples))
unfolding latency statistics
latency_ends f x xs =
    let n = length-sort (x ∷ xs) in
    let low = elem_or-sort_ranks (x ∷ xs) 0 (omega arith) in
    let high = elem_or-sort_ranks (x ∷ xs) (length (sort (x ∷ xs)) - 1) (omega (arith, n)) in
    ((omega (arith, low), omega (arith, low)), (omega (arith, n, high), omega (arith, n, high)))

-- The gauge `k` shows a value of the samples: the least one, the greatest one, or the one at the rank
-- of the percentile `p`.
module _ (f : Floats) (m : MetricsRegistry f.Double) (samples : List ℤ) (k : Bytes) where
  abbrev pub ShowsLeast : Type 0
  ShowsLeast =
      (v : ℤ) × (Ordered.find k m.gauges ≡ some (f.of_int v))
      × (below v samples ≡ 0)
      × (0 < up_to v samples)

  abbrev pub ShowsGreatest : Type 0
  ShowsGreatest =
      (v : ℤ) × (Ordered.find k m.gauges ≡ some (f.of_int v))
      × (below v samples < length samples)
      × (length samples ≤ up_to v samples)

  abbrev pub ShowsRank : f.Double → Type 0
  ShowsRank p = (v : ℤ) × (Ordered.find k m.gauges ≡ some (f.of_int v)) × IsAtRank f p samples v

-- What the gauges of the latencies show in `m`, which were those of `old`, for the samples.
abbrev pub ShowsLatencies :
    (f : Floats) → MetricsRegistry f.Double → MetricsRegistry f.Double → List ℤ → Type 0
ShowsLatencies f old m [] =
    All (λ k. Ordered.find k m.gauges ≡ Ordered.find k old.gauges)
      (codes "rdtf_e2e_latency_min_us"
        ∷ codes "rdtf_e2e_latency_mean_us"
        ∷ codes "rdtf_e2e_latency_p50_us"
        ∷ codes "rdtf_e2e_latency_p95_us"
        ∷ codes "rdtf_e2e_latency_p99_us"
        ∷ codes "rdtf_e2e_latency_p999_us"
        ∷ codes "rdtf_e2e_latency_stddev_us"
        ∷ codes "rdtf_e2e_latency_max_us"
        ∷ [])
ShowsLatencies f old m (x ∷ xs) =
    let samples = x ∷ xs in
    let lat = latency f samples in
    ShowsLeast f m samples (codes "rdtf_e2e_latency_min_us")
    × (Ordered.find (codes "rdtf_e2e_latency_mean_us") m.gauges ≡ some lat.mean_us)
    × ShowsRank f m samples (codes "rdtf_e2e_latency_p50_us") (f.of_int (pos 50))
    × ShowsRank f m samples (codes "rdtf_e2e_latency_p95_us") (f.of_int (pos 95))
    × ShowsRank f m samples (codes "rdtf_e2e_latency_p99_us") (f.of_int (pos 99))
    × ShowsRank f m samples (codes "rdtf_e2e_latency_p999_us") f.p999
    × (Ordered.find (codes "rdtf_e2e_latency_stddev_us") m.gauges ≡ some lat.stddev_us)
    × ShowsGreatest f m samples (codes "rdtf_e2e_latency_max_us")

pub shows_latencies :
    (f : Floats) (old m : MetricsRegistry f.Double) (samples : List ℤ)
    → let lat = latency f samples in
      let shows = λ (k : Bytes) (x : f.Double).
        Ordered.find k m.gauges ≡ (if ltb 0 lat.count then some x else Ordered.find k old.gauges) in
      shows (codes "rdtf_e2e_latency_min_us") (f.of_int lat.min_us)
        × shows (codes "rdtf_e2e_latency_mean_us") lat.mean_us
        × shows (codes "rdtf_e2e_latency_p50_us") (f.of_int lat.p50_us)
        × shows (codes "rdtf_e2e_latency_p95_us") (f.of_int lat.p95_us)
        × shows (codes "rdtf_e2e_latency_p99_us") (f.of_int lat.p99_us)
        × shows (codes "rdtf_e2e_latency_p999_us") (f.of_int lat.p999_us)
        × shows (codes "rdtf_e2e_latency_stddev_us") lat.stddev_us
        × shows (codes "rdtf_e2e_latency_max_us") (f.of_int lat.max_us)
      → ShowsLatencies f old m samples
unfolding latency no_latency
shows_latencies f old m [] (a, b, c, d, e, g, h, i) = (a, (b, (c, (d, (e, (g, (h, (i, tt))))))))
shows_latencies f old m (x ∷ xs) shown =
    let some_count : ltb 0 (latency f (x ∷ xs)).count ≡ true =
      ground (arith, (latency-IsAtRank f x xs).0) in
    let (a, b, c, d, e, g, h, i) = rw some_count at shown in
    let (n, w, p50, p95, p99, p999) = latency-IsAtRank f x xs in
    let (least, greatest) = latency_ends f x xs in
    (
      (_, a, least.0, least.1),
      b,
      (_, c, p50),
      (_, d, p95),
      (_, e, p99),
      (_, g, p999),
      h,
      (_, i, greatest.0, greatest.1),
    )
