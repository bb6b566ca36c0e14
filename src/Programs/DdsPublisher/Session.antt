-- ===== src/Programs/DdsPublisher/Session.antt =====
-- The run of apps/dds_publisher.cpp from its options to the registry that it renders.
use resilient_dds_data_plane.Base.{
  ℕ, ◌+◌, ◌%◌, ◌^◌, ◌≡◌, refl, sym, ap, ◌∙◌, some, List, ◌++◌, ℤ, Bytes, codes, arith, str_eq,
  length,
}
use resilient_dds_data_plane.Metrics.{MetricsRegistry, new_registry, gauge}
use resilient_dds_data_plane.Metrics.Ordered
use resilient_dds_data_plane.Metrics.Ordered.{find-insert_with}
use resilient_dds_data_plane.Metrics.Counters.{
  new_registry-IsValid, IsValid, counter, total, total-append, increment_all-append,
  increment_all-IsValid, gauge-IsValid, from_new,
}
use resilient_dds_data_plane.Transport.Security.{FileSystem}
use resilient_dds_data_plane.Transport.Start.{Vendor}
use resilient_dds_data_plane.Transport.StartRules.{started}
use resilient_dds_data_plane.Transport.Publisher.{Publisher, is_ok, write_stats}
use resilient_dds_data_plane.Transport.WriteRules.{
  count_rc, is_timeout, is_out_of_resources, is_other, sum_us, longest_us, all_updates,
  total-all_updates, count_rc_split,
}
use resilient_dds_data_plane.Programs.DdsPublisher.{published}
use resilient_dds_data_plane.Programs.DdsPublisher.Setup.{Settings, loop_options, begin}
use resilient_dds_data_plane.Programs.DdsPublisher.Running.{
  Happening, happen_all, final_metrics, writes_of, samples_of,
}
use resilient_dds_data_plane.Programs.DdsPublisher.Sums.{
  updates_of, happen_all_updates, Written, total-updates_of, security_of, total-started, begin_lem,
  length-samples_of, names-Written,
}

module _ {ℓ} {D : Type ℓ} {v : Vendor} (of_nat : ℕ → D) where
  final_gauges :
      (p : Publisher D v)
      → IsValid p.metrics
      → let m = final_metrics of_nat p in
        (m.counters ≡ p.metrics.counters)
        × (Ordered.find (codes "rdtf_write_blocked_total_us") m.gauges
            ≡ some (of_nat (write_stats p).0))
        × (Ordered.find (codes "rdtf_write_blocked_max_us") m.gauges
            ≡ some (of_nat (write_stats p).1))
  unfolding final_metrics gauge str_eq
  final_gauges p w =
      let low = codes "rdtf_write_blocked_total_us" in
      let high = codes "rdtf_write_blocked_max_us" in
      let total_us = of_nat (write_stats p).0 in
      let max_us = of_nat (write_stats p).1 in
      let m = gauge low total_us p.metrics in
      let valid = gauge-IsValid low total_us p.metrics w in
      (
        refl,
        find-insert_with high low (λ old. max_us) max_us m.gauges valid.1
            ∙ find-insert_with low low (λ old. total_us) total_us p.metrics.gauges w.1,
        find-insert_with high high (λ old. max_us) max_us m.gauges valid.1,
      )

  module _ (to_double : ℤ → D) (fs : FileSystem) (o : Settings) (p : Publisher D v)
      (xs : List (Happening D)) (h : begin fs o ≡ some p) where
    abbrev finished : MetricsRegistry D
    finished = final_metrics of_nat (happen_all to_double xs p)

    counter-finished :
        (k : Bytes) → Written k → counter k finished ≡ total k (all_updates (writes_of xs)) % 2 ^ 64
    unfolding counter
    counter-finished k w =
        let (e, t, l, g) = begin_lem fs o p h in
        let n = new_registry {D = D} in
        let us = started (security_of o) in
        let (x, y, z) = happen_all_updates to_double xs p e (rw t (omega arith)) in
        let valid = y (rw g (increment_all-IsValid us n (new_registry-IsValid D))) in
        let (c, a, b) = final_gauges (happen_all to_double xs p) valid in
        rw (c, x, g, sym (increment_all-append us (updates_of xs) n), sym (total-updates_of k xs w))
          (from_new D k (us ++ updates_of xs)
            ∙ omega (arith, total-append k us (updates_of xs), total-started k (security_of o) w))

-- A run of the publisher program that gets past its setting up accounts for every sample of its loop:
-- whatever the middleware makes of the writes, and whatever callbacks of the listener come in between,
-- each sample that the loop publishes is counted once in the rendered registry, modulo 2 ^ 64, as
-- published or as failed, and a failed one once by its kind; the two gauges of the end are the total,
-- modulo 2 ^ 64, and the longest of the times that the writes took.
pub publisher_accounts {ℓ} :
    {D : Type ℓ} {v : Vendor} (of_nat : ℕ → D) (to_double : ℤ → D) (temperature : ℕ → D)
    (voltage : D) (fs : FileSystem) (o : Settings) (clock : ℕ → ℕ → ℤ) (p : Publisher D v)
    (xs : List (Happening D))
    → begin fs o ≡ some p
    → samples_of (writes_of xs) ≡ published temperature voltage (loop_options o) clock
    → let m = final_metrics of_nat (happen_all to_double xs p) in
      let ws = writes_of xs in
      let failed =
        count_rc is_timeout ws + count_rc is_out_of_resources ws + count_rc is_other ws in
      (counter (codes "rdtf_samples_published_total") m ≡ count_rc is_ok ws % 2 ^ 64)
      × (counter (codes "rdtf_publish_failures_total") m ≡ failed % 2 ^ 64)
      × (counter (codes "rdtf_publish_timeout_total") m ≡ count_rc is_timeout ws % 2 ^ 64)
      × (counter (codes "rdtf_publish_out_of_resources_total") m
          ≡ count_rc is_out_of_resources ws % 2 ^ 64)
      × (counter (codes "rdtf_publish_other_error_total") m ≡ count_rc is_other ws % 2 ^ 64)
      × (count_rc is_ok ws + failed ≡ length (published temperature voltage (loop_options o) clock))
      × (Ordered.find (codes "rdtf_write_blocked_total_us") m.gauges
          ≡ some (of_nat (sum_us ws % 2 ^ 64)))
      × (Ordered.find (codes "rdtf_write_blocked_max_us") m.gauges
          ≡ some (of_nat (longest_us 0 ws)))
publisher_accounts {D} of_nat to_double temperature voltage fs o clock p xs h same =
    let ws = writes_of xs in
    let counted = counter-finished of_nat to_double fs o p xs h in
    let (a, b, c, d, e) = total-all_updates ws in
    let (whole, split) = count_rc_split ws in
    let (w1, w2, w3, w4, w5) = names-Written in
    let (end, t, l, g) = begin_lem fs o p h in
    let (x, y, z) = happen_all_updates to_double xs p end (rw t (omega arith)) in
    let valid = y (
      rw g (
        increment_all-IsValid (started (security_of o)) (new_registry {D = D})
          (new_registry-IsValid D))) in
    let plain : (0 + sum_us ws) % 2 ^ 64 ≡ sum_us ws % 2 ^ 64 = omega arith in
    let (c', low, high) = final_gauges of_nat (happen_all to_double xs p) valid in
    (
      counted (codes "rdtf_samples_published_total") w1 ∙ rw a refl,
      counted (codes "rdtf_publish_failures_total") w2 ∙ rw (b, split) refl,
      counted (codes "rdtf_publish_timeout_total") w3 ∙ rw c refl,
      counted (codes "rdtf_publish_out_of_resources_total") w4 ∙ rw d refl,
      counted (codes "rdtf_publish_other_error_total") w5 ∙ rw e refl,
      rw (sym same) (omega (arith, whole, split, length-samples_of ws)),
      low ∙ rw (z, t) (ap (λ n. some (of_nat n)) plain),
      high ∙ rw (z, l) refl,
    )
