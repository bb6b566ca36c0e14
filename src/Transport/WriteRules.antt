-- ===== src/Transport/WriteRules.antt =====
-- What a row of writes through `publish` of src/dds_transport.cpp leaves in the statistics.
use resilient_dds_data_plane.Base.{
  ℕ, zero, suc, ◌+◌, ◌%◌, ◌^◌, ◌<◌, max, ◌≡◌, ◌≢◌, Bool, true, false, not, none, List, [], ◌∷◌,
  ◌++◌, Bytes, codes, arith, if◌then◌else◌, str_eq, length,
}
use resilient_dds_data_plane.Telemetry.{TelemetrySample}
use resilient_dds_data_plane.Metrics.{new_registry}
use resilient_dds_data_plane.Metrics.Counters.{
  Update, increment_all, counter, total, from_new, increment_all-append,
}
use resilient_dds_data_plane.Transport.Start.{Vendor}
use resilient_dds_data_plane.Transport.Publisher.{
  ReturnCode, retcode_ok, retcode_timeout, retcode_out_of_resources, retcode_other, WriteOutcome,
  Publisher, is_ok, raise_max, failure_counter, publish, write_stats,
}

-- A sample, and what Fast DDS made of the write.
abbrev pub Write {ℓ} : Type ℓ → Type ℓ
Write D = TelemetrySample D × WriteOutcome

unfoldable pub publish_all {ℓ} :
    {D : Type ℓ} {v : Vendor} → List (Write D) → Publisher D v → Publisher D v
publish_all [] p = p
publish_all ((s, w) ∷ ws) p = publish_all ws (publish s w p).0

-- How many of the writes had an outcome.
abbrev pub count_rc {ℓ} : {D : Type ℓ} → (ReturnCode → Bool) → List (Write D) → ℕ
count_rc test [] = 0
count_rc test ((s, w) ∷ ws) = (if test w.rc then 1 else 0) + count_rc test ws

abbrev pub is_timeout : ReturnCode → Bool
is_timeout retcode_timeout = true
is_timeout _ = false

abbrev pub is_out_of_resources : ReturnCode → Bool
is_out_of_resources retcode_out_of_resources = true
is_out_of_resources _ = false

abbrev pub is_other : ReturnCode → Bool
is_other retcode_other = true
is_other _ = false

raise_max_lem : (n blocked stored : ℕ) → raise_max n blocked stored stored ≡ max stored blocked
unfolding raise_max
raise_max_lem zero blocked stored = ground arith
raise_max_lem (suc n) blocked stored = ground (arith, raise_max_lem n blocked stored)

-- The counters that a write increments.
unfoldable pub updates : ReturnCode → List Update
updates retcode_ok = (codes "rdtf_samples_published_total", 1) ∷ []
updates rc = (codes "rdtf_publish_failures_total", 1) ∷ (failure_counter rc, 1) ∷ []

unfoldable pub all_updates {ℓ} : {D : Type ℓ} → List (Write D) → List Update
unfolding updates
all_updates [] = []
all_updates ((s, w) ∷ ws) = updates w.rc ++ all_updates ws

abbrev pub sum_us {ℓ} : {D : Type ℓ} → List (Write D) → ℕ
sum_us [] = 0
sum_us ((s, w) ∷ ws) = w.blocked_us + sum_us ws

abbrev pub longest_us {ℓ} : {D : Type ℓ} → ℕ → List (Write D) → ℕ
longest_us n [] = n
longest_us n ((s, w) ∷ ws) = longest_us (max n w.blocked_us) ws

module _ {ℓ} {D : Type ℓ} {v : Vendor} where
  pub publish_lem :
      (s : TelemetrySample D) (w : WriteOutcome) (p : Publisher D v)
      → p.entities.endpoint ≢ none
      → let q = (publish s w p).0 in
        (q.entities ≡ p.entities)
        × (q.metrics ≡ increment_all (updates w.rc) p.metrics)
        × (q.total_blocked_us ≡ (p.total_blocked_us + w.blocked_us) % 2 ^ 64)
        × (q.max_blocked_us ≡ max p.max_blocked_us w.blocked_us)
  unfolding publish updates increment_all
  publish_lem s w p h = ground (arith, raise_max_lem w.spurious w.blocked_us p.max_blocked_us)

  pub publish_all_lem :
      (ws : List (Write D)) (p : Publisher D v)
      → p.entities.endpoint ≢ none
      → p.total_blocked_us < 2 ^ 64
      → let q = publish_all ws p in
        (q.metrics ≡ increment_all (all_updates ws) p.metrics)
        × (write_stats q
            ≡ ((p.total_blocked_us + sum_us ws) % 2 ^ 64, longest_us p.max_blocked_us ws))
  unfolding publish_all all_updates increment_all write_stats
  publish_all_lem [] p h t = ground arith
  publish_all_lem ((s, w) ∷ ws) p h t = ground (
    arith,
    publish_lem s w p h,
    publish_all_lem ws (publish s w p).0,
    increment_all-append (updates w.rc) (all_updates ws) p.metrics,
  )

module _ {ℓ} {D : Type ℓ} where
  pub total-all_updates :
      (ws : List (Write D))
      → (total (codes "rdtf_samples_published_total") (all_updates ws) ≡ count_rc is_ok ws)
        × (total (codes "rdtf_publish_failures_total") (all_updates ws)
            ≡ count_rc (λ rc. not (is_ok rc)) ws)
        × (total (codes "rdtf_publish_timeout_total") (all_updates ws) ≡ count_rc is_timeout ws)
        × (total (codes "rdtf_publish_out_of_resources_total") (all_updates ws)
            ≡ count_rc is_out_of_resources ws)
        × (total (codes "rdtf_publish_other_error_total") (all_updates ws) ≡ count_rc is_other ws)
  unfolding all_updates updates str_eq failure_counter
  total-all_updates [] = omega arith
  total-all_updates ((s, w) ∷ ws) = ground (arith, total-all_updates ws)

  pub count_rc_split :
      (ws : List (Write D))
      → (count_rc is_ok ws + count_rc (λ rc. not (is_ok rc)) ws ≡ length ws)
        × (count_rc (λ rc. not (is_ok rc)) ws
            ≡ count_rc is_timeout ws + count_rc is_out_of_resources ws + count_rc is_other ws)
  count_rc_split [] = omega arith
  count_rc_split ((s, w) ∷ ws) = ground (arith, count_rc_split ws)

-- Of a publisher that has been started, with nothing counted yet, every attempted write is accounted
-- for exactly once, as published or as failed, and every failed
-- one exactly once by its kind, so that a full history (timeout) and a failed allocation (out of
-- resources) are never mixed up; the statistics hold the sum and the maximum of the times spent.
-- Counters and the sum wrap at 2 ^ 64.
pub publish_all_accounts {ℓ} :
    {D : Type ℓ} {v : Vendor} (ws : List (Write D)) (p : Publisher D v)
    → p.entities.endpoint ≢ none
    → p.total_blocked_us < 2 ^ 64
    → p.metrics ≡ new_registry
    → let q = publish_all ws p in
      (counter (codes "rdtf_samples_published_total") q.metrics ≡ count_rc is_ok ws % 2 ^ 64)
      × (counter (codes "rdtf_publish_failures_total") q.metrics
          ≡ (count_rc is_timeout ws + count_rc is_out_of_resources ws + count_rc is_other ws)
            % 2 ^ 64)
      × (counter (codes "rdtf_publish_timeout_total") q.metrics ≡ count_rc is_timeout ws % 2 ^ 64)
      × (counter (codes "rdtf_publish_out_of_resources_total") q.metrics
          ≡ count_rc is_out_of_resources ws % 2 ^ 64)
      × (counter (codes "rdtf_publish_other_error_total") q.metrics ≡ count_rc is_other ws % 2 ^ 64)
      × (count_rc is_ok ws
            + (count_rc is_timeout ws + count_rc is_out_of_resources ws + count_rc is_other ws)
          ≡ length ws)
      × (write_stats q
          ≡ ((p.total_blocked_us + sum_us ws) % 2 ^ 64, longest_us p.max_blocked_us ws))
publish_all_accounts {D} ws p h t e =
    let (a, b) = publish_all_lem ws p h t in
    let z : (k : Bytes) → counter k (publish_all ws p).metrics ≡ total k (all_updates ws) % 2 ^ 64 =
      λ k. rw (a, e) (from_new D k (all_updates ws)) in
    ground (
      arith,
      b,
      z (codes "rdtf_samples_published_total"),
      z (codes "rdtf_publish_failures_total"),
      z (codes "rdtf_publish_timeout_total"),
      z (codes "rdtf_publish_out_of_resources_total"),
      z (codes "rdtf_publish_other_error_total"),
      total-all_updates ws,
      count_rc_split ws,
    )
