-- ===== src/Programs/DdsPublisher/Sums.antt =====
-- The counters of apps/dds_publisher.cpp under its writes and callbacks.
use resilient_dds_data_plane.Base.{
  ◌+◌, ◌%◌, ◌^◌, ◌<◌, ◌≡◌, ◌≢◌, refl, sym, ap, ◌∙◌, true, false, inl, inr, Option, none, some, List,
  [], ◌∷◌, ◌++◌, ℤ, Bytes, codes, arith, if◌then◌else◌, str_eq, length, Bool-cases,
}
use resilient_dds_data_plane.Metrics.{new_registry, gauge}
use resilient_dds_data_plane.Metrics.Counters.{
  counters-increment_all, increment-IsValid, Update, IsValid, total, total-append, increment_all,
  increment_all-append, increment_all-IsValid, gauge-IsValid,
}
use resilient_dds_data_plane.Transport.Security.{
  udp_only, defaults, DdsSecurityConfig, FileSystem, security_from_directory,
}
use resilient_dds_data_plane.Transport.Start.{Vendor, is_enabled}
use resilient_dds_data_plane.Transport.StartRules
use resilient_dds_data_plane.Transport.StartRules.{started}
use resilient_dds_data_plane.Transport.Publisher.{
  Publisher, new_publisher, start, publish, on_publication_matched, on_offered_deadline_missed,
  on_offered_incompatible_qos, write_stats,
}
use resilient_dds_data_plane.Transport.WriteRules
use resilient_dds_data_plane.Transport.WriteRules.{
  Write, count_rc, is_timeout, is_out_of_resources, is_other, sum_us, longest_us, publish_lem,
  all_updates, total-all_updates, count_rc_split,
}
use resilient_dds_data_plane.Programs.DdsPublisher.Setup.{Settings, chosen_profile, begin}
use resilient_dds_data_plane.Programs.DdsPublisher.Running.{
  Happening, wrote, matched_changed, deadline_missed, incompatible_qos, happen, happen_all,
  writes_of, samples_of,
}

module _ {ℓ} {D : Type ℓ} where
  abbrev pub updates_of : List (Happening D) → List Update
  updates_of [] = []
  updates_of (wrote (s, w) ∷ xs) = WriteRules.updates w.rc ++ updates_of xs
  updates_of (matched_changed count ∷ xs) = updates_of xs
  updates_of (deadline_missed ∷ xs) =
      (codes "rdtf_offered_deadline_missed_total", 1) ∷ updates_of xs
  updates_of (incompatible_qos ∷ xs) =
      (codes "rdtf_offered_incompatible_qos_total", 1) ∷ updates_of xs

  module _ {v : Vendor} (to_double : ℤ → D) where
    pub happen_all_updates :
        (xs : List (Happening D)) (p : Publisher D v)
        → p.entities.endpoint ≢ none
        → p.total_blocked_us < 2 ^ 64
        → let q = happen_all to_double xs p in
          let ws = writes_of xs in
          (q.metrics.counters ≡ (increment_all (updates_of xs) p.metrics).counters)
          × (IsValid p.metrics → IsValid q.metrics)
          × (write_stats q
              ≡ ((p.total_blocked_us + sum_us ws) % 2 ^ 64, longest_us p.max_blocked_us ws))
    unfolding happen_all happen increment_all write_stats on_publication_matched
        on_offered_deadline_missed on_offered_incompatible_qos
    happen_all_updates [] p e t = ground arith
    happen_all_updates (wrote (s, w) ∷ xs) p e t =
        let q = (publish s w p).0 in
        let us = WriteRules.updates w.rc in
        let (a, m, b, c) = publish_lem s w p e in
        let (x, y, z) = happen_all_updates xs q (rw a e) (rw b (omega arith)) in
        (
          x
              ∙ counters-increment_all (updates_of xs) q.metrics (increment_all us p.metrics)
                  (ap (λ r. r.counters) m)
              ∙ sym (ap (λ r. r.counters) (increment_all-append us (updates_of xs) p.metrics)),
          λ v. y (rw m (increment_all-IsValid us p.metrics v)),
          z ∙ rw (b, c) (ground arith),
        )
    happen_all_updates (matched_changed count ∷ xs) p e t =
        let q = on_publication_matched to_double count p in
        let (x, y, z) = happen_all_updates xs q e t in
        (
          x ∙ counters-increment_all (updates_of xs) q.metrics p.metrics (unfold gauge in refl),
          λ v. y (gauge-IsValid (codes "rdtf_publication_matched") (to_double count) p.metrics v),
          z,
        )
    happen_all_updates (deadline_missed ∷ xs) p e t =
        let (x, y, z) = happen_all_updates xs (on_offered_deadline_missed p) e t in
        (
          x,
          λ v. y (increment-IsValid (codes "rdtf_offered_deadline_missed_total") 1 p.metrics v),
          z,
        )
    happen_all_updates (incompatible_qos ∷ xs) p e t =
        let (x, y, z) = happen_all_updates xs (on_offered_incompatible_qos p) e t in
        (
          x,
          λ v. y (increment-IsValid (codes "rdtf_offered_incompatible_qos_total") 1 p.metrics v),
          z,
        )

-- A name that the writes alone count under.
abbrev pub Written : Bytes → Type 0
Written k =
    (str_eq (codes "rdtf_offered_deadline_missed_total") k ≡ false)
    × (str_eq (codes "rdtf_offered_incompatible_qos_total") k ≡ false)
    × (str_eq (codes "rdtf_adapter_initializations_total") k ≡ false)
    × (str_eq (codes "rdtf_secure_participant_initializations_total") k ≡ false)

pub total-updates_of {ℓ} :
    {D : Type ℓ} (k : Bytes) (xs : List (Happening D))
    → Written k
    → total k (updates_of xs) ≡ total k (all_updates (writes_of xs))
unfolding all_updates
total-updates_of k [] w = refl
total-updates_of k (wrote (s, o) ∷ xs) w = omega (
  arith,
  total-append k (WriteRules.updates o.rc) (updates_of xs),
  total-append k (WriteRules.updates o.rc) (all_updates (writes_of xs)),
  total-updates_of k xs w,
)
total-updates_of k (matched_changed count ∷ xs) w = total-updates_of k xs w
total-updates_of k (deadline_missed ∷ xs) w = rw w.0 (omega (arith, total-updates_of k xs w))
total-updates_of k (incompatible_qos ∷ xs) w = rw w.1 (omega (arith, total-updates_of k xs w))

abbrev pub security_of : Settings → Option DdsSecurityConfig
security_of o =
    let security = security_from_directory o.security_dir o.security_role true in
    if security.enabled then some security else none

pub total-started : (k : Bytes) (o : Option DdsSecurityConfig) → Written k → total k (started o) ≡ 0
total-started k o w = elim (Bool-cases (is_enabled o)) [
  | inl h ↦ rw (h, w.2, w.3) refl
  | inr h ↦ rw (h, w.2) refl
]

module _ {ℓ} {D : Type ℓ} {v : Vendor} (fs : FileSystem) (o : Settings) where
  pub begin_lem :
      (p : Publisher D v)
      → begin fs o ≡ some p
      → (p.entities.endpoint ≢ none)
        × (p.total_blocked_us ≡ 0)
        × (p.max_blocked_us ≡ 0)
        × (p.metrics ≡ increment_all (started (security_of o)) (new_registry {D = D}))
  unfolding begin start new_publisher
  begin_lem p h =
      let mode = if o.allow_shm then defaults else udp_only in
      let m =
        StartRules.start_counts v fs o.domain o.topic (chosen_profile o) mode (security_of o)
          (new_registry {D = D}) in
      let e =
        StartRules.start_endpoint v fs o.domain o.topic (chosen_profile o) mode (security_of o)
          (new_registry {D = D}) in
      ground (arith, m, e)

pub length-samples_of {ℓ} : {D : Type ℓ} (ws : List (Write D)) → length (samples_of ws) ≡ length ws
length-samples_of [] = refl
length-samples_of (w ∷ ws) = omega (arith, length-samples_of ws)

pub names-Written :
    Written (codes "rdtf_samples_published_total")
    × Written (codes "rdtf_publish_failures_total")
    × Written (codes "rdtf_publish_timeout_total")
    × Written (codes "rdtf_publish_out_of_resources_total")
    × Written (codes "rdtf_publish_other_error_total")
unfolding str_eq
names-Written = (
  (refl, refl, refl, refl),
  (refl, refl, refl, refl),
  (refl, refl, refl, refl),
  (refl, refl, refl, refl),
  (refl, refl, refl, refl),
)
