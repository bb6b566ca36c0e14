-- ===== src/Transport/Limits.antt =====
-- The resource limits that `apply_profile` of src/dds_transport.cpp sets, and its durations.
use native.Mathlib.Nat.{div-mul-le_self, lt-div-mul-add, div-eq_of_lt}
use native.Mathlib.Decide.{dec_lt}
use resilient_dds_data_plane.Base.{
  ℕ, ◌+◌, ◌*◌, ◌/◌, ◌^◌, ◌≤◌, ◌<◌, ◌≡◌, ◌↔◌, ◌⊎◌, ℤ, pos, ◌*ℤ◌, ◌+ℤ◌, ◌≤ℤ◌, pos_part, arith, ltb,
  if◌then◌else◌,
}
use resilient_dds_data_plane.Qos.{QosProfile}
use resilient_dds_data_plane.Transport.Profile.{
  Duration, EndpointQos, to_int32, ms_to_duration, limit_instances, limit_samples, apply_profile,
}

-- A duration in nanoseconds.
unfoldable pub duration_ns : Duration → ℤ
duration_ns d = d.seconds *ℤ 1_000_000_000 +ℤ pos d.nanosec

-- The rule that src/dds_transport.cpp states of Fast DDS: an endpoint is refused unless
-- max_samples >= max_instances * max_samples_per_instance.
abbrev pub FitsLimits : EndpointQos → Type 0
FitsLimits q = q.max_samples_per_instance *ℤ pos_part q.max_instances ≤ℤ q.max_samples

-- A conversion loses nothing: for every `std::uint32_t` of milliseconds the duration is exactly
-- that long, and its parts are in range.
pub duration_ns-ms_to_duration :
    (ms : ℕ)
    → ms < 2 ^ 32
    → (duration_ns (ms_to_duration ms) ≡ pos (ms * 1_000_000))
      × ((ms_to_duration ms).nanosec < 1_000_000_000)
      × (pos 0 ≤ℤ (ms_to_duration ms).seconds)
unfolding duration_ns ms_to_duration to_int32 ◌*ℤ◌ ◌+ℤ◌
duration_ns-ms_to_duration ms h = ground arith

-- The three limits are in place as `apply_profile` leaves them.
limits_lem :
    (q : EndpointQos) (p : QosProfile)
    → let r = apply_profile q p in
      let s = limit_samples p (limit_instances p q) in
      (r.max_samples ≡ s.max_samples)
      × (r.max_instances ≡ s.max_instances)
      × (r.max_samples_per_instance ≡ s.max_samples_per_instance)
unfolding apply_profile
limits_lem q p = ground arith

-- The share of `s` samples that each of `n` instances is given.
abbrev share : ℕ → ℕ → ℕ
share s n = if ltb 0 (s / n) then s / n else 1

share-mul-le : (s n : ℕ) → 0 < n → (share s n * n ≤ s) ↔ (n ≤ s)
share-mul-le s n h = elim (dec_lt s n) [
  | yes lt ↦ rw (div-eq_of_lt lt) (ground arith)
  | no ge ↦ ground (arith, div-mul-le_self s n, lt-div-mul-add {a = s} h)
]

module _ (q : EndpointQos) (p : QosProfile) (i : p.max_instances < 2 ^ 31)
    (d : p.history_depth < 2 ^ 31) (m : p.max_samples < 2 ^ 31) where
  limits_none :
      p.max_samples ≡ 0 → 0 < p.max_instances → FitsLimits (limit_samples p (limit_instances p q))
  unfolding limit_samples limit_instances ◌*ℤ◌
  limits_none z k = ground arith

  limits_one :
      0 < p.max_samples → p.max_instances ≡ 0 → FitsLimits (limit_samples p (limit_instances p q))
  unfolding limit_samples limit_instances ◌*ℤ◌
  limits_one z k = ground arith

  fields_many :
      0 < p.max_samples
      → 0 < p.max_instances
      → let r = limit_samples p (limit_instances p q) in
        (r.max_samples ≡ pos p.max_samples)
        × (r.max_instances ≡ pos p.max_instances)
        × (r.max_samples_per_instance ≡ pos (share p.max_samples p.max_instances))
  unfolding limit_samples limit_instances
  fields_many z k = ground arith

  limits_many :
      0 < p.max_samples
      → 0 < p.max_instances
      → FitsLimits (limit_samples p (limit_instances p q)) ↔ (p.max_instances ≤ p.max_samples)
  unfolding ◌*ℤ◌
  limits_many z k =
      let (s, n, per) = fields_many z k in
      rw (s, n, per) (ground (arith, share-mul-le p.max_samples p.max_instances k))

-- Once a profile names a number of instances or of samples, the limits that it is given meet the
-- rule of Fast DDS exactly when it has no ceiling on samples or a ceiling of at least one sample
-- for each instance. All three numbers of the profile fit an `int32_t`, and products are exact, as in
-- the code while they fit one.
pub limits_consistent :
    (q : EndpointQos) (p : QosProfile)
    → p.max_instances < 2 ^ 31
    → p.history_depth < 2 ^ 31
    → p.max_samples < 2 ^ 31
    → 0 < p.max_instances + p.max_samples
    → FitsLimits (apply_profile q p) ↔ ((p.max_samples ≡ 0) ⊎ (p.max_instances ≤ p.max_samples))
limits_consistent q p i d m h =
    let (a, b, c) = limits_lem q p in
    rw (a, b, c)
      (ground (arith, limits_none q p i d m, limits_one q p i d m, limits_many q p i d m))
