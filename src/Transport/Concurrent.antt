-- ===== src/Transport/Concurrent.antt =====
-- Calls of `publish` of src/dds_transport.cpp that overlap. Each call is a process that goes, one
-- access to shared memory at a time, through what follows its `write`: the addition to
-- `total_blocked_us`, the load of `max_blocked_us`, the compare-exchange loop, the counters. The
-- listener's callbacks touch neither. That calls of one thread follow one another only rules
-- interleavings out.
pub mod Account
pub mod Termination
use resilient_dds_data_plane.Base.{ℕ, ◌+◌, ◌%◌, ◌^◌, ◌≤◌, ◌<◌, ◌≡◌, ◌≢◌, List, [], ◌∷◌, Bytes}
use resilient_dds_data_plane.Metrics.{MetricsRegistry, increment}
use resilient_dds_data_plane.Metrics.Counters.{Update}
use resilient_dds_data_plane.Transport.Publisher.{ReturnCode}
use resilient_dds_data_plane.Transport.WriteRules.{updates}

-- What the calls share.
pub record Shared {ℓ} (D : Type ℓ) : Type ℓ where
  pub total_blocked_us : ℕ
  pub max_blocked_us : ℕ
  pub metrics : MetricsRegistry D

-- Where a call stands, with the local variables that are live there.
pub data Pc : Type 0 where
  adding : (rc : ReturnCode) (blocked_us : ℕ) → Pc  -- before the `fetch_add`
  loading : (rc : ReturnCode) (blocked_us : ℕ) → Pc  -- before the `load`
  testing : (rc : ReturnCode) (blocked_us prev : ℕ) → Pc  -- at the head of the loop
  counting : List Update → Pc  -- the increments to come; none is the end

module _ {ℓ} {D : Type ℓ} where
  -- One step of one call. `compare_exchange_weak` may fail although the stored value is `prev`.
  pub data Move (m : Shared D) : Pc → Shared D → Pc → Type ℓ where
    add :
        {rc : ReturnCode} {us : ℕ}
        → Move m
            (adding rc us)
            (record m { total_blocked_us = (m.total_blocked_us + us) % 2 ^ 64 })
            (loading rc us)
    load : {rc : ReturnCode} {us : ℕ} → Move m (loading rc us) m (testing rc us m.max_blocked_us)
    leave :
        {rc : ReturnCode} {us prev : ℕ}
        → us ≤ prev
        → Move m (testing rc us prev) m (counting (updates rc))
    exchange :
        {rc : ReturnCode} {us prev : ℕ}
        → prev < us
        → m.max_blocked_us ≡ prev
        → Move m (testing rc us prev) (record m { max_blocked_us = us }) (counting (updates rc))
    lose :
        {rc : ReturnCode} {us prev : ℕ}
        → prev < us
        → m.max_blocked_us ≢ prev
        → Move m (testing rc us prev) m (testing rc us m.max_blocked_us)
    fail_spuriously :
        {rc : ReturnCode} {us prev : ℕ}
        → prev < us
        → m.max_blocked_us ≡ prev
        → Move m (testing rc us prev) m (testing rc us m.max_blocked_us)
    count :
        {name : Bytes} {value : ℕ} {more : List Update}
        → Move m
            (counting ((name, value) ∷ more))
            (record m { metrics = increment name value m.metrics })
            (counting more)

  -- One of the calls moves.
  pub data Step (m : Shared D) : List Pc → Shared D → List Pc → Type ℓ where
    here :
        {p p' : Pc} {m' : Shared D} {ps : List Pc} → Move m p m' p' → Step m (p ∷ ps) m' (p' ∷ ps)
    there :
        {p : Pc} {m' : Shared D} {ps ps' : List Pc}
        → Step m ps m' ps'
        → Step m (p ∷ ps) m' (p ∷ ps')

  -- Any number of steps.
  pub data Run (m : Shared D) (ps : List Pc) : Shared D → List Pc → Type ℓ where
    start : Run m ps m ps
    later :
        {m' m'' : Shared D} {qs rs : List Pc} → Run m ps m' qs → Step m' qs m'' rs → Run m ps m'' rs

-- Has the call returned?
abbrev pub IsDone : Pc → Type 0
IsDone (counting []) = Unit
IsDone _ = ⊥
