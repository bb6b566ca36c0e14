-- ===== src/Transport/Concurrent/Account.antt =====
-- What overlapping calls leave in the statistics and the counters.
use resilient_dds_data_plane.Base.{
  ℕ, ◌+◌, ◌%◌, ◌^◌, ◌≤◌, ◌<◌, max, ◌≡◌, ◌≢◌, refl, List, [], ◌∷◌, Bytes, arith, All, none, ◌∙◌,
}
use resilient_dds_data_plane.Metrics.Counters.{
  counter, total, IsValid, counter-increment, increment-IsValid, counter-increment_all,
  total-append,
}
use resilient_dds_data_plane.Transport.Start.{Vendor}
use resilient_dds_data_plane.Transport.Publisher.{Publisher, write_stats}
use resilient_dds_data_plane.Transport.WriteRules.{
  Write, updates, all_updates, publish_all, sum_us, longest_us, publish_all_lem,
}
use resilient_dds_data_plane.Transport.Concurrent.{
  Shared, Pc, adding, loading, testing, counting, Move, add, load, leave, exchange, lose,
  fail_spuriously, count, Step, here, there, Run, start, later, IsDone,
}

-- The time that is still to be added, the greatest that may still be stored, and what is still to
-- be added to a counter.
abbrev us_left : Pc → ℕ
us_left (adding rc us) = us
us_left _ = 0

abbrev peak_left : Pc → ℕ
peak_left (adding rc us) = us
peak_left (loading rc us) = us
peak_left (testing rc us prev) = us
peak_left (counting more) = 0

abbrev count_left : Bytes → Pc → ℕ
count_left k (adding rc us) = total k (updates rc)
count_left k (loading rc us) = total k (updates rc)
count_left k (testing rc us prev) = total k (updates rc)
count_left k (counting more) = total k more

-- A value that was loaded is at most the stored one.
abbrev IsFresh {ℓ} : {D : Type ℓ} → Shared D → Pc → Type 0
IsFresh m (testing rc us prev) = prev ≤ m.max_blocked_us
IsFresh m _ = Unit

-- The sum and a counter fit their 64 bits.
abbrev InWords {ℓ} : {D : Type ℓ} → Shared D → Bytes → Type 0
InWords m k = (m.total_blocked_us < 2 ^ 64) × (counter k m.metrics < 2 ^ 64)

abbrev sum_left : (Pc → ℕ) → List Pc → ℕ
sum_left w [] = 0
sum_left w (p ∷ ps) = w p + sum_left w ps

abbrev max_left : List Pc → ℕ
max_left [] = 0
max_left (p ∷ ps) = max (peak_left p) (max_left ps)

module _ {ℓ} {D : Type ℓ} {m : Shared D} where
  Move-keeps :
      {p p' : Pc} {m' : Shared D}
      → Move m p m' p'
      → (k : Bytes) → IsFresh m p
      → IsValid m.metrics
      → InWords m k
      → IsFresh m' p'
        × IsValid m'.metrics
        × InWords m' k
        × (m.max_blocked_us ≤ m'.max_blocked_us)
        × ((m'.total_blocked_us + us_left p') % 2 ^ 64 ≡ (m.total_blocked_us + us_left p) % 2 ^ 64)
        × (max m'.max_blocked_us (peak_left p') ≡ max m.max_blocked_us (peak_left p))
        × ((counter k m'.metrics + count_left k p') % 2 ^ 64
            ≡ (counter k m.metrics + count_left k p) % 2 ^ 64)
  Move-keeps add k f v b = ground (arith, v)
  Move-keeps load k f v b = ground (arith, v)
  Move-keeps (leave h) k f v b = ground (arith, v)
  Move-keeps (exchange h e) k f v b = ground (arith, v)
  Move-keeps (lose h e) k f v b = ground (arith, v)
  Move-keeps (fail_spuriously h e) k f v b = ground (arith, v)
  Move-keeps (count {name} {value} {more}) k f v b =
      ground
        (arith, v, increment-IsValid name value m.metrics, counter-increment k name value m.metrics)

rises {ℓ} :
    {D : Type ℓ} (m m' : Shared D) (ps : List Pc)
    → m.max_blocked_us ≤ m'.max_blocked_us
    → All (IsFresh m) ps
    → All (IsFresh m') ps
rises m m' [] h f = tt
rises m m' (p ∷ ps) h f = (rises_one p f.0, rises m m' ps h f.1)
  where
    rises_one : (q : Pc) → IsFresh m q → IsFresh m' q
    rises_one (adding rc us) g = tt
    rises_one (loading rc us) g = tt
    rises_one (testing rc us prev) g = omega arith
    rises_one (counting more) g = tt

module _ {ℓ} {D : Type ℓ} {m : Shared D} where
  Step-keeps :
      {ps ps' : List Pc} {m' : Shared D}
      → Step m ps m' ps'
      → (k : Bytes) → All (IsFresh m) ps
      → IsValid m.metrics
      → InWords m k
      → All (IsFresh m') ps'
        × IsValid m'.metrics
        × InWords m' k
        × (m.max_blocked_us ≤ m'.max_blocked_us)
        × ((m'.total_blocked_us + sum_left us_left ps') % 2 ^ 64
            ≡ (m.total_blocked_us + sum_left us_left ps) % 2 ^ 64)
        × (max m'.max_blocked_us (max_left ps') ≡ max m.max_blocked_us (max_left ps))
        × ((counter k m'.metrics + sum_left (count_left k) ps') % 2 ^ 64
            ≡ (counter k m.metrics + sum_left (count_left k) ps) % 2 ^ 64)
  Step-keeps {m' = m'} (here {ps = ps} mv) k f v b =
      let (f', v', b', up, t, x, c) = Move-keeps mv k f.0 v b in
      ((f', rises m m' ps up f.1), v', b', up, omega (arith, t), omega (arith, x), omega (arith, c))
  Step-keeps {m' = m'} (there {p} st) k f v b =
      let (f', v', b', up, t, x, c) = Step-keeps st k f.1 v b in
      (
        ((rises m m' (p ∷ []) up (f.0, tt)).0, f'),
        v',
        b',
        up,
        omega (arith, t),
        omega (arith, x),
        omega (arith, c),
      )

Run-keeps {ℓ} :
    {D : Type ℓ} {m : Shared D} {ps qs : List Pc} {m' : Shared D}
    → Run m ps m' qs
    → (k : Bytes) → All (IsFresh m) ps
    → IsValid m.metrics
    → InWords m k
    → All (IsFresh m') qs
      × IsValid m'.metrics
      × InWords m' k
      × ((m'.total_blocked_us + sum_left us_left qs) % 2 ^ 64
          ≡ (m.total_blocked_us + sum_left us_left ps) % 2 ^ 64)
      × (max m'.max_blocked_us (max_left qs) ≡ max m.max_blocked_us (max_left ps))
      × ((counter k m'.metrics + sum_left (count_left k) qs) % 2 ^ 64
          ≡ (counter k m.metrics + sum_left (count_left k) ps) % 2 ^ 64)
Run-keeps start k f v b = (f, v, b, refl, refl, refl)
Run-keeps (later r st) k f v b =
    let (f', v', b', t, x, c) = Run-keeps r k f v b in
    let (f'', v'', b'', up, t', x', c') = Step-keeps st k f' v' b' in
    (f'', v'', b'', t' ∙ t, x' ∙ x, c' ∙ c)

done_left :
    (k : Bytes) (qs : List Pc)
    → All IsDone qs
    → (sum_left us_left qs ≡ 0) × (max_left qs ≡ 0) × (sum_left (count_left k) qs ≡ 0)
done_left k [] d = (refl, refl, refl)
done_left k (counting [] ∷ qs) d = omega (arith, done_left k qs d.1)
done_left k (counting (u ∷ us) ∷ qs) d = absurd d.0
done_left k (adding rc us ∷ qs) d = absurd d.0
done_left k (loading rc us ∷ qs) d = absurd d.0
done_left k (testing rc us prev ∷ qs) d = absurd d.0

-- The calls that make some writes, at their start, and what they share.
abbrev pub calls_of {ℓ} : {D : Type ℓ} → List (Write D) → List Pc
calls_of [] = []
calls_of ((s, w) ∷ ws) = adding w.rc w.blocked_us ∷ calls_of ws

abbrev pub shared_of {ℓ} : {D : Type ℓ} {v : Vendor} → Publisher D v → Shared D
shared_of p = record {
  total_blocked_us = p.total_blocked_us;
  max_blocked_us = p.max_blocked_us;
  metrics = p.metrics;
}

module _ {ℓ} {D : Type ℓ} where
  calls_left :
      (k : Bytes) (ws : List (Write D)) (m : Shared D) (n : ℕ)
      → (sum_left us_left (calls_of ws) ≡ sum_us ws)
        × (max n (max_left (calls_of ws)) ≡ longest_us n ws)
        × (sum_left (count_left k) (calls_of ws) ≡ total k (all_updates ws))
        × All (IsFresh m) (calls_of ws)
  unfolding all_updates
  calls_left k [] m n = (refl, omega arith, refl, tt)
  calls_left k ((s, w) ∷ ws) m n =
      let (a, b, c, f) = calls_left k ws m (max n w.blocked_us) in
      (
        omega (arith, a),
        omega (arith, b),
        omega (arith, c, total-append k (updates w.rc) (all_updates ws)),
        (tt, f),
      )

  -- Overlap does not show: however the calls of several threads interleave, and however often the
  -- compare-exchange fails, once all have returned the statistics and every counter are what the
  -- same writes leave when they are made one after another.
  pub overlap_accounts :
      {v : Vendor} (ws : List (Write D)) (p : Publisher D v) (m : Shared D) (qs : List Pc)
      (k : Bytes)
      → p.entities.endpoint ≢ none
      → p.total_blocked_us < 2 ^ 64
      → IsValid p.metrics
      → counter k p.metrics < 2 ^ 64
      → Run (shared_of p) (calls_of ws) m qs
      → All IsDone qs
      → ((m.total_blocked_us, m.max_blocked_us) ≡ write_stats (publish_all ws p))
        × (counter k m.metrics ≡ counter k (publish_all ws p).metrics)
  overlap_accounts ws p m qs k e t v c r d =
      let (s, l, u, f) = calls_left k ws (shared_of p) p.max_blocked_us in
      let (f', v', b, t', x, c') = Run-keeps r k f v (t, c) in
      let (s', l', u') = done_left k qs d in
      let (ms, st) = publish_all_lem ws p e t in
      rw (st, ms)
        (ground (
          arith,
          b,
          x,
          t',
          c',
          s,
          l,
          u,
          s',
          l',
          u',
          counter-increment_all k (all_updates ws) p.metrics v c,
        ))
