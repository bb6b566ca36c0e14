-- ===== src/Transport/Concurrent/Termination.antt =====
-- Overlapping calls end: the loops of src/dds_transport.cpp wait for nobody.
use resilient_dds_data_plane.Base.{
  ℕ, ◌+◌, ◌*◌, ◌≤◌, ◌≡◌, ◌⊎◌, inl, inr, refl, ap, ◌∙◌, List, [], ◌∷◌, arith, All, length,
  if◌then◌else◌, ◌==◌,
}
use native.Mathlib.Decide.{dec_lt, ℕ_discrete}
use native.Mathlib.Nat.{mul-le-mul_left}
use resilient_dds_data_plane.Transport.WriteRules.{Write, updates}
use resilient_dds_data_plane.Transport.Concurrent.Account.{calls_of, shared_of}
use resilient_dds_data_plane.Transport.Start.{Vendor}
use resilient_dds_data_plane.Transport.Publisher.{
  ReturnCode, retcode_ok, retcode_timeout, retcode_out_of_resources, retcode_other, Publisher,
}
use resilient_dds_data_plane.Transport.Concurrent.{
  Shared, Pc, adding, loading, testing, counting, Move, add, load, leave, exchange, lose,
  fail_spuriously, count, Step, here, there, Run, start, later, IsDone,
}

-- How far a call is from its end, in steps that do not repeat the loop.
abbrev pub steps_left : Pc → ℕ
steps_left (adding rc us) = 5
steps_left (loading rc us) = 4
steps_left (testing rc us prev) = 3
steps_left (counting more) = length more

abbrev pub all_steps_left : List Pc → ℕ
all_steps_left [] = 0
all_steps_left (p ∷ ps) = steps_left p + all_steps_left ps

-- Does the call hold a value that is stored no longer? It may lose its exchange once.
abbrev pub stale : ℕ → Pc → ℕ
stale stored (testing rc us prev) = if stored == prev then 0 else 1
stale stored _ = 0

abbrev pub all_stale : ℕ → List Pc → ℕ
all_stale stored [] = 0
all_stale stored (p ∷ ps) = stale stored p + all_stale stored ps

all_stale-le : (stored : ℕ) (ps : List Pc) → all_stale stored ps ≤ length ps
all_stale-le stored [] = omega arith
all_stale-le stored (adding rc us ∷ ps) = omega (arith, all_stale-le stored ps)
all_stale-le stored (loading rc us ∷ ps) = omega (arith, all_stale-le stored ps)
all_stale-le stored (testing rc us prev ∷ ps) = ground (arith, all_stale-le stored ps)
all_stale-le stored (counting more ∷ ps) = omega (arith, all_stale-le stored ps)

length-updates : (rc : ReturnCode) → length (updates rc) ≤ 2
unfolding updates
length-updates retcode_ok = omega arith
length-updates retcode_timeout = omega arith
length-updates retcode_out_of_resources = omega arith
length-updates retcode_other = omega arith

module _ {ℓ} {D : Type ℓ} where
  -- Is the step a failure of the compare-exchange for no reason?
  abbrev pub spurious_move : {m m' : Shared D} {p p' : Pc} → Move m p m' p' → ℕ
  spurious_move (fail_spuriously h e) = 1
  spurious_move (lose h e) = 0
  spurious_move add = 0
  spurious_move load = 0
  spurious_move (leave h) = 0
  spurious_move (exchange h e) = 0
  spurious_move count = 0

  abbrev pub spurious_step : {m m' : Shared D} {ps ps' : List Pc} → Step m ps m' ps' → ℕ
  spurious_step (here mv) = spurious_move mv
  spurious_step (there st) = spurious_step st

  abbrev pub steps :
      {m : Shared D} {ps : List Pc} {m' : Shared D} {qs : List Pc} → Run m ps m' qs → ℕ
  steps start = 0
  steps (later r st) = steps r + 1

  abbrev pub spurious_failures :
      {m : Shared D} {ps : List Pc} {m' : Shared D} {qs : List Pc} → Run m ps m' qs → ℕ
  spurious_failures start = 0
  spurious_failures (later r st) = spurious_failures r + spurious_step st

  Move-falls :
      {m m' : Shared D} {p p' : Pc} (mv : Move m p m' p')
      → ((m'.max_blocked_us ≡ m.max_blocked_us)
          × (steps_left p' ≡ steps_left p)
          × (stale m'.max_blocked_us p' + 1 ≡ stale m.max_blocked_us p + spurious_move mv))
        ⊎ ((steps_left p' + 1 ≤ steps_left p) × (stale m'.max_blocked_us p' ≡ 0))
  Move-falls add = inr (omega arith, refl)
  Move-falls load = inr (omega arith, ground arith)
  Move-falls {p = testing rc us prev} (leave h) = inr (omega (arith, length-updates rc), refl)
  Move-falls {p = testing rc us prev} (exchange h e) = inr (omega (arith, length-updates rc), refl)
  Move-falls (lose h e) = inl (refl, refl, ground arith)
  Move-falls (fail_spuriously h e) = inl (refl, refl, ground arith)
  Move-falls count = inr (omega arith, refl)

  Step-falls :
      {m : Shared D} {ps : List Pc} {m' : Shared D} {ps' : List Pc} (st : Step m ps m' ps')
      → (length ps' ≡ length ps)
        × (((m'.max_blocked_us ≡ m.max_blocked_us)
              × (all_steps_left ps' ≡ all_steps_left ps)
              × (all_stale m'.max_blocked_us ps' + 1
                  ≡ all_stale m.max_blocked_us ps + spurious_step st))
            ⊎ (all_steps_left ps' + 1 ≤ all_steps_left ps))
  Step-falls {m} {m' = m'} (here {ps = ps} mv) = elim (Move-falls mv) [
    | inl (e, s, x) ↦
        (refl, inl (e, omega (arith, s), omega (arith, x, ap (λ n. all_stale n ps) e)))
    | inr (s, x) ↦ (refl, inr (omega (arith, s)))
  ]
  Step-falls {m} {m' = m'} (there {p} st) =
      let (n, f) = Step-falls st in
      elim f [
        | inl (e, s, x) ↦
            (omega (arith, n), inl (e, omega (arith, s), omega (arith, x, ap (λ k. stale k p) e)))
        | inr s ↦ (omega (arith, n), inr (omega (arith, s)))
      ]

  -- What a run may still take, with `n` calls.
  abbrev potential : ℕ → Shared D → List Pc → ℕ
  potential n m ps = (n + 1) * all_steps_left ps + all_stale m.max_blocked_us ps

  Step-potential :
      {m : Shared D} {ps : List Pc} {m' : Shared D} {ps' : List Pc} (st : Step m ps m' ps')
      → (length ps' ≡ length ps)
        × (potential (length ps) m' ps' + 1 ≤ potential (length ps) m ps + spurious_step st)
  Step-potential {m} {ps} {m'} {ps'} st =
      let (n, f) = Step-falls st in
      (
        n,
        elim f [
          | inl (e, s, x) ↦ rw s (omega (arith, x))
          | inr s ↦
              omega
                (arith, n, all_stale-le m'.max_blocked_us ps', mul-le-mul_left (length ps + 1) s)
        ],
      )

  Run-potential :
      {m : Shared D} {ps : List Pc} {m' : Shared D} {qs : List Pc} (r : Run m ps m' qs)
      → (length qs ≡ length ps)
        × (potential (length ps) m' qs + steps r ≤ potential (length ps) m ps + spurious_failures r)
  Run-potential start = (refl, omega arith)
  Run-potential {ps = ps} (later {qs = qs} r st) =
      let (n, a) = Run-potential r in
      let (n', b) = Step-potential st in (n' ∙ n, omega (arith, a, rw n at b))

  -- The calls that are not done can move on their own.
  progress_one :
      (m : Shared D) (p : Pc)
      → IsDone p ⊎ ((m' : Shared D) × (p' : Pc) × (mv : Move m p m' p') × (spurious_move mv ≡ 0))
  progress_one m (adding rc us) = inr (_, _, add, refl)
  progress_one m (loading rc us) = inr (_, _, load, refl)
  progress_one m (testing rc us prev) = elim (dec_lt prev us) [
    | yes lt ↦ elim (ℕ_discrete m.max_blocked_us prev) [
      | yes e ↦ inr (_, _, exchange lt e, refl)
      | no n ↦ inr (_, _, lose lt n, refl)
    ]
    | no ge ↦ inr (_, _, leave (omega arith), refl)
  ]
  progress_one m (counting []) = inl tt
  progress_one m (counting ((name, value) ∷ more)) = inr (_, _, count, refl)

  progress :
      (m : Shared D) (ps : List Pc)
      → All IsDone ps
        ⊎ ((m' : Shared D) × (qs : List Pc) × (st : Step m ps m' qs) × (spurious_step st ≡ 0))
  progress m [] = inl tt
  progress m (p ∷ ps) = elim (progress_one m p) [
    | inl d ↦ elim (progress m ps) [
      | inl ds ↦ inl (d, ds)
      | inr (m', qs, st, e) ↦ inr (m', p ∷ qs, there st, e)
    ]
    | inr (m', p', mv, e) ↦ inr (m', p' ∷ ps, here mv, e)
  ]

  potential_start :
      (ws : List (Write D)) (m : Shared D)
      → (length (calls_of ws) ≡ length ws)
        × (all_steps_left (calls_of ws) ≡ 5 * length ws)
        × (all_stale m.max_blocked_us (calls_of ws) ≡ 0)
  potential_start [] m = (refl, refl, refl)
  potential_start ((s, w) ∷ ws) m =
      let (a, b, c) = potential_start ws m in (omega (arith, a), omega (arith, b), omega (arith, c))

  -- Overlapping calls end: of `n` calls, any run has at most 5 n (n + 1) steps and one more for each
  -- compare-exchange that fails though the stored value is the expected one, and as long as a call
  -- has not returned, some call has a step that is no such failure.
  pub overlap_ends :
      {v : Vendor} (ws : List (Write D)) (p : Publisher D v) (m : Shared D) (qs : List Pc)
      (r : Run (shared_of p) (calls_of ws) m qs)
      → (steps r ≤ (length ws + 1) * (5 * length ws) + spurious_failures r)
        × (All IsDone qs
            ⊎ ((m' : Shared D) × (rs : List Pc) × (st : Step m qs m' rs) × (spurious_step st ≡ 0)))
  overlap_ends ws p m qs r =
      let (n, b) = Run-potential r in
      let (a, s, x) = potential_start ws (shared_of p) in
      (omega (arith, rw (a, s, x) at b), progress m qs)
