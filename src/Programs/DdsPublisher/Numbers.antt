-- ===== src/Programs/DdsPublisher/Numbers.antt =====
-- The sequence numbers and the sources of apps/dds_publisher.cpp.
use resilient_dds_data_plane.Base.{
  ℕ, zero, suc, ◌+◌, ◌%◌, ◌^◌, ◌<◌, ◌≡◌, ◌≢◌, refl, sym, ap, ◌∙◌, inl, inr, false, List, [], ◌∷◌,
  ◌++◌, ℤ, Bytes, codes, arith, ltb, ◌==◌, if◌then◌else◌, length, str_eq, eq_of_str_eq, str_eq_refl,
  Bool-cases,
}
use resilient_dds_data_plane.Base.Decimal.{show, read_from, read_from-show}
use resilient_dds_data_plane.Telemetry.{TelemetrySample}
use resilient_dds_data_plane.Detector.Trace
use resilient_dds_data_plane.Programs.DdsPublisher.{Options, seq_of, next_seq, no_seqs}

pub length-next_seq : (ns : List ℕ) (i : ℕ) → length (next_seq ns i) ≡ length ns
unfolding next_seq
length-next_seq [] i = refl
length-next_seq (n ∷ ns) zero = refl
length-next_seq (n ∷ ns) (suc i) = omega (arith, length-next_seq ns i)

pub seq_of-next_seq :
    (ns : List ℕ) (i j : ℕ)
    → i < length ns
    → seq_of (next_seq ns i) j ≡ (if i == j then (seq_of ns j + 1) % 2 ^ 64 else seq_of ns j)
unfolding seq_of next_seq
seq_of-next_seq [] i j h = absurd (omega arith)
seq_of-next_seq (n ∷ ns) zero zero h = refl
seq_of-next_seq (n ∷ ns) zero (suc j) h = ground arith
seq_of-next_seq (n ∷ ns) (suc i) zero h = ground arith
seq_of-next_seq (n ∷ ns) (suc i) (suc j) h = ground (arith, seq_of-next_seq ns i j)

pub no_seqs_lem : (n j : ℕ) → (length (no_seqs n) ≡ n) × (seq_of (no_seqs n) j ≡ 0)
unfolding no_seqs seq_of
no_seqs_lem zero j = (refl, refl)
no_seqs_lem (suc n) zero = (omega (arith, no_seqs_lem n zero), refl)
no_seqs_lem (suc n) (suc j) = (omega (arith, no_seqs_lem n j), (no_seqs_lem n j).1)

-- The source of a key.
abbrev pub name_of : Options → ℕ → Bytes
name_of o k = if ltb 1 o.keys then codes "key-" ++ show k else o.source_id

key_differs : (i j : ℕ) → i ≢ j → str_eq (codes "key-" ++ show i) (codes "key-" ++ show j) ≡ false
unfolding str_eq
key_differs i j n = elim (Bool-cases (str_eq (show i) (show j))) [
  | inl e ↦
      let same : i ≡ j =
        sym (read_from-show i)
        ∙ ap (read_from 0) (eq_of_str_eq (show i) (show j) e)
        ∙ read_from-show j in
      absurd (n same)
  | inr e ↦ e
]

-- The keys have sources of their own.
pub name_of_iff :
    (o : Options) (i j : ℕ)
    → i < o.keys
    → j < o.keys
    → str_eq (name_of o i) (name_of o j) ≡ (i == j)
name_of_iff o i j h k = elim (Bool-cases (i == j)) [
  | inl e ↦ let same : i ≡ j = ground arith in rw (e, same) (str_eq_refl (name_of o j))
  | inr e ↦ elim (Bool-cases (ltb 1 o.keys)) [
    | inl l ↦ rw (e, l) (key_differs i j (λ q. ground arith))
    | inr l ↦ absurd (ground arith)
  ]
]

-- The samples as the detector gets them over a transport that loses and reorders nothing: `at n` is
-- the receiver's clock when sample `n` arrives.
unfoldable pub delivered {ℓ} :
    {D : Type ℓ} → (ℕ → ℤ) → ℕ → List (TelemetrySample D) → List (Trace.Arrival D)
delivered at n [] = []
delivered at n (s ∷ ss) = (s, at n) ∷ delivered at (n + 1) ss

module _ {ℓ} {D : Type ℓ} where
  pub delivered-append :
      (at : ℕ → ℤ) (n : ℕ) (ss ts : List (TelemetrySample D))
      → delivered at n (ss ++ ts) ≡ delivered at n ss ++ delivered at (n + length ss) ts
  unfolding delivered
  delivered-append at n [] ts = ap (λ k. delivered at k ts) (omega arith)
  delivered-append at n (s ∷ ss) ts =
      ap (λ l. (s, at n) ∷ l)
        (delivered-append at (n + 1) ss ts
          ∙ ap (λ k. delivered at (n + 1) ss ++ delivered at k ts) (omega arith))
