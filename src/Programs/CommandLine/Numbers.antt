-- ===== src/Programs/CommandLine/Numbers.antt =====
-- The number readers of Programs.CommandLine on printed numbers.
use resilient_dds_data_plane.Base.{
  ℕ, ◌+◌, ◌^◌, ◌<◌, ◌≡◌, refl, ap, ◌∙◌, Bool, true, false, some, [], ◌∷◌, ℤ, pos, negsuc, negate,
  Bytes, arith, ltb, is_empty, all,
}
use resilient_dds_data_plane.Base.Decimal.{
  show, show_ℤ, is_digit, read_from, read_from-show, all_digits_show, show_not_empty,
}
use resilient_dds_data_plane.Programs.CommandLine.{
  skip_space, split_sign, leading_digits, number, stoull_value, stoull, strtoull_value, strtoull,
  atoi_value, atoi, atoll_value, atoll,
}

leading_digits-all : (s : Bytes) → all is_digit s ≡ true → leading_digits s ≡ s
unfolding leading_digits
leading_digits-all [] h = refl
leading_digits-all (c ∷ s) h = ground (arith, leading_digits-all s)

-- Digits are neither blank nor a sign.
plain_digits :
    (s : Bytes)
    → all is_digit s ≡ true
    → is_empty s ≡ false
    → (skip_space s ≡ s) × (split_sign s ≡ (false, s))
unfolding skip_space split_sign is_empty
plain_digits [] h e = ground arith
plain_digits (c ∷ s) h e = (ground arith, ground arith)

number_digits :
    (s : Bytes)
    → all is_digit s ≡ true
    → is_empty s ≡ false
    → number s ≡ (false, some (read_from 0 s))
unfolding number
number_digits s h e = let (a, b) = plain_digits s h e in rw (a, b, leading_digits-all s h, e) refl

number_minus :
    (s : Bytes)
    → all is_digit s ≡ true
    → is_empty s ≡ false
    → number (b'-' ∷ s) ≡ (true, some (read_from 0 s))
unfolding number skip_space split_sign
number_minus s h e = rw (leading_digits-all s h, e) refl

number-show : (n : ℕ) → number (show n) ≡ (false, some n)
number-show n =
    number_digits (show n) (all_digits_show n) (show_not_empty n)
    ∙ ap (λ m. (false, some m)) (read_from-show n)

number-minus_show : (n : ℕ) → number (b'-' ∷ show n) ≡ (true, some n)
number-minus_show n =
    number_minus (show n) (all_digits_show n) (show_not_empty n)
    ∙ ap (λ m. (true, some m)) (read_from-show n)

-- Printed numbers in range are read back.
pub stoull-show : (n : ℕ) → n < 2 ^ 64 → stoull (show n) ≡ some n
unfolding stoull
stoull-show n h = ap stoull_value (number-show n) ∙ in_range
  where
    in_range : stoull_value (false, some n) ≡ some n
    in_range = ground arith

pub strtoull-show : (n : ℕ) → n < 2 ^ 64 → strtoull (show n) ≡ n
unfolding strtoull
strtoull-show n h = ap strtoull_value (number-show n) ∙ in_range
  where
    in_range : strtoull_value (false, some n) ≡ n
    in_range = ground arith

-- Is the number an `int`?
abbrev pub is_int : ℤ → Bool
is_int (pos n) = ltb n (2 ^ 31)
is_int (negsuc n) = ltb n (2 ^ 31)

pub atoi-show_ℤ : (z : ℤ) → is_int z ≡ true → atoi (show_ℤ z) ≡ some z
unfolding atoi show_ℤ negate
atoi-show_ℤ (pos n) h = ap atoi_value (number-show n) ∙ in_range
  where
    in_range : atoi_value (false, some n) ≡ some (pos n)
    in_range = ground arith
atoi-show_ℤ (negsuc n) h = ap atoi_value (number-minus_show (n + 1)) ∙ in_range
  where
    in_range : atoi_value (true, some (n + 1)) ≡ some (negsuc n)
    in_range = ground arith

-- Is the number an `int64_t`?
abbrev pub is_long : ℤ → Bool
is_long (pos n) = ltb n (2 ^ 63)
is_long (negsuc n) = ltb n (2 ^ 63)

pub atoll-show_ℤ : (z : ℤ) → is_long z ≡ true → atoll (show_ℤ z) ≡ some z
unfolding atoll show_ℤ negate
atoll-show_ℤ (pos n) h = ap atoll_value (number-show n) ∙ in_range
  where
    in_range : atoll_value (false, some n) ≡ some (pos n)
    in_range = ground arith
atoll-show_ℤ (negsuc n) h = ap atoll_value (number-minus_show (n + 1)) ∙ in_range
  where
    in_range : atoll_value (true, some (n + 1)) ≡ some (negsuc n)
    in_range = ground arith
