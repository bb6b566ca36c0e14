-- ===== src/Base/Decimal.antt =====
-- Decimal printing of integers, as the standard library's output stream prints them.
use Prim.Native.Nat.{ℕ, zero, suc, ◌+◌, ◌-◌, ◌*◌, ◌/◌, ◌%◌, ◌≤◌, ◌<◌}
use mathlib.Core.Path.{◌≡◌, refl}
use mathlib.Core.Bool.{Bool, true, false, ◌&&◌}
use mathlib.Core.List.{[], ◌∷◌}
use native.Mathlib.Omega.{arith}
use resilient_dds_data_plane.Base.Tests.{leb, ◌==◌, if◌then◌else◌}
use resilient_dds_data_plane.Base.Lists.{all}
use resilient_dds_data_plane.Base.Text.{Bytes, is_empty}
use resilient_dds_data_plane.Base.Int.{ℤ, pos, negsuc}

-- The digits of `n` in front of `out`; `n + 1` rounds are more than enough.
emit : ℕ → ℕ → Bytes → Bytes
emit zero n out = out
emit (suc fuel) n out =
    let rest = emit fuel (n / 10) ((b'0' + n % 10) ∷ out) in
    if n / 10 == 0 then (b'0' + n % 10) ∷ out else rest

unfoldable pub show : ℕ → Bytes
unfolding emit
show n = emit (suc n) n []

unfoldable pub show_ℤ : ℤ → Bytes
unfolding show
show_ℤ (pos n) = show n
show_ℤ (negsuc n) = b'-' ∷ show (n + 1)

abbrev pub is_digit : ℕ → Bool
is_digit c = leb b'0' c && leb c b'9'

-- The number that a row of digits stands for, after `n`.
unfoldable pub read_from : ℕ → Bytes → ℕ
read_from n [] = n
read_from n (c ∷ s) = read_from (n * 10 + (c - b'0')) s

read_from-emit :
    (fuel n : ℕ) (out : Bytes) → n < fuel → read_from 0 (emit fuel n out) ≡ read_from n out
unfolding emit read_from
read_from-emit zero n out h = elim h [ ]
read_from-emit (suc fuel) n out h =
    ground (arith, small, step, read_from-emit fuel (n / 10) ((b'0' + n % 10) ∷ out))
  where
    small : n / 10 ≡ 0 → 0 * 10 + (b'0' + n % 10 - b'0') ≡ n
    small e = omega arith

    step : n / 10 * 10 + (b'0' + n % 10 - b'0') ≡ n
    step = omega arith

-- Printing loses nothing.
pub read_from-show : (n : ℕ) → read_from 0 (show n) ≡ n
unfolding show read_from
read_from-show n = read_from-emit (suc n) n [] (omega arith)

all_digits_emit :
    (fuel n : ℕ) (out : Bytes) → all is_digit out ≡ true → all is_digit (emit fuel n out) ≡ true
unfolding emit
all_digits_emit zero n out h = h
all_digits_emit (suc fuel) n out h =
    ground (arith, digit, all_digits_emit fuel (n / 10) ((b'0' + n % 10) ∷ out))
  where
    digit : b'0' + n % 10 ≤ b'9'
    digit = omega arith

pub all_digits_show : (n : ℕ) → all is_digit (show n) ≡ true
unfolding show
all_digits_show n = all_digits_emit (suc n) n [] refl

emit_not_empty :
    (fuel n : ℕ) (out : Bytes) → is_empty out ≡ false → is_empty (emit fuel n out) ≡ false
unfolding emit is_empty
emit_not_empty zero n out h = h
emit_not_empty (suc fuel) n out h =
    ground (arith, emit_not_empty fuel (n / 10) ((b'0' + n % 10) ∷ out) refl)

pub show_not_empty : (n : ℕ) → is_empty (show n) ≡ false
unfolding show emit is_empty
show_not_empty n = ground (arith, emit_not_empty n (n / 10) ((b'0' + n % 10) ∷ []) refl)

show_sample : show 1024 ≡ b'1' ∷ b'0' ∷ b'2' ∷ b'4' ∷ []
unfolding show
show_sample = refl
