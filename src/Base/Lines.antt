-- ===== src/Base/Lines.antt =====
-- The lines of a text.
use Prim.Native.Nat.{ℕ, ◌+◌}
use mathlib.Core.Path.{◌≡◌, refl}
use mathlib.Core.Bool.{Bool, true, not}
use mathlib.Core.List.{List, [], ◌∷◌, ◌++◌}
use native.Mathlib.Omega.{arith}
use resilient_dds_data_plane.Base.Tests.{◌==◌, if◌then◌else◌}
use resilient_dds_data_plane.Base.Lists.{all}
use resilient_dds_data_plane.Base.Text.{Bytes}
use resilient_dds_data_plane.Base.Int.{ℤ, pos, negsuc}
use resilient_dds_data_plane.Base.Decimal.{show, show_ℤ, all_digits_show, is_digit}

-- The complete lines of a text, and what stands behind the last line break.
unfoldable pub split_lines : Bytes → List Bytes × Bytes
split_lines [] = ([], [])
split_lines (c ∷ s) =
    let (ls, rest) = split_lines s in
    if c == b'\n'
    then ([] ∷ ls, rest)
    else elim ls [ [] ↦ ([], c ∷ rest) | l ∷ more ↦ ((c ∷ l) ∷ more, rest) ]

abbrev pub unbroken : Bytes → Bool
unbroken = all (λ c. not (c == b'\n'))

pub split_lines-line :
    (l s : Bytes)
    → unbroken l ≡ true
    → split_lines (l ++ b'\n' ∷ s) ≡ (l ∷ (split_lines s).0, (split_lines s).1)
unfolding split_lines
split_lines-line [] s u = refl
split_lines-line (c ∷ l) s u = ground (arith, split_lines-line l s)

unbroken_digits : (s : Bytes) → all is_digit s ≡ true → unbroken s ≡ true
unbroken_digits [] h = refl
unbroken_digits (c ∷ s) h = ground (arith, unbroken_digits s)

pub unbroken-show : (n : ℕ) → unbroken (show n) ≡ true
unbroken-show n = unbroken_digits (show n) (all_digits_show n)

pub unbroken-show_ℤ : (a : ℤ) → unbroken (show_ℤ a) ≡ true
unfolding show_ℤ
unbroken-show_ℤ (pos n) = unbroken-show n
unbroken-show_ℤ (negsuc n) = unbroken-show (n + 1)
