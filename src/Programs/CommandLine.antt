-- ===== src/Programs/CommandLine.antt =====
-- How the programs of apps/ read their options: the scan of the arguments, and the library functions
-- that read numbers. `none` is an exception that nothing catches, or a behaviour that C++ leaves open.
pub mod Numbers
pub mod Scan
pub mod AuthorityWriter
pub mod ResourceWriter
pub mod ResourceReader
pub mod AuthorityReader
pub mod PublisherOptions
pub mod DdsPublisher
pub mod DdsSubscriber
use resilient_dds_data_plane.Base.{
  ℕ, ◌-◌, ◌%◌, ◌^◌, Bool, true, false, ◌&&◌, ◌||◌, Option, none, some, List, [], ◌∷◌, ℤ, pos,
  negate, Bytes, leb, ltb, ◌==◌, if◌then◌else◌, is_empty, any, str_eq,
}
use resilient_dds_data_plane.Base.Decimal.{is_digit, read_from}

-- std::isspace in the C locale.
abbrev pub is_space : ℕ → Bool
is_space c = (c == b' ') || (leb 9 c && leb c 13)

unfoldable pub skip_space : Bytes → Bytes
skip_space [] = []
skip_space (c ∷ s) = let rest = skip_space s in if is_space c then rest else c ∷ s

-- Is there a minus sign, and what stands behind a sign.
unfoldable pub split_sign : Bytes → Bool × Bytes
split_sign [] = (false, [])
split_sign (c ∷ s) =
    if c == b'-' then (true, s) else if c == b'+' then (false, s) else (false, c ∷ s)

unfoldable pub leading_digits : Bytes → Bytes
leading_digits [] = []
leading_digits (c ∷ s) = let rest = leading_digits s in if is_digit c then c ∷ rest else []

-- What the family of strtol reads: the sign, and the number, if there is one.
unfoldable pub number : Bytes → Bool × Option ℕ
number s =
    let (negative, rest) = split_sign (skip_space s) in
    let digits = leading_digits rest in
    (negative, if is_empty digits then none else some (read_from 0 digits))

abbrev negated : Bool → ℕ → ℕ
negated negative n = if negative then (2 ^ 64 - n) % 2 ^ 64 else n

unfoldable pub stoull_value : Bool × Option ℕ → Option ℕ
stoull_value (negative, none) = none
stoull_value (negative, some n) = if ltb n (2 ^ 64) then some (negated negative n) else none

-- std::stoull, and std::stoul on a 64-bit `unsigned long`. A number too large and the absence of one
-- are exceptions.
unfoldable pub stoull : Bytes → Option ℕ
unfolding stoull_value
stoull s = stoull_value (number s)

unfoldable pub strtoull_value : Bool × Option ℕ → ℕ
strtoull_value (negative, none) = 0
strtoull_value (negative, some n) = if ltb n (2 ^ 64) then negated negative n else 2 ^ 64 - 1

-- std::strtoull: ULLONG_MAX for a number too large, 0 where there is none.
unfoldable pub strtoull : Bytes → ℕ
unfolding strtoull_value
strtoull s = strtoull_value (number s)

unfoldable pub atoi_value : Bool × Option ℕ → Option ℤ
atoi_value (negative, none) = some (pos 0)
atoi_value (negative, some n) =
    if negative
    then if leb n (2 ^ 31) then some (negate (pos n)) else none
    else if ltb n (2 ^ 31)
    then some (pos n)
    else none

-- std::atoi: 0 where there is no number; what happens to one too large is left open.
unfoldable pub atoi : Bytes → Option ℤ
unfolding atoi_value
atoi s = atoi_value (number s)

unfoldable pub atoll_value : Bool × Option ℕ → Option ℤ
atoll_value (negative, none) = some (pos 0)
atoll_value (negative, some n) =
    if negative
    then if leb n (2 ^ 63) then some (negate (pos n)) else none
    else if ltb n (2 ^ 63)
    then some (pos n)
    else none

-- std::atoll
unfoldable pub atoll : Bytes → Option ℤ
unfolding atoll_value
atoll s = atoll_value (number s)

-- `static_cast<std::uint32_t>`
abbrev pub u32 : ℕ → ℕ
u32 n = n % 2 ^ 32

-- The options with a value that was read.
abbrev pub then_set {ℓ ℓ'} : {A : Type ℓ} {O : Type ℓ'} → Option A → (A → O) → Option O
then_set none f = none
then_set (some a) f = some (f a)

-- What follows, unless something went wrong.
abbrev pub and_then {ℓ ℓ'} : {A : Type ℓ} {B : Type ℓ'} → Option A → (A → Option B) → Option B
and_then none f = none
and_then (some a) f = f a

-- The scan: every argument but the last is taken as an option's name, with the next one as its value;
-- `set` is the body of the loop.
unfoldable pub scan {ℓ} : {O : Type ℓ} → (Bytes → Bytes → O → Option O) → List Bytes → O → Option O
scan set [] o = some o
scan set (k ∷ []) o = some o
scan set (k ∷ v ∷ rest) o = and_then (set k v o) (λ p. scan set (v ∷ rest) p)
