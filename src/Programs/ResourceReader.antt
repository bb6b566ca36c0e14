-- ===== src/Programs/ResourceReader.antt =====
-- apps/resource_reader.cpp: the listener. Of a sample the model takes its sequence number and whether
-- it has data. `log` is what the listener prints of the samples: how many, and the last one's number.
use resilient_dds_data_plane.Base.{
  ℕ, ◌+◌, ◌/◌, ◌%◌, ◌^◌, ◌<◌, ◌≡◌, refl, sym, Bool, true, false, not, ◌||◌, List, [], ◌∷◌, ◌++◌, ℤ,
  pos, arith, ltb, ◌==◌, if◌then◌else◌, length, length-append,
}

pub record Reader : Type 0 where
  pub received : ℕ  -- uint64
  pub matches : ℤ
  pub log : List (ℕ × ℕ)

abbrev pub new_reader : Reader
new_reader = record { received = 0; matches = pos 0; log = [] }

unfoldable pub on_subscription_matched : ℤ → Reader → Reader
on_subscription_matched current_count r = record r { matches = current_count }

-- One round of the loop of `on_data_available`: the sample's number, and whether it has data.
unfoldable pub take_number : ℕ × Bool → Reader → Reader
take_number (seq, valid_data) r =
    let n = (r.received + 1) % 2 ^ 64 in
    if not valid_data then r else record r {
      received = n;
      log = if (n == 1) || (n % 100 == 0) then r.log ++ ((n, seq) ∷ []) else r.log;
    }

unfoldable pub on_data_available : List (ℕ × Bool) → Reader → Reader
on_data_available [] r = r
on_data_available (x ∷ xs) r = on_data_available xs (take_number x r)

-- The samples with data.
abbrev pub count_valid : List (ℕ × Bool) → ℕ
count_valid [] = 0
count_valid ((seq, valid_data) ∷ xs) = (if valid_data then 1 else 0) + count_valid xs

-- The lines for `n` samples: one for the first, and one for every hundredth.
abbrev pub lines_for : ℕ → ℕ
lines_for n = (if ltb 0 n then 1 else 0) + n / 100

take_number_lem :
    (x : ℕ × Bool) (r : Reader)
    → r.received + 1 < 2 ^ 64
    → length r.log ≡ lines_for r.received
    → let s = take_number x r in
      (s.received ≡ r.received + (if x.1 then 1 else 0)) × (length s.log ≡ lines_for s.received)
unfolding take_number
take_number_lem (seq, false) r h l = ground (arith, l)
take_number_lem (seq, true) r h l =
    ground (arith, l, length-append r.log (((r.received + 1) % 2 ^ 64, seq) ∷ []))

on_data_available_from :
    (xs : List (ℕ × Bool)) (r : Reader)
    → r.received + length xs < 2 ^ 64
    → length r.log ≡ lines_for r.received
    → let s = on_data_available xs r in
      (s.received ≡ r.received + count_valid xs) × (length s.log ≡ lines_for s.received)
unfolding on_data_available
on_data_available_from [] r h l = (omega arith, l)
on_data_available_from ((seq, valid_data) ∷ xs) r h l =
    let (a, b) = take_number_lem (seq, valid_data) r (omega arith) l in
    let (c, d) =
      on_data_available_from xs (take_number (seq, valid_data) r) (ground (arith, a)) b in
    (omega (arith, a, c), d)

-- Of fewer than 2 ^ 64 samples the listener counts those with data, and it prints one line for the
-- first of them and one for every hundredth.
pub on_data_available_progress :
    (xs : List (ℕ × Bool))
    → length xs < 2 ^ 64
    → let s = on_data_available xs new_reader in
      (s.received ≡ count_valid xs) × (length s.log ≡ lines_for (count_valid xs))
on_data_available_progress xs h =
    let (a, b) = on_data_available_from xs new_reader (omega arith) refl in
    let c : (on_data_available xs new_reader).received ≡ count_valid xs = omega (arith, a) in
    (c, rw (sym c) b)
