-- ===== src/Base/Dict.antt =====
-- `std::unordered_map` with string keys. The program never iterates over one, so the order of the
-- entries is not modelled: clients have the laws of `find`.
use mathlib.Core.Path.{◌≡◌, refl}
use mathlib.Core.Option.{Option, none, some}
use mathlib.Core.List.{List, [], ◌∷◌}
use native.Mathlib.Omega.{arith}
use resilient_dds_data_plane.Base.Tests.{if◌then◌else◌}
use resilient_dds_data_plane.Base.Text.{Bytes, str_eq, str_eq_refl, eq_of_str_eq}

abbrev pub Dict {ℓ} : Type ℓ → Type ℓ
Dict V = List (Bytes × V)

module _ {ℓ} {V : Type ℓ} where
  unfoldable pub find : Bytes → Dict V → Option V
  find k [] = none
  find k ((j, v) ∷ m) = let rest = find k m in if str_eq j k then some v else rest

  unfoldable pub put : Bytes → V → Dict V → Dict V
  put k v [] = (k, v) ∷ []
  put k v ((j, w) ∷ m) = let rest = put k v m in if str_eq j k then (k, v) ∷ m else (j, w) ∷ rest

  unfoldable pub erase : Bytes → Dict V → Dict V
  erase k [] = []
  erase k ((j, v) ∷ m) = let rest = erase k m in if str_eq j k then rest else (j, v) ∷ rest

  -- `m[k]`, read: a missing key is given the default value.
  unfoldable pub at : V → Bytes → Dict V → V
  at d k m = elim (find k m) [ none ↦ d | some v ↦ v ]

  pub find-put :
      (k j : Bytes) (v : V) (m : Dict V)
      → find j (put k v m) ≡ (if str_eq k j then some v else find j m)
  unfolding find put
  find-put k j v [] = refl
  find-put k j v ((i, w) ∷ m) =
      ground (
        arith,
        eq_of_str_eq k j,
        eq_of_str_eq i k,
        eq_of_str_eq i j,
        str_eq_refl k,
        find-put k j v m,
      )

  pub put-put : (k : Bytes) (v w : V) (m : Dict V) → put k v (put k w m) ≡ put k v m
  unfolding put
  put-put k v w [] = ground (arith, str_eq_refl k)
  put-put k v w ((i, u) ∷ m) = ground (arith, str_eq_refl k, put-put k v w m)

  pub find-put_self : (k : Bytes) (v : V) (m : Dict V) → find k (put k v m) ≡ some v
  find-put_self k v m = rw (find-put k k v m, str_eq_refl k)

  pub find-erase :
      (k j : Bytes) (m : Dict V) → find j (erase k m) ≡ (if str_eq k j then none else find j m)
  unfolding find erase
  find-erase k j [] = ground arith
  find-erase k j ((i, w) ∷ m) =
      ground (
        arith,
        eq_of_str_eq k j,
        eq_of_str_eq i k,
        eq_of_str_eq i j,
        str_eq_refl k,
        find-erase k j m,
      )

  pub at-put :
      (d : V) (k j : Bytes) (v : V) (m : Dict V)
      → at d j (put k v m) ≡ (if str_eq k j then v else at d j m)
  unfolding at
  at-put d k j v m = ground (arith, find-put k j v m)

  pub at-put_self : (d : V) (k : Bytes) (v : V) (m : Dict V) → at d k (put k v m) ≡ v
  at-put_self d k v m = rw (at-put d k k v m, str_eq_refl k)
