-- ===== src/Metrics/Ordered.antt =====
-- `std::map` with string keys, as the entries in the order in which an iteration visits them.
use resilient_dds_data_plane.Base.{
  ◌≡◌, ◌≢◌, refl, sym, subst, ◌∙◌, inl, inr, true, false, Option, none, some, List, [], ◌∷◌, Bytes,
  arith, if◌then◌else◌, Bool-cases, str_eq, str_lt, str_eq_refl, str_eq_comm, eq_of_str_eq,
  str_lt_irrefl, str_lt_trans, str_lt_total,
}

abbrev pub SortedMap {ℓ} : Type ℓ → Type ℓ
SortedMap V = List (Bytes × V)

ne_of_str_lt : (k i : Bytes) → str_lt k i ≡ true → str_eq i k ≡ false
ne_of_str_lt k i h = ground (arith, eq_of_str_eq i k, str_lt_irrefl k)

module _ {ℓ} {V : Type ℓ} where
  unfoldable pub find : Bytes → SortedMap V → Option V
  find k [] = none
  find k ((j, v) ∷ m) = let rest = find k m in if str_eq j k then some v else rest

  -- `f` changes the value at a key, which is `d` if there is none.
  unfoldable pub insert_with : Bytes → (V → V) → V → SortedMap V → SortedMap V
  insert_with k f d [] = (k, f d) ∷ []
  insert_with k f d ((j, v) ∷ m) =
      let rest = insert_with k f d m in
      if str_eq j k
      then (j, f v) ∷ m
      else if str_lt k j
      then (k, f d) ∷ (j, v) ∷ m
      else (j, v) ∷ rest

  -- Every key of the map comes after `k`.
  abbrev pub Above : Bytes → SortedMap V → Type 0
  Above k [] = Unit
  Above k ((j, v) ∷ m) = (str_lt k j ≡ true) × Above k m

  abbrev pub IsSorted : SortedMap V → Type 0
  IsSorted [] = Unit
  IsSorted ((j, v) ∷ m) = Above j m × IsSorted m

  abbrev pub value_or : V → Option V → V
  value_or d none = d
  value_or d (some v) = v

  pub Above-trans : (j k : Bytes) (m : SortedMap V) → str_lt j k ≡ true → Above k m → Above j m
  Above-trans j k [] h a = tt
  Above-trans j k ((i, v) ∷ m) h a = (str_lt_trans j k i h a.0, Above-trans j k m h a.1)

  Above-insert_with :
      (j k : Bytes) (f : V → V) (d : V) (m : SortedMap V)
      → str_lt j k ≡ true
      → Above j m
      → Above j (insert_with k f d m)
  unfolding insert_with
  Above-insert_with j k f d [] h a = (h, tt)
  Above-insert_with j k f d ((i, v) ∷ m) h a = ground (arith, Above-insert_with j k f d m)

  -- The keys stay in order, with none twice.
  pub insert_with-IsSorted :
      (k : Bytes) (f : V → V) (d : V) (m : SortedMap V)
      → IsSorted m
      → IsSorted (insert_with k f d m)
  unfolding insert_with
  insert_with-IsSorted k f d [] s = (tt, tt)
  insert_with-IsSorted k f d ((j, v) ∷ m) s = elim (Bool-cases (str_eq j k)) [
    | inl e ↦ rw (e, insert_with) s
    | inr ne ↦ elim (Bool-cases (str_lt k j)) [
      | inl lt ↦ rw (ne, lt, insert_with) ((lt, Above-trans k j m lt s.0), s)
      | inr ge ↦
          rw (ne, ge, insert_with)
            (
              Above-insert_with j k f d m (str_lt_total k j ge (str_eq_comm k j ∙ ne)) s.0,
              insert_with-IsSorted k f d m s.1,
            )
    ]
  ]

  find_below : (k : Bytes) (m : SortedMap V) → Above k m → find k m ≡ none
  unfolding find
  find_below k [] a = refl
  find_below k ((i, w) ∷ m) a = rw (ne_of_str_lt k i a.0) (find_below k m a.1)

  pub find-insert_with :
      (k i : Bytes) (f : V → V) (d : V) (m : SortedMap V)
      → IsSorted m
      → find i (insert_with k f d m)
        ≡ (if str_eq k i then some (f (value_or d (find k m))) else find i m)
  unfolding find insert_with
  find-insert_with k i f d [] s = refl
  find-insert_with k i f d ((j, v) ∷ m) s = ground (
    arith,
    find-insert_with k i f d m,
    eq_of_str_eq k i,
    eq_of_str_eq j k,
    eq_of_str_eq j i,
    str_eq_refl k,
    str_eq_comm k j,
    Above-trans k j m,
    find_below k m,
  )

  nil_ne : (k : Bytes) (w : V) (n : SortedMap V) → find k [] ≢ find k ((k, w) ∷ n)
  unfolding find
  nil_ne k w n e = ground (arith, str_eq_refl k)

  head_lt :
      (j k : Bytes) (v w : V) (m n : SortedMap V)
      → Above k n
      → str_lt j k ≡ true
      → find j ((j, v) ∷ m) ≢ find j ((k, w) ∷ n)
  unfolding find
  head_lt j k v w m n a h e =
      ground (arith, str_eq_refl j, ne_of_str_lt j k h, find_below j n (Above-trans j k n h a))

  tail_ext :
      (j i : Bytes) (v w : V) (m n : SortedMap V)
      → Above j m
      → Above j n
      → find i ((j, v) ∷ m) ≡ find i ((j, w) ∷ n)
      → find i m ≡ find i n
  unfolding find
  tail_ext j i v w m n a b e = ground (arith, eq_of_str_eq j i, find_below j m a, find_below j n b)

  head_value :
      (j : Bytes) (v w : V) (m n : SortedMap V) → find j ((j, v) ∷ m) ≡ find j ((j, w) ∷ n) → v ≡ w
  unfolding find
  head_value j v w m n e = ground (arith, str_eq_refl j)

  cons_ext :
      (j k : Bytes) (v w : V) (m n : SortedMap V)
      → j ≡ k
      → Above j m
      → Above k n
      → ((i : Bytes) → find i ((j, v) ∷ m) ≡ find i ((k, w) ∷ n))
      → (((i : Bytes) → find i m ≡ find i n) → m ≡ n)
      → ◌≡◌ {A = SortedMap V} ((j, v) ∷ m) ((k, w) ∷ n)
  cons_ext j k v w m n e a b h tails =
      subst
        (λ l.
          Above l n
          → ((i : Bytes) → find i ((j, v) ∷ m) ≡ find i ((l, w) ∷ n))
          → ◌≡◌ {A = SortedMap V} ((j, v) ∷ m) ((l, w) ∷ n))
        e (λ c g. cc (head_value j v w m n (g j), tails (λ i. tail_ext j i v w m n a c (g i)))) b h

  -- A sorted map is determined by its look-ups.
  pub sorted_ext :
      (m n : SortedMap V) → IsSorted m → IsSorted n → ((i : Bytes) → find i m ≡ find i n) → m ≡ n
  sorted_ext [] [] s t h = refl
  sorted_ext [] ((k, w) ∷ n) s t h = absurd (nil_ne k w n (h k))
  sorted_ext ((j, v) ∷ m) [] s t h = absurd (nil_ne j v m (sym (h j)))
  sorted_ext ((j, v) ∷ m) ((k, w) ∷ n) s t h = elim (Bool-cases (str_eq j k)) [
    | inl e ↦ cons_ext j k v w m n (eq_of_str_eq j k e) s.0 t.0 h (sorted_ext m n s.1 t.1)
    | inr ne ↦ elim (Bool-cases (str_lt j k)) [
      | inl lt ↦ absurd (head_lt j k v w m n t.0 lt (h j))
      | inr ge ↦ absurd (head_lt k j w v n m s.0 (str_lt_total j k ge ne) (sym (h k)))
    ]
  ]
