-- ===== src/Metrics/Threads.antt =====
-- The registry of src/metrics.cpp under several threads. Each operation holds the mutex throughout, so
-- the threads' operations come in some order that keeps each thread's own.
use resilient_dds_data_plane.Base.{
  ℕ, ◌%◌, ◌^◌, ◌≡◌, refl, sym, subst, ap, ◌∙◌, List, [], ◌∷◌, Bytes,
}
use resilient_dds_data_plane.Metrics.{MetricsRegistry, increment, gauge}
use resilient_dds_data_plane.Metrics.Counters.{counter}
use resilient_dds_data_plane.Metrics.Bag.{
  Bag, put, put_comm, total_of, Represents, counters_of-put, find-counters_of,
}

-- A call of one of the two operations that change the registry.
pub data Operation {ℓ} (D : Type ℓ) : Type ℓ where
  incremented : Bytes → ℕ → Operation D
  gauged : Bytes → D → Operation D

module _ {ℓ} {D : Type ℓ} where
  unfoldable pub perform : Operation D → MetricsRegistry D → MetricsRegistry D
  perform (incremented name value) m = increment name value m
  perform (gauged name value) m = gauge name value m

  abbrev pub perform_all : List (Operation D) → MetricsRegistry D → MetricsRegistry D
  perform_all [] m = m
  perform_all (o ∷ os) m = perform_all os (perform o m)

  -- What an operation does to the bag.
  abbrev pub count : Operation D → Bag → Bag
  count (incremented name value) b = put (name, value) b
  count (gauged name value) b = b

  abbrev pub count_all : List (Operation D) → Bag → Bag
  count_all [] b = b
  count_all (o ∷ os) b = count_all os (count o b)

  -- All operations of all threads, a thread at a time.
  abbrev pub count_threads : List (List (Operation D)) → Bag → Bag
  count_threads [] b = b
  count_threads (t ∷ ts) b = count_threads ts (count_all t b)

  -- The next operation of one of the threads.
  pub data Turn : List (List (Operation D)) → Operation D → List (List (Operation D)) → Type ℓ where
    here :
        {o : Operation D} {os : List (Operation D)} {ts : List (List (Operation D))}
        → Turn ((o ∷ os) ∷ ts) o (os ∷ ts)
    there :
        {t : List (Operation D)} {o : Operation D} {ts us : List (List (Operation D))}
        → Turn ts o us
        → Turn (t ∷ ts) o (t ∷ us)

  abbrev pub AllDone : List (List (Operation D)) → Type 0
  AllDone [] = Unit
  AllDone ([] ∷ ts) = AllDone ts
  AllDone ((o ∷ os) ∷ ts) = ⊥

  -- The operations of the threads, in an order in which they can get the mutex.
  pub data Schedule : List (List (Operation D)) → List (Operation D) → Type ℓ where
    finished : {ts : List (List (Operation D))} → AllDone ts → Schedule ts []
    turn :
        {ts us : List (List (Operation D))} {o : Operation D} {order : List (Operation D)}
        → Turn ts o us
        → Schedule us order
        → Schedule ts (o ∷ order)

module _ {ℓ} {D : Type ℓ} where
  Represents-perform :
      (o : Operation D) (m : MetricsRegistry D) (b : Bag)
      → Represents m b
      → Represents (perform o m) (count o b)
  unfolding perform increment gauge
  Represents-perform (incremented name value) m b r = rw r (sym (counters_of-put (name, value) b))
  Represents-perform (gauged name value) m b r = r

  Represents-perform_all :
      (os : List (Operation D)) (m : MetricsRegistry D) (b : Bag)
      → Represents m b
      → Represents (perform_all os m) (count_all os b)
  Represents-perform_all [] m b r = r
  Represents-perform_all (o ∷ os) m b r =
      Represents-perform_all os (perform o m) (count o b) (Represents-perform o m b r)

  counter-Represents :
      (k : Bytes) (m : MetricsRegistry D) (b : Bag)
      → Represents m b
      → counter k m ≡ total_of k b % 2 ^ 64
  unfolding counter
  counter-Represents k m b r = rw r (find-counters_of k b)

  count_comm : (o p : Operation D) (b : Bag) → count o (count p b) ≡ count p (count o b)
  count_comm (incremented name value) (incremented other added) b =
      put_comm (name, value) (other, added) b
  count_comm (incremented name value) (gauged other x) b = refl
  count_comm (gauged name x) (incremented other added) b = refl
  count_comm (gauged name x) (gauged other y) b = refl

  count_all-count :
      (o : Operation D) (os : List (Operation D)) (b : Bag)
      → count_all os (count o b) ≡ count o (count_all os b)
  count_all-count o [] b = refl
  count_all-count o (p ∷ os) b =
      ap (count_all os) (count_comm p o b) ∙ count_all-count o os (count p b)

  count_threads-count :
      (o : Operation D) (ts : List (List (Operation D))) (b : Bag)
      → count_threads ts (count o b) ≡ count o (count_threads ts b)
  count_threads-count o [] b = refl
  count_threads-count o (t ∷ ts) b =
      ap (count_threads ts) (count_all-count o t b) ∙ count_threads-count o ts (count_all t b)

  count_threads_done :
      (ts : List (List (Operation D))) (b : Bag) → AllDone ts → count_threads ts b ≡ b
  count_threads_done [] b d = refl
  count_threads_done ([] ∷ ts) b d = count_threads_done ts b d
  count_threads_done ((o ∷ os) ∷ ts) b d = elim d [ ]

  count_threads-Turn :
      {ts us : List (List (Operation D))} {o : Operation D}
      → Turn ts o us
      → (b : Bag) → count_threads ts b ≡ count_threads us (count o b)
  count_threads-Turn here b = refl
  count_threads-Turn (there {t = t} {o = o} {us = us} m) b =
      count_threads-Turn m (count_all t b) ∙ ap (count_threads us) (sym (count_all-count o t b))

  count_all-Schedule :
      {ts : List (List (Operation D))} {order : List (Operation D)}
      → Schedule ts order
      → (b : Bag) → count_all order b ≡ count_threads ts b
  count_all-Schedule (finished {ts = ts} d) b = sym (count_threads_done ts b d)
  count_all-Schedule (turn {o = o} m s) b =
      count_all-Schedule s (count o b) ∙ sym (count_threads-Turn m b)

-- The registry implements a bag of increments: if it represents a bag and threads perform their
-- operations in any order in which they can get the mutex, then it represents the bag with all their
-- increments, in which no order is left, and a counter reads the sum of its increments in that bag,
-- modulo 2 ^ 64.
pub threads_counted {ℓ} :
    {D : Type ℓ} {threads : List (List (Operation D))} {order : List (Operation D)}
    → Schedule threads order
    → (m : MetricsRegistry D) (b : Bag) → Represents m b
    → Represents (perform_all order m) (count_threads threads b)
      × ((k : Bytes)
          → counter k (perform_all order m) ≡ total_of k (count_threads threads b) % 2 ^ 64)
threads_counted {order = order} s m b r =
    let after = Represents-perform_all order m b r in
    let same = subst (Represents (perform_all order m)) (count_all-Schedule s b) after in
    (same, λ k. counter-Represents k (perform_all order m) _ same)
