-- ===== src/Programs/DdsSubscriber/Polling.antt =====
-- What the poller of apps/dds_subscriber.cpp prints beside the listener.
use resilient_dds_data_plane.Base.{
  ◌≡◌, refl, sym, ◌∙◌, ap, Bool, true, false, ◌&&◌, none, List, [], ◌∷◌, ◌++◌, ℤ, ◌-ℤ◌, quot, Bytes,
  arith, ◌==◌, if◌then◌else◌,
}
use mathlib.Core.List.{append_assoc, append-nil}
use resilient_dds_data_plane.Detector.Trace
use resilient_dds_data_plane.Health.State.{
  SourceState, new_source, HealthState, HealthReason, HealthSnapshot, state_code,
}
use resilient_dds_data_plane.Base.Dict
use resilient_dds_data_plane.Health.Rules.{decide, settle}
use resilient_dds_data_plane.Health.Monitor.{HealthMonitor, tick, change, state_of}
use resilient_dds_data_plane.Health.Events
use resilient_dds_data_plane.Transport.Start.{Vendor}
use resilient_dds_data_plane.Transport.Subscriber.{
  Subscriber, on_requested_deadline_missed, on_liveliness_changed, on_requested_incompatible_qos,
  on_sample_lost, on_subscription_matched,
}
use resilient_dds_data_plane.Transport.Pipeline.{arrivals, calls}
use resilient_dds_data_plane.Transport.Listener.{
  Callback, data_available, deadline_missed, liveliness_changed, sample_lost, subscription_matched,
  incompatible_qos, handle, handle_all, told, last_source, source_hint-on_data_available,
  handle_all_lem,
}
use resilient_dds_data_plane.Programs.DdsSubscriber.{
  reason_code, HealthAt, Poller, new_poller, note, Happening, called, polled, decided, settled,
  Running, happen, happen_all,
}

-- A state and a reason.
abbrev pub Verdict : Type 0
Verdict = HealthState × HealthReason

abbrev pub same_verdict : Verdict → Verdict → Bool
same_verdict a b = (state_code a.0 == state_code b.0) && (reason_code a.1 == reason_code b.1)

-- The verdicts without those that repeat the one before; `collapse_after` is for what follows `a`.
abbrev pub collapse_after : Verdict → List Verdict → List Verdict
collapse_after a [] = []
collapse_after a (b ∷ bs) =
    let same = collapse_after a bs in
    let new = collapse_after b bs in if same_verdict a b then same else b ∷ new

abbrev pub collapse : List Verdict → List Verdict
collapse [] = []
collapse (a ∷ bs) = a ∷ collapse_after a bs

-- The verdicts that the lines name.
abbrev pub verdicts_of : List HealthAt → List Verdict
verdicts_of [] = []
verdicts_of (l ∷ ls) = (l.state, l.reason) ∷ verdicts_of ls

-- The verdict that a monitor gives to a poll.
abbrev pub verdict_of : HealthMonitor → Bytes × Events.Event → List Verdict
verdict_of h (id, Events.sampled now_ns age_ms) = []
verdict_of h (id, Events.missed) = []
verdict_of h (id, Events.lease_expired) = []
verdict_of h (id, Events.refused) = []
verdict_of h (id, Events.match_changed b) = []
verdict_of h (id, Events.polled now_ns) =
    let snap = (tick h id now_ns).1 in (snap.state, snap.reason) ∷ []

-- The verdicts that a monitor gives to the polls among a sequence of calls.
abbrev pub verdicts : HealthMonitor → List (Bytes × Events.Event) → List Verdict
verdicts h [] = []
verdicts h (c ∷ cs) = verdict_of h c ++ verdicts (Events.step h c) cs

module _ {ℓ} {D : Type ℓ} where
  -- The source that the next status is charged to, after a callback.
  abbrev pub hint_after : Bytes → Callback D → Bytes
  hint_after hint (data_available ts) = last_source hint (arrivals ts)
  hint_after hint _ = hint

  -- The calls of the monitor that the callbacks and the polls make.
  abbrev pub calls_of : Bytes → Bytes → List (Happening D) → List (Bytes × Events.Event)
  calls_of source_id hint [] = []
  calls_of source_id hint (called c ∷ xs) =
      told hint (c ∷ []) ++ calls_of source_id (hint_after hint c) xs
  calls_of source_id hint (polled now_ns printed_ns ∷ xs) =
      (source_id, Events.polled now_ns) ∷ calls_of source_id hint xs
  calls_of source_id hint (decided now_ns ∷ xs) = calls_of source_id hint xs
  calls_of source_id hint (settled printed_ns ∷ xs) = calls_of source_id hint xs

  -- Every round of the poller is whole: no callback comes in between its parts.
  abbrev pub rounds_whole : List (Happening D) → Bool
  rounds_whole [] = true
  rounds_whole (called c ∷ xs) = rounds_whole xs
  rounds_whole (polled now_ns printed_ns ∷ xs) = rounds_whole xs
  rounds_whole (decided now_ns ∷ xs) = false
  rounds_whole (settled printed_ns ∷ xs) = false

-- The lines behind what is printed already.
abbrev printed : Poller → List Verdict → List Verdict
printed p vs =
    let later = collapse_after (p.last, p.last_reason) vs in if p.first then collapse vs else later

verdicts_of-append :
    (ks ls : List HealthAt) → verdicts_of (ks ++ ls) ≡ verdicts_of ks ++ verdicts_of ls
verdicts_of-append [] ls = refl
verdicts_of-append (k ∷ ks) ls = ap (λ vs. (k.state, k.reason) ∷ vs) (verdicts_of-append ks ls)

module _ (t_start printed_ns : ℤ) (snap : HealthSnapshot) where
  note_lem :
      (p : Poller) (vs : List Verdict)
      → let q = note t_start printed_ns snap p in
        verdicts_of q.log ++ printed q vs
        ≡ verdicts_of p.log ++ printed p ((snap.state, snap.reason) ∷ vs)
  unfolding note
  note_lem p vs =
      let l : HealthAt = record {
        t_ms = quot (printed_ns -ℤ t_start) 1_000_000;
        state = snap.state;
        reason = snap.reason;
        age_ms = snap.age_ms;
        writer_matched = snap.writer_matched;
      } in
      let v : Verdict = (snap.state, snap.reason) in
      ground (
        arith,
        verdicts_of-append p.log (l ∷ []),
        append_assoc (verdicts_of p.log) (v ∷ []) (collapse_after v vs),
      )

verdicts-calls {ℓ} :
    {D : Type ℓ} (xs : List (Trace.Arrival D)) (h : HealthMonitor)
    (cs : List (Bytes × Events.Event))
    → verdicts h (calls xs ++ cs) ≡ verdicts (Events.run h (calls xs)) cs
unfolding Events.run
verdicts-calls [] h cs = refl
verdicts-calls ((x, now_ns) ∷ xs) h cs =
    verdicts-calls xs
      (Events.step h
        (x.source_id, Events.sampled now_ns (quot (now_ns -ℤ x.source_timestamp_ns) 1_000_000)))
      cs

module _ {ℓ} {D : Type ℓ} where
  verdicts-told :
      (h : HealthMonitor) (hint : Bytes) (c : Callback D) (cs : List (Bytes × Events.Event))
      → verdicts h (told hint (c ∷ []) ++ cs) ≡ verdicts (Events.run h (told hint (c ∷ []))) cs
  unfolding Events.run
  verdicts-told h hint (data_available ts) cs =
      rw (append-nil (calls (arrivals ts))) (verdicts-calls (arrivals ts) h cs)
  verdicts-told h hint (deadline_missed change) cs = refl
  verdicts-told h hint (liveliness_changed change) cs = ground arith
  verdicts-told h hint (sample_lost change) cs = refl
  verdicts-told h hint (subscription_matched count) cs = refl
  verdicts-told h hint incompatible_qos cs = refl

  module _ {v : Vendor} where
    source_hint-handle :
        (to_double : ℤ → D) (c : Callback D) (s : Subscriber D v)
        → (handle to_double c s).source_hint ≡ hint_after s.source_hint c
    unfolding handle on_requested_deadline_missed on_liveliness_changed
        on_requested_incompatible_qos on_sample_lost on_subscription_matched
    source_hint-handle to_double (data_available ts) s = source_hint-on_data_available ts s
    source_hint-handle to_double (deadline_missed change) s = refl
    source_hint-handle to_double (liveliness_changed change) s = ground arith
    source_hint-handle to_double (sample_lost change) s = refl
    source_hint-handle to_double (subscription_matched count) s = refl
    source_hint-handle to_double incompatible_qos s = refl

handled {ℓ} :
    {D : Type ℓ} (to_double : ℤ → D) {v : Vendor} (c : Callback D) (s : Subscriber D v)
    → (handle to_double c s).health ≡ Events.run s.health (told s.source_hint (c ∷ []))
unfolding handle_all
handled to_double c s = (handle_all_lem to_double (c ∷ []) s).0

happen_all_from {ℓ} :
    {D : Type ℓ} (to_double : ℤ → D) (source_id : Bytes) (t_start : ℤ) {v : Vendor}
    (xs : List (Happening D)) (r : Running D v)
    → rounds_whole xs ≡ true
    → let q = happen_all to_double source_id t_start xs r in
      let s = r.subscriber in
      let cs = calls_of source_id s.source_hint xs in
      (q.subscriber.health ≡ Events.run s.health cs)
      × (verdicts_of q.poller.log
          ≡ verdicts_of r.poller.log ++ printed r.poller (verdicts s.health cs))
unfolding happen_all happen Events.run Events.step
happen_all_from to_double source_id t_start [] r w =
    ground (arith, append-nil (verdicts_of r.poller.log))
happen_all_from to_double source_id t_start (called c ∷ xs) r w =
    let s = r.subscriber in
    let hint = s.source_hint in
    let rest = calls_of source_id (hint_after hint c) xs in
    let told_c = told hint (c ∷ []) in
    let after = handle to_double c s in
    let h : after.health ≡ Events.run s.health told_c = handled to_double c s in
    let i : after.source_hint ≡ hint_after hint c = source_hint-handle to_double c s in
    let (a, b) =
      happen_all_from to_double source_id t_start xs (record r { subscriber = after }) w in
    (
      rw (Events.run-append s.health told_c rest, sym h, sym i) a,
      rw (verdicts-told s.health hint c rest, sym h, sym i) b,
    )
happen_all_from to_double source_id t_start (polled now_ns printed_ns ∷ xs) r w =
    let s = r.subscriber in
    let (health, snap) = tick s.health source_id now_ns in
    let polled_s = record s { health = health } in
    let p = note t_start printed_ns snap r.poller in
    let (a, b) =
      happen_all_from to_double source_id t_start xs (record { subscriber = polled_s; poller = p })
        w in
    (
      a,
      b
          ∙ note_lem t_start printed_ns snap r.poller
              (verdicts health (calls_of source_id s.source_hint xs)),
    )
happen_all_from to_double source_id t_start (decided now_ns ∷ xs) r w = ground (arith, w)
happen_all_from to_double source_id t_start (settled printed_ns ∷ xs) r w = ground (arith, w)

change_twice :
    (id : Bytes) (g : SourceState → SourceState) (h : HealthMonitor)
    → change id g (change id (λ st. st) h) ≡ change id g h
unfolding change state_of
change_twice id g h =
    let st = Dict.at new_source id h.states in
    let made = Dict.put id st h.states in
    ap (λ x. record h { states = Dict.put id (g x) made })
      (Dict.at-put_self new_source id st h.states)
    ∙ ap (λ m. record h { states = m }) (Dict.put-put id (g st) st h.states)

-- The parts of a round with nothing between them are the whole round.
pub round_whole {ℓ} :
    {D : Type ℓ} (to_double : ℤ → D) (source_id : Bytes) (t_start : ℤ) {v : Vendor}
    (now_ns printed_ns : ℤ) (r : Running D v)
    → r.poller.deciding ≡ none
    → let step = happen to_double source_id t_start in
      step (settled printed_ns) (step (decided now_ns) r) ≡ step (polled now_ns printed_ns) r
unfolding happen tick
round_whole {D = D} to_double source_id t_start {v} now_ns printed_ns r e =
    let s = r.subscriber in
    let h = s.health in
    let snap = decide h.policy (state_of h source_id) now_ns in
    let idle : record r.poller { deciding = none } ≡ r.poller =
      ap (λ d. record r.poller { deciding = d }) (sym e) in
    let of : HealthMonitor → Poller → Running D v = λ m p. record {
      subscriber = record s { health = m };
      poller = note t_start printed_ns snap p;
    } in
    ap (λ m. of m (record r.poller { deciding = none })) (change_twice source_id (settle snap) h)
    ∙ ap (of (change source_id (settle snap) h)) idle

-- The poller's log is the sequence of verdicts without repetitions, if no callback comes in while the
-- poller is in `tick`, as nothing in the code keeps it from doing: whatever callbacks come in between
-- the rounds, the states and reasons of its lines are those that the health monitor gives to the
-- polls, called for each callback under the source of its sample or of the last valid sample before
-- it, with every verdict left out that equals the one before. The monitor is left as those calls
-- leave it.
pub happen_all_lem {ℓ} :
    {D : Type ℓ} (to_double : ℤ → D) (source_id : Bytes) (t_start : ℤ) {v : Vendor}
    (xs : List (Happening D)) (s : Subscriber D v)
    → rounds_whole xs ≡ true
    → let start : Running D v = record { subscriber = s; poller = new_poller } in
      let r = happen_all to_double source_id t_start xs start in
      let cs = calls_of source_id s.source_hint xs in
      (r.subscriber.health ≡ Events.run s.health cs)
      × (verdicts_of r.poller.log ≡ collapse (verdicts s.health cs))
happen_all_lem to_double source_id t_start xs s w =
    happen_all_from to_double source_id t_start xs (record { subscriber = s; poller = new_poller })
      w
