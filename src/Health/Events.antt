-- ===== src/Health/Events.antt =====
-- A monitor under a sequence of calls from the listener callbacks and the poller: src/dds_transport.cpp
-- makes the first five calls, apps/dds_subscriber.cpp the last.
use resilient_dds_data_plane.Base.{
  ◌≡◌, refl, ◌∙◌, Bool, List, [], ◌∷◌, ◌++◌, ℤ, Bytes, arith, str_eq, eq_of_str_eq, if◌then◌else◌,
}
use resilient_dds_data_plane.Base.Dict
use resilient_dds_data_plane.Health.State.{HealthPolicy, SourceState, new_source}
use resilient_dds_data_plane.Health.Rules.{
  sample, deadline, liveliness, incompatible, matched, decide, settle,
}
use resilient_dds_data_plane.Health.Monitor.{
  HealthMonitor, state_of, change, on_sample, on_deadline_missed, on_liveliness_lost,
  on_incompatible_qos, on_writer_matched, tick,
}

pub data Event : Type 0 where
  sampled : ℤ → ℤ → Event
  missed lease_expired refused : Event
  match_changed : Bool → Event
  polled : ℤ → Event

-- A call, with the source that it names.
unfoldable pub step : HealthMonitor → Bytes × Event → HealthMonitor
step h (id, sampled now_ns age_ms) = on_sample h id now_ns age_ms
step h (id, missed) = on_deadline_missed h id
step h (id, lease_expired) = on_liveliness_lost h id
step h (id, refused) = on_incompatible_qos h id
step h (id, match_changed b) = on_writer_matched h id b
step h (id, polled now_ns) = (tick h id now_ns).0

-- What the call does to the state of the source that it names.
unfoldable pub apply : HealthPolicy → Event → SourceState → SourceState
apply p (sampled now_ns age_ms) st = sample p now_ns age_ms st
apply p missed st = deadline p st
apply p lease_expired st = liveliness st
apply p refused st = incompatible st
apply p (match_changed b) st = matched b st
apply p (polled now_ns) st = settle (decide p st now_ns) st

unfoldable pub run : HealthMonitor → List (Bytes × Event) → HealthMonitor
run h [] = h
run h (c ∷ cs) = run (step h c) cs

-- The calls that name a source, as events.
abbrev pub events_of : Bytes → List (Bytes × Event) → List Event
events_of a [] = []
events_of a ((id, e) ∷ cs) = let rest = events_of a cs in if str_eq id a then e ∷ rest else rest

unfoldable pub apply_all : HealthPolicy → List Event → SourceState → SourceState
apply_all p [] st = st
apply_all p (e ∷ es) st = apply_all p es (apply p e st)

state_of-change :
    (id j : Bytes) (f : SourceState → SourceState) (h : HealthMonitor)
    → state_of (change id f h) j ≡ (if str_eq id j then f (state_of h id) else state_of h j)
unfolding change state_of
state_of-change id j f h = Dict.at-put new_source id j (f (Dict.at new_source id h.states)) h.states

pub policy-step : (h : HealthMonitor) (c : Bytes × Event) → (step h c).policy ≡ h.policy
unfolding step on_sample on_deadline_missed on_liveliness_lost on_incompatible_qos on_writer_matched
    tick
policy-step h (id, sampled now_ns age_ms) = refl
policy-step h (id, missed) = refl
policy-step h (id, lease_expired) = refl
policy-step h (id, refused) = refl
policy-step h (id, match_changed b) = refl
policy-step h (id, polled now_ns) = refl

pub policy-run : (h : HealthMonitor) (cs : List (Bytes × Event)) → (run h cs).policy ≡ h.policy
unfolding run
policy-run h [] = refl
policy-run h (c ∷ cs) = policy-run (step h c) cs ∙ policy-step h c

-- A call changes the state of the source that it names, and of no other.
pub state_of-step :
    (h : HealthMonitor) (id : Bytes) (e : Event) (j : Bytes)
    → state_of (step h (id, e)) j
      ≡ (if str_eq id j then apply h.policy e (state_of h id) else state_of h j)
unfolding step apply on_sample on_deadline_missed on_liveliness_lost on_incompatible_qos
    on_writer_matched tick
state_of-step h id (sampled now_ns age_ms) j =
    state_of-change id j (sample h.policy now_ns age_ms) h
state_of-step h id missed j = state_of-change id j (deadline h.policy) h
state_of-step h id lease_expired j = state_of-change id j liveliness h
state_of-step h id refused j = state_of-change id j incompatible h
state_of-step h id (match_changed b) j = state_of-change id j (matched b) h
state_of-step h id (polled now_ns) j =
    state_of-change id j (settle (decide h.policy (state_of h id) now_ns)) h

-- After any calls for any sources, a source is in the state to which the calls that name it lead,
-- made alone and in that order.
pub calls_isolate :
    (h : HealthMonitor) (j : Bytes) (cs : List (Bytes × Event))
    → state_of (run h cs) j ≡ apply_all h.policy (events_of j cs) (state_of h j)
unfolding run apply_all
calls_isolate h j [] = refl
calls_isolate h j ((id, e) ∷ cs) = ground (
  arith,
  calls_isolate (step h (id, e)) j cs,
  policy-step h (id, e),
  state_of-step h id e j,
  eq_of_str_eq id j,
)

pub run-append :
    (h : HealthMonitor) (xs ys : List (Bytes × Event)) → run h (xs ++ ys) ≡ run (run h xs) ys
unfolding run
run-append h [] ys = refl
run-append h (x ∷ xs) ys = run-append (step h x) xs ys
