-- ===== src/User/Calm.antt =====
-- What has happened to a user that was told to stop: no task begins after that.
use locust.Base.{
  ℕ, ◌≡◌, refl, inl, inr, Bool, true, false, not, ◌&&◌, ◌||◌, Option, none, some, List, [], ◌∷◌,
  if_lem, Option-cases, arith,
}
use locust.User.{
  Raised, interrupt, reschedule_task, reschedule_task_immediately, stop_user, stop_test,
  greenlet_exit, other_exception, Outcome, returned, raised, unfinished, UserState, unset, running,
  waiting, stopping, is_stopping, Event, began, wait_time, slept, handled, told_to_stop, Behaviour,
  Setup, World, Result, ◌>>◌, stop, outcome_of, behaviour_at, tick, interfere, call, wake, wait,
  survive, fire,
}

abbrev pub is_told : Event → Bool
is_told told_to_stop = true
is_told e = false

abbrev pub begins : Event → Bool
begins (began t) = true
begins e = false

abbrev pub was_told : List Event → Bool
was_told [] = false
was_told (e ∷ es) = is_told e || was_told es

-- The list has the last event first.
abbrev pub is_orderly : List Event → Bool
is_orderly [] = true
is_orderly (e ∷ es) = not (begins e && was_told es) && is_orderly es

abbrev pub is_exit : Outcome → Bool
is_exit (raised greenlet_exit) = true
is_exit o = false

-- A user that was told to stop knows: by its state, or because it is being killed.
abbrev pub knows : Result → Bool
knows (o, w) = not (was_told w.happened) || is_stopping w.state || is_exit o

pub record IsCalm (r : Result) : Type 0 where
  pub orderly : is_orderly (World.happened (r.1)) ≡ true
  pub aware : knows r ≡ true

pub new-IsCalm :
    (s : UserState) (n : ℕ) → IsCalm (returned, record { state = s; clock = n; happened = [] })
new-IsCalm s n = record { orderly = refl; aware = refl }

-- An outcome may be replaced by another, unless the user is being killed.
pub IsCalm-outcome :
    {o : Outcome} {w : World} (o' : Outcome) → is_exit o ≡ false → IsCalm (o, w) → IsCalm (o', w)
IsCalm-outcome o' e h = record { orderly = h.orderly; aware = ground (arith, e, h.aware) }

pub then-IsCalm :
    (r : Result) (f : World → Result)
    → IsCalm r
    → ((w : World) → IsCalm (returned, w) → IsCalm (f w))
    → IsCalm (r >> f)
then-IsCalm (returned, w) f h k = k w h
then-IsCalm (raised e, w) f h k = h
then-IsCalm (unfinished, w) f h k = h

survive-IsCalm : (r : Result) → IsCalm r → IsCalm (survive r)
survive-IsCalm (returned, w) h = h
survive-IsCalm (unfinished, w) h = h
survive-IsCalm (raised (interrupt r), w) h = h
survive-IsCalm (raised reschedule_task, w) h = h
survive-IsCalm (raised reschedule_task_immediately, w) h = h
survive-IsCalm (raised stop_user, w) h = h
survive-IsCalm (raised stop_test, w) h = h
survive-IsCalm (raised greenlet_exit, w) h = h
survive-IsCalm (raised other_exception, w) h = IsCalm-outcome _ refl h

module _ (s : Setup) where
  unforced-IsCalm :
      (e : Option Raised) (st : UserState) (n : ℕ) (es : List Event)
      → IsCalm (returned, record { state = st; clock = n; happened = es })
      → IsCalm (
          interfere s (some false) (outcome_of e) (record { state = st; clock = n; happened = es }))
  unfolding stop
  unforced-IsCalm e unset n es h = IsCalm-outcome _ refl h
  unforced-IsCalm e running n es h = record { orderly = h.orderly; aware = refl }
  unforced-IsCalm e waiting n es h = record { orderly = h.orderly; aware = refl }
  unforced-IsCalm e stopping n es h = IsCalm-outcome _ refl h

  told-IsCalm :
      (stopped : Option Bool) (e : Option Raised) (w : World)
      → IsCalm (returned, w)
      → IsCalm (interfere s stopped (outcome_of e) w)
  unfolding stop
  told-IsCalm none e w h = IsCalm-outcome _ refl h
  told-IsCalm (some true) e w h = record { orderly = h.orderly; aware = ground arith }
  told-IsCalm (some false) e w h = unforced-IsCalm e w.state w.clock w.happened h

  pub call-IsCalm :
      (event : Event) (w : World)
      → is_told event ≡ false
      → begins event && is_stopping w.state ≡ false
      → IsCalm (returned, w)
      → IsCalm (call s event w)
  unfolding call
  call-IsCalm event w t e h = told-IsCalm _ _ (tick s event w) (record {
    orderly = ground (arith, t, e, h.aware, h.orderly);
    aware = ground (arith, t, h.aware);
  })

  -- Whoever was told before, what happens in a call is orderly where no task begins.
  pub call-orderly :
      (event : Event) (w : World)
      → begins event ≡ false
      → is_orderly w.happened ≡ true
      → is_orderly (World.happened ((call s event w).1)) ≡ true
  unfolding call stop
  call-orderly event w e h = elim (Option-cases (Behaviour.stopped (behaviour_at s w))) [
    | inl none_yet ↦ rw none_yet (ground (arith, e, h))
    | inr (force, told) ↦ rw told (ground (arith, e, h))
  ]

  pub wake-IsCalm : (w : World) → IsCalm (returned, w) → IsCalm (wake s w)
  wake-IsCalm w h = record { orderly = ground (arith, h.orderly); aware = ground (arith, h.aware) }

  pub wait-IsCalm : (w : World) → IsCalm (returned, w) → IsCalm (wait s w)
  unfolding wait
  wait-IsCalm w h =
      if_lem IsCalm (is_stopping w.state) (λ e. IsCalm-outcome _ refl h)
        λ e.
          then-IsCalm (call s wait_time (record w { state = waiting }) >> call s slept) (wake s)
            (then-IsCalm (call s wait_time (record w { state = waiting })) (call s slept)
              (call-IsCalm wait_time _ refl refl
                (record { orderly = h.orderly; aware = ground (arith, e, h.aware) }))
              (λ v k. call-IsCalm slept v refl refl k))
            wake-IsCalm

  pub fire-IsCalm : (hs : List ℕ) (w : World) → IsCalm (returned, w) → IsCalm (fire s hs w)
  unfolding fire
  fire-IsCalm [] w h = h
  fire-IsCalm (n ∷ hs) w h =
      then-IsCalm _ (fire s hs) (survive-IsCalm _ (call-IsCalm (handled n) w refl refl h))
        (fire-IsCalm hs)
