-- ===== src/User/Ends.antt =====
-- How a run of a user, and of a task set in it, comes to its end.
use locust.Base.{
  ℕ, suc, ◌+◌, ◌≡◌, refl, Bool, true, false, Option, none, some, List, [], ◌∷◌, if◌then◌else◌,
}
use locust.User.{
  Raised, interrupt, reschedule_task, reschedule_task_immediately, stop_user, stop_test,
  greenlet_exit, other_exception, Outcome, returned, raised, unfinished, UserState, running,
  stopping, is_stopping, Task, callback, task_set, Event, on_start, on_stop, began, told_to_stop,
  Behaviour, Setup, World, note, outcome_of, wait, fire, stop,
}
use locust.User.Loop.{
  Instance, instance_of, leave_stopped, call_on_stop, handle, start, go_on, run_loop,
}
use locust.User.Calm.{is_exit}

abbrev pub at : UserState → ℕ → List Event → World
at state clock happened = record { state = state; clock = clock; happened = happened }

-- Where a task set that its first task has interrupted leaves the user.
abbrev pub interrupted : (c t n : ℕ) → List Event → World
interrupted c t n es =
    at running (n + 1 + 1 + 1)
      (on_stop c ∷ began (callback t) ∷ on_start c ∷ began (task_set c) ∷ es)

-- Such a call returns, and nobody stops the user meanwhile.
pub record IsQuiet (b : Behaviour) : Type 0 where
  pub unraised : Behaviour.raises b ≡ none
  pub unstopped : Behaviour.stopped b ≡ none

-- In such a call, the user is told to stop, with no force.
pub record IsTold (e : Option Raised) (b : Behaviour) : Type 0 where
  pub ends : Behaviour.raises b ≡ e
  pub told : Behaviour.stopped b ≡ some false

abbrev pub stops : Raised → Bool
stops stop_user = true
stops stop_test = true
stops greenlet_exit = true
stops e = false

leave_stopped_lem :
    (e : Raised) (o : Outcome) (w : World)
    → is_exit o ≡ false
    → leave_stopped e (o, w) ≡ (raised e, w)
leave_stopped_lem e returned w h = refl
leave_stopped_lem e unfinished w h = refl
leave_stopped_lem e (raised (interrupt r)) w h = refl
leave_stopped_lem e (raised reschedule_task) w h = refl
leave_stopped_lem e (raised reschedule_task_immediately) w h = refl
leave_stopped_lem e (raised stop_user) w h = refl
leave_stopped_lem e (raised stop_test) w h = refl
leave_stopped_lem e (raised greenlet_exit) w h = cc
leave_stopped_lem e (raised other_exception) w h = refl

module _ (s : Setup) where
  module _ (fuel n : ℕ) (es : List Event) where
    -- A task is told to stop, with no force, and returns. Then it is the last one, and the run of its
    -- task set ends with StopUser, after `on_stop`, whatever that raises but GreenletExit, unless the
    -- user is stopped again meanwhile.
    pub task-stops :
        (c t : ℕ) (queue : List Task)
        → IsTold none (Setup.behaviour s n)
        → Behaviour.stopped (Setup.behaviour s (n + 1)) ≡ none
        → is_exit (outcome_of (Behaviour.raises (Setup.behaviour s (n + 1)))) ≡ false
        → run_loop s (suc fuel) (instance_of c) (callback t ∷ queue) (at running n es) ≡ (
          raised stop_user,
          at stopping (n + 1 + 1) (on_stop c ∷ told_to_stop ∷ began (callback t) ∷ es),
        )
    unfolding run_loop stop
    task-stops c t queue h k e = rw (h.ends, h.told, k) (leave_stopped_lem stop_user _ _ e)

    -- A task is told to stop, with no force, and raises an exception that does not steer the user,
    -- where the environment catches exceptions and `fire` returns, for the listeners, with the user
    -- still stopping. Then the run of its task set ends with StopUser, where the listeners have left
    -- the user: `on_stop` of the task set is not called.
    pub failing_task-stops :
        (c t : ℕ) (queue : List Task) (v : World)
        → Setup.catch_exceptions s ≡ true
        → IsTold (some other_exception) (Setup.behaviour s n)
        → fire s (Setup.handlers s) (at stopping (n + 1) (told_to_stop ∷ began (callback t) ∷ es))
          ≡ (returned, v)
        → v.state ≡ stopping
        → run_loop s (suc fuel) (instance_of c) (callback t ∷ queue) (at running n es)
          ≡ (raised stop_user, v)
    unfolding run_loop stop
    failing_task-stops c t queue v k h e f = rw (h.ends, h.told, k, e, f) refl

    -- A task set `c` begins as a task of `i`; its `on_start` schedules a task, which calls
    -- `interrupt`, and nobody stops the user. Then `on_stop` of `c` is called, and the run of `i` goes
    -- on with its queue as it was: with its next task, or, where the task does not reschedule, by
    -- first waiting.
    pub interrupt-resumes :
        (i : Instance) (c t : ℕ) (r : Bool) (queue : List Task)
        → IsQuiet (Setup.behaviour s n)
        → Behaviour.scheduled (Setup.behaviour s n) ≡ (callback t, false) ∷ []
        → Behaviour.raises (Setup.behaviour s (n + 1)) ≡ some (interrupt r)
        → Behaviour.stopped (Setup.behaviour s (n + 1)) ≡ none
        → IsQuiet (Setup.behaviour s (n + 1 + 1))
        → run_loop s (suc (suc fuel)) i (task_set c ∷ queue) (at running n es) ≡ (
            if r
            then run_loop s (suc fuel) i queue (interrupted c t n es)
            else go_on (run_loop s (suc fuel) i) (handle s i queue (wait s (interrupted c t n es))))
    unfolding run_loop stop
    interrupt-resumes i c t true queue h k e f g =
        rw (h.unraised, h.unstopped, k, e, f, g.unraised, g.unstopped) refl
    interrupt-resumes i c t false queue h k e f g =
        rw (h.unraised, h.unstopped, k, e, f, g.unraised, g.unstopped) refl

  -- A task set `c` runs as a task of `i`, and its run ends with an exception that stops the user.
  -- Then the run of `i` ends with that too, or with GreenletExit, after its own `on_stop`.
  pub stop-passes :
      (fuel : ℕ) (i : Instance) (c : ℕ) (queue : List Task) (w v : World) (e : Raised)
      → stops e ≡ true
      → is_stopping w.state ≡ false
      → start s (run_loop s fuel) (instance_of c) (note (began (task_set c)) w) ≡ (raised e, v)
      → run_loop s (suc fuel) i (task_set c ∷ queue) w ≡ leave_stopped e (call_on_stop s i v)
  unfolding run_loop
  stop-passes fuel i c queue w v stop_user h k f = rw (k, f) refl
  stop-passes fuel i c queue w v stop_test h k f = rw (k, f) refl
  stop-passes fuel i c queue w v greenlet_exit h k f = rw (k, f) refl
  stop-passes fuel i c queue w v (interrupt r) h k f = cc
  stop-passes fuel i c queue w v reschedule_task h k f = cc
  stop-passes fuel i c queue w v reschedule_task_immediately h k f = cc
  stop-passes fuel i c queue w v other_exception h k f = cc
