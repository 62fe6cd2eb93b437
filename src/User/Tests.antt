-- ===== src/User/Tests.antt =====
-- Runs of users, and instances of the theorems about them.
use locust.Base.{ℕ, zero, ◌≢◌, suc, ◌≡◌, refl, true, false, none, some, List, [], ◌∷◌, ◌++◌}
use locust.User.{
  interrupt, stop_user, other_exception, returned, raised, unfinished, unset, running, waiting,
  stopping, callback, task_set, user_on_start, user_on_stop, on_start, on_stop, began, told_to_stop,
  wait_time, slept, handled, Behaviour, Setup, World, call, wait, fire, stop,
}
use locust.User.Loop
use locust.User.Loop.{
  default_task_set, instance_of, run_loop, start, round, next_task, execute_task, handle, fail,
  schedule_all, leave_stopped, call_on_stop, go_on,
}
use locust.User.Run
use locust.User.Calm.{was_told}
use locust.User.Stops.{run-stops}
use locust.User.Ends.{at, IsTold, failing_task-stops}
use locust.User.Fired.{all_handled}

program : Unit {0}
unfolding stop call wait fire schedule_all next_task execute_task fail handle round start run_loop
    Loop.run Run.run all_handled
program = tt

abbrev quiet : Behaviour
quiet = record { raises = none; stopped = none; scheduled = []; choice = 0 }

abbrev told : Behaviour
told = record quiet { stopped = some false }

abbrev behaviours : List Behaviour → ℕ → Behaviour
behaviours [] n = quiet
behaviours (b ∷ bs) zero = b
behaviours (b ∷ bs) (suc n) = behaviours bs n

-- A user with the task set 7, whose tasks are 1 and 2.
abbrev setup : List Behaviour → Setup
setup bs = record {
  user_tasks = task_set 7 ∷ [];
  set_tasks = λ c. callback 1 ∷ callback 2 ∷ [];
  handlers = 4 ∷ [];
  catch_exceptions = true;
  behaviour = behaviours bs;
}

abbrev schedules : Behaviour
schedules = record quiet { scheduled = (callback 2, false) ∷ [] }

abbrev graceful : Setup
graceful = setup (quiet ∷ schedules ∷ told ∷ [])

-- The user is killed while it sleeps.
killed_asleep : Run.run (setup (quiet ∷ quiet ∷ quiet ∷ quiet ∷ told ∷ [])) 5 (at unset 0 []) ≡ (
  returned,
  at waiting 7 (
      user_on_stop
      ∷ on_stop 7
      ∷ told_to_stop
      ∷ slept
      ∷ wait_time
      ∷ began (callback 1)
      ∷ on_start 7
      ∷ began (task_set 7)
      ∷ user_on_start
      ∷ []),
)
unfolding program
killed_asleep = refl

-- After an exception in a task, `stop` while the user sleeps: the task set's `on_stop` is skipped.
killed_after_failure :
    Run.run
      (setup (
        quiet ∷ quiet ∷ record quiet { raises = some other_exception } ∷ quiet ∷ quiet ∷ told ∷ []))
      5
      (at unset 0 [])
    ≡ (
      returned,
      at waiting 7 (
          user_on_stop
          ∷ told_to_stop
          ∷ slept
          ∷ wait_time
          ∷ handled 4
          ∷ began (callback 1)
          ∷ on_start 7
          ∷ began (task_set 7)
          ∷ user_on_start
          ∷ []),
    )
unfolding program
killed_after_failure = refl

goes_on : (Run.run (setup []) 3 (at unset 0 [])).0 ≡ unfinished
unfolding program
goes_on = refl

stopped_gracefully :
    World.happened ((Run.run graceful 4 (at unset 0 [])).1)
    ≡ (user_on_stop ∷ on_stop 7 ∷ told_to_stop ∷ [])
      ++ began (callback 2) ∷ on_start 7 ∷ began (task_set 7) ∷ user_on_start ∷ []
unfolding program
stopped_gracefully = refl

run-stops_example : was_told (on_start 7 ∷ began (task_set 7) ∷ user_on_start ∷ []) ≡ false
run-stops_example =
    run-stops graceful 4 (at unset 0 []) refl (callback 2)
      (user_on_stop ∷ on_stop 7 ∷ told_to_stop ∷ []) _ stopped_gracefully

told-IsTold : IsTold none told
told-IsTold = record { ends = refl; told = refl }

chooses :
    next_task graceful default_task_set [] (at running 1 (user_on_start ∷ []))
    ≡ some (task_set 7, [])
unfolding program
chooses = refl

abbrev fails : Setup
fails = setup (record told { raises = some other_exception } ∷ [])

fails_fire :
    fire fails (4 ∷ []) (at stopping 1 (told_to_stop ∷ began (callback 1) ∷ []))
    ≡ (returned, at stopping 2 (handled 4 ∷ told_to_stop ∷ began (callback 1) ∷ []))
unfolding program
fails_fire = refl

failing_task-stops_example :
    run_loop fails 3 (instance_of 7) (callback 1 ∷ []) (at running 0 [])
    ≡ (raised stop_user, at stopping 2 (handled 4 ∷ told_to_stop ∷ began (callback 1) ∷ []))
failing_task-stops_example =
    failing_task-stops fails 2 0 [] 7 1 [] _ refl (record { ends = refl; told = refl }) fails_fire
      refl

abbrev interrupts : Setup
interrupts = setup (schedules ∷ record quiet { raises = some (interrupt true) } ∷ [])

nested_stops :
    start graceful (run_loop graceful 3) (instance_of 7) (at running 1 (began (task_set 7) ∷ []))
    ≡ (
      raised stop_user,
      at stopping 4
          (on_stop 7 ∷ told_to_stop ∷ began (callback 2) ∷ on_start 7 ∷ began (task_set 7) ∷ []),
    )
unfolding program
nested_stops = refl

abbrev all_fail : Setup
all_fail = record (setup []) { behaviour = λ n. record quiet { raises = some other_exception } }

ends : (Run.run graceful 4 (at unset 0 [])).0 ≢ unfinished
unfolding program
ends = λ e. cc
