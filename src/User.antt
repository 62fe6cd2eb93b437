-- ===== src/User.antt =====
-- `class User` of locust/user/users.py, the waiting and the events of a running user, and `fire` of
-- locust/event.py. The greenlet of a user runs code that is not the library's: its tasks, its hooks
-- `on_start`, `on_stop` and `wait_time`, and the listeners. What these do is a parameter, `Setup`.
-- While such code runs, another greenlet may call `stop` on the user.
pub mod Loop
pub mod Run
pub mod Calm
pub mod Stops
pub mod Ends
pub mod Fired
mod Tests
use locust.Base.{ℕ, ◌+◌, Bool, true, false, Option, none, some, List, [], ◌∷◌, ◌||◌, if◌then◌else◌}

-- The exceptions: those of locust/exception.py that steer a user, GreenletExit, and the rest.
pub data Raised : Type 0 where
  interrupt : (reschedule : Bool) → Raised
  reschedule_task : Raised
  reschedule_task_immediately : Raised
  stop_user : Raised
  stop_test : Raised
  greenlet_exit : Raised
  other_exception : Raised

-- How a call has ended, or that it has not.
pub data Outcome : Type 0 where
  returned : Outcome
  raised : Raised → Outcome
  unfinished : Outcome

-- `_state`, which is None until the user runs.
pub data UserState : Type 0 where
  unset : UserState
  running : UserState
  waiting : UserState
  stopping : UserState

abbrev pub is_stopping : UserState → Bool
is_stopping stopping = true
is_stopping s = false

abbrev pub is_running : UserState → Bool
is_running running = true
is_running s = false

abbrev pub is_waiting : UserState → Bool
is_waiting waiting = true
is_waiting s = false

-- A function, or a class of task sets, both by number.
pub data Task : Type 0 where
  callback : ℕ → Task
  task_set : ℕ → Task

pub data Event : Type 0 where
  user_on_start : Event
  user_on_stop : Event
  on_start : ℕ → Event
  on_stop : ℕ → Event
  began : Task → Event
  wait_time : Event
  slept : Event
  handled : ℕ → Event
  told_to_stop : Event

-- What one call of such code, or one sleep, does: the exception it ends with, whether `stop(force)`
-- is called meanwhile, and the calls of `schedule_task`, with `first`. The number is what the
-- random generator says then.
pub record Behaviour : Type 0 where
  pub raises : Option Raised
  pub stopped : Option Bool
  pub scheduled : List (Task × Bool)
  pub choice : ℕ

-- The tasks of the user class and of the classes of task sets, the listeners of `user_error`, the
-- flag of the environment, and the behaviour of each call, in the order of the calls.
pub record Setup : Type 0 where
  pub user_tasks : List Task
  pub set_tasks : ℕ → List Task
  pub handlers : List ℕ
  pub catch_exceptions : Bool
  pub behaviour : ℕ → Behaviour

-- The user, the number of calls so far, and what has happened, the last first.
pub record World : Type 0 where
  pub state : UserState
  pub clock : ℕ
  pub happened : List Event

abbrev pub Result : Type 0
Result = Outcome × World

infixl 20 ◌>>◌
abbrev pub ◌>>◌ : Result → (World → Result) → Result
(returned, w) >> f = f w
(raised e, w) >> f = (raised e, w)
(unfinished, w) >> f = (unfinished, w)

-- `stop`: whether the greenlet is killed, and the state then; `none` is its exception.
unfoldable pub stop : (force : Bool) → UserState → Option (Bool × UserState)
stop force s =
    if force || is_waiting s
    then some (true, s)
    else if is_running s
    then some (false, stopping)
    else none

abbrev pub outcome_of : Option Raised → Outcome
outcome_of none = returned
outcome_of (some e) = raised e

abbrev pub note : Event → World → World
note event w = record w { happened = event ∷ w.happened }

-- A greenlet that is killed goes on with GreenletExit, where it is.
abbrev pub after_stop : Option (Bool × UserState) → Outcome → World → Result
after_stop none o w = (o, w)
after_stop (some (true, s)) o w = (raised greenlet_exit, note told_to_stop w)
after_stop (some (false, s)) o w = (o, record (note told_to_stop w) { state = s })

-- Only an exception that does not steer the user is caught.
abbrev pub survive : Result → Result
survive (raised other_exception, w) = (returned, w)
survive r = r

module _ (s : Setup) where
  abbrev pub behaviour_at : World → Behaviour
  behaviour_at w = Setup.behaviour s w.clock

  abbrev pub tick : Event → World → World
  tick event w = record w { clock = w.clock + 1; happened = event ∷ w.happened }

  abbrev pub interfere : Option Bool → Outcome → World → Result
  interfere none o w = (o, w)
  interfere (some force) o w = after_stop (stop force w.state) o w

  unfoldable pub call : Event → World → Result
  unfolding stop
  call event w =
      interfere (Behaviour.stopped (behaviour_at w))
        (outcome_of (Behaviour.raises (behaviour_at w))) (tick event w)

  abbrev pub wake : World → Result
  wake w =
      if is_stopping w.state
      then (raised stop_user, w)
      else (returned, record w { state = running })

  -- `TaskSet.wait`, which `User.wait` calls.
  unfoldable pub wait : World → Result
  unfolding call
  wait w =
      if is_stopping w.state
      then (raised stop_user, w)
      else call wait_time (record w { state = waiting }) >> call slept >> wake

  -- `EventHook.fire`
  unfoldable pub fire : List ℕ → World → Result
  unfolding call
  fire [] w = (returned, w)
  fire (h ∷ hs) w = survive (call (handled h) w) >> fire hs
