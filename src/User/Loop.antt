-- ===== src/User/Loop.antt =====
-- `class TaskSet` and `class DefaultTaskSet` of locust/user/task.py: `run` with what it calls. Fuel
-- bounds the rounds of the loops, nested ones included; a user need not end at all.
use locust.Base.{
  ℕ, zero, suc, ◌%◌, Bool, true, false, Option, none, some, List, [], ◌∷◌, ◌++◌, length, get_elem?,
  if◌then◌else◌,
}
use locust.User.{
  Raised, interrupt, reschedule_task, reschedule_task_immediately, stop_user, stop_test,
  greenlet_exit, other_exception, returned, raised, unfinished, is_stopping, Task, callback,
  task_set, on_start, on_stop, began, Behaviour, Setup, World, Result, ◌>>◌, note, behaviour_at,
  call, wait, fire,
}

pub data Instance : Type 0 where
  default_task_set : Instance
  instance_of : ℕ → Instance

abbrev pub schedule_task : List Task → Task × Bool → List Task
schedule_task queue (task, true) = task ∷ queue
schedule_task queue (task, false) = queue ++ task ∷ []

unfoldable pub schedule_all : List (Task × Bool) → List Task → List Task
schedule_all [] queue = queue
schedule_all (call ∷ calls) queue = schedule_all calls (schedule_task queue call)

-- `random.choice`; `none` for an empty list.
abbrev pub random_choice : ℕ → List Task → Option Task
random_choice i tasks = get_elem? tasks (i % length tasks)

-- What a round of the loop comes to.
pub data Step : Type 0 where
  again : List Task → World → Step
  ended : Result → Step

-- The exception that hands the control over to the parent.
abbrev pub hand_over : (reschedule : Bool) → Raised
hand_over true = reschedule_task_immediately
hand_over false = reschedule_task

-- After `on_stop`, in the handler of InterruptTaskSet.
abbrev pub leave_interrupted : (reschedule : Bool) → Result → Result
leave_interrupted r (raised stop_user, w) = (raised stop_user, w)
leave_interrupted r (raised stop_test, w) = (raised stop_test, w)
leave_interrupted r (raised greenlet_exit, w) = (raised greenlet_exit, w)
leave_interrupted r (o, w) = (raised (hand_over r), w)

-- After `on_stop`, in the handler of the exceptions that stop the user. GreenletExit is not an
-- `Exception`.
abbrev pub leave_stopped : Raised → Result → Result
leave_stopped e (raised greenlet_exit, w) = (raised greenlet_exit, w)
leave_stopped e (o, w) = (raised e, w)

abbrev pub resume : List Task → Result → Step
resume queue (returned, w) = again queue w
resume queue (raised e, w) = ended (raised e, w)
resume queue (unfinished, w) = ended (unfinished, w)

abbrev pub leave_start : Raised → Raised
leave_start (interrupt r) = hand_over r
leave_start e = e

-- `run`, before the loop.
abbrev pub started : (World → Result) → Result → Result
started loop (returned, w) = loop w
started loop (raised e, w) = (raised (leave_start e), w)
started loop (unfinished, w) = (unfinished, w)

abbrev pub go_on : (List Task → World → Result) → Step → Result
go_on loop (again queue w) = loop queue w
go_on loop (ended r) = r

module _ (s : Setup) where
  abbrev pub tasks_of : Instance → List Task
  tasks_of default_task_set = Setup.user_tasks s
  tasks_of (instance_of c) = Setup.set_tasks s c

  -- The hooks of a `DefaultTaskSet` are those of the class, which do nothing.
  abbrev pub call_on_start : Instance → World → Result
  call_on_start default_task_set w = (returned, w)
  call_on_start (instance_of c) w = call s (on_start c) w

  abbrev pub call_on_stop : Instance → World → Result
  call_on_stop default_task_set w = (returned, w)
  call_on_stop (instance_of c) w = call s (on_stop c) w

  -- The task at the front of the queue, after `schedule_task(get_next_task())` where it is empty.
  unfoldable pub next_task : Instance → List Task → World → Option (Task × List Task)
  next_task i (task ∷ queue) w = some (task, queue)
  next_task i [] w = elim (random_choice (Behaviour.choice (behaviour_at s w)) (tasks_of i)) [
    | none ↦ none
    | some task ↦ some (task, [])
  ]

  abbrev pub queue_after : Task → List Task → World → List Task
  queue_after (callback t) queue w = schedule_all (Behaviour.scheduled (behaviour_at s w)) queue
  queue_after (task_set c) queue w = queue

  abbrev pub after_task : Result → Result
  after_task (returned, w) = wait s w
  after_task (raised reschedule_task, w) = wait s w
  after_task (raised reschedule_task_immediately, w) = (returned, w)
  after_task r = r

  -- The handler of `Exception`.
  unfoldable pub fail : List Task → Raised → World → Step
  unfolding fire wait
  fail queue e w = resume queue (
      fire s (Setup.handlers s) w >> λ w'.
      if Setup.catch_exceptions s then wait s w' else (raised e, w'))

  unfoldable pub handle : Instance → List Task → Result → Step
  unfolding call fail
  handle i queue (returned, w) = again queue w
  handle i queue (unfinished, w) = ended (unfinished, w)
  handle i queue (raised (interrupt r), w) = ended (leave_interrupted r (call_on_stop i w))
  handle i queue (raised stop_user, w) = ended (leave_stopped stop_user (call_on_stop i w))
  handle i queue (raised stop_test, w) = ended (leave_stopped stop_test (call_on_stop i w))
  handle i queue (raised greenlet_exit, w) = ended (leave_stopped greenlet_exit (call_on_stop i w))
  handle i queue (raised reschedule_task, w) = fail queue reschedule_task w
  handle i queue (raised reschedule_task_immediately, w) = fail queue reschedule_task_immediately w
  handle i queue (raised other_exception, w) = fail queue other_exception w

  module _ (run_nested : Instance → World → Result) where
    unfoldable pub execute_task : Task → World → Result
    unfolding call
    execute_task (callback t) w = call s (began (callback t)) w
    execute_task (task_set c) w = run_nested (instance_of c) (note (began (task_set c)) w)

    abbrev pub execute_next : Task → World → Result
    execute_next task w =
        if is_stopping w.state then (raised stop_user, w) else after_task (execute_task task w)

    -- One round of `while True`.
    unfoldable pub round : Instance → List Task → World → Step
    unfolding next_task execute_task handle schedule_all
    round i queue w = elim (next_task i queue w) [
      | none ↦ handle i [] (raised other_exception, w)
      | some (task, rest) ↦ handle i (queue_after task rest w) (execute_next task w)
    ]

  abbrev pub scheduled_first : Instance → World → List Task
  scheduled_first default_task_set w = []
  scheduled_first (instance_of c) w = schedule_all (Behaviour.scheduled (behaviour_at s w)) []

  unfoldable pub start : (Instance → List Task → World → Result) → Instance → World → Result
  unfolding call schedule_all
  start loop i w = started (loop i (scheduled_first i w)) (call_on_start i w)

  unfoldable pub run_loop : (fuel : ℕ) → Instance → List Task → World → Result
  unfolding round start
  run_loop zero i queue w = (unfinished, w)
  run_loop (suc fuel) i queue w =
      let loop = run_loop fuel in go_on (loop i) (round (start loop) i queue w)

  unfoldable pub run : (fuel : ℕ) → Instance → World → Result
  unfolding run_loop start
  run fuel i w = start (run_loop fuel) i w
