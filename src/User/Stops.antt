-- ===== src/User/Stops.antt =====
-- No task begins after `User.stop` has been called, in any nesting of task sets.
use locust.Base.{
  ℕ, zero, suc, ◌≡◌, refl, sym, ap, ◌∙◌, inl, inr, Bool, true, false, List, [], ◌∷◌, ◌++◌, if_lem,
  Option-cases, arith,
}
use locust.User.{
  Raised, interrupt, reschedule_task, reschedule_task_immediately, stop_user, stop_test,
  greenlet_exit, other_exception, returned, raised, unfinished, UserState, running, is_stopping,
  Task, callback, task_set, Event, user_on_start, user_on_stop, on_start, on_stop, began, Setup,
  World, Result, call, fire,
}
use locust.User.Loop
use locust.User.Loop.{
  Instance, default_task_set, instance_of, Step, again, ended, hand_over, leave_interrupted,
  leave_stopped, resume, call_on_start, call_on_stop, next_task, execute_task, queue_after,
  after_task, fail, handle, execute_next, round, scheduled_first, started, start, go_on, run_loop,
}
use locust.User.Run
use locust.User.Calm.{
  is_orderly, was_told, IsCalm, new-IsCalm, IsCalm-outcome, then-IsCalm, call-IsCalm, call-orderly,
  wait-IsCalm, fire-IsCalm,
}

-- A round comes to a calm result, or goes on calmly.
data StepIsCalm : Step → Type 0 where
  calm_again : (queue : List Task) (w : World) → IsCalm (returned, w) → StepIsCalm (again queue w)
  calm_end : (r : Result) → IsCalm r → StepIsCalm (ended r)

abbrev RunsCalmly : (World → Result) → Type 0
RunsCalmly f = (w : World) → IsCalm (returned, w) → IsCalm (f w)

leave_interrupted-IsCalm : (r : Bool) (x : Result) → IsCalm x → IsCalm (leave_interrupted r x)
leave_interrupted-IsCalm r (returned, w) h = IsCalm-outcome _ refl h
leave_interrupted-IsCalm r (unfinished, w) h = IsCalm-outcome _ refl h
leave_interrupted-IsCalm r (raised (interrupt q), w) h = IsCalm-outcome _ refl h
leave_interrupted-IsCalm r (raised reschedule_task, w) h = IsCalm-outcome _ refl h
leave_interrupted-IsCalm r (raised reschedule_task_immediately, w) h = IsCalm-outcome _ refl h
leave_interrupted-IsCalm r (raised stop_user, w) h = h
leave_interrupted-IsCalm r (raised stop_test, w) h = h
leave_interrupted-IsCalm r (raised greenlet_exit, w) h = h
leave_interrupted-IsCalm r (raised other_exception, w) h = IsCalm-outcome _ refl h

leave_stopped-IsCalm : (e : Raised) (x : Result) → IsCalm x → IsCalm (leave_stopped e x)
leave_stopped-IsCalm e (returned, w) h = IsCalm-outcome _ refl h
leave_stopped-IsCalm e (unfinished, w) h = IsCalm-outcome _ refl h
leave_stopped-IsCalm e (raised (interrupt q), w) h = IsCalm-outcome _ refl h
leave_stopped-IsCalm e (raised reschedule_task, w) h = IsCalm-outcome _ refl h
leave_stopped-IsCalm e (raised reschedule_task_immediately, w) h = IsCalm-outcome _ refl h
leave_stopped-IsCalm e (raised stop_user, w) h = IsCalm-outcome _ refl h
leave_stopped-IsCalm e (raised stop_test, w) h = IsCalm-outcome _ refl h
leave_stopped-IsCalm e (raised greenlet_exit, w) h = h
leave_stopped-IsCalm e (raised other_exception, w) h = IsCalm-outcome _ refl h

exit-IsCalm :
    (x : Result) → is_orderly (World.happened (x.1)) ≡ true → IsCalm (leave_stopped greenlet_exit x)
exit-IsCalm (returned, w) h = record { orderly = h; aware = ground arith }
exit-IsCalm (unfinished, w) h = record { orderly = h; aware = ground arith }
exit-IsCalm (raised (interrupt q), w) h = record { orderly = h; aware = ground arith }
exit-IsCalm (raised reschedule_task, w) h = record { orderly = h; aware = ground arith }
exit-IsCalm (raised reschedule_task_immediately, w) h = record { orderly = h; aware = ground arith }
exit-IsCalm (raised stop_user, w) h = record { orderly = h; aware = ground arith }
exit-IsCalm (raised stop_test, w) h = record { orderly = h; aware = ground arith }
exit-IsCalm (raised greenlet_exit, w) h = record { orderly = h; aware = ground arith }
exit-IsCalm (raised other_exception, w) h = record { orderly = h; aware = ground arith }

resume-StepIsCalm : (queue : List Task) (x : Result) → IsCalm x → StepIsCalm (resume queue x)
resume-StepIsCalm queue (returned, w) h = calm_again queue w h
resume-StepIsCalm queue (raised e, w) h = calm_end _ h
resume-StepIsCalm queue (unfinished, w) h = calm_end _ h

started-IsCalm :
    (loop : World → Result) → RunsCalmly loop → (x : Result) → IsCalm x → IsCalm (started loop x)
started-IsCalm loop k (returned, w) h = k w h
started-IsCalm loop k (unfinished, w) h = h
started-IsCalm loop k (raised (interrupt true), w) h = IsCalm-outcome _ refl h
started-IsCalm loop k (raised (interrupt false), w) h = IsCalm-outcome _ refl h
started-IsCalm loop k (raised reschedule_task, w) h = h
started-IsCalm loop k (raised reschedule_task_immediately, w) h = h
started-IsCalm loop k (raised stop_user, w) h = h
started-IsCalm loop k (raised stop_test, w) h = h
started-IsCalm loop k (raised greenlet_exit, w) h = h
started-IsCalm loop k (raised other_exception, w) h = h

go_on-IsCalm :
    (loop : List Task → World → Result)
    → ((queue : List Task) → RunsCalmly (loop queue))
    → (x : Step) → StepIsCalm x
    → IsCalm (go_on loop x)
go_on-IsCalm loop k _ (calm_again queue w h) = k queue w h
go_on-IsCalm loop k _ (calm_end r h) = h

told_before :
    (task : Task) (later earlier : List Event)
    → is_orderly (later ++ began task ∷ earlier) ≡ true
    → was_told earlier ≡ false
told_before task [] earlier h = ground (arith, h)
told_before task (e ∷ later) earlier h = told_before task later earlier (ground (arith, h))

fresh-IsCalm :
    (st : UserState) (n : ℕ) {es : List Event}
    → es ≡ []
    → IsCalm (returned, record { state = st; clock = n; happened = es })
fresh-IsCalm st n e = rw e (new-IsCalm st n)

module _ (s : Setup) where
  on_stop-IsCalm : (i : Instance) → RunsCalmly (call_on_stop s i)
  on_stop-IsCalm default_task_set w h = h
  on_stop-IsCalm (instance_of c) w h = call-IsCalm s (on_stop c) w refl refl h

  on_start-IsCalm : (i : Instance) → RunsCalmly (call_on_start s i)
  on_start-IsCalm default_task_set w h = h
  on_start-IsCalm (instance_of c) w h = call-IsCalm s (on_start c) w refl refl h

  on_stop-orderly :
      (i : Instance) (w : World)
      → is_orderly w.happened ≡ true
      → is_orderly (World.happened ((call_on_stop s i w).1)) ≡ true
  on_stop-orderly default_task_set w h = h
  on_stop-orderly (instance_of c) w h = call-orderly s (on_stop c) w refl h

  fail-StepIsCalm :
      (queue : List Task) (e : Raised) (w : World)
      → IsCalm (returned, w)
      → StepIsCalm (fail s queue e w)
  unfolding fail
  fail-StepIsCalm queue e w h = resume-StepIsCalm queue _ (
      then-IsCalm (fire s (Setup.handlers s) w) _ (fire-IsCalm s (Setup.handlers s) w h) λ v k.
        if_lem IsCalm (Setup.catch_exceptions s) (λ _. wait-IsCalm s v k)
          λ _. IsCalm-outcome (raised e) refl k)

  handle-StepIsCalm :
      (i : Instance) (queue : List Task) (x : Result) → IsCalm x → StepIsCalm (handle s i queue x)
  unfolding handle
  handle-StepIsCalm i queue (returned, w) h = calm_again queue w h
  handle-StepIsCalm i queue (unfinished, w) h = calm_end _ h
  handle-StepIsCalm i queue (raised (interrupt r), w) h =
      calm_end _ (leave_interrupted-IsCalm r _ (on_stop-IsCalm i w (IsCalm-outcome _ refl h)))
  handle-StepIsCalm i queue (raised stop_user, w) h =
      calm_end _ (leave_stopped-IsCalm _ _ (on_stop-IsCalm i w (IsCalm-outcome _ refl h)))
  handle-StepIsCalm i queue (raised stop_test, w) h =
      calm_end _ (leave_stopped-IsCalm _ _ (on_stop-IsCalm i w (IsCalm-outcome _ refl h)))
  handle-StepIsCalm i queue (raised greenlet_exit, w) h =
      calm_end _ (exit-IsCalm _ (on_stop-orderly i w h.orderly))
  handle-StepIsCalm i queue (raised reschedule_task, w) h =
      fail-StepIsCalm queue _ w (IsCalm-outcome _ refl h)
  handle-StepIsCalm i queue (raised reschedule_task_immediately, w) h =
      fail-StepIsCalm queue _ w (IsCalm-outcome _ refl h)
  handle-StepIsCalm i queue (raised other_exception, w) h =
      fail-StepIsCalm queue _ w (IsCalm-outcome _ refl h)

  after_task-IsCalm : (x : Result) → IsCalm x → IsCalm (after_task s x)
  after_task-IsCalm (returned, w) h = wait-IsCalm s w h
  after_task-IsCalm (unfinished, w) h = h
  after_task-IsCalm (raised (interrupt r), w) h = h
  after_task-IsCalm (raised reschedule_task, w) h = wait-IsCalm s w (IsCalm-outcome _ refl h)
  after_task-IsCalm (raised reschedule_task_immediately, w) h = IsCalm-outcome _ refl h
  after_task-IsCalm (raised stop_user, w) h = h
  after_task-IsCalm (raised stop_test, w) h = h
  after_task-IsCalm (raised greenlet_exit, w) h = h
  after_task-IsCalm (raised other_exception, w) h = h

  module _ (nested : Instance → World → Result)
      (calm : (i : Instance) → RunsCalmly (nested i)) where
    execute_task-IsCalm :
        (t : Task) (w : World)
        → is_stopping w.state ≡ false
        → IsCalm (returned, w)
        → IsCalm (execute_task s nested t w)
    unfolding execute_task
    execute_task-IsCalm (callback t) w e h = call-IsCalm s (began (callback t)) w refl e h
    execute_task-IsCalm (task_set c) w e h =
        calm (instance_of c) _
          (record { orderly = ground (arith, e, h.orderly, h.aware); aware = h.aware })

    round-StepIsCalm :
        (i : Instance) (queue : List Task) (w : World)
        → IsCalm (returned, w)
        → StepIsCalm (round s nested i queue w)
    unfolding round
    round-StepIsCalm i queue w h = elim (Option-cases (next_task s i queue w)) [
      | inl empty ↦
          rw (round, empty)
            (handle-StepIsCalm i [] _ (IsCalm-outcome (raised other_exception) refl h))
      | inr ((task, rest), chosen) ↦
          rw (round, chosen)
            (handle-StepIsCalm i _ _ (
              if_lem IsCalm (is_stopping w.state) (λ _. IsCalm-outcome _ refl h)
                λ e. after_task-IsCalm _ (execute_task-IsCalm task w e h)))
    ]

  start-IsCalm :
      (loop : Instance → List Task → World → Result)
      → ((i : Instance) (queue : List Task) → RunsCalmly (loop i queue))
      → (i : Instance) → RunsCalmly (start s loop i)
  unfolding start
  start-IsCalm loop k i w h =
      started-IsCalm (loop i (scheduled_first s i w)) (k i _) _ (on_start-IsCalm i w h)

  pub run_loop-IsCalm :
      (fuel : ℕ) (i : Instance) (queue : List Task) → RunsCalmly (run_loop s fuel i queue)
  unfolding run_loop
  run_loop-IsCalm zero i queue w h = IsCalm-outcome _ refl h
  run_loop-IsCalm (suc fuel) i queue w h =
      go_on-IsCalm (run_loop s fuel i) (run_loop-IsCalm fuel i) _ (
        round-StepIsCalm (start s (run_loop s fuel)) (start-IsCalm _ (run_loop-IsCalm fuel)) i queue
          w h)

  stopped-IsCalm :
      (x : Result) → IsCalm x → is_orderly (World.happened ((Run.stopped s x).1)) ≡ true
  stopped-IsCalm (returned, w) h = h.orderly
  stopped-IsCalm (unfinished, w) h = h.orderly
  stopped-IsCalm (raised (interrupt r), w) h = h.orderly
  stopped-IsCalm (raised reschedule_task, w) h = h.orderly
  stopped-IsCalm (raised reschedule_task_immediately, w) h = h.orderly
  stopped-IsCalm (raised stop_user, w) h = call-orderly s user_on_stop w refl h.orderly
  stopped-IsCalm (raised stop_test, w) h = call-orderly s user_on_stop w refl h.orderly
  stopped-IsCalm (raised greenlet_exit, w) h = call-orderly s user_on_stop w refl h.orderly
  stopped-IsCalm (raised other_exception, w) h = h.orderly

  run-orderly :
      (fuel : ℕ) (w : World)
      → w.happened ≡ []
      → is_orderly (World.happened ((Run.run s fuel w).1)) ≡ true
  unfolding Run.run Loop.run
  run-orderly fuel w h = stopped-IsCalm _ (
      then-IsCalm (call s user_on_start _) (Loop.run s fuel default_task_set)
        (call-IsCalm s user_on_start _ refl refl (fresh-IsCalm running w.clock h))
        (start-IsCalm (run_loop s fuel) (run_loop-IsCalm fuel) default_task_set))

  -- A user runs from the start, for any number of rounds, whatever its tasks, its hooks and the
  -- listeners do and whenever `stop` is called, forced or not: where a task or a nested task set has
  -- begun, no `stop` had taken effect before.
  pub run-stops :
      (fuel : ℕ) (w : World)
      → w.happened ≡ []
      → (task : Task) (later earlier : List Event)
      → World.happened ((Run.run s fuel w).1) ≡ later ++ began task ∷ earlier
      → was_told earlier ≡ false
  run-stops fuel w h task later earlier e =
      told_before task later earlier (sym (ap is_orderly e) ∙ run-orderly fuel w h)
