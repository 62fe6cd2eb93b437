-- ===== src/Sequence/Tests.antt =====
-- A small `SequentialTaskSet`, and an instance of the theorem on it.
use locust.Base.{◌*◌, ◌≡◌, refl, some, [], ◌∷◌, arith}
use locust.Sequence.{
  task_list, task_dict, method, attribute, collect_tasks, declared_tasks, base_tasks, item_tasks,
  repeat_tasks, new_task_set, run_tasks,
}
use locust.Sequence.Rounds.{times, run_tasks-times}

-- The order is that of the declarations, after the tasks of the bases.
collected :
    collect_tasks
      ((1 ∷ 2 ∷ []) ∷ [])
      (method 7 1 ∷ attribute ∷ task_dict ((8, 2) ∷ []) ∷ task_list (9 ∷ []) ∷ [])
    ≡ some (1 ∷ 2 ∷ 7 ∷ 8 ∷ 8 ∷ 9 ∷ [])
unfolding collect_tasks declared_tasks base_tasks item_tasks repeat_tasks
collected = refl

run_tasks-times_example :
    run_tasks (2 * 3) (new_task_set (4 ∷ 5 ∷ 6 ∷ [])) ≡ some (times 2 (4 ∷ 5 ∷ 6 ∷ []))
run_tasks-times_example = run_tasks-times 2 (4 ∷ 5 ∷ 6 ∷ []) (omega arith)
