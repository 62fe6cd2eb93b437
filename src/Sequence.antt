-- ===== src/Sequence.antt =====
-- locust/user/sequential_taskset.py: how the tasks of a `SequentialTaskSet` are collected and in
-- which order they run. A task is a number.
pub mod Rounds
mod Tests
use locust.Base.{
  ℕ, zero, suc, Option, none, some, List, [], ◌∷◌, ◌++◌, ◌==◌, if◌then◌else◌, replicate, length,
}
use locust.Base.Dict.{Dict}

-- What the metaclass makes of an item of the class dict: a `tasks` attribute that is a list, a dict
-- or something else, a method that is decorated with @task, or another attribute.
pub data Item : Type 0 where
  task_list : List ℕ → Item
  task_dict : Dict ℕ → Item
  other_tasks : Item
  method : (task weight : ℕ) → Item
  attribute : Item

unfoldable pub repeat_tasks : Dict ℕ → List ℕ
repeat_tasks [] = []
repeat_tasks (t ∷ ts) = replicate t.1 t.0 ++ repeat_tasks ts

unfoldable pub item_tasks : Item → Option (List ℕ)
unfolding repeat_tasks
item_tasks (task_list tasks) = some tasks
item_tasks (task_dict tasks) = some (repeat_tasks tasks)
item_tasks other_tasks = none
item_tasks (method task weight) = some (replicate weight task)
item_tasks attribute = some []

-- The two loops of `__new__`; `none` is its ValueError.
unfoldable pub declared_tasks : List Item → Option (List ℕ)
unfolding item_tasks
declared_tasks [] = some []
declared_tasks (item ∷ items) = elim (item_tasks item) [
  | none ↦ none
  | some tasks ↦ elim (declared_tasks items) [ none ↦ none | some rest ↦ some (tasks ++ rest) ]
]

unfoldable pub base_tasks : List (List ℕ) → List ℕ
base_tasks [] = []
base_tasks (tasks ∷ bases) = tasks ++ base_tasks bases

unfoldable pub collect_tasks : (bases : List (List ℕ)) → List Item → Option (List ℕ)
unfolding declared_tasks base_tasks
collect_tasks bases items = elim (declared_tasks items) [
  | none ↦ none
  | some tasks ↦ some (base_tasks bases ++ tasks)
]

-- An instance: its tasks, and what `_task_cycle` has left of the round.
pub record SequentialTaskSet : Type 0 where
  pub tasks : List ℕ
  pub rest : List ℕ

unfoldable pub new_task_set : List ℕ → SequentialTaskSet
new_task_set tasks = record { tasks = tasks; rest = tasks }

-- The task, and the tasks that are left; a new round starts where none is. `none` is the
-- LocustError of a task set without tasks.
unfoldable pub next_of : (tasks rest : List ℕ) → Option (ℕ × List ℕ)
next_of [] rest = none
next_of (t ∷ ts) [] = some (t, ts)
next_of (t ∷ ts) (r ∷ rest) = some (r, rest)

unfoldable pub get_next_task : SequentialTaskSet → Option (ℕ × SequentialTaskSet)
unfolding next_of
get_next_task s = elim (next_of s.tasks s.rest) [
  | none ↦ none
  | some (task, rest) ↦ some (task, record s { rest = rest })
]

-- The first tasks that an instance runs.
unfoldable pub run_tasks : ℕ → SequentialTaskSet → Option (List ℕ)
unfolding get_next_task
run_tasks zero s = some []
run_tasks (suc n) s = elim (get_next_task s) [
  | none ↦ none
  | some (task, s') ↦ elim (run_tasks n s') [ none ↦ none | some tasks ↦ some (task ∷ tasks) ]
]
