-- ===== src/Env.antt =====
-- `class Environment` of locust/env.py: the checks of `__init__`, the creation of the runner, the
-- filter of the tasks, and `assign_equal_weights`. The web interface, the events and the logs of the
-- workers are left out here; the changes of a class by the web interface are attributes that are set.
pub mod Accepted
pub mod Equal
mod Tests
use locust.Base.{
  ℕ, zero, suc, ◌+◌, Bool, true, false, Option, none, some, List, [], ◌∷◌, ◌++◌, ◌||◌, ◌>>=◌, ltb,
  ◌==◌, keep, map, member, length, if◌then◌else◌,
}
use locust.Dispatch.Users.{UserClass}
use locust.Dispatch.Dispatcher.{distinct}
use locust.Stats.Requests.{RequestStats, new_stats}
use locust.Tasks.{Task, plain, task_set, Tasks, nil, cons, Filtering, filter_tasks_by_tags}

-- A user class with its tasks.
pub record TaskedClass : Type 0 where
  pub user_class : UserClass
  pub tasks : Tasks

pub data RunnerClass : Type 0 where
  local_runner : RunnerClass
  master_runner : RunnerClass
  worker_runner : RunnerClass

-- The options are those of the command line, where there are any. `kept` is what the filter makes of
-- the tasks of each class.
pub record Environment : Type 0 where
  pub user_classes : List TaskedClass
  pub tags : Option (List ℕ)
  pub exclude_tags : Option (List ℕ)
  pub option_tags : Option (List ℕ)
  pub option_exclude_tags : Option (List ℕ)
  pub tasks_filtered : Bool
  pub kept : List (List ℕ × Filtering)
  pub runner : Option RunnerClass
  pub stats : RequestStats
  pub shape_runs : Bool

-- The exceptions: two ValueErrors of the checks, the third, of a shape that is not one, and that of a
-- second runner.
pub data EnvironmentError : Type 0 where
  no_weighted_users : EnvironmentError
  same_class_name : EnvironmentError
  bad_shape : EnvironmentError
  runner_already_exists : EnvironmentError

pub data Checked (A : Type 0) : Type 0 where
  ok : A → Checked A
  error : EnvironmentError → Checked A

abbrev pub is_spawned : TaskedClass → Bool
is_spawned c = ltb 0 (UserClass.weight c.user_class) || ltb 0 (UserClass.fixed_count c.user_class)

unfoldable pub remove_user_classes_with_weight_zero : List TaskedClass → Checked (List TaskedClass)
remove_user_classes_with_weight_zero [] = ok []
remove_user_classes_with_weight_zero (c ∷ classes) =
    let filtered = keep is_spawned (c ∷ classes) in
    if length filtered == 0 then error no_weighted_users else ok filtered

abbrev pub classes_of : List TaskedClass → List UserClass
classes_of = map (λ c. TaskedClass.user_class c)

-- Whether there are as many names as classes.
unfoldable pub validate_user_class_name_uniqueness : List TaskedClass → Checked (List TaskedClass)
validate_user_class_name_uniqueness classes =
    if distinct (classes_of classes) then ok classes else error same_class_name

-- Whether a shape is given, and is an instance of its class.
abbrev pub validate_shape_class_instance :
    Option Bool → List TaskedClass → Checked (List TaskedClass)
validate_shape_class_instance none classes = ok classes
validate_shape_class_instance (some true) classes = ok classes
validate_shape_class_instance (some false) classes = error bad_shape

abbrev pub and_then : {A B : Type 0} → Checked A → (A → Checked B) → Checked B
and_then (ok a) f = f a
and_then (error e) f = error e

-- The checks at the end of `__init__`: the user classes then.
unfoldable pub check_user_classes :
    (shape : Option Bool) → List TaskedClass → Checked (List TaskedClass)
unfolding remove_user_classes_with_weight_zero validate_user_class_name_uniqueness
check_user_classes shape classes =
    and_then (remove_user_classes_with_weight_zero classes) λ filtered.
      and_then (validate_user_class_name_uniqueness filtered) (validate_shape_class_instance shape)

-- `_create_runner`: its exception, if any, and the environment then. `has_shape` tells whether there
-- is a shape class, which gets the runner.
unfoldable pub create_runner :
    RunnerClass → (has_shape : Bool) → Environment → Option EnvironmentError × Environment
create_runner runner_class has_shape e = elim e.runner [
  | some runner ↦ (some runner_already_exists, e)
  | none ↦ (none, record e { runner = some runner_class; shape_runs = has_shape })
]

-- A worker has statistics without a cache.
unfoldable pub create_worker_runner :
    (at : ℕ → ℕ) (has_shape : Bool) → Environment → Option EnvironmentError × Environment
unfolding create_runner new_stats
create_worker_runner at has_shape e =
    create_runner worker_runner has_shape (record e { stats = new_stats at false })

-- The tags of the environment, else those of the options where there are any.
abbrev pub tags_or : Option (List ℕ) → Option (List ℕ) → Option (List ℕ)
tags_or (some tags) option = some tags
tags_or none none = none
tags_or none (some []) = none
tags_or none (some (t ∷ ts)) = some (t ∷ ts)

unfoldable pub filter_tasks : Environment → Environment
unfolding filter_tasks_by_tags
filter_tasks e = if e.tasks_filtered then e else record e {
  tasks_filtered = true;
  kept =
      map
        (λ c.
          filter_tasks_by_tags (tags_or e.tags e.option_tags)
            (tags_or e.exclude_tags e.option_exclude_tags) (TaskedClass.tasks c))
        e.user_classes;
}

-- `tasks_frontier`, the last task first, and `extend`.
unfoldable pub extend : Tasks → List Task → List Task
extend nil frontier = frontier
extend (cons task tasks) frontier = extend tasks (task ∷ frontier)

-- The loop of `assign_equal_weights`; `none` is the ValueError of a task that is not callable, and
-- where the fuel does not do. No task set is nested in itself: the loop would not end.
unfoldable pub collect_tasks :
    (callable : ℕ → Bool) (fuel : ℕ) → List Task → (user_tasks : List ℕ) → Option (List ℕ)
unfolding extend
collect_tasks callable fuel [] user_tasks = some user_tasks
collect_tasks callable zero (task ∷ frontier) user_tasks = none
collect_tasks callable (suc fuel) (plain id tags ∷ frontier) user_tasks =
    if callable id
    then collect_tasks callable fuel frontier
        (if member id user_tasks then user_tasks else user_tasks ++ id ∷ [])
    else none
collect_tasks callable (suc fuel) (task_set id markov tasks ∷ frontier) user_tasks =
    collect_tasks callable fuel (extend tasks frontier) user_tasks

-- The tasks, nested ones included.
unfoldable mutual
  pub size_of : Task → ℕ
  size_of (plain id tags) = 1
  size_of (task_set id markov tasks) = suc (size_all tasks)

  pub size_all : Tasks → ℕ
  size_all nil = 0
  size_all (cons task tasks) = size_of task + size_all tasks

-- The class with equal weights: its weight, and its tasks.
unfoldable pub assign_equal_weights :
    (callable : ℕ → Bool) → List TaskedClass → Option (List (UserClass × List ℕ))
unfolding collect_tasks extend size_all
assign_equal_weights callable [] = some []
assign_equal_weights callable (c ∷ classes) =
    collect_tasks callable (size_all c.tasks) (extend c.tasks []) [] >>= λ user_tasks.
    assign_equal_weights callable classes >>= λ rest.
    some ((record c.user_class { weight = 1 }, user_tasks) ∷ rest)
