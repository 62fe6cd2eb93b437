-- ===== src/Tasks.antt =====
-- The tasks of a user or a task set: `get_tasks_from_base_classes` and `filter_tasks_by_tags` of
-- locust/user/task.py. A task is known by a number, as an object by its identity; tags are numbers.
pub mod Collected
pub mod Filtered
mod Tests
use locust.Base.{
  ℕ, Bool, true, false, not, Option, none, some, List, [], ◌∷◌, ◌++◌, ◌&&◌, ◌||◌, if◌then◌else◌,
  any, length, ltb, member, replicate,
}
use locust.Base.Dict.{Dict, lookup, insert}

-- The entry "tasks" of a class dict, where it is not None: a list of tasks, and of tuples of a task
-- and its count, as the items of a dict are.
abbrev pub Declared : Type 0
Declared = List (ℕ × Option ℕ)

unfoldable pub declared_tasks : Declared → List ℕ
declared_tasks [] = []
declared_tasks ((task, none) ∷ tasks) = task ∷ declared_tasks tasks
declared_tasks ((task, some count) ∷ tasks) = replicate count task ++ declared_tasks tasks

unfoldable pub base_tasks : List (Option (List ℕ)) → List ℕ
base_tasks [] = []
base_tasks (none ∷ bases) = base_tasks bases
base_tasks (some tasks ∷ bases) = tasks ++ base_tasks bases

-- The values of the class dict; those that `@task` has decorated have a weight.
unfoldable pub weighted_tasks : List (ℕ × Option ℕ) → List ℕ
weighted_tasks [] = []
weighted_tasks ((item, none) ∷ items) = weighted_tasks items
weighted_tasks ((item, some weight) ∷ items) = replicate weight item ++ weighted_tasks items

unfoldable pub get_tasks_from_base_classes :
    (bases : List (Option (List ℕ))) → Option Declared → (items : List (ℕ × Option ℕ)) → List ℕ
unfolding base_tasks declared_tasks weighted_tasks
get_tasks_from_base_classes bases none items = base_tasks bases ++ weighted_tasks items
get_tasks_from_base_classes bases (some tasks) items =
    base_tasks bases ++ declared_tasks tasks ++ weighted_tasks items

-- A task, with its tags where it has been tagged, or a task set with its tasks.
mutual
  pub data Task : Type 0 where
    plain : (id : ℕ) → (locust_tag_set : Option (List ℕ)) → Task
    task_set : (id : ℕ) → (is_markov_taskset : Bool) → Tasks → Task

  pub data Tasks : Type 0 where
    nil : Tasks
    cons : Task → Tasks → Tasks

abbrev pub id_of : Task → ℕ
id_of (plain id tags) = id
id_of (task_set id markov tasks) = id

-- `len(a & b) > 0`
abbrev pub share : List ℕ → List ℕ → Bool
share a b = any (λ t. member t b) a

abbrev pub tagged : Option (List ℕ) → List ℕ → Bool
tagged none tags = false
tagged (some own) tags = share own tags

unfoldable pub passes_tags : (tags exclude_tags : Option (List ℕ)) → Option (List ℕ) → Bool
passes_tags none none own = true
passes_tags (some tags) none own = tagged own tags
passes_tags none (some exclude_tags) own = not (tagged own exclude_tags)
passes_tags (some tags) (some exclude_tags) own = tagged own tags && not (tagged own exclude_tags)

-- The dict `checked`, and the lists `tasks` of the task sets as they have been assigned.
pub record Filtering : Type 0 where
  pub checked : Dict Bool
  pub assigned : Dict (List ℕ)

-- One round of the loop, with the tasks that were kept in the others.
abbrev pub keep_if : Bool → ℕ → List ℕ → List ℕ
keep_if passing id tasks = if passing then id ∷ tasks else tasks

-- What `checked` says of a task, or the verdict that is found and stored.
abbrev pub recall : ℕ → Filtering → (found : Bool × Filtering) → Bool × Filtering
recall id s found = elim (lookup id s.checked) [
  | some passing ↦ (passing, s)
  | none ↦ (found.0, record found.1 { checked = insert id found.0 found.1.checked })
]

module _ (tags exclude_tags : Option (List ℕ)) where
  unfoldable mutual
    unfolding passes_tags

    pub check_task : Task → Filtering → Bool × Filtering
    check_task (plain id own) s = (passes_tags tags exclude_tags own, s)
    check_task (task_set id markov tasks) s =
        let (new_tasks, s') = filter_tasks tasks s in
        (
          ltb 0 (length new_tasks) || markov,
          record s' { assigned = insert id new_tasks s'.assigned },
        )

    pub filter_tasks : Tasks → Filtering → List ℕ × Filtering
    filter_tasks nil s = ([], s)
    filter_tasks (cons task tasks) s =
        let (passing, s') = recall (id_of task) s (check_task task s) in
        let (new_tasks, s'') = filter_tasks tasks s' in
        (keep_if passing (id_of task) new_tasks, s'')

  -- Of the tasks of a user class: the ones that it keeps, and what is assigned to task sets.
  unfoldable pub filter_tasks_by_tags : Tasks → List ℕ × Filtering
  unfolding filter_tasks
  filter_tasks_by_tags tasks = filter_tasks tasks (record { checked = []; assigned = [] })
