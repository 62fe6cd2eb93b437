-- ===== src/Tasks/Tests.antt =====
-- Runs on small inputs, and instances of the theorems about the tasks.
use locust.Base.{
  ℕ, ◌+◌, ◌≡◌, ◌⊎◌, ◌==◌, ◌||◌, refl, Bool, true, false, not, Option, none, some, List, [], ◌∷◌,
  if◌then◌else◌, sum_by,
}
use locust.Base.Dict.{lookup}
use locust.Tasks.{
  Declared, declared_tasks, base_tasks, weighted_tasks, get_tasks_from_base_classes, Tasks, plain,
  task_set, nil, cons, passes_tags, check_task, filter_tasks_by_tags,
}
use locust.Tasks.Collected.{times, asked, inherited, declared, get_tasks_from_base_classes-times}
use locust.Tasks.Filtered.{passes, AreSame, remaining, filter_tasks_by_tags-remaining}

program : Unit {0}
unfolding declared_tasks base_tasks weighted_tasks get_tasks_from_base_classes passes_tags
    check_task filter_tasks_by_tags passes AreSame
program = tt

abbrev bases : List (Option (List ℕ))
bases = some (1 ∷ 2 ∷ []) ∷ none ∷ []

abbrev listed : Declared
listed = (3, none) ∷ (2, some 2) ∷ []

abbrev items : List (ℕ × Option ℕ)
items = (9, none) ∷ (4, some 3) ∷ []

collect_nine :
    get_tasks_from_base_classes bases (some listed) items ≡ 1 ∷ 2 ∷ 3 ∷ 2 ∷ 2 ∷ 4 ∷ 4 ∷ 4 ∷ []
unfolding program
collect_nine = refl

get_tasks_from_base_classes-times_example :
    times 2 (get_tasks_from_base_classes bases (some listed) items)
    ≡ sum_by (inherited 2) bases + declared 2 (some listed) + sum_by (asked 0 2) items
get_tasks_from_base_classes-times_example =
    get_tasks_from_base_classes-times 2 bases (some listed) items

-- The task 2 has the tag 7. The task set 1 has it, and the task 3, which the others have; 5 is a
-- Markov task set.
abbrev tree : Tasks
tree = cons (task_set 1 false (cons (plain 2 (some (7 ∷ []))) (cons (plain 3 none) nil))) (
    cons (plain 2 (some (7 ∷ []))) (
      cons (task_set 4 false (cons (plain 3 none) nil))
        (cons (task_set 5 true (cons (plain 3 none) nil)) nil)))

abbrev wanted : Option (List ℕ)
wanted = some (7 ∷ [])

abbrev verdict : ℕ → Bool
verdict id = not (id == 3 || id == 4)

abbrev left : ℕ → List ℕ
left id = if id == 1 then 2 ∷ [] else []

filter_tree : (filter_tasks_by_tags wanted none tree).0 ≡ 1 ∷ 2 ∷ 5 ∷ []
unfolding program
filter_tree = refl

tree-AreSame : AreSame wanted none verdict left tree
unfolding program
tree-AreSame = (
  (refl, refl, (refl, (refl, tt))),
  (refl, ((refl, refl, (refl, tt)), ((refl, refl, (refl, tt)), tt))),
)

filter_tasks_by_tags-remaining_example :
    let (kept, s) = filter_tasks_by_tags wanted none tree in
    (kept ≡ remaining wanted none tree)
    × ((lookup 1 s.assigned ≡ none) ⊎ (lookup 1 s.assigned ≡ some (left 1)))
filter_tasks_by_tags-remaining_example =
    filter_tasks_by_tags-remaining wanted none verdict left tree 1 tree-AreSame
