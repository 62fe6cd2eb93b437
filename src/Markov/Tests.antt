-- ===== src/Markov/Tests.antt =====
-- A small chain of tasks, and instances of the theorems on it.
use locust.Base.{
  ℕ, ◌-◌, ◌≡◌, refl, true, false, none, some, List, [], ◌∷◌, arith, length, All, ◌↔◌, member,
}
use locust.Base.Dict.{Dict, contains, IsDict}
use locust.Markov.{
  Member, Task, Chain, made, new_class, get_markov_tasks, to_weighted_list, walk, get_next_task,
  weigh, validate_markov_chain, validate_transitions, validate_destinations, validate_destination,
  validate_tasks, make_chain, failed, unchecked, non_markov_transition,
}
use locust.Markov.Walk.{IsPick}
use locust.Markov.Search.{names_of, unreachable_tasks}
use locust.Markov.Reached.{Reaches}
use locust.Markov.Warned.{unreachable_tasks-Reaches}
use locust.Markov.Accepted.{new_class-walk}

program : Unit {0}
unfolding new_class get_markov_tasks to_weighted_list walk get_next_task weigh validate_markov_chain
    validate_transitions validate_destinations validate_destination validate_tasks make_chain
program = tt

-- The task 10 leads to 11; the task 11 leads to 10 with weight 3 and to itself with weight 1.
abbrev members : Dict Member
members =
    (10, record { transitions = some ((11, 1) ∷ []); tagged = false; truthy = true })
    ∷ (5, record { transitions = none; tagged = false; truthy = true })
    ∷ (11, record { transitions = some ((10, 3) ∷ (11, 1) ∷ []); tagged = false; truthy = true })
    ∷ []

abbrev chain : Chain
chain = record { current = 10; weighted = (10, 11 ∷ []) ∷ (11, 10 ∷ 10 ∷ 10 ∷ 11 ∷ []) ∷ [] }

members_made : new_class false 99 members ≡ made chain
unfolding program
members_made = refl

-- A transition to the member 5, which has none of its own, is refused.
to_plain_member :
    new_class false 99 (
      (10, record { transitions = some ((5, 1) ∷ []); tagged = false; truthy = true })
      ∷ (5, record { transitions = none; tagged = false; truthy = true })
      ∷ [])
    ≡ failed (non_markov_transition 5 10)
unfolding program
to_plain_member = refl

-- An abstract class may have no task at all.
abstract_made : new_class true 99 [] ≡ unchecked
unfolding program
abstract_made = refl

abbrev pick_last : ℕ → ℕ
pick_last n = n - 1

pick_last-IsPick : IsPick pick_last
pick_last-IsPick n h = omega arith

new_class-walk_example :
    (tasks : List ℕ) × (walk (pick_last ∷ pick_last ∷ []) chain ≡ some tasks)
    × (length tasks ≡ 2)
    × All (λ n. contains n (weigh (get_markov_tasks members)) ≡ true) tasks
unfolding get_markov_tasks
new_class-walk_example =
    new_class-walk false 99 members chain (pick_last ∷ pick_last ∷ []) members_made
      (omega arith, (omega arith, tt)) (pick_last-IsPick, (pick_last-IsPick, tt))

-- Nothing leads to the task 12, and the transition to 13 has no weight.
abbrev scattered : Dict Member
scattered =
    (10, record { transitions = some ((11, 1) ∷ (13, 0) ∷ []); tagged = false; truthy = true })
    ∷ (11, record { transitions = some ((10, 3) ∷ []); tagged = false; truthy = true })
    ∷ (12, record { transitions = some ((10, 1) ∷ []); tagged = false; truthy = true })
    ∷ (13, record { transitions = some ((11, 1) ∷ []); tagged = false; truthy = true })
    ∷ []

abbrev scattered_first : Task
scattered_first = record { name = 10; transitions = (11, 1) ∷ (13, 0) ∷ []; tagged = false }

abbrev scattered_later : List Task
scattered_later =
    (record { name = 11; transitions = (10, 3) ∷ []; tagged = false })
    ∷ (record { name = 12; transitions = (10, 1) ∷ []; tagged = false })
    ∷ (record { name = 13; transitions = (11, 1) ∷ []; tagged = false })
    ∷ []

scattered_warned :
    unreachable_tasks scattered (scattered_first ∷ scattered_later) ≡ some (12 ∷ 13 ∷ [])
unfolding program unreachable_tasks
scattered_warned = refl

scattered-IsDict : IsDict scattered
scattered-IsDict = (refl, (refl, (refl, (refl, tt))))

scattered_tasks : get_markov_tasks scattered ≡ scattered_first ∷ scattered_later
unfolding program
scattered_tasks = refl

scattered_valid : validate_markov_chain 99 scattered (get_markov_tasks scattered) ≡ none
unfolding program
scattered_valid = refl

unreachable_tasks-Reaches_example :
    (warned : List ℕ) × (unreachable_tasks scattered (scattered_first ∷ scattered_later)
      ≡ some warned)
    × ((x : ℕ)
        → member x (names_of (scattered_first ∷ scattered_later)) ≡ true
        → ((member x warned ≡ false) ↔ Reaches scattered 10 x))
unreachable_tasks-Reaches_example =
    unreachable_tasks-Reaches 99 scattered scattered_first scattered_later scattered-IsDict
      scattered_tasks scattered_valid
