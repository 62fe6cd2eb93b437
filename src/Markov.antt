-- ===== src/Markov.antt =====
-- The Markov chains of locust/user/markov_taskset.py. A class dict lists members under their names;
-- a member that is not a Markov task has no transitions. The warning on unreachable tasks is in
-- Search; that on `on_start` and `on_stop` is left out.
pub mod Walk
pub mod Accepted
pub mod Search
pub mod Reached
pub mod Warned
mod Tests
use locust.Base.{
  ℕ, Bool, true, false, Option, none, some, List, [], ◌∷◌, ◌++◌, if◌then◌else◌, replicate, ◌==◌,
  length, get_elem?,
}
use locust.Base.Dict.{Dict, lookup}

-- `transitions` is None where the member has no such attribute; `tagged` is whether it has
-- `locust_tag_set`, and `truthy` its truth value. The name "run" is that of a method of `TaskSet`.
pub record Member : Type 0 where
  pub transitions : Option (Dict ℕ)
  pub tagged : Bool
  pub truthy : Bool

pub record Task : Type 0 where
  pub name : ℕ
  pub transitions : Dict ℕ
  pub tagged : Bool

-- The names of the functions and of the tasks are those that they have in the class dict.
unfoldable pub get_markov_tasks : Dict Member → List Task
get_markov_tasks [] = []
get_markov_tasks ((name, m) ∷ d) = elim m.transitions [
  | none ↦ get_markov_tasks d
  | some ts ↦ (record { name = name; transitions = ts; tagged = m.tagged }) ∷ get_markov_tasks d
]

unfoldable pub to_weighted_list : Dict ℕ → List ℕ
to_weighted_list [] = []
to_weighted_list (t ∷ ts) = replicate t.1 t.0 ++ to_weighted_list ts

-- The exceptions, with the names in their messages.
pub data Fault : Type 0 where
  no_markov_tasks : Fault
  invalid_transition : (dest task : ℕ) → Fault
  non_markov_transition : (dest task : ℕ) → Fault
  reserved_name : Fault
  tag_on_task : (task : ℕ) → Fault

-- The first exception of two checks that follow each other.
abbrev pub first_of : Option Fault → Option Fault → Option Fault
first_of (some f) later = some f
first_of none later = later

unfoldable pub validate_destination : Dict Member → (task dest : ℕ) → Option Fault
validate_destination d task dest = elim (lookup dest d) [
  | none ↦ some (invalid_transition dest task)
  | some m ↦
      if m.truthy
      then elim m.transitions [ none ↦ some (non_markov_transition dest task) | some ts ↦ none ]
      else some (invalid_transition dest task)
]

unfoldable pub validate_destinations : Dict Member → ℕ → Dict ℕ → Option Fault
unfolding validate_destination
validate_destinations d task [] = none
validate_destinations d task (t ∷ ts) =
    first_of (validate_destination d task t.0) (validate_destinations d task ts)

unfoldable pub validate_transitions : Dict Member → List Task → Option Fault
unfolding validate_destinations
validate_transitions d [] = none
validate_transitions d (t ∷ ts) =
    first_of (validate_destinations d t.name t.transitions) (validate_transitions d ts)

unfoldable pub validate_tasks : (run : ℕ) → List Task → Option Fault
validate_tasks run [] = none
validate_tasks run (t ∷ ts) =
    if t.name == run
    then some reserved_name
    else if t.tagged
    then some (tag_on_task t.name)
    else validate_tasks run ts

unfoldable pub validate_markov_chain : (run : ℕ) → Dict Member → List Task → Option Fault
unfolding validate_transitions validate_tasks
validate_markov_chain run d tasks =
    if length tasks == 0
    then some no_markov_tasks
    else first_of (validate_transitions d tasks) (validate_tasks run tasks)

-- What `MarkovTaskSetMeta` makes of a class dict: the first task, and the weighted lists by which
-- the transitions of each task are replaced.
pub record Chain : Type 0 where
  pub current : ℕ
  pub weighted : Dict (List ℕ)

unfoldable pub weigh : List Task → Dict (List ℕ)
unfolding to_weighted_list
weigh [] = []
weigh (t ∷ ts) = (t.name, to_weighted_list t.transitions) ∷ weigh ts

-- `unchecked` is an abstract class, which gets no `current` and keeps its transitions.
pub data Made : Type 0 where
  unchecked : Made
  failed : Fault → Made
  made : Chain → Made

unfoldable pub make_chain : Option Fault → List Task → Made
unfolding weigh
make_chain (some fault) tasks = failed fault
make_chain none [] = failed no_markov_tasks
make_chain none (t ∷ ts) = made (record { current = t.name; weighted = weigh (t ∷ ts) })

-- `abstract` is the truth value of `class_dict.get("abstract")`.
unfoldable pub new_class : (abstract : Bool) (run : ℕ) → Dict Member → Made
unfolding get_markov_tasks validate_markov_chain make_chain
new_class abstract run d =
    let tasks = get_markov_tasks d in
    if abstract then unchecked else make_chain (validate_markov_chain run d tasks) tasks

-- `get_next_task`: the task to run, and the chain with the next one; `pick` is the index that
-- `random.choice` takes. `none` is an exception: no such task, or an empty list of transitions.
unfoldable pub get_next_task : (pick : ℕ → ℕ) → Chain → Option (ℕ × Chain)
get_next_task pick c = elim (lookup c.current c.weighted) [
  | none ↦ none
  | some names ↦ elim (get_elem? names (pick (length names))) [
    | none ↦ none
    | some next ↦ some (c.current, record c { current = next })
  ]
]

-- The tasks of a run of the loop of `TaskSet.run`, with a pick for each.
unfoldable pub walk : List (ℕ → ℕ) → Chain → Option (List ℕ)
unfolding get_next_task
walk [] c = some []
walk (pick ∷ picks) c = elim (get_next_task pick c) [
  | none ↦ none
  | some (task, c') ↦ elim (walk picks c') [ none ↦ none | some tasks ↦ some (task ∷ tasks) ]
]
