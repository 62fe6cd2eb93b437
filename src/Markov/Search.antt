-- ===== src/Markov/Search.antt =====
-- `validate_no_unreachable_tasks` of locust/user/markov_taskset.py, a depth-first search. The names
-- of a set are taken in the order of the list.
use locust.Base.{
  ℕ, zero, suc, not, Option, none, some, List, [], ◌∷◌, ◌>>=◌, keep, map, member, length,
  if◌then◌else◌,
}
use locust.Base.Dict.{Dict, lookup}
use locust.Markov.{Member, Task, to_weighted_list}

-- `class_dict.get(task_name).transitions`
abbrev pub transitions_of : Dict Member → ℕ → Option (Dict ℕ)
transitions_of d name = elim (lookup name d) [ none ↦ none | some m ↦ m.transitions ]

-- The loop over the destinations, given the recursive call.
unfoldable pub visit_all : (ℕ → List ℕ → Option (List ℕ)) → List ℕ → List ℕ → Option (List ℕ)
visit_all dfs [] visited = some visited
visit_all dfs (dest ∷ dests) visited =
    if member dest visited
    then visit_all dfs dests visited
    else dfs dest visited >>= visit_all dfs dests

-- The names visited then; `none` where the fuel does not do, or there is no such task.
unfoldable pub dfs : Dict Member → (fuel : ℕ) → ℕ → List ℕ → Option (List ℕ)
unfolding visit_all to_weighted_list
dfs d zero name visited = none
dfs d (suc fuel) name visited =
    let again = dfs d fuel in
    elim (transitions_of d name) [
      | none ↦ none
      | some ts ↦ visit_all again (to_weighted_list ts) (name ∷ visited)
    ]

abbrev pub names_of : List Task → List ℕ
names_of = map (λ t. Task.name t)

-- The names that are warned of; `tasks[0]` is where the search starts.
unfoldable pub unreachable_tasks : Dict Member → List Task → Option (List ℕ)
unfolding dfs
unreachable_tasks d [] = none
unreachable_tasks d (t ∷ ts) = dfs d (length (t ∷ ts)) t.name [] >>= λ visited.
    some (keep (λ n. not (member n visited)) (names_of (t ∷ ts)))
