-- ===== src/Dispatch/Users.antt =====
-- The tables `_users_on_workers` of locust/dispatch.py, worker id -> user class -> count, and the
-- loops of the dispatcher that read them.
pub mod Bump
use locust.Base.{
  ℕ, zero, suc, ◌+◌, ◌-◌, ◌≡◌, Bool, true, false, Option, none, some, List, [], ◌∷◌, ◌==◌, ltb,
  if◌then◌else◌, sum_by, keep, map,
}
use locust.Base.Dict.{Dict, lookup, insert, get, contains}

-- The attributes of a user class that the dispatcher reads.
pub record UserClass : Type 0 where
  pub name : ℕ
  pub weight : ℕ
  pub fixed_count : ℕ

-- A worker node: its id, and the part of the id before the first "_".
pub record WorkerNode : Type 0 where
  pub id : ℕ
  pub host : ℕ
  pub index_within_host : ℕ

abbrev pub Users : Type 0
Users = Dict (Dict ℕ)

-- `{worker_node.id: {user_class.__name__: 0 for ...} for ...}`, entry by entry.
unfoldable pub add_zeros : Dict ℕ → List UserClass → Dict ℕ
add_zeros row [] = row
add_zeros row (u ∷ us) = add_zeros (insert u.name 0 row) us

unfoldable pub add_rows : Users → List WorkerNode → List UserClass → Users
unfolding add_zeros
add_rows users [] us = users
add_rows users (w ∷ ws) us = add_rows (insert w.id (add_zeros [] us) users) ws us

unfoldable pub no_users : List WorkerNode → List UserClass → Users
unfolding add_rows
no_users = add_rows []

-- `sum(map(sum, map(dict.values, users.values())))`
unfoldable pub get_current_user_count : Users → ℕ
get_current_user_count = sum_by (λ row. sum_by (λ e. e.1) row.1)

unfoldable pub get_user_current_count : ℕ → Users → ℕ
get_user_current_count user = sum_by (λ row. get user 0 row.1)

-- `users[id][user]`, 0 where there is none, and whether there is one.
abbrev pub at : ℕ → ℕ → Users → ℕ
at w u users = get u 0 (get w [] users)

abbrev pub has : ℕ → ℕ → Users → Bool
has w u users = contains u (get w [] users)

-- `users[id][user] = f(users[id][user])`, where `none` is the KeyError.
unfoldable pub bump_row : (ℕ → ℕ) → ℕ → Dict ℕ → Option (Dict ℕ)
bump_row f u [] = none
bump_row f u (e ∷ row) =
    if u == e.0
    then some ((e.0, f e.1) ∷ row)
    else elim (bump_row f u row) [ none ↦ none | some row' ↦ some (e ∷ row') ]

unfoldable pub bump : (ℕ → ℕ) → ℕ → ℕ → Users → Option Users
unfolding bump_row
bump f w u [] = none
bump f w u (e ∷ users) =
    if w == e.0
    then elim (bump_row f u e.1) [ none ↦ none | some row ↦ some ((e.0, row) ∷ users) ]
    else elim (bump f w u users) [ none ↦ none | some users' ↦ some (e ∷ users') ]
