-- ===== src/Runner/Users.antt =====
-- The users that a local runner or a worker runs: `user_classes_count`, `spawn_users` and
-- `stop_users` of `class Runner`, and how `_start` and `start_worker` use them.
-- A user is the name of its class. The group of the greenlets is a list, in the order in which it
-- is gone through; which users of a class are stopped depends on it, how many does not. A user
-- that is stopped is gone at the end of `stop_users`, at once or after the timeout. `classes` are
-- the names of the user classes, all different; a KeyError is `none`.
pub mod Counts
pub mod Ramp
use locust.Base.{
  ℕ, zero, suc, ◌+◌, ◌-◌, Bool, true, false, Option, none, some, List, [], ◌∷◌, ◌++◌, ◌==◌, ltb,
  if◌then◌else◌, member, ◌>>=◌,
}
use locust.Base.Dict.{Dict, lookup, insert}

unfoldable pub count_users : List ℕ → Dict ℕ → Option (Dict ℕ)
count_users [] counts = some counts
count_users (u ∷ us) counts = elim (lookup u counts) [
  | none ↦ none
  | some n ↦ count_users us (insert u (n + 1) counts)
]

unfoldable pub zeros : List ℕ → Dict ℕ
zeros [] = []
zeros (u ∷ us) = (u, 0) ∷ zeros us

unfoldable pub user_classes_count : (classes users : List ℕ) → Option (Dict ℕ)
unfolding count_users zeros
user_classes_count classes users = count_users users (zeros classes)

-- The function inside `spawn_users`, and its loop over the classes.
unfoldable pub spawn : (classes : List ℕ) (user_class spawn_count : ℕ) → List ℕ → Option (List ℕ)
spawn classes user_class zero users = some users
spawn classes user_class (suc n) users =
    let rest = spawn classes user_class n (users ++ user_class ∷ []) in
    if member user_class classes then rest else none

unfoldable pub spawn_users : (classes : List ℕ) → Dict ℕ → List ℕ → Option (List ℕ)
unfolding spawn
spawn_users classes [] users = some users
spawn_users classes ((u, n) ∷ spawns) users =
    spawn classes u n users >>= λ users'. spawn_users classes spawns users'

-- The first `n` users of a class are stopped, or all of them where there are fewer.
unfoldable pub take_out : (user_class n : ℕ) → List ℕ → List ℕ
take_out user_class zero users = users
take_out user_class (suc n) [] = []
take_out user_class (suc n) (u ∷ us) =
    if user_class == u then take_out user_class n us else u ∷ take_out user_class (suc n) us

unfoldable pub stop_class :
    (classes : List ℕ) (user_class stop_count : ℕ) → List ℕ → Option (List ℕ)
unfolding user_classes_count take_out
stop_class classes user_class stop_count users = user_classes_count classes users >>= λ counts.
    elim (lookup user_class counts) [
      | none ↦ none
      | some zero ↦ some users
      | some (suc n) ↦ some (take_out user_class stop_count users)
    ]

unfoldable pub stop_users : (classes : List ℕ) → Dict ℕ → List ℕ → Option (List ℕ)
unfolding stop_class
stop_users classes [] users = some users
stop_users classes ((u, n) ∷ stops) users =
    stop_class classes u n users >>= λ users'. stop_users classes stops users'

-- The loop over the requested counts: what is to be spawned, and what is to be stopped.
unfoldable pub differences : (requested counts : Dict ℕ) → Option (Dict ℕ × Dict ℕ)
differences [] counts = some ([], [])
differences ((u, n) ∷ requested) counts = elim (lookup u counts) [
  | none ↦ none
  | some k ↦ differences requested counts >>= λ r.
      some (
        if ltb n k then (r.0, (u, k - n) ∷ r.1) else if ltb k n then ((u, n - k) ∷ r.0, r.1) else r)
]

-- Users are spawned before others are stopped.
unfoldable pub ramp : (classes : List ℕ) (requested : Dict ℕ) → List ℕ → Option (List ℕ)
unfolding user_classes_count differences spawn_users stop_users
ramp classes requested users = user_classes_count classes users >>= λ counts.
    differences requested counts >>= λ r.
    spawn_users classes r.0 users >>= λ users'. stop_users classes r.1 users'

-- With `wait`, others are stopped first; these are the users that `spawn_users` then waits for.
unfoldable pub ramp_waiting : (classes : List ℕ) (requested : Dict ℕ) → List ℕ → Option (List ℕ)
unfolding user_classes_count differences spawn_users stop_users
ramp_waiting classes requested users = user_classes_count classes users >>= λ counts.
    differences requested counts >>= λ r.
    stop_users classes r.1 users >>= λ users'. spawn_users classes r.0 users'
