-- ===== src/Dispatch/Spawn.antt =====
-- The generators of locust/dispatch.py as states: `_user_gen`, which draws the user classes,
-- `itertools.cycle`, which draws the workers, and the placing of a user on a worker.
pub mod Tracks
pub mod Draw
pub mod Distribute
use locust.Base.{
  ℕ, zero, suc, ◌+◌, ◌-◌, ◌≡◌, Bool, true, false, Option, none, some, List, [], ◌∷◌, ◌++◌, ◌==◌,
  ltb, if◌then◌else◌, sum_by, map,
}
use locust.Dispatch.Kl.{Divergence, Entry, kl_heap, kl_next}
use locust.Dispatch.Users.{UserClass, WorkerNode, Users, no_users, bump, get_user_current_count}

-- `itertools.cycle(worker_nodes)`, by the ids: all of them, and those left of this turn.
pub record Cycle : Type 0 where
  pub saved : List ℕ
  pub rest : List ℕ

unfoldable pub cycle : List WorkerNode → Cycle
cycle ws = let ids = map (λ w. WorkerNode.id w) ws in record { saved = ids; rest = ids }

-- `next(worker_gen)`; `none` is the StopIteration of a cycle over nothing.
abbrev pub cycle_from : (saved rest : List ℕ) → Option (ℕ × Cycle)
cycle_from saved (w ∷ rest) = some (w, record { saved = saved; rest = rest })
cycle_from (w ∷ ws) [] = some (w, record { saved = w ∷ ws; rest = ws })
cycle_from [] [] = none

unfoldable pub cycle_next : Cycle → Option (ℕ × Cycle)
cycle_next c = cycle_from c.saved c.rest

-- A suspended `_user_gen`: its two `_kl_generator`s and the draws left of `range(total_miss)`.
pub record UserGen : Type 0 where
  pub weighted : List Entry
  pub fixed : List Entry
  pub fixed_left : ℕ

-- `((u.__name__, u.weight) for u in user_classes if not u.fixed_count)`
unfoldable pub weighted_users : List UserClass → List (ℕ × ℕ)
weighted_users [] = []
weighted_users (u ∷ us) =
    if u.fixed_count == 0 then (u.name, u.weight) ∷ weighted_users us else weighted_users us

unfoldable pub user_gen : List UserClass → UserGen
unfolding weighted_users
user_gen us = record { weighted = kl_heap (weighted_users us); fixed = []; fixed_left = 0 }

-- `fixed_users_missing`: the count of users is that of the dispatcher's own table.
unfoldable pub fixed_users_missing : List UserClass → Users → List (ℕ × ℕ)
fixed_users_missing [] users = []
fixed_users_missing (u ∷ us) users =
    let miss = u.fixed_count - get_user_current_count u.name users in
    if ltb 0 miss
    then (u.name, miss) ∷ fixed_users_missing us users
    else fixed_users_missing us users

module _ (div : Divergence) where
  unfoldable pub weighted_next : UserGen → Option ℕ × UserGen
  weighted_next g =
      let (name, heap) = kl_next div g.weighted in (name, record g { weighted = heap })

  unfoldable pub fixed_next : UserGen → Option ℕ × UserGen
  fixed_next g =
      let (name, heap) = kl_next div g.fixed in
      (name, record g { fixed = heap; fixed_left = g.fixed_left - 1 })

  -- `next(user_gen)`, with `_try_dispatch_fixed` before and after. When no fixed user is missing
  -- the loop comes round once more, with the flag reset.
  unfoldable pub user_next : List UserClass → Users → Bool → UserGen → Option ℕ × Bool × UserGen
  unfolding weighted_next fixed_next
  user_next us users try_fixed g =
      if ltb 0 g.fixed_left
      then (let (name, g') = fixed_next g in (name, try_fixed, g'))
      else if try_fixed
      then (let missing = fixed_users_missing us users in
          let total_miss = sum_by (λ m. m.1) missing in
          if ltb 0 total_miss
          then (let (name, g') =
                fixed_next (record g { fixed = kl_heap missing; fixed_left = total_miss }) in
              (name, false, g'))
          else (let (name, g') = weighted_next g in (name, false, g')))
      else (let (name, g') = weighted_next g in (name, try_fixed, g'))

-- What a spawning loop changes: the table, the generators, the users that run (the last one
-- first) and their number.
pub record Pool : Type 0 where
  pub users_on_workers : Users
  pub user_generator : UserGen
  pub worker_node_generator : Cycle
  pub active_users : List (ℕ × ℕ)
  pub user_count : ℕ

-- `worker_node = next(worker_gen)`, `users_on_workers[worker_node.id][user] += 1`,
-- `user_count += 1` and `active_users.append((worker_node, user))`; `none` is an exception.
unfoldable pub place : ℕ → Pool → Option Pool
unfolding cycle_next
place user p = elim (cycle_next p.worker_node_generator) [
  | none ↦ none
  | some (w, c) ↦ elim (bump suc w user p.users_on_workers) [
    | none ↦ none
    | some users ↦ some (record p {
      users_on_workers = users;
      worker_node_generator = c;
      active_users = (w, user) ∷ p.active_users;
      user_count = p.user_count + 1;
    })
  ]
]

module _ (div : Divergence) (us : List UserClass) (counted : Users) where
  -- The `while` loop of `_distribute_users`: it stops early where there is no user to spawn.
  -- `counted` is the dispatcher's own table, which the loop does not write.
  unfoldable pub distribute_loop : ℕ → Bool → Pool → Option (Bool × Pool)
  distribute_loop zero try_fixed p = some (try_fixed, p)
  distribute_loop (suc n) try_fixed p =
      let drawn = user_next div us counted try_fixed p.user_generator in
      elim drawn.0 [
        | none ↦ some (drawn.1, record p { user_generator = drawn.2 })
        | some user ↦ elim (place user (record p { user_generator = drawn.2 })) [
          | none ↦ none
          | some p' ↦ distribute_loop n drawn.1 p'
        ]
      ]

-- `_distribute_users`, with the flag `_try_dispatch_fixed` that its generator reads and resets.
unfoldable pub distribute_users :
    Divergence
    → (us originals : List UserClass) → List WorkerNode
    → Users
    → Bool
    → ℕ
    → Option (Bool × Pool)
distribute_users div us originals ws counted try_fixed target =
    distribute_loop div us counted target try_fixed (record {
      users_on_workers = no_users ws originals;
      user_generator = user_gen us;
      worker_node_generator = cycle ws;
      active_users = [];
      user_count = 0;
    })
