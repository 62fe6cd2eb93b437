-- ===== src/Dispatch/Dispatcher/Generator.antt =====
-- The generator `_dispatcher` of `class UsersDispatcher`, resumed by `__next__` from the point
-- where it is suspended. What `add_worker` and `remove_worker` do between two resumptions shows in
-- the flag `rebalance`.
use locust.Base.{
  ℕ, zero, suc, true, false, Option, none, some, List, [], ◌∷◌, ◌==◌, ltb, if◌then◌else◌,
}
use locust.Dispatch.Kl.{Divergence}
use locust.Dispatch.Users.{Users}
use locust.Dispatch.Dispatcher.{
  Point, start, rebalanced, unchanged, adding, adding_rebalanced, removing, removing_rebalanced,
  done, Dispatcher, current, add_users_on_workers, remove_users_from_workers,
}

-- What a resumption ends in: a table that is yielded, or StopIteration.
pub data Outcome : Type 0 where
  yielded : Users → Dispatcher → Outcome
  stopped : Dispatcher → Outcome

-- The state that the resumption leaves.
abbrev pub after : Outcome → Dispatcher
after (yielded users d) = d
after (stopped d) = d

abbrev pub yield_at : Point → Dispatcher → Outcome
yield_at p d = yielded d.pool.users_on_workers (record d { dispatcher_generator = p })

-- The end of the generator, with `_dispatch_in_progress = False` and without.
abbrev pub finish : Dispatcher → Outcome
finish d = stopped (record d { dispatch_in_progress = false; dispatcher_generator = done })

abbrev pub return : Dispatcher → Outcome
return d = stopped (record d { dispatcher_generator = done })

-- `if self._rebalance: self._rebalance = False; yield self._users_on_workers`
abbrev pub yield_rebalanced : Point → Dispatcher → Outcome
yield_rebalanced p d = yield_at p (record d { rebalance = false })

-- The test of the second loop, and its body up to the `yield`.
unfoldable pub shrink : Dispatcher → Option Outcome
shrink d =
    if ltb d.target_user_count (current d)
    then elim (remove_users_from_workers d) [ none ↦ none | some d' ↦ some (yield_at removing d') ]
    else some (finish d)

-- One round of a `for` loop over the dispatcher, with the rest of the loop.
abbrev pub collect :
    (Dispatcher → Option (List Users × Dispatcher)) → Outcome → Option (List Users × Dispatcher)
collect rest (stopped d) = some ([], d)
collect rest (yielded users d) = elim (rest d) [
  | none ↦ none
  | some (tables, last) ↦ some (users ∷ tables, last)
]

module _ (div : Divergence) where
  -- The test of the first loop, and its body up to the `yield`.
  unfoldable pub grow : Dispatcher → Option Outcome
  unfolding shrink
  grow d =
      if ltb (current d) d.target_user_count
      then elim (add_users_on_workers div d) [ none ↦ none | some d' ↦ some (yield_at adding d') ]
      else shrink d

  -- The rest of the body of the first loop.
  unfoldable pub after_adding : Dispatcher → Option Outcome
  unfolding grow
  after_adding d =
      if d.no_user_to_spawn then shrink (record d { no_user_to_spawn = false }) else grow d

  unfoldable pub first : Dispatcher → Option Outcome
  unfolding grow
  first d =
      if current d == d.target_user_count
      then some (yielded d.initial_users_on_workers (record d { dispatcher_generator = unchanged }))
      else grow d

  unfoldable pub resume : Point → Dispatcher → Option Outcome
  unfolding first after_adding
  resume start d =
      let d' = record d { dispatch_in_progress = true } in
      if d.rebalance then some (yield_rebalanced rebalanced d') else first d'
  resume rebalanced d = if current d == d.target_user_count then some (return d) else first d
  resume unchanged d = some (finish d)
  resume adding d =
      if d.rebalance then some (yield_rebalanced adding_rebalanced d) else after_adding d
  resume adding_rebalanced d = after_adding d
  resume removing d =
      if d.rebalance then some (yield_rebalanced removing_rebalanced d) else shrink d
  resume removing_rebalanced d = shrink d
  resume done d = some (stopped d)

  -- `__next__`.
  unfoldable pub next : Dispatcher → Option Outcome
  unfolding resume
  next d = resume d.dispatcher_generator d

  -- `for dispatched_users in self._users_dispatcher`, at most `fuel` times, with the yielded tables;
  -- `none` is an exception, or a loop that has not ended.
  unfoldable pub run : ℕ → Dispatcher → Option (List Users × Dispatcher)
  run zero d = none
  run (suc fuel) d = elim (next d) [ none ↦ none | some o ↦ collect (run fuel) o ]
