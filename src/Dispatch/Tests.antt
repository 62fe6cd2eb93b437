-- ===== src/Dispatch/Tests.antt =====
-- Runs of the dispatcher on small inputs, and instances of its theorems.
use mathlib.Core.Option
use locust.Base.{
  ℕ, ◌≡◌, refl, true, false, none, some, List, [], ◌∷◌, arith, length, count_by, ◌==◌, keep, not,
  ◌++◌, Option, Bool, ◌+◌, ◌-◌, ◌≤◌, min, max, ◌>>=◌,
}
use locust.Base.Dict.{get}
use locust.Dispatch.Kl.{kl_heap, kl_take, kl_next, pop_least, before}
use locust.Dispatch.Kl.Exact.{exact, exact_less}
use locust.Dispatch.Kl.Quota.{kl_take-exact}
use locust.Dispatch.Users.{
  UserClass, WorkerNode, Users, bump, get_current_user_count, no_users, get_user_current_count,
}
use locust.Dispatch.Workers.{sort_workers, sorted_by}
use locust.Dispatch.Spawn.Tracks.{IsPool}
use locust.Dispatch.Spawn.Draw.{has_weighted, IsReady}
use locust.Dispatch.Spawn.Distribute.{ids_of, names_of, distribute_users-IsPool}
use locust.Dispatch.Spawn.{
  Pool, place, user_next, distribute_loop, distribute_users, user_gen, cycle, fixed_users_missing,
  cycle_next,
}
use locust.Dispatch.Dispatcher.{
  Dispatcher, current, fresh, init_dispatcher, new_dispatch, begin_dispatch, le_name,
  prepare_rebalance, add_worker, remove_worker, add_loop, add_users_on_workers,
  remove_users_from_workers,
}
use locust.Dispatch.Dispatcher.Generator.{run, next}
use locust.Dispatch.Dispatcher.Invariant.{
  IsDispatcher, Added, Removed, add_users_on_workers-Added, remove_users_from_workers-Removed,
}
use locust.Dispatch.Dispatcher.Rebalance.{
  Rebalanced, add_worker-Rebalanced, remove_worker-Rebalanced,
}
use locust.Dispatch.Dispatcher.Total.{Finished, dispatch_ends}
use locust.Dispatch.Dispatcher.Dispatches.{
  DispatchEnds, Reached, dispatch_reaches_target, fresh-IsDispatcher, current-fresh,
  rebalanced_dispatch_stays_in_progress,
}

program : Unit {0}
unfolding kl_heap kl_take kl_next pop_least before exact_less bump get_current_user_count no_users
    get_user_current_count sort_workers sorted_by place user_next distribute_loop distribute_users
    user_gen cycle fixed_users_missing cycle_next fresh init_dispatcher new_dispatch begin_dispatch
    le_name prepare_rebalance add_worker remove_worker add_loop add_users_on_workers
    remove_users_from_workers run next
program = tt

-- The first draws for the weights 5 and 1. (The docstring of the source has AAABAAAAABAA.)
kl_take_five_one :
    (kl_take exact 12 (kl_heap ((0, 5) ∷ (1, 1) ∷ []))).0
    ≡ 0 ∷ 0 ∷ 1 ∷ 0 ∷ 0 ∷ 0 ∷ 0 ∷ 0 ∷ 1 ∷ 0 ∷ 0 ∷ 0 ∷ []
unfolding program
kl_take_five_one = refl

abbrev node : ℕ → ℕ → WorkerNode
node id host = record { id = id; host = host; index_within_host = 0 }

abbrev workers : List WorkerNode
workers = node 1 8 ∷ node 2 9 ∷ []

abbrev classes : List UserClass
classes =
    (record { name = 11; weight = 1; fixed_count = 0 })
    ∷ (record { name = 10; weight = 2; fixed_count = 0 })
    ∷ (record { name = 12; weight = 1; fixed_count = 2 })
    ∷ []

-- From no users to 5, two a round: the two fixed users come first.
run_five :
    Option.map (λ r. r.0) (new_dispatch 5 2000 none (fresh workers classes) >>= run exact 9)
    ≡ some (
        ((1, (10, 0) ∷ (11, 0) ∷ (12, 1) ∷ []) ∷ (2, (10, 0) ∷ (11, 0) ∷ (12, 1) ∷ []) ∷ [])
        ∷ ((1, (10, 1) ∷ (11, 0) ∷ (12, 1) ∷ []) ∷ (2, (10, 0) ∷ (11, 1) ∷ (12, 1) ∷ []) ∷ [])
        ∷ ((1, (10, 2) ∷ (11, 0) ∷ (12, 1) ∷ []) ∷ (2, (10, 0) ∷ (11, 1) ∷ (12, 1) ∷ []) ∷ [])
        ∷ [])
unfolding program
run_five = refl

kl_take-exact_example :
    let users : List (ℕ × ℕ) = (0, 5) ∷ (1, 1) ∷ [] in
    let names = (kl_take exact 6 (kl_heap users)).0 in
    (length names ≡ 6) × ((k : ℕ) → count_by (λ j. k == j) names ≡ get k 0 users)
kl_take-exact_example = kl_take-exact exact ((0, 5) ∷ (1, 1) ∷ []) (refl, (refl, tt))

abbrev start_up : Dispatcher
start_up = fresh workers classes

start_up-IsDispatcher : IsDispatcher start_up
unfolding sorted_by le_name
start_up-IsDispatcher = fresh-IsDispatcher workers classes (omega arith) refl

dispatch_reaches_target_example : DispatchEnds exact 5 2000 none start_up 6 (Reached 5 5 2)
unfolding program
dispatch_reaches_target_example =
    dispatch_reaches_target exact 5 2000 none start_up (omega arith) start_up-IsDispatcher tt refl
      refl (λ e. omega arith)

-- The same dispatcher, with a rebalancing pending.
abbrev to_rebalance : Dispatcher
to_rebalance = record start_up { rebalance = true }

to_rebalance-IsDispatcher : IsDispatcher to_rebalance
to_rebalance-IsDispatcher = record {
  ids = start_up-IsDispatcher.ids;
  pool = start_up-IsDispatcher.pool;
  named = start_up-IsDispatcher.named;
  weighted = start_up-IsDispatcher.weighted;
  ready = start_up-IsDispatcher.ready;
}

dispatch_ends_example :
    (tables : List Users) × (last : Dispatcher) × (new_dispatch 5 2000 none to_rebalance
        >>= run exact (3 + ((current to_rebalance - 5) + (5 - current to_rebalance)))
      ≡ some (tables, last))
    × Finished 5 tables last
unfolding program
dispatch_ends_example =
    dispatch_ends exact 5 2000 none to_rebalance (omega arith) to_rebalance-IsDispatcher tt refl

-- The same dispatcher, with the worker 3 on the host of the worker 2 about to join.
abbrev joiner : WorkerNode
joiner = node 3 9

add_worker-Rebalanced_example :
    (d' : Dispatcher) × (add_worker exact joiner start_up ≡ some d')
    × Rebalanced
        (record start_up { worker_nodes = sort_workers (start_up.worker_nodes ++ joiner ∷ []) })
        d'
add_worker-Rebalanced_example = add_worker-Rebalanced exact joiner start_up start_up-IsDispatcher

remove_worker-Rebalanced_example :
    (d' : Dispatcher) × (remove_worker exact 1 start_up ≡ some d')
    × Rebalanced
        (record start_up {
          worker_nodes = keep (λ w. not (WorkerNode.id w == 1)) start_up.worker_nodes;
        })
        d'
unfolding program
remove_worker-Rebalanced_example =
    remove_worker-Rebalanced exact 1 start_up start_up-IsDispatcher (omega arith)

-- The master adds a worker between two dispatches and starts the next one at the same number.
abbrev rebalancing : Dispatcher
rebalancing = record start_up { rebalance = true }

rebalancing-IsDispatcher : IsDispatcher rebalancing
rebalancing-IsDispatcher =
    let v = start_up-IsDispatcher in
    record { ids = v.ids; pool = v.pool; named = v.named; weighted = v.weighted; ready = v.ready }

rebalanced_dispatch_stays_in_progress_example :
    (last : Dispatcher) × (new_dispatch 0 1000 none rebalancing >>= run exact 2
      ≡ some (rebalancing.pool.users_on_workers ∷ [], last))
    × (last.dispatch_in_progress ≡ true)
    × (last.rebalance ≡ false)
rebalanced_dispatch_stays_in_progress_example =
    rebalanced_dispatch_stays_in_progress exact 0 1000 none rebalancing (omega arith)
      rebalancing-IsDispatcher refl (current-fresh workers classes)

distribute_users-IsPool_example :
    (r : Bool × Pool) × (distribute_users exact classes classes workers
        (no_users workers classes)
        true
        7
      ≡ some r)
    × IsPool (ids_of workers) (names_of classes) r.1
    × (r.1.user_count ≤ 7)
    × (has_weighted classes ≡ true → (r.1.user_count ≡ 7) × IsReady r.1.user_generator)
distribute_users-IsPool_example =
    distribute_users-IsPool exact classes classes workers (no_users workers classes) true 7
      (omega arith) (refl, (refl, (refl, tt)))

-- In the middle of a dispatch to 5 users, two a round.
abbrev growing : Dispatcher
growing = record start_up { target_user_count = 5; user_count_per_dispatch_iteration = 2 }

growing-IsDispatcher : IsDispatcher growing
growing-IsDispatcher =
    let v = start_up-IsDispatcher in
    record { ids = v.ids; pool = v.pool; named = v.named; weighted = v.weighted; ready = v.ready }

growing-Added :
    (d : Dispatcher) × (add_users_on_workers exact growing ≡ some d)
    × Added (min (current growing + 2) 5) growing d
growing-Added =
    add_users_on_workers-Added exact growing growing-IsDispatcher
      (omega (arith, current-fresh workers classes)) (omega arith)

-- The same dispatcher an iteration later, on the way back to no users.
abbrev or_else : Dispatcher → Option Dispatcher → Dispatcher
or_else d none = d
or_else d (some d') = d'

or_else-IsDispatcher :
    (d : Dispatcher) (o : Option Dispatcher) (d' : Dispatcher)
    → o ≡ some d'
    → IsDispatcher d'
    → IsDispatcher (or_else d o)
or_else-IsDispatcher d o d' e v = rw e v

abbrev grown : Dispatcher
grown = or_else growing (add_users_on_workers exact growing)

grown-IsDispatcher : IsDispatcher grown
grown-IsDispatcher =
    let (d', e, a) = growing-Added in
    or_else-IsDispatcher growing (add_users_on_workers exact growing) d' e a.valid

abbrev shrinking : Dispatcher
shrinking = record grown { target_user_count = 0 }

shrinking-IsDispatcher : IsDispatcher shrinking
shrinking-IsDispatcher =
    let v = grown-IsDispatcher in
    record { ids = v.ids; pool = v.pool; named = v.named; weighted = v.weighted; ready = v.ready }

grown_count : current grown ≡ 2
unfolding program
grown_count = refl

grown_step : grown.user_count_per_dispatch_iteration ≡ 2
unfolding program
grown_step = refl

remove_users_from_workers-Removed_example :
    (d : Dispatcher) × (remove_users_from_workers shrinking ≡ some d)
    × Removed (max (current shrinking - grown.user_count_per_dispatch_iteration) 0) shrinking d
remove_users_from_workers-Removed_example =
    remove_users_from_workers-Removed shrinking shrinking-IsDispatcher (omega (arith, grown_count))
      (omega (arith, grown_step))

add_users_on_workers-Added_example :
    (d : Dispatcher) × (add_users_on_workers exact growing ≡ some d)
    × Added (min (current growing + 2) 5) growing d
add_users_on_workers-Added_example =
    add_users_on_workers-Added exact growing growing-IsDispatcher
      (omega (arith, current-fresh workers classes)) (omega arith)
