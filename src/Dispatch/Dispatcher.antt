-- ===== src/Dispatch/Dispatcher.antt =====
-- `class UsersDispatcher` of locust/dispatch.py: its attributes and its methods.
-- A method that raises (StopIteration, KeyError, AssertionError) gives `none`. The spawn rate is
-- in thousandths of a user a second; sleeping between the iterations is not modelled.
pub mod Invariant
pub mod Generator
pub mod Rebalance
pub mod CycleRun
pub mod Dispatches
pub mod Total
pub mod Shape
pub mod Shown
use locust.Base.{
  ℕ, zero, suc, ◌+◌, ◌-◌, ◌/◌, ◌≡◌, min, max, Bool, true, false, not, Option, none, some, List, [],
  ◌∷◌, ◌++◌, ◌==◌, ltb, leb, if◌then◌else◌, keep, length, member, ◌||◌, ◌&&◌, map,
}
use locust.Dispatch.Kl.{Divergence}
use locust.Dispatch.Users.{UserClass, WorkerNode, Users, no_users, bump, get_current_user_count}
use locust.Dispatch.Workers.{sort_workers, sorted_by}
use locust.Dispatch.Spawn.{UserGen, user_gen, user_next, Pool, place, cycle, distribute_users}

-- Where the generator `_dispatcher` is suspended: before its first statement, at the first `yield`
-- of a rebalanced table, at that of the unchanged table, at the two of each loop, or at its end.
pub data Point : Type 0 where
  start rebalanced unchanged adding adding_rebalanced removing removing_rebalanced done : Point

-- `pool` holds `_users_on_workers`, `_user_generator`, `_worker_node_generator`, `_active_users`
-- and `_current_user_count`.
pub record Dispatcher : Type 0 where
  pub worker_nodes : List WorkerNode
  pub original_user_classes : List UserClass
  pub user_classes : List UserClass
  pub target_user_count : ℕ
  pub user_count_per_dispatch_iteration : ℕ
  pub initial_users_on_workers : Users
  pub pool : Pool
  pub dispatcher_generator : Point
  pub dispatch_in_progress : Bool
  pub rebalance : Bool
  pub try_dispatch_fixed : Bool
  pub no_user_to_spawn : Bool

abbrev pub current : Dispatcher → ℕ
current d = d.pool.user_count

unfoldable pub le_name : UserClass → UserClass → Bool
le_name u v = leb u.name v.name

abbrev pub distinct : List UserClass → Bool
distinct [] = true
distinct (u ∷ us) = if member u.name (map (λ v. UserClass.name v) us) then false else distinct us

abbrev pub same_classes : List UserClass → List UserClass → Bool
same_classes [] [] = true
same_classes (u ∷ us) (v ∷ vs) = if u.name == v.name then same_classes us vs else false
same_classes _ _ = false

-- The attributes that `__init__` assigns. The generator `_dispatcher` is assigned by `new_dispatch`
-- before it is used.
unfoldable pub fresh : List WorkerNode → List UserClass → Dispatcher
unfolding sort_workers sorted_by le_name
fresh ws user_classes =
    let classes = sorted_by le_name user_classes in
    let nodes = sort_workers ws in
    record {
      worker_nodes = nodes;
      original_user_classes = classes;
      user_classes = classes;
      target_user_count = 0;
      user_count_per_dispatch_iteration = 0;
      initial_users_on_workers = no_users ws classes;
      pool = record {
        users_on_workers = no_users ws classes;
        user_generator = user_gen classes;
        worker_node_generator = cycle nodes;
        active_users = [];
        user_count = get_current_user_count (no_users ws classes);
      };
      dispatcher_generator = done;
      dispatch_in_progress = false;
      rebalance = false;
      try_dispatch_fixed = true;
      no_user_to_spawn = false;
    }

-- `__init__`, with its two assertions.
unfoldable pub init_dispatcher : List WorkerNode → List UserClass → Option Dispatcher
unfolding fresh
init_dispatcher ws user_classes =
    if ltb 0 (length user_classes) && distinct (sorted_by le_name user_classes)
    then some (fresh ws user_classes)
    else none

-- The first lines of `new_dispatch`: other classes than before start another `_user_gen`.
unfoldable pub take_classes : Option (List UserClass) → Dispatcher → Dispatcher
unfolding sorted_by le_name
take_classes none d = d
take_classes (some user_classes) d =
    let classes = sorted_by le_name user_classes in
    if same_classes d.user_classes classes then d else record d {
      user_classes = classes;
      pool = record d.pool { user_generator = user_gen classes };
    }

-- What `new_dispatch` assigns.
unfoldable pub begin_dispatch : ℕ → ℕ → Option (List UserClass) → Dispatcher → Dispatcher
unfolding take_classes
begin_dispatch target_user_count spawn_rate user_classes d =
    let d' = take_classes user_classes d in
    record d' {
      target_user_count = target_user_count;
      user_count_per_dispatch_iteration = max 1 (spawn_rate / 1000);
      initial_users_on_workers = d'.pool.users_on_workers;
      pool = record d'.pool { user_count = get_current_user_count d'.pool.users_on_workers };
      dispatcher_generator = start;
    }

-- `none` is the ZeroDivisionError of `_wait_between_dispatch`, which divides by the rate.
unfoldable pub new_dispatch : ℕ → ℕ → Option (List UserClass) → Dispatcher → Option Dispatcher
unfolding begin_dispatch
new_dispatch target_user_count spawn_rate user_classes d =
    if spawn_rate == 0
    then none
    else some (begin_dispatch target_user_count spawn_rate user_classes d)

unfoldable pub prepare_rebalance : Divergence → Dispatcher → Option Dispatcher
prepare_rebalance div d =
    let zeros = no_users d.worker_nodes d.original_user_classes in
    elim (distribute_users div d.user_classes d.original_user_classes d.worker_nodes zeros true
      (current d)) [
        | none ↦ none
        | some (try_fixed, pool) ↦ some (record d {
          pool = record pool { user_count = current d };
          try_dispatch_fixed = try_fixed;
          rebalance = true;
        })
      ]

unfoldable pub add_worker : Divergence → WorkerNode → Dispatcher → Option Dispatcher
add_worker div w d =
    prepare_rebalance div (record d { worker_nodes = sort_workers (d.worker_nodes ++ w ∷ []) })

unfoldable pub remove_worker : Divergence → ℕ → Dispatcher → Option Dispatcher
remove_worker div id d =
    let nodes = keep (λ w. not (WorkerNode.id w == id)) d.worker_nodes in
    let d' = record d { worker_nodes = nodes } in
    if length nodes == 0 then some d' else prepare_rebalance div d'

module _ (div : Divergence) where
  -- The loop of `_add_users_on_workers`; without fuel it gives `none`, as an exception does.
  unfoldable pub add_loop : (fuel goal : ℕ) → Dispatcher → Option Dispatcher
  add_loop zero goal d = none
  add_loop (suc fuel) goal d =
      let drawn =
        user_next div d.user_classes d.pool.users_on_workers d.try_dispatch_fixed
          d.pool.user_generator in
      elim drawn.0 [
        | none ↦ some (record d {
          pool = record d.pool { user_generator = drawn.2 };
          try_dispatch_fixed = drawn.1;
          no_user_to_spawn = true;
        })
        | some user ↦ elim (place user (record d.pool { user_generator = drawn.2 })) [
          | none ↦ none
          | some pool ↦
              let d' = record d { pool = pool; try_dispatch_fixed = drawn.1 } in
              elim (leb goal (current d')) [ true ↦ some d' | false ↦ add_loop fuel goal d' ]
        ]
      ]

  -- The fuel is enough: each round but the last adds a user below the goal.
  unfoldable pub add_users_on_workers : Dispatcher → Option Dispatcher
  add_users_on_workers d =
      let goal = min (current d + d.user_count_per_dispatch_iteration) d.target_user_count in
      add_loop (suc (goal - current d)) goal d

-- The loop of `_remove_users_from_workers`, over the list that it pops.
unfoldable pub remove_loop : (goal : ℕ) → List (ℕ × ℕ) → Dispatcher → Option Dispatcher
remove_loop goal [] d = some d
remove_loop goal ((w, user) ∷ active) d = elim (bump (λ n. n - 1) w user d.pool.users_on_workers) [
  | none ↦ none
  | some users ↦
      let d' = record d {
        pool = record d.pool {
          users_on_workers = users;
          active_users = active;
          user_count = current d - 1;
        };
        try_dispatch_fixed = true;
      } in
      elim (current d' == 0 || leb (current d') goal) [
        | true ↦ some d'
        | false ↦ remove_loop goal active d'
      ]
]

unfoldable pub remove_users_from_workers : Dispatcher → Option Dispatcher
unfolding remove_loop
remove_users_from_workers d =
    let goal = max (current d - d.user_count_per_dispatch_iteration) d.target_user_count in
    remove_loop goal d.pool.active_users d
