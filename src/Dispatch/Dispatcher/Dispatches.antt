-- ===== src/Dispatch/Dispatcher/Dispatches.antt =====
-- `__init__`, `new_dispatch` and the loop over the dispatcher together: what a whole dispatch does.
use mathlib.Core.Path.{subst, sym, ap, ◌∙◌}
use locust.Base.{
  ℕ, suc, ◌+◌, ◌-◌, ◌*◌, ◌/◌, ◌≤◌, ◌<◌, ◌≡◌, ◌≢◌, refl, max, true, false, Option, none, some, List,
  [], ◌∷◌, arith, length, Bool-cases, inl, inr, All, member, member_self, length-map, All-of_map,
  All-to_map, ◌>>=◌, bind_some, ◌==◌,
}
use locust.Dispatch.Kl.{Divergence}
use locust.Dispatch.Users.{UserClass, WorkerNode, Users, no_users, get_current_user_count}
use locust.Dispatch.Workers.{sorted_by, sort_workers}
use locust.Dispatch.Spawn.Draw.{AreNamed, has_weighted, user_gen-Draws, user_gen-IsReady}
use locust.Dispatch.Spawn.{user_gen, cycle}
use locust.Dispatch.Spawn.Tracks.{IsPool}
use locust.Dispatch.Spawn.Distribute.{
  ids_of, names_of, drawn_from-IsPool, initial-IsPool, total-no_users,
}
use locust.Dispatch.Dispatcher.{
  Dispatcher, start, done, current, le_name, take_classes, same_classes, distinct, fresh,
  new_dispatch, begin_dispatch, init_dispatcher,
}
use locust.Dispatch.Dispatcher.Invariant.{IsDispatcher}
use locust.Dispatch.Dispatcher.Generator.{next, run, resume, first}
use locust.Dispatch.Workers.Sorted.{length-sort_workers, All-sort_workers}
use locust.Dispatch.Dispatcher.Rebalance.{recount-IsPool}
use locust.Dispatch.Dispatcher.CycleRun.{cycle_run, IsQuiet}

-- The classes that `new_dispatch` is given are among the original ones, and one has a weight.
abbrev pub Usable : Dispatcher → Option (List UserClass) → Type 0
Usable d none = Unit
Usable d (some us) =
    AreNamed (names_of d.original_user_classes) (sorted_by le_name us)
    × (has_weighted (sorted_by le_name us) ≡ true)

named_self : (us : List UserClass) → AreNamed (names_of us) us
named_self us =
    All-of_map (λ u. UserClass.name u) (λ k. member k (names_of us) ≡ true) us
      (member_self (names_of us))

-- `new_dispatch` counts the users anew.
pub recounted-IsDispatcher :
    (d : Dispatcher) (target step : ℕ)
    → IsDispatcher d
    → IsDispatcher (record d {
      target_user_count = target;
      user_count_per_dispatch_iteration = step;
      initial_users_on_workers = d.pool.users_on_workers;
      pool = record d.pool { user_count = get_current_user_count d.pool.users_on_workers };
      dispatcher_generator = start;
    })
recounted-IsDispatcher d target step v = record {
  ids = v.ids;
  pool = record {
    each = v.pool.each;
    total = refl;
    listed = v.pool.listed ∙ sym v.pool.total;
    domain = v.pool.domain;
    known = v.pool.known;
    live = v.pool.live;
    saved_known = v.pool.saved_known;
    rest_known = v.pool.rest_known;
    draws = v.pool.draws;
  };
  named = v.named;
  weighted = v.weighted;
  ready = v.ready;
}

pub take_classes-IsDispatcher :
    (us : Option (List UserClass)) (d : Dispatcher)
    → IsDispatcher d
    → Usable d us
    → IsDispatcher (take_classes us d)
unfolding take_classes
take_classes-IsDispatcher none d v h = v
take_classes-IsDispatcher (some us) d v h =
    elim (Bool-cases (same_classes d.user_classes (sorted_by le_name us))) [
      | inl same ↦ rw same v
      | inr other ↦ rw other (record {
        ids = v.ids;
        pool =
            drawn_from-IsPool v.ids (names_of d.original_user_classes) d.pool
              (user_gen (sorted_by le_name us)) v.pool
              (user_gen-Draws (names_of d.original_user_classes) (sorted_by le_name us) h.0);
        named = h.0;
        weighted = h.1;
        ready = user_gen-IsReady (sorted_by le_name us) h.1;
      })
    ]

-- `take_classes` leaves the flags, the point and the users alone.
abbrev pub Retains : Dispatcher → Dispatcher → Type 0
Retains d d' =
    (d'.rebalance ≡ d.rebalance)
    × (d'.no_user_to_spawn ≡ d.no_user_to_spawn)
    × (d'.pool.users_on_workers ≡ d.pool.users_on_workers)
    × (d'.pool.active_users ≡ d.pool.active_users)

pub take_classes-Retains :
    (us : Option (List UserClass)) (d : Dispatcher) → Retains d (take_classes us d)
unfolding take_classes
take_classes-Retains none d = (refl, refl, refl, refl)
take_classes-Retains (some us) d = ground arith

pub new_dispatch_zero :
    (target rate : ℕ) (us : Option (List UserClass)) (d : Dispatcher)
    → (rate == 0) ≡ true
    → new_dispatch target rate us d ≡ none
unfolding new_dispatch
new_dispatch_zero target rate us d h = ground (arith, h)

-- A rate that is not 0 raises nothing.
pub new_dispatch_lem :
    (target rate : ℕ) (us : Option (List UserClass)) (d : Dispatcher)
    → 0 < rate
    → new_dispatch target rate us d ≡ some (begin_dispatch target rate us d)
unfolding new_dispatch
new_dispatch_lem target rate us d h = ground arith

-- The loop over a dispatcher after `new_dispatch` ends, without an exception and within `rounds`
-- resumptions.
abbrev pub DispatchEnds :
    Divergence
    → (target rate : ℕ) → Option (List UserClass)
    → Dispatcher
    → (rounds : ℕ) → (List Users → Dispatcher → Type 0)
    → Type 0
DispatchEnds div target rate us d rounds P =
    (tables : List Users) × (last : Dispatcher) × (new_dispatch target rate us d >>= run div rounds
      ≡ some (tables, last))
    × P tables last

-- Exactly `target` users run, by the table, by the list of active users and by the counter, after
-- `diff` of them were moved at most `step` a round.
abbrev pub Reached : (target diff step : ℕ) → List Users → Dispatcher → Type 0
Reached target diff step tables last =
    IsDispatcher last
    × (current last ≡ target)
    × (get_current_user_count last.pool.users_on_workers ≡ target)
    × (length last.pool.active_users ≡ target)
    × (last.dispatch_in_progress ≡ false)
    × (diff ≤ length tables * step)
    × (length tables * step < diff + step)

-- A whole dispatch at a positive rate, with no worker joining or leaving: from a valid dispatcher with no rebalancing
-- pending, to a target other than the number of users that run, over the classes in use or over
-- others of the original ones with a weighted one among them, the loop over the dispatcher ends
-- without an exception. It ends with exactly `target` users, in the table, in the list of active
-- users and in the counter, with the flag of a dispatch in progress reset, and after as many tables
-- as the distance divided by the users of an iteration, rounded up.
pub dispatch_reaches_target :
    (div : Divergence) (target rate : ℕ) (us : Option (List UserClass)) (d : Dispatcher)
    → 0 < rate
    → IsDispatcher d
    → Usable d us
    → d.rebalance ≡ false
    → d.no_user_to_spawn ≡ false
    → current d ≢ target
    → let diff = (current d - target) + (target - current d) in
      DispatchEnds div target rate us d (suc diff) (Reached target diff (max 1 (rate / 1000)))
unfolding begin_dispatch
dispatch_reaches_target div target rate us d positive v usable settled supplied moves =
    let d1 = take_classes us d in
    let v1 = take_classes-IsDispatcher us d v usable in
    let kept = take_classes-Retains us d in
    let same : get_current_user_count d1.pool.users_on_workers ≡ current d =
      ap get_current_user_count kept.2 ∙ v.pool.total in
    let d2 = begin_dispatch target rate us d in
    let q : IsQuiet d2 = record {
      valid = recounted-IsDispatcher d1 target (max 1 (rate / 1000)) v1;
      step = omega arith;
      settled = kept.0 ∙ settled;
      supplied = kept.1 ∙ supplied;
    } in
    let (tables, last, e, ends) = cycle_run div d2 q refl (λ e. moves (sym same ∙ e)) in
    (
      tables,
      last,
      bind_some (λ o. o ≡ some (tables, last))
          (run div (suc ((current d - target) + (target - current d))))
          (new_dispatch_lem target rate us d positive)
          (subst (λ n. run div (suc ((n - target) + (target - n))) d2 ≡ some (tables, last)) same
            e),
      (
        ends.valid,
        ends.reached,
        ends.valid.pool.total ∙ ends.reached,
        ends.valid.pool.listed ∙ ends.reached,
        ends.idle,
        omega (arith, ends.enough, same),
        omega (arith, ends.no_more, same),
      ),
    )

-- From a valid dispatcher with no rebalancing pending, a dispatch at a positive rate to the number of users that run
-- already yields one table, the present one, and ends with the flag of a dispatch in progress
-- reset.
pub dispatch_at_target :
    (div : Divergence) (target rate : ℕ) (us : Option (List UserClass)) (d : Dispatcher)
    → 0 < rate
    → IsDispatcher d
    → d.rebalance ≡ false
    → current d ≡ target
    → (last : Dispatcher) × (new_dispatch target rate us d >>= run div 2
        ≡ some (d.pool.users_on_workers ∷ [], last))
      × (last.dispatch_in_progress ≡ false)
      × (last.pool.users_on_workers ≡ d.pool.users_on_workers)
      × (current last ≡ target)
unfolding begin_dispatch run next resume first
dispatch_at_target div target rate us d positive v settled still =
    let d1 = take_classes us d in
    let kept = take_classes-Retains us d in
    let same : get_current_user_count d1.pool.users_on_workers ≡ target =
      ap get_current_user_count kept.2 ∙ v.pool.total ∙ still in
    (
      record d1 {
        target_user_count = target;
        user_count_per_dispatch_iteration = max 1 (rate / 1000);
        initial_users_on_workers = d1.pool.users_on_workers;
        pool = record d1.pool { user_count = get_current_user_count d1.pool.users_on_workers };
        dispatcher_generator = done;
        dispatch_in_progress = false;
      },
      rw (new_dispatch_lem target rate us d positive)
          (ground (arith, same, kept.0, kept.2, settled)),
      refl,
      kept.2,
      same,
    )

-- From a valid dispatcher, a dispatch at a positive rate that begins with a rebalanced table, at the number of users
-- that run already, yields that table and ends with the flag of a dispatch in progress still set:
-- the early `return` of `_dispatcher` passes over the assignment that resets it.
pub rebalanced_dispatch_stays_in_progress :
    (div : Divergence) (target rate : ℕ) (us : Option (List UserClass)) (d : Dispatcher)
    → 0 < rate
    → IsDispatcher d
    → d.rebalance ≡ true
    → current d ≡ target
    → (last : Dispatcher) × (new_dispatch target rate us d >>= run div 2
        ≡ some (d.pool.users_on_workers ∷ [], last))
      × (last.dispatch_in_progress ≡ true)
      × (last.rebalance ≡ false)
unfolding begin_dispatch run next resume
rebalanced_dispatch_stays_in_progress div target rate us d positive v flagged still =
    let d1 = take_classes us d in
    let kept = take_classes-Retains us d in
    let same : get_current_user_count d1.pool.users_on_workers ≡ target =
      ap get_current_user_count kept.2 ∙ v.pool.total ∙ still in
    (
      record d1 {
        target_user_count = target;
        user_count_per_dispatch_iteration = max 1 (rate / 1000);
        initial_users_on_workers = d1.pool.users_on_workers;
        pool = record d1.pool { user_count = get_current_user_count d1.pool.users_on_workers };
        dispatcher_generator = done;
        dispatch_in_progress = true;
        rebalance = false;
      },
      rw (new_dispatch_lem target rate us d positive)
          (ground (arith, same, kept.0, kept.2, flagged)),
      refl,
      refl,
    )

-- The table has a row for each worker that was given, and the cycle is over the sorted ones.
start-IsPool :
    (ws nodes : List WorkerNode) (classes : List UserClass)
    → 0 < length ws
    → 0 < length nodes
    → All (λ w. member w (ids_of ws) ≡ true) (ids_of nodes)
    → IsPool (ids_of ws) (names_of classes) (record {
      users_on_workers = no_users ws classes;
      user_generator = user_gen classes;
      worker_node_generator = cycle nodes;
      active_users = [];
      user_count = 0;
    })
unfolding cycle
start-IsPool ws nodes classes live live' known =
    let v = initial-IsPool ws classes classes live (named_self classes) in
    record {
      each = v.each;
      total = v.total;
      listed = v.listed;
      domain = v.domain;
      known = v.known;
      live = omega (arith, length-map nodes (λ w. WorkerNode.id w));
      saved_known = known;
      rest_known = known;
      draws = v.draws;
    }

sorted_known :
    (ws : List WorkerNode) → All (λ k. member k (ids_of ws) ≡ true) (ids_of (sort_workers ws))
sorted_known ws =
    let known = λ (k : ℕ). member k (ids_of ws) ≡ true in
    All-to_map (λ w. WorkerNode.id w) known (sort_workers ws)
      (All-sort_workers known ws
        (All-of_map (λ w. WorkerNode.id w) known ws (member_self (ids_of ws))))

pub fresh-IsDispatcher :
    (ws : List WorkerNode) (us : List UserClass)
    → 0 < length ws
    → has_weighted (sorted_by le_name us) ≡ true
    → IsDispatcher (fresh ws us)
unfolding fresh
fresh-IsDispatcher ws us live weighted =
    let classes = sorted_by le_name us in
    let v =
      start-IsPool ws (sort_workers ws) classes live (omega (arith, length-sort_workers ws))
        (sorted_known ws) in
    record {
      ids = ids_of ws;
      pool = recount-IsPool _ _ (sym v.total) v;
      named = named_self classes;
      weighted = weighted;
      ready = user_gen-IsReady classes weighted;
    }

pub current-fresh : (ws : List WorkerNode) (us : List UserClass) → current (fresh ws us) ≡ 0
unfolding fresh
current-fresh ws us = total-no_users ws (sorted_by le_name us)

-- Over some workers and classes with different names, one of them weighted, `__init__` raises no
-- AssertionError and gives a valid dispatcher that runs no user.
pub init_dispatcher-IsDispatcher :
    (ws : List WorkerNode) (us : List UserClass)
    → 0 < length ws
    → 0 < length us
    → distinct (sorted_by le_name us) ≡ true
    → has_weighted (sorted_by le_name us) ≡ true
    → (d : Dispatcher) × (init_dispatcher ws us ≡ some d) × IsDispatcher d × (current d ≡ 0)
unfolding init_dispatcher
init_dispatcher-IsDispatcher ws us live some_class different weighted =
    (fresh ws us, ground arith, fresh-IsDispatcher ws us live weighted, current-fresh ws us)
