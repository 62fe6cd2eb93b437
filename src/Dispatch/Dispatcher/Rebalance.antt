-- ===== src/Dispatch/Dispatcher/Rebalance.antt =====
-- Workers that join and leave: the users are spread anew over the workers, none is lost.
use mathlib.Core.Path.{◌∙◌}
use locust.Base.{
  ℕ, ◌<◌, ◌≡◌, refl, true, not, some, List, [], ◌∷◌, ◌++◌, arith, ◌==◌, length, length-append, keep,
}
use locust.Dispatch.Kl.{Divergence}
use locust.Dispatch.Users.{WorkerNode, no_users}
use locust.Dispatch.Workers.{sort_workers}
use locust.Dispatch.Workers.Sorted.{length-sort_workers}
use locust.Dispatch.Spawn.{Pool}
use locust.Dispatch.Spawn.Tracks.{IsPool}
use locust.Dispatch.Spawn.Distribute.{ids_of, distribute_users-IsPool}
use locust.Dispatch.Dispatcher.{Dispatcher, current, prepare_rebalance, add_worker, remove_worker}
use locust.Dispatch.Dispatcher.Invariant.{IsDispatcher}

-- The same pool, counted by an equal number.
pub recount-IsPool :
    {ids names : List ℕ} (p : Pool) (n : ℕ)
    → p.user_count ≡ n
    → IsPool ids names p
    → IsPool ids names (record p { user_count = n })
recount-IsPool p n e v = record {
  each = v.each;
  total = v.total ∙ e;
  listed = v.listed ∙ e;
  domain = v.domain;
  known = v.known;
  live = v.live;
  saved_known = v.saved_known;
  rest_known = v.rest_known;
  draws = v.draws;
}

-- What a rebalancing leaves: a valid dispatcher over the rows of its workers, with as many users as
-- before, and the flag that makes the next iteration send the new table out.
pub record Rebalanced (d d' : Dispatcher) : Type 0 where
  pub valid : IsDispatcher d'
  pub rows : valid.ids ≡ ids_of d'.worker_nodes
  pub workers : d'.worker_nodes ≡ d.worker_nodes
  pub count : current d' ≡ current d
  pub flagged : d'.rebalance ≡ true
  pub target : d'.target_user_count ≡ d.target_user_count
  pub supplied : d'.no_user_to_spawn ≡ d.no_user_to_spawn

module _ (div : Divergence) where
  pub prepare_rebalance-Rebalanced :
      (d : Dispatcher)
      → 0 < length d.worker_nodes
      → IsDispatcher d
      → (d' : Dispatcher) × (prepare_rebalance div d ≡ some d') × Rebalanced d d'
  unfolding prepare_rebalance
  prepare_rebalance-Rebalanced d live v =
      let ((try_fixed, p), e, pv, bound, full) =
        distribute_users-IsPool div d.user_classes d.original_user_classes d.worker_nodes
          (no_users d.worker_nodes d.original_user_classes) true (current d) live v.named in
      let (count, ready) = full v.weighted in
      (
        record d {
          pool = record p { user_count = current d };
          try_dispatch_fixed = try_fixed;
          rebalance = true;
        },
        ground arith,
        record {
          valid = record {
            ids = ids_of d.worker_nodes;
            pool = recount-IsPool p (current d) count pv;
            named = v.named;
            weighted = v.weighted;
            ready = ready;
          };
          rows = refl;
          workers = refl;
          count = refl;
          flagged = refl;
          target = refl;
          supplied = refl;
        },
      )

  pub with_workers-IsDispatcher :
      (d : Dispatcher) (ws : List WorkerNode)
      → IsDispatcher d
      → IsDispatcher (record d { worker_nodes = ws })
  with_workers-IsDispatcher d ws v = record {
    ids = v.ids;
    pool = v.pool;
    named = v.named;
    weighted = v.weighted;
    ready = v.ready;
  }

  -- A worker joins a valid dispatcher: no exception, a valid dispatcher over the sorted workers
  -- with the new one, as many users as before, all of them on the workers that are there, and the
  -- flag set that sends the new table out.
  pub add_worker-Rebalanced :
      (w : WorkerNode) (d : Dispatcher)
      → IsDispatcher d
      → (d' : Dispatcher) × (add_worker div w d ≡ some d')
        × Rebalanced (record d { worker_nodes = sort_workers (d.worker_nodes ++ w ∷ []) }) d'
  unfolding add_worker
  add_worker-Rebalanced w d v =
      let ws = d.worker_nodes ++ w ∷ [] in
      let e1 = record d { worker_nodes = sort_workers ws } in
      prepare_rebalance-Rebalanced e1
        (omega (arith, length-sort_workers ws, length-append d.worker_nodes (w ∷ [])))
        (with_workers-IsDispatcher d (sort_workers ws) v)

  -- A worker leaves a valid dispatcher and others stay: no exception, a valid dispatcher over the
  -- workers that stay, on which as many users run as before, and the flag set that sends the new
  -- table out.
  pub remove_worker-Rebalanced :
      (id : ℕ) (d : Dispatcher)
      → IsDispatcher d
      → 0 < length (keep (λ w. not (WorkerNode.id w == id)) d.worker_nodes)
      → (d' : Dispatcher) × (remove_worker div id d ≡ some d')
        × Rebalanced
            (record d { worker_nodes = keep (λ w. not (WorkerNode.id w == id)) d.worker_nodes })
            d'
  unfolding remove_worker
  remove_worker-Rebalanced id d v more =
      let ws = keep (λ w. not (WorkerNode.id w == id)) d.worker_nodes in
      let (d', e, r) =
        prepare_rebalance-Rebalanced (record d { worker_nodes = ws }) more
          (with_workers-IsDispatcher d ws v) in
      (d', ground arith, r)
