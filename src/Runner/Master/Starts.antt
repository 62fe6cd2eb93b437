-- ===== src/Runner/Master/Starts.antt =====
-- Calls of `start`, by a user and when workers come or go: none raises an exception.
use mathlib.Core.Path.{subst, sym, ◌∙◌}
use locust.Base.{
  if_lem, bind_some, ℕ, ◌<◌, ◌≡◌, refl, false, Option, none, some, List, ◌==◌, ◌&&◌, not, keep,
  arith, length, map, Bool-cases, Option-cases, inl, inr, length-map, sum_by, length-keep-le,
}
use locust.Base.Dict.{keys, values}
use locust.Dispatch.Users.{UserClass, WorkerNode, Users}
use locust.Dispatch.Dispatcher.{Dispatcher, add_worker, remove_worker, fresh, init_dispatcher}
use locust.Dispatch.Dispatcher.Rebalance.{
  add_worker-Rebalanced, remove_worker-Rebalanced, with_workers-IsDispatcher,
}
use locust.Runner.Master.Messages.{restart, join, lose, rebalance}
use locust.Dispatch.Dispatcher.Dispatches.{Usable, fresh-IsDispatcher}
use locust.Dispatch.Dispatcher.Total.{dispatch_ends}
use locust.Runner.{
  RunState, ready, spawning, running, is_state, Client, Clients, worker_count, get_by_state,
}
use locust.Runner.Master.Invariant.{
  IsConfig, IsDispatching, IsMaster, Follows, Survives, Shares-Follows, send_all-Follows,
  send_tables-Follows, send_tables-rate, up-rated,
}
use locust.Runner.Master.{
  Config, spawning_done, Master, node_of, dispatcher_of, complete_spawning, start, is_up,
  clear_before, after_rounds, asked_for,
}

-- A dispatcher that has ended takes the place of the former one.
pub with_dispatcher-Follows :
    {m0 m : Master} (d : Dispatcher)
    → Follows m0 m
    → IsDispatching (some d)
    → Follows m0 (record m { users_dispatcher = some d })
with_dispatcher-Follows d f v = record {
  valid = (f.valid.0, f.valid.1, v, f.valid.3);
  indexes = f.indexes;
  clients = f.clients;
}

some_client :
    (clients : Clients) → (worker_count clients == 0) ≡ false → 0 < length (values clients)
unfolding worker_count get_by_state
some_client clients e =
    let few =
      λ (s : RunState). length-keep-le (λ (x : Client). is_state x.state s) (values clients) in
    ground (arith, few ready, few spawning, few running)

module _ (c : Config) where
  complete_spawning-Follows :
      (m0 : Master) (at : ℕ → ℕ) (m : Master)
      → Follows m0 m
      → 0 < m.spawn_rate
      → Follows m0 (complete_spawning c at m)
  unfolding complete_spawning
  complete_spawning-Follows m0 at m f positive =
      Shares-Follows
        (send_all-Follows m0
          (λ id. spawning_done id (sum_by (λ n. n) (values m.target_user_classes_count)))
          (keys m.clients) _ (Shares-Follows f (refl, refl, refl, refl, λ r. inr positive)))
        (refl, refl, refl, refl, λ r. r)

  -- The dispatcher that a dispatch takes is valid where a worker is registered.
  pub dispatcher_of-IsDispatching :
      (m : Master)
      → IsConfig c
      → IsMaster m
      → (worker_count m.clients == 0) ≡ false
      → (d : Dispatcher) × (dispatcher_of c m ≡ some d) × IsDispatching (some d)
  unfolding dispatcher_of init_dispatcher fresh
  dispatcher_of-IsDispatching m config v up = elim (Option-cases m.users_dispatcher) [
    | inr (d, e) ↦ (d, rw (e, dispatcher_of) refl, subst IsDispatching e v.2)
    | inl e ↦
        let ws = map node_of (values m.clients) in
        let live : 0 < length ws =
          omega (arith, some_client m.clients up, length-map (values m.clients) node_of) in
        (
          fresh ws c.user_classes,
          ground (arith, e, config.some_class, config.different),
          (fresh-IsDispatcher ws c.user_classes live config.weighted, refl),
        )
  ]

  cleared-Follows :
      (m0 : Master) (at : ℕ → ℕ) (m : Master) → Follows m0 m → Follows m0 (clear_before at m)
  cleared-Follows m0 at m f =
      if_lem (Follows m0) (is_up m.state) (λ e. f)
        (λ e. Shares-Follows f (refl, refl, refl, refl, λ r. r))

  after_rounds-Follows :
      (m0 : Master) (at : ℕ → ℕ) (rate : ℕ) (m : Master) (tables : List Users) (last : Dispatcher)
      → Follows m0 m
      → IsDispatching (some last)
      → 0 < rate
      → Follows m0 (after_rounds c at rate m (tables, last))
  after_rounds-Follows m0 at rate m tables last f v positive =
      complete_spawning-Follows m0 at _
        (send_tables-Follows m0 tables _ (
          Shares-Follows (with_dispatcher-Follows last (cleared-Follows m0 at m f) v)
            (refl, refl, refl, refl, λ r. inr positive)))
        (subst (λ n. 0 < n) (sym (send_tables-rate tables _)) positive)

  -- `start` at a positive rate raises no exception, and leaves a valid master, over the classes in use or over others
  -- that the dispatcher in use can spawn.
  pub start-Survives :
      (m0 : Master) (at : ℕ → ℕ) (user_count rate : ℕ) (us : Option (List UserClass)) (m : Master)
      → 0 < rate
      → IsConfig c
      → Follows m0 m
      → ((d : Dispatcher) → dispatcher_of c m ≡ some d → Usable d us)
      → Survives m0 (start c at user_count rate us m)
  unfolding start
  start-Survives m0 at user_count rate us m positive config f usable =
      if_lem (Survives m0) (worker_count m.clients == 0)
        (λ e. Shares-Follows f (refl, refl, refl, refl, λ r. r))
        (λ e.
          let (d, de, v) = dispatcher_of-IsDispatching m config f.valid e in
          let (tables, last, r, end) =
            dispatch_ends c.divergence user_count rate us d positive v.0 (usable d de) v.1 in
          bind_some (Survives m0) _ de (
            bind_some (Survives m0) _ r (
              after_rounds-Follows m0 at rate (asked_for user_count m) tables last
                (Shares-Follows f (refl, refl, refl, refl, λ r. r)) (end.valid, end.supplied)
                positive)))

  -- A master in which the dispatcher gives way to another one.
  restart-Survives :
      (m0 : Master) (at : ℕ → ℕ) (d : Dispatcher) (m : Master)
      → IsConfig c
      → Follows m0 m
      → IsDispatching (some d)
      → Survives m0 (restart c at d m)
  unfolding restart
  restart-Survives m0 at d m config f v =
      let f' = with_dispatcher-Follows d f v in
      if_lem (Survives m0) (not d.dispatch_in_progress && is_state m.state running)
        (λ e.
          start-Survives m0 at m.target_user_count m.spawn_rate none _
            (up-rated m.state m.spawn_rate f.valid.3 (ground (arith, e))) config f' (λ d e. tt))
        (λ e. f')

  -- A dispatcher takes any worker.
  add_worker-IsDispatching :
      (w : WorkerNode) (d : Dispatcher)
      → IsDispatching (some d)
      → (d' : Dispatcher) × (add_worker c.divergence w d ≡ some d') × IsDispatching (some d')
  add_worker-IsDispatching w d v =
      let (d', e, r) = add_worker-Rebalanced c.divergence w d v.0 in
      (d', e, (r.valid, r.supplied ∙ v.1))

  -- A dispatcher that is left without workers keeps its users.
  pub remove_worker-IsDispatching :
      (id : ℕ) (d : Dispatcher)
      → IsDispatching (some d)
      → (d' : Dispatcher) × (remove_worker c.divergence id d ≡ some d') × IsDispatching (some d')
  unfolding remove_worker
  remove_worker-IsDispatching id d v =
      let ws = keep (λ w. not (WorkerNode.id w == id)) d.worker_nodes in
      elim (Bool-cases (length ws == 0)) [
        | inl last ↦ (
          record d { worker_nodes = ws },
          ground (arith, last),
          (with_workers-IsDispatcher c.divergence d ws v.0, v.1),
        )
        | inr more ↦
            let (d', e, r) =
              remove_worker-Rebalanced c.divergence id d v.0 (ground (arith, more)) in
            (d', e, (r.valid, r.supplied ∙ v.1))
      ]

  pub join-Survives :
      (m0 : Master) (at : ℕ → ℕ) (x : Client) (m : Master)
      → IsConfig c
      → Follows m0 m
      → Survives m0 (join c at x m)
  unfolding join
  join-Survives m0 at x m config f = elim (Option-cases m.users_dispatcher) [
    | inl e ↦ rw (e, join) f
    | inr (d, e) ↦
        let (d', e', v) =
          add_worker-IsDispatching (node_of x) d (subst IsDispatching e f.valid.2) in
        rw (e, e', join) (restart-Survives m0 at d' m config f v)
  ]

  pub lose-Survives :
      (m0 : Master) (at : ℕ → ℕ) (id : ℕ) (m : Master)
      → IsConfig c
      → Follows m0 m
      → Survives m0 (lose c at id m)
  unfolding lose
  lose-Survives m0 at id m config f = elim (Option-cases m.users_dispatcher) [
    | inl e ↦ rw (e, lose) f
    | inr (d, e) ↦
        let (d', e', v) = remove_worker-IsDispatching id d (subst IsDispatching e f.valid.2) in
        rw (e, e', lose) (restart-Survives m0 at d' m config f v)
  ]

  pub rebalance-Survives :
      (m0 : Master) (at : ℕ → ℕ) (m : Master)
      → IsConfig c
      → Follows m0 m
      → Survives m0 (rebalance c at m)
  unfolding rebalance
  rebalance-Survives m0 at m config f =
      if_lem (Survives m0)
        (c.rebalancing_enabled && (is_state m.state running && m.spawning_completed))
        (λ e.
          start-Survives m0 at m.target_user_count m.spawn_rate none m
            (up-rated m.state m.spawn_rate f.valid.3 (ground (arith, e))) config f (λ d e. tt))
        (λ e. f)
