-- ===== src/Runner/Master/Spawned.antt =====
-- What a whole `start` leads to.
use mathlib.Core.Path.{ap, ◌∙◌}
use locust.Base.{
  ℕ, ◌<◌, ◌≡◌, ◌⊎◌, refl, true, Option, none, some, List, [], ◌∷◌, ◌==◌, arith, if◌then◌else◌,
  sum_by, Bool-cases, inl, inr,
}
use locust.Base.Dict.{keys, values}
use locust.Dispatch.Users.{UserClass, Users}
use locust.Dispatch.Dispatcher.{Dispatcher, current}
use locust.Dispatch.Dispatcher.Invariant.{IsDispatcher}
use locust.Dispatch.Dispatcher.Dispatches.{Usable, new_dispatch_zero}
use locust.Dispatch.Dispatcher.Total.{dispatch_ends}
use locust.Stats.Requests.{reset_all}
use locust.Runner.{running, spawning, worker_count}
use locust.Runner.Master.{
  Config, Outbound, spawn, spawning_done, Master, send, send_all, send_table, send_tables,
  aggregate_dispatched_users, dispatcher_of, complete_spawning, after_rounds, asked_for,
  clear_before, start,
}
use locust.Runner.Master.Invariant.{IsConfig, IsMaster}
use locust.Runner.Master.Starts.{dispatcher_of-IsDispatching}

-- A message changes nothing but the list of those that were sent.
send_all_lem :
    (msg : ℕ → Outbound) (ids : List ℕ) (m : Master)
    → send_all msg ids m ≡ record m { sent = Master.sent (send_all msg ids m) }
unfolding send_all send
send_all_lem msg [] m = refl
send_all_lem msg (id ∷ ids) m = send_all_lem msg ids (send (msg id) m)

-- The tables that are sent change neither the dispatcher nor the target.
abbrev IsSame : Master → Master → Type 0
IsSame m m' =
    (m'.users_dispatcher ≡ m.users_dispatcher) × (m'.target_user_count ≡ m.target_user_count)

send_table-IsSame : (table : Users) (m : Master) → IsSame m (send_table table m)
unfolding send_table send
send_table-IsSame [] m = (refl, refl)
send_table-IsSame ((id, counts) ∷ rows) m = send_table-IsSame rows (send (spawn id counts) m)

send_tables-IsSame : (tables : List Users) (m : Master) → IsSame m (send_tables tables m)
unfolding send_tables
send_tables-IsSame [] m = (refl, refl)
send_tables-IsSame (table ∷ tables) m =
    let first = send_table-IsSame table m in
    let more = send_tables-IsSame tables (record (send_table table m) {
      target_user_classes_count = aggregate_dispatched_users table;
    }) in
    (more.0 ∙ first.0, more.1 ∙ first.1)

-- A test of `user_count` users has been spawned.
pub record IsSpawned (user_count : ℕ) (m : Master) : Type 0 where
  pub running_state : m.state ≡ running
  pub completed : m.spawning_completed ≡ true
  pub target : m.target_user_count ≡ user_count
  pub dispatcher : Dispatcher
  pub dispatches : m.users_dispatcher ≡ some dispatcher
  pub valid : IsDispatcher dispatcher
  pub count : current dispatcher ≡ user_count

module _ (c : Config) (at : ℕ → ℕ) where
  complete_spawning_lem :
      (m : Master)
      → let m' = complete_spawning c at m in
        IsSame m m' × (m'.state ≡ running) × (m'.spawning_completed ≡ true)
  unfolding complete_spawning
  complete_spawning_lem m =
      let e =
        send_all_lem (λ id. spawning_done id (sum_by (λ n. n) (values m.target_user_classes_count)))
          (keys m.clients)
          (record m {
            state = running;
            stats = if c.reset_stats then reset_all at m.stats else m.stats;
          }) in
      (
        (ap (λ x. Master.users_dispatcher x) e, ap (λ x. Master.target_user_count x) e),
        ap (λ x. Master.state x) e,
        refl,
      )

  after_rounds-IsSpawned :
      (user_count rate : ℕ) (m : Master) (tables : List Users) (last : Dispatcher)
      → IsDispatcher last
      → current last ≡ user_count
      → IsSpawned user_count (after_rounds c at rate (asked_for user_count m) (tables, last))
  after_rounds-IsSpawned user_count rate m tables last v count =
      let begun = record (clear_before at (asked_for user_count m)) {
        spawn_rate = rate;
        state = spawning;
        users_dispatcher = some last;
      } in
      let sent = send_tables-IsSame tables begun in
      let (same, state, completed) = complete_spawning_lem (send_tables tables begun) in
      record {
        running_state = state;
        completed = completed;
        target = same.1 ∙ sent.1 ∙ ground arith;
        dispatcher = last;
        dispatches = same.0 ∙ sent.0;
        valid = v;
        count = count;
      }

-- A valid master, that was created with some weighted user class and classes of different names,
-- starts a test over the classes in use or over others that the dispatcher in use can spawn. Where
-- no worker is ready, spawning or running, it only notes the user count and that spawning is not
-- complete. Otherwise it raises an exception where the rate is 0, and where it is positive returns in the state "running", with the spawning
-- complete, and with a valid dispatcher that runs exactly the users that were asked for.
pub start_reaches_target :
    (c : Config) (at : ℕ → ℕ) (user_count rate : ℕ) (us : Option (List UserClass)) (m : Master)
    → IsConfig c
    → IsMaster m
    → ((d : Dispatcher) → dispatcher_of c m ≡ some d → Usable d us)
    → ((worker_count m.clients ≡ 0)
        × (start c at user_count rate us m ≡ some (asked_for user_count m)))
      ⊎ ((0 < worker_count m.clients)
          × (((rate ≡ 0) × (start c at user_count rate us m ≡ none))
              ⊎ ((0 < rate)
                  × ((m' : Master) × (start c at user_count rate us m ≡ some m')
                      × IsSpawned user_count m'))))
unfolding start
start_reaches_target c at user_count rate us m config v usable =
    elim (Bool-cases (worker_count m.clients == 0)) [
      | inl e ↦ inl (ground (arith, e), rw (e, start) refl)
      | inr e ↦
          let (d, de, dv) = dispatcher_of-IsDispatching c m config v e in
          inr (
            ground (arith, e),
            elim (Bool-cases (rate == 0)) [
              | inl zero_rate ↦ inl (
                ground (arith, zero_rate),
                rw (e, de, new_dispatch_zero user_count rate us d zero_rate, start) refl,
              )
              | inr some_rate ↦
                  let positive : 0 < rate = ground (arith, some_rate) in
                  let (tables, last, r, end) =
                    dispatch_ends c.divergence user_count rate us d positive dv.0 (usable d de)
                      dv.1 in
                  inr (
                    positive,
                    (
                      after_rounds c at rate (asked_for user_count m) (tables, last),
                      rw (e, de, r, start) refl,
                      after_rounds-IsSpawned c at user_count rate m tables last end.valid
                          end.reached,
                    ),
                  )
            ],
          )
    ]
