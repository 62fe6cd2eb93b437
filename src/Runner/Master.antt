-- ===== src/Runner/Master.antt =====
-- `class MasterRunner` of locust/runners.py: its attributes, and `start`, `stop` and `quit`.
-- A call runs to its end before the next one: what other greenlets do while a call sleeps is left
-- out. The waits, for reports after a ramp-up and for workers to stop, change no attribute, and
-- listeners that users of the library register are left out, as are the shape greenlet, the host
-- and the options that a spawn message carries.
pub mod Messages
pub mod Heartbeat
pub mod Indexes
pub mod Invariant
pub mod Starts
pub mod Spawned
pub mod Survives
mod Tests
use mathlib.Core.Path.{◌≡◌}
use locust.Base.{
  ℕ, ◌+◌, ◌-◌, Bool, true, false, not, Option, none, some, List, [], ◌∷◌, ◌++◌, ◌==◌, if◌then◌else◌,
  ◌||◌, ◌&&◌, map, length, sum_by, all, ◌>>=◌,
}
use locust.Base.Dict.{Dict, lookup, get, insert, keys, values, contains}
use locust.Dispatch.Kl.{Divergence}
use locust.Dispatch.Users.{UserClass, WorkerNode, Users}
use locust.Dispatch.Dispatcher.{Dispatcher, current, init_dispatcher, new_dispatch}
use locust.Dispatch.Dispatcher.Generator.{run}
use locust.Stats.Entry.{add_counts}
use locust.Stats.Requests.{RequestStats, new_stats, clear_all, reset_all}
use locust.Runner.{
  RunState, ready, spawning, running, cleanup, stopping, stopped, missing, is_state, Client,
  Clients, get_by_state, worker_count,
}

-- What a master is created with: the user classes, the options, and the parameters of the model.
pub record Config : Type 0 where
  pub divergence : Divergence
  pub host_of : ℕ → ℕ
  pub user_classes : List UserClass
  pub rebalancing_enabled : Bool
  pub headless : Bool
  pub reset_stats : Bool
  pub has_locustfiles : Bool

-- The messages that the master sends.
pub data Outbound : Type 0 where
  ack : (client index : ℕ) → Outbound
  spawn : (client : ℕ) → Dict ℕ → Outbound
  stop_worker : (client : ℕ) → Outbound
  quit_worker : (client : ℕ) → Outbound
  heartbeat_reply : (client : ℕ) → Outbound
  spawning_done : (client user_count : ℕ) → Outbound
  locustfiles : (client : ℕ) → Outbound

-- `class ExceptionDict`; a message and a traceback are numbers.
pub record ExceptionRow : Type 0 where
  pub count : ℕ
  pub msg : ℕ
  pub traceback : ℕ
  pub nodes : List ℕ

-- `sent` holds the messages, the last one first; `killed` is whether the greenlets are.
pub record Master : Type 0 where
  pub state : RunState
  pub target_user_count : ℕ
  pub spawn_rate : ℕ
  pub spawning_completed : Bool
  pub worker_indexes : Dict ℕ
  pub worker_index_max : ℕ
  pub clients : Clients
  pub users_dispatcher : Option Dispatcher
  pub worker_cpu_warning_emitted : Bool
  pub stats : RequestStats
  pub exceptions : Dict ExceptionRow
  pub target_user_classes_count : Dict ℕ
  pub final_user_classes_count : Dict ℕ
  pub worker_logs : Dict ℕ
  pub killed : Bool
  pub sent : List Outbound

-- `__init__`, of `Runner` and of `MasterRunner`.
unfoldable pub new_master : (at : ℕ → ℕ) → (use_response_times_cache : Bool) → Master
unfolding new_stats
new_master at cached = record {
  state = ready;
  target_user_count = 0;
  spawn_rate = 0;
  spawning_completed = false;
  worker_indexes = [];
  worker_index_max = 0;
  clients = [];
  users_dispatcher = none;
  worker_cpu_warning_emitted = false;
  stats = new_stats at cached;
  exceptions = [];
  target_user_classes_count = [];
  final_user_classes_count = [];
  worker_logs = [];
  killed = false;
  sent = [];
}

unfoldable pub send : Outbound → Master → Master
send msg m = record m { sent = msg ∷ m.sent }

unfoldable pub send_all : (ℕ → Outbound) → List ℕ → Master → Master
unfolding send
send_all msg [] m = m
send_all msg (id ∷ ids) m = send_all msg ids (send (msg id) m)

unfoldable pub get_worker_index : ℕ → Master → ℕ × Master
get_worker_index id m = elim (lookup id m.worker_indexes) [
  | some index ↦ (index, m)
  | none ↦ (
    m.worker_index_max,
    record m {
      worker_indexes = insert id m.worker_index_max m.worker_indexes;
      worker_index_max = m.worker_index_max + 1;
    },
  )
]

-- The counts of the workers that are not missing.
unfoldable pub reported_counts : List Client → Dict ℕ → Dict ℕ
unfolding add_counts
reported_counts [] counts = counts
reported_counts (c ∷ cs) counts = reported_counts cs (add_counts counts c.user_classes_count)

unfoldable pub reported_user_classes_count : Clients → Dict ℕ
unfolding reported_counts get_by_state
reported_user_classes_count clients =
    reported_counts
      (get_by_state ready clients ++ get_by_state spawning clients ++ get_by_state running clients)
      []

-- `_aggregate_dispatched_users`. Every row of a table has the same classes; a row without one,
-- which the source does not expect, would count as 0.
unfoldable pub aggregate_dispatched_users : Users → Dict ℕ
aggregate_dispatched_users [] = []
aggregate_dispatched_users (row ∷ rows) =
    map (λ u. (u, sum_by (λ r. get u 0 r) (values (row ∷ rows)))) (keys row.1)

-- The spawn messages of one table, and of all of them; the last table is kept.
unfoldable pub send_table : Users → Master → Master
unfolding send
send_table [] m = m
send_table ((id, counts) ∷ rows) m = send_table rows (send (spawn id counts) m)

unfoldable pub send_tables : List Users → Master → Master
unfolding send_table aggregate_dispatched_users
send_tables [] m = m
send_tables (table ∷ tables) m =
    send_tables tables
      (record (send_table table m) { target_user_classes_count = aggregate_dispatched_users table })

abbrev pub is_up : RunState → Bool
is_up s = is_state s running || is_state s spawning

abbrev pub node_of : Client → WorkerNode
node_of c = record { id = c.id; host = c.host; index_within_host = 0 }

-- A new test begins with empty statistics. The clock is read at `at`, as by `reset_all`.
abbrev pub clear_before : (at : ℕ → ℕ) → Master → Master
clear_before at m =
    if is_up m.state then m else record m { stats = clear_all at m.stats; exceptions = [] }

abbrev pub asked_for : (user_count : ℕ) → Master → Master
asked_for user_count m = record m { spawning_completed = false; target_user_count = user_count }

-- The rounds that the loop over the dispatcher is given: enough for each user that is moved and
-- three more.
abbrev pub rounds : ℕ → Dispatcher → ℕ
rounds user_count d = 3 + ((current d - user_count) + (user_count - current d))

module _ (c : Config) where
  unfoldable pub dispatcher_of : Master → Option Dispatcher
  unfolding init_dispatcher
  dispatcher_of m = elim m.users_dispatcher [
    | some d ↦ some d
    | none ↦ init_dispatcher (map node_of (values m.clients)) c.user_classes
  ]

  -- What `start` does once the dispatcher has no more tables: the state changes by the listener
  -- `on_spawning_complete`, and the workers are told.
  unfoldable pub complete_spawning : (at : ℕ → ℕ) → Master → Master
  unfolding send_all reset_all
  complete_spawning at m =
      let user_count = sum_by (λ n. n) (values m.target_user_classes_count) in
      let stats = if c.reset_stats then reset_all at m.stats else m.stats in
      record (send_all (λ id. spawning_done id user_count) (keys m.clients)
        (record m { state = running; stats = stats })) { spawning_completed = true }

  -- The rounds of the dispatcher, with the tables and the dispatcher that they end in.
  abbrev pub after_rounds :
      (at : ℕ → ℕ) (spawn_rate : ℕ) → Master → List Users × Dispatcher → Master
  after_rounds at spawn_rate m r = complete_spawning at (
      send_tables r.0 (record (clear_before at m) {
        spawn_rate = spawn_rate;
        state = spawning;
        users_dispatcher = some r.1;
      }))

  unfoldable pub start :
      (at : ℕ → ℕ) (user_count spawn_rate : ℕ) → Option (List UserClass) → Master → Option Master
  unfolding worker_count dispatcher_of clear_all send_tables complete_spawning
  start at user_count spawn_rate user_classes m =
      if worker_count m.clients == 0
      then some (asked_for user_count m)
      else dispatcher_of m >>= λ d.
          new_dispatch user_count spawn_rate user_classes d
          >>= run c.divergence (rounds user_count d)
          >>= λ r. some (after_rounds at spawn_rate (asked_for user_count m) r)

abbrev pub stop_requested : Master → Master
stop_requested m = record m {
  final_user_classes_count = reported_user_classes_count m.clients;
  state = stopping;
  users_dispatcher = none;
}

-- `if self.state not in [STATE_INIT, STATE_STOPPED, STATE_STOPPING]`, the other way round.
abbrev pub nothing_to_stop : Master → Bool
nothing_to_stop m = is_state m.state ready || is_state m.state stopped || is_state m.state stopping

unfoldable pub stop : (send_stop_to_client : Bool) → Master → Master
unfolding reported_user_classes_count send_all
stop send_stop_to_client m =
    if nothing_to_stop m
    then m
    else if send_stop_to_client
    then send_all stop_worker (keys m.clients) (stop_requested m)
    else stop_requested m

-- The message that is logged asks for the index of each worker.
unfoldable pub quit_workers : List ℕ → Master → Master
unfolding get_worker_index send
quit_workers [] m = m
quit_workers (id ∷ ids) m = quit_workers ids (send (quit_worker id) (get_worker_index id m).1)

unfoldable pub quit : Master → Master
unfolding stop quit_workers
quit m = let m' = stop false m in record (quit_workers (keys m'.clients) m') { killed = true }

-- No client of another state than those that are named.
abbrev pub only : (RunState → Bool) → Master → Bool
only p m = all (λ x. p (Client.state x)) (values m.clients)

abbrev pub has_stopped : Master → Bool
has_stopped m =
    is_state m.state stopping && only (is_state ready) m
    || only (λ s. not (is_up s || is_state s ready)) m

unfoldable pub check_stopped : Master → Master
check_stopped m = if has_stopped m then record m { state = stopped } else m
