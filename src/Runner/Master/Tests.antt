-- ===== src/Runner/Master/Tests.antt =====
-- Runs of the master on small inputs, and instances of its theorems.
use mathlib.Core.Option
use locust.Base.{
  ℕ, ◌≡◌, ◌⊎◌, ◌↔◌, ◌<◌, refl, true, false, none, some, List, [], ◌∷◌, arith, map, ◌>>=◌, inl, inr,
}
use locust.Base.Int.{pos, negsuc}
use locust.Dispatch.Kl.{kl_heap, kl_take, kl_next, pop_least, before}
use locust.Dispatch.Kl.Exact.{exact, exact_less}
use locust.Dispatch.Users.{
  UserClass, WorkerNode, bump, get_current_user_count, no_users, get_user_current_count,
}
use locust.Dispatch.Workers.{sort_workers, sorted_by}
use locust.Dispatch.Spawn.{
  place, user_next, distribute_loop, distribute_users, user_gen, cycle, fixed_users_missing,
  cycle_next,
}
use locust.Dispatch.Dispatcher.{
  fresh, init_dispatcher, new_dispatch, begin_dispatch, le_name, prepare_rebalance, add_worker,
  remove_worker, add_loop, add_users_on_workers, remove_users_from_workers, take_classes,
}
use locust.Dispatch.Dispatcher.Generator
use locust.Dispatch.Dispatcher.Generator.{run}
use locust.Stats.Requests.{new_stats}
use locust.Runner.{
  RunState, ready, running, stopping, missing, Client, new_client, worker_count, get_by_state,
  client_user_count,
}
use locust.Runner.Master.{
  Config, spawn, spawning_done, Master, new_master, start, send, send_all, get_worker_index,
  send_table, send_tables, aggregate_dispatched_users, dispatcher_of, complete_spawning, asked_for,
  stop, quit, quit_workers, check_stopped, reported_counts, reported_user_classes_count,
}
use locust.Runner.Master.Messages.{
  Content, Message, client_ready, quitting, spawning_complete, handle, handle_message,
  on_client_ready, on_quit, on_spawning_complete, join, lose, restart, rebalance, end_if_last,
}
use locust.Runner.Master.Heartbeat.{heartbeat_worker, beats, beat, miss, bury, remove_clients}
use locust.Runner.Master.Invariant.{IsConfig, IsMaster}
use locust.Runner.Master.Spawned.{IsSpawned, start_reaches_target}
use locust.Runner.Master.Survives.{Stays}
use locust.Runner.Master.Survives.Handled.{ends_listener, handle_message-Stays}
use locust.Runner.Master.Survives.Beats.{heartbeat_worker-Stays}
use locust.Runner.Master.Indexes.{here, next, ordered_to_stop, index_is_for_good}

program : Unit {0}
unfolding kl_heap kl_take kl_next pop_least before exact_less bump get_current_user_count no_users
    get_user_current_count sort_workers sorted_by place user_next distribute_loop distribute_users
    user_gen cycle fixed_users_missing cycle_next fresh init_dispatcher new_dispatch begin_dispatch
    le_name prepare_rebalance add_worker remove_worker add_loop add_users_on_workers take_classes
    remove_users_from_workers run Generator.next new_stats new_client worker_count get_by_state
    client_user_count new_master start send send_all get_worker_index send_table send_tables
    aggregate_dispatched_users dispatcher_of complete_spawning stop quit quit_workers check_stopped
    reported_counts reported_user_classes_count handle_message handle on_client_ready on_quit
    on_spawning_complete join lose restart rebalance end_if_last heartbeat_worker beats beat miss
    bury remove_clients
program = tt

abbrev classes : List UserClass
classes =
    (record { name = 11; weight = 1; fixed_count = 0 })
    ∷ (record { name = 10; weight = 2; fixed_count = 0 })
    ∷ []

abbrev config : Config
config = record {
  divergence = exact;
  host_of = λ id. id;
  user_classes = classes;
  rebalancing_enabled = false;
  headless = false;
  reset_stats = false;
  has_locustfiles = false;
}

config-IsConfig : IsConfig config
unfolding program
config-IsConfig = record { some_class = omega arith; different = refl; weighted = refl }

abbrev clock : ℕ → ℕ
clock i = i

abbrev worker : ℕ → RunState → Client
worker id state = record {
  id = id;
  host = id;
  state = state;
  heartbeat = pos 3;
  cpu_usage = 0;
  cpu_warning_emitted = false;
  memory_usage = 0;
  user_classes_count = [];
}

-- Two workers, 8 and 9, that are ready.
abbrev two : Master
two = record (new_master clock false) {
  clients = (8, worker 8 ready) ∷ (9, worker 9 ready) ∷ [];
  worker_indexes = (8, 0) ∷ (9, 1) ∷ [];
  worker_index_max = 2;
}

two-IsMaster : IsMaster two
unfolding program
two-IsMaster = (
  record {
    listed = (refl, (refl, tt));
    below = λ id i e. ground (arith, e);
    apart = λ j k i e e'. ground (arith, e, e');
  },
  record { listed = (refl, (refl, tt)); named = λ id x e. ground (arith, e) },
  tt,
  inl refl,
)

-- Three users at two a second: two tables, and spawn messages for each worker.
start_three :
    Option.map (λ m. Master.sent m) (start config clock 3 2000 none two)
    ≡ some (
        spawning_done 9 3
        ∷ spawning_done 8 3
        ∷ spawn 9 ((10, 0) ∷ (11, 1) ∷ [])
        ∷ spawn 8 ((10, 2) ∷ (11, 0) ∷ [])
        ∷ spawn 9 ((10, 0) ∷ (11, 1) ∷ [])
        ∷ spawn 8 ((10, 1) ∷ (11, 0) ∷ [])
        ∷ [])
unfolding program
start_three = refl

abbrev message : ℕ → Content → Message
message id content = record { client_id = id; node_id = id; content = content }

-- Two workers run and one is missing. Where one of the two quits, the test is stopped, though the
-- other still runs.
abbrev three_running : Master
three_running = record (new_master clock false) {
  state = running;
  clients = (7, worker 7 missing) ∷ (8, worker 8 running) ∷ (9, worker 9 running) ∷ [];
}

quit_stops_the_other :
    Option.map {B = RunState × ℕ}
      (λ m. (Master.state m, worker_count (Master.clients m)))
      (handle_message config clock (message 9 quitting) three_running)
    ≡ some (stopping, 1)
unfolding program
quit_stops_the_other = refl

abbrev node_ids : Master → List ℕ
node_ids m = elim m.users_dispatcher [
  | none ↦ []
  | some d ↦ map (λ w. WorkerNode.id w) d.worker_nodes
]

-- A worker that says a second time that it is ready stands twice among those of the dispatcher.
ready_twice :
    Option.map node_ids (
      start config clock 3 2000 none two
      >>= handle_message config clock (message 8 (client_ready true)))
    ≡ some (8 ∷ 9 ∷ 8 ∷ [])
unfolding program
ready_twice = refl

abbrev two_a_second : ℕ
two_a_second = 2000

start_reaches_target_example :
    ((worker_count two.clients ≡ 0) × (start config clock 3 2000 none two ≡ some (asked_for 3 two)))
    ⊎ ((0 < worker_count two.clients)
        × (((two_a_second ≡ 0) × (start config clock 3 2000 none two ≡ none))
            ⊎ ((0 < two_a_second)
                × ((m' : Master) × (start config clock 3 2000 none two ≡ some m')
                    × IsSpawned 3 m'))))
start_reaches_target_example =
    start_reaches_target config clock 3 2000 none two config-IsConfig two-IsMaster (λ d e. tt)

-- A worker that is not registered says that its spawning is complete.
abbrev stray : Message
stray = message 5 (spawning_complete [])

handle_message-Stays_example :
    ((ends_listener config stray.content 5 two ≡ true)
      × (handle_message config clock stray two ≡ none))
    ⊎ ((ends_listener config stray.content 5 two ≡ false)
        × Stays two (handle_message config clock stray two))
handle_message-Stays_example =
    handle_message-Stays config clock stray two config-IsConfig two-IsMaster

-- The worker 8 has just missed its last heartbeat, in a test that runs.
abbrev one_late : Master
one_late = record two {
  state = running;
  spawn_rate = 2000;
  clients = (8, record (worker 8 running) { heartbeat = negsuc 0 }) ∷ (9, worker 9 running) ∷ [];
}

one_late-IsMaster : IsMaster one_late
unfolding program
one_late-IsMaster = (
  two-IsMaster.0,
  record { listed = (refl, (refl, tt)); named = λ id x e. ground (arith, e) },
  tt,
  inr (omega arith),
)

heartbeat_worker-Stays_example : Stays one_late (heartbeat_worker config clock one_late)
heartbeat_worker-Stays_example =
    heartbeat_worker-Stays config clock one_late config-IsConfig one_late-IsMaster

abbrev empty : Master
empty = new_master clock false

abbrev newcomer : ℕ
newcomer = 9

abbrev known : ℕ
known = 8

abbrev greeted : Master
greeted = (get_worker_index known empty).1

index_is_for_good_example :
    IsMaster (stop true greeted)
    × ((get_worker_index known (stop true greeted)).0 ≡ (get_worker_index known empty).0)
    × (((get_worker_index newcomer (stop true greeted)).0 ≡ (get_worker_index known empty).0)
        ↔ (newcomer ≡ known))
index_is_for_good_example =
    index_is_for_good config clock false empty (stop true greeted) known newcomer config-IsConfig
      here (next here (ordered_to_stop greeted true))
