-- ===== src/Runner/Local/Tests.antt =====
-- A run of the local runner, and an instance of the theorem about it.
use mathlib.Core.Option
use locust.Base.{ℕ, ◌≡◌, refl, false, none, some, List, [], ◌∷◌, arith}
use locust.Dispatch.Kl.{kl_heap, kl_take, kl_next, pop_least, before}
use locust.Dispatch.Kl.Exact.{exact, exact_less}
use locust.Dispatch.Users.{
  UserClass, bump, get_current_user_count, no_users, add_rows, add_zeros, get_user_current_count,
}
use locust.Dispatch.Workers.{sort_workers, sorted_by}
use locust.Dispatch.Spawn.{place, user_next, user_gen, cycle, fixed_users_missing, cycle_next}
use locust.Dispatch.Dispatcher.{
  Dispatcher, fresh, init_dispatcher, new_dispatch, begin_dispatch, le_name, add_loop,
  add_users_on_workers, remove_users_from_workers, take_classes,
}
use locust.Dispatch.Dispatcher.Dispatches.{fresh-IsDispatcher}
use locust.Dispatch.Dispatcher.Generator
use locust.Dispatch.Dispatcher.Generator.{run}
use locust.Stats.Requests.{new_stats, clear_all}
use locust.Runner.{RunState, ready, running}
use locust.Runner.Users.{
  count_users, zeros, user_classes_count, spawn, spawn_users, take_out, stop_class, stop_users,
  differences, ramp, ramp_waiting,
}
use locust.Runner.Master.Invariant.{IsDispatching}
use locust.Runner.Local.{
  Config, Local, local_node, ramp_tables, dispatcher_of, complete_spawning, start, stop,
}
use locust.Runner.Local.Started.{HasStarted, start_runs}

program : Unit {0}
unfolding kl_heap kl_take kl_next pop_least before exact_less bump get_current_user_count no_users
    add_rows add_zeros get_user_current_count sort_workers sorted_by place user_next user_gen cycle
    fixed_users_missing cycle_next fresh init_dispatcher new_dispatch begin_dispatch le_name
    add_loop add_users_on_workers take_classes remove_users_from_workers run Generator.next
    new_stats clear_all count_users zeros user_classes_count spawn spawn_users take_out stop_class
    stop_users differences ramp ramp_waiting ramp_tables dispatcher_of complete_spawning start stop
program = tt

abbrev classes : List UserClass
classes =
    (record { name = 11; weight = 1; fixed_count = 0 })
    ∷ (record { name = 10; weight = 2; fixed_count = 0 })
    ∷ []

abbrev config : Config
config = record { divergence = exact; user_classes = classes; local_id = 5; reset_stats = false }

abbrev clock : ℕ → ℕ
clock i = i

abbrev idle : Local
idle = record {
  state = ready;
  users = [];
  users_dispatcher = none;
  target_user_count = 0;
  target_user_classes_count = [];
  final_user_classes_count = [];
  stats = new_stats clock false;
  exceptions = [];
  cpu_warning_emitted = false;
  worker_cpu_warning_emitted = false;
}

start_three :
    Option.map {B = RunState × List ℕ}
      (λ l. (Local.state l, Local.users l))
      (start config clock 3 2000 false none idle)
    ≡ some (running, 10 ∷ 11 ∷ 10 ∷ [])
unfolding program
start_three = refl

abbrev created : Dispatcher
created = fresh (local_node config ∷ []) classes

created-IsDispatching : IsDispatching (some created)
unfolding sorted_by le_name fresh
created-IsDispatching =
    (fresh-IsDispatcher (local_node config ∷ []) classes (omega arith) refl, refl)

created_lem : dispatcher_of config idle ≡ some created
unfolding program
created_lem = refl

start_runs_example :
    (l' : Local) × (start config clock 3 2000 false none idle ≡ some l') × HasStarted config 3 l'
unfolding program
start_runs_example =
    start_runs config clock 3 2000 none idle created (10 ∷ 11 ∷ []) (omega arith) created_lem
      created-IsDispatching tt ((refl, (refl, tt)), (refl, (refl, tt)), (refl, (refl, tt))) refl tt
