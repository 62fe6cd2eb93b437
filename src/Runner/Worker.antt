-- ===== src/Runner/Worker.antt =====
-- `class WorkerRunner` of locust/runners.py: `start_worker`, `stop` and `handle_message`.
-- A call runs to its end before the next one, the greenlet that spawns users too. The connection,
-- the environment that a message changes (the host, the timeout, the options, a user class), and
-- listeners of the users of the library are left out.
pub mod Newest
mod Tests
use locust.Base.{
  ℕ, Bool, true, false, Option, none, some, List, [], ◌∷◌, leb, if◌then◌else◌, length, sum_by,
  ◌>>=◌,
}
use locust.Base.Dict.{Dict, values}
use locust.Stats.Requests.{RequestStats, Report, clear_all, reset_all, on_report_to_master}
use locust.Runner.{RunState, ready, spawning, running, cleanup, stopped, is_state}
use locust.Runner.Master.{ExceptionRow, is_up}
use locust.Runner.Users.{user_classes_count, stop_users, ramp}

-- The messages that a worker sends.
pub data Outbound : Type 0 where
  spawning_begun client_stopped client_ready : Outbound
  spawning_complete : (user_classes_count : Dict ℕ) → (user_count : ℕ) → Outbound
  stats_report : Report → (user_classes_count : Dict ℕ) → (user_count : ℕ) → Outbound

-- `sent` holds the messages, the last one first; `worker_index` is `none` for -1, and
-- `is_connected` says whether the event of the connection is set.
pub record Worker : Type 0 where
  pub state : RunState
  pub worker_state : RunState
  pub user_classes : List ℕ
  pub users : List ℕ
  pub worker_index : Option ℕ
  pub is_connected : Bool
  pub last_received_spawn_timestamp : ℕ
  pub last_heartbeat_timestamp : Option ℕ
  pub target_user_count : ℕ
  pub target_user_classes_count : Dict ℕ
  pub final_user_classes_count : Dict ℕ
  pub stats : RequestStats
  pub exceptions : Dict ExceptionRow
  pub cpu_warning_emitted : Bool
  pub worker_cpu_warning_emitted : Bool
  pub killed : Bool
  pub sent : List Outbound

unfoldable pub send : Outbound → Worker → Worker
send msg w = record w { sent = msg ∷ w.sent }

-- The assertion of `spawning_complete` compares a sum with itself.
unfoldable pub spawning_done : Worker → Option Worker
unfolding user_classes_count send
spawning_done w = user_classes_count w.user_classes w.users >>= λ counts.
    some (record (send (spawning_complete counts (length w.users)) w) { worker_state = running })

-- The state "spawning", which `spawn_users` may set, is passed over at once.
unfoldable pub start_worker : Dict ℕ → Worker → Option Worker
unfolding ramp spawning_done
start_worker requested w = ramp w.user_classes requested w.users >>= λ users.
    spawning_done (record w {
      users = users;
      target_user_classes_count = requested;
      target_user_count = sum_by (λ n. n) (values requested);
    })
    >>= λ w'. some (record w' { state = running; worker_state = running })

-- `stop` of `class Runner`. The state "cleanup" lasts while users are stopped.
unfoldable pub stop : Worker → Option Worker
unfolding user_classes_count stop_users
stop w =
    if is_state w.state stopped
    then some w
    else user_classes_count w.user_classes w.users >>= λ counts.
        stop_users w.user_classes counts w.users >>= λ users.
        some (record w { final_user_classes_count = counts; users = users; state = stopped })

-- What a worker that was not running begins with.
abbrev pub clear_before : (at : ℕ → ℕ) → Worker → Worker
clear_before at w = if is_up w.worker_state then w else record w {
  stats = clear_all at w.stats;
  exceptions = [];
  cpu_warning_emitted = false;
  worker_cpu_warning_emitted = false;
}

-- A message that is older than the last one, or as old, is discarded.
unfoldable pub on_spawn : (at : ℕ → ℕ) (timestamp : ℕ) → Dict ℕ → Worker → Option Worker
unfolding send clear_all start_worker
on_spawn at timestamp requested w =
    let w' = send spawning_begun w in
    if leb timestamp w.last_received_spawn_timestamp
    then some w'
    else start_worker requested (record (clear_before at w') {
      worker_state = spawning;
      last_received_spawn_timestamp = timestamp;
    })

unfoldable pub on_stop : Worker → Option Worker
unfolding stop send
on_stop w = stop w >>= λ w'.
    some (record (send client_ready (send client_stopped w')) { worker_state = ready })

unfoldable pub send_stats : (at at' : ℕ → ℕ) → Worker → Option Worker
unfolding on_report_to_master user_classes_count send
send_stats at at' w =
    let (report, stats) = on_report_to_master at at' w.stats in
    user_classes_count w.user_classes w.users >>= λ counts.
    some (send (stats_report report counts (length w.users)) (record w { stats = stats }))

unfoldable pub on_quit : (at at' : ℕ → ℕ) → Worker → Option Worker
unfolding stop send_stats
on_quit at at' w =
    stop w >>= λ w'. send_stats at at' w' >>= λ w''. some (record w'' { killed = true })

-- The messages of a master. An old master sends no index.
pub data Content : Type 0 where
  ack : (index : Option ℕ) → Content
  spawn : (timestamp : ℕ) → (user_classes_count : Dict ℕ) → Content
  stop_test quit reconnect update_user_class other : Content
  heartbeat : Content
  all_spawned : (user_count : ℕ) → Content

unfoldable pub on_ack : Option ℕ → Worker → Worker
on_ack none w = record w { is_connected = true }
on_ack (some index) w = record w { worker_index = some index; is_connected = true }

-- The listener `on_spawning_complete` of `class Runner`.
unfoldable pub on_all_spawned : (reset_stats : Bool) (at : ℕ → ℕ) → Worker → Worker
unfolding reset_all
on_all_spawned reset_stats at w = record w {
  state = running;
  stats = if reset_stats then reset_all at w.stats else w.stats;
}

unfoldable pub handle_message :
    (reset_stats : Bool) (now : ℕ) (at at' : ℕ → ℕ) → Content → Worker → Option Worker
unfolding on_ack on_spawn on_stop on_quit on_all_spawned
handle_message reset_stats now at at' (ack index) w = some (on_ack index w)
handle_message reset_stats now at at' (spawn timestamp requested) w =
    on_spawn at timestamp requested w
handle_message reset_stats now at at' stop_test w = on_stop w
handle_message reset_stats now at at' quit w = on_quit at at' w
handle_message reset_stats now at at' reconnect w = some w
handle_message reset_stats now at at' heartbeat w =
    some (record w { last_heartbeat_timestamp = some now })
handle_message reset_stats now at at' update_user_class w = some w
handle_message reset_stats now at at' (all_spawned user_count) w =
    some (on_all_spawned reset_stats at w)
handle_message reset_stats now at at' other w = some w
