-- ===== src/Runner/Worker/Tests.antt =====
-- Runs of a worker on small inputs, and instances of the theorems about it.
use mathlib.Core.Option
use locust.Base.{ℕ, ◌≡◌, refl, false, none, some, List, [], ◌∷◌, ◌++◌, arith, ◌>>=◌}
use locust.Base.Dict.{Dict}
use locust.Stats.Requests.{new_stats, clear_all, on_report_to_master}
use locust.Runner.{ready}
use locust.Runner.Users.{
  count_users, zeros, user_classes_count, spawn, spawn_users, take_out, stop_class, stop_users,
  differences, ramp, ramp_waiting,
}
use locust.Runner.Users.Ramp.{IsRamped, ramp-IsRamped}
use locust.Runner.Worker.{
  Worker, Outbound, spawning_begun, spawning_complete, client_ready, client_stopped, send,
  spawning_done, start_worker, stop, on_spawn, on_stop, stop_test, handle_message,
}
use locust.Runner.Worker.Newest.{Job, Runs, receive, newest_spawn_wins}

program : Unit {0}
unfolding count_users zeros user_classes_count spawn spawn_users take_out stop_class stop_users
    differences ramp ramp_waiting send spawning_done start_worker stop on_spawn on_stop
    handle_message new_stats clear_all on_report_to_master
program = tt

abbrev classes : List ℕ
classes = 10 ∷ 11 ∷ 12 ∷ []

abbrev clock : ℕ → ℕ
clock i = i

abbrev idle : Worker
idle = record {
  state = ready;
  worker_state = ready;
  user_classes = classes;
  users = [];
  worker_index = none;
  is_connected = false;
  last_received_spawn_timestamp = 0;
  last_heartbeat_timestamp = none;
  target_user_count = 0;
  target_user_classes_count = [];
  final_user_classes_count = [];
  stats = new_stats clock false;
  exceptions = [];
  cpu_warning_emitted = false;
  worker_cpu_warning_emitted = false;
  killed = false;
  sent = [];
}

abbrev some_users : Dict ℕ
some_users = (10, 1) ∷ (11, 2) ∷ (12, 0) ∷ []

abbrev other_users : Dict ℕ
other_users = (10, 2) ∷ (11, 1) ∷ (12, 1) ∷ []

-- From users of the classes 10, 11 and 11 to 10, 10, 11 and 12: the first of the class 11 stops.
ramp_up_and_down : ramp classes other_users (10 ∷ 11 ∷ 11 ∷ []) ≡ some (10 ∷ 11 ∷ 10 ∷ 12 ∷ [])
unfolding program
ramp_up_and_down = refl

-- The message of the time 7 overtakes that of the time 5, and then the test is stopped.
stopped_after :
    Option.map {B = List ℕ × List Outbound}
      (λ w. (Worker.users w, Worker.sent w))
      (receive clock ((7, other_users) ∷ (5, some_users) ∷ []) idle
        >>= handle_message false 9 clock clock stop_test)
    ≡ some (
      [],
      client_ready
          ∷ client_stopped
          ∷ spawning_begun
          ∷ spawning_complete ((10, 2) ∷ (11, 1) ∷ (12, 1) ∷ []) 4
          ∷ spawning_begun
          ∷ [],
    )
unfolding program
stopped_after = refl

ramp-IsRamped_example :
    let users : List ℕ = 10 ∷ 11 ∷ 11 ∷ [] in
    ((users' : List ℕ) × (ramp classes other_users users ≡ some users')
      × IsRamped classes other_users users users')
    × ((users' : List ℕ) × (ramp_waiting classes other_users users ≡ some users')
        × IsRamped classes other_users users users')
ramp-IsRamped_example =
    ramp-IsRamped classes other_users (10 ∷ 11 ∷ 11 ∷ []) (refl, (refl, (refl, tt)))
      (refl, (refl, (refl, tt))) (refl, (refl, (refl, tt)))

abbrev earlier : List Job
earlier = (5, some_users) ∷ []

abbrev later : List Job
later = (6, some_users) ∷ []

newest_spawn_wins_example :
    (w' : Worker) × (receive clock (earlier ++ (7, other_users) ∷ later) idle ≡ some w')
    × Runs classes 7 other_users w'
newest_spawn_wins_example =
    newest_spawn_wins clock classes earlier later 7 other_users idle (refl, tt) (omega arith)
      ((refl, (refl, (refl, tt))), (refl, (refl, (refl, tt))), (refl, (refl, (refl, tt))))
      (
        (
          omega arith,
          ((refl, (refl, (refl, tt))), (refl, (refl, (refl, tt))), (refl, (refl, (refl, tt)))),
        ),
        tt,
      )
      (omega arith, tt)
