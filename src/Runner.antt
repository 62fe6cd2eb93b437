-- ===== src/Runner.antt =====
-- What the runners of locust/runners.py share: the states, and `class WorkerNodes`, the workers as
-- the master knows them.
pub mod Shape
pub mod Master
pub mod Users
pub mod Local
pub mod Worker
use locust.Base.{
  ℕ, ◌+◌, Bool, true, false, Option, none, some, List, [], ◌∷◌, ◌++◌, ◌==◌, if◌then◌else◌, sum_by,
  length, keep,
}
use locust.Base.Dict.{Dict, values}
use locust.Base.Int.{ℤ, pos}

-- STATE_INIT ("ready"), STATE_SPAWNING, STATE_RUNNING, STATE_CLEANUP, STATE_STOPPING, STATE_STOPPED
-- and STATE_MISSING.
pub data RunState : Type 0 where
  ready spawning running cleanup stopping stopped missing : RunState

abbrev pub state_number : RunState → ℕ
state_number ready = 0
state_number spawning = 1
state_number running = 2
state_number cleanup = 3
state_number stopping = 4
state_number stopped = 5
state_number missing = 6

-- `==` on states.
abbrev pub is_state : RunState → RunState → Bool
is_state s t = state_number s == state_number t

-- `class WorkerNode`, on the master. `host` is the part of the id before the first "_".
pub record Client : Type 0 where
  pub id : ℕ
  pub host : ℕ
  pub state : RunState
  pub heartbeat : ℤ
  pub cpu_usage : ℕ
  pub cpu_warning_emitted : Bool
  pub memory_usage : ℕ
  pub user_classes_count : Dict ℕ

-- HEARTBEAT_LIVENESS
abbrev pub heartbeat_liveness : ℤ
heartbeat_liveness = pos 3

unfoldable pub new_client : (host_of : ℕ → ℕ) → ℕ → Client
new_client host_of id = record {
  id = id;
  host = host_of id;
  state = ready;
  heartbeat = heartbeat_liveness;
  cpu_usage = 0;
  cpu_warning_emitted = false;
  memory_usage = 0;
  user_classes_count = [];
}

abbrev pub Clients : Type 0
Clients = Dict Client

-- `user_count` of a worker, and of the master.
unfoldable pub client_user_count : Client → ℕ
client_user_count c = sum_by (λ n. n) (values c.user_classes_count)

unfoldable pub total_user_count : Clients → ℕ
unfolding client_user_count
total_user_count clients = sum_by client_user_count (values clients)

unfoldable pub get_by_state : RunState → Clients → List Client
get_by_state s clients = keep (λ c. is_state (Client.state c) s) (values clients)

-- `len(clients.ready) + len(clients.spawning) + len(clients.running)`
unfoldable pub worker_count : Clients → ℕ
unfolding get_by_state
worker_count clients =
    length (get_by_state ready clients)
    + length (get_by_state spawning clients)
    + length (get_by_state running clients)
