-- ===== src/Runner/Master/Messages.antt =====
-- `handle_message` of `class MasterRunner`, of locust/runners.py: a function for each type of
-- message. `none` is an exception that the greenlet of the listener does not survive.
use locust.Base.{
  ℕ, ◌+◌, ◌*◌, Bool, true, false, not, Option, none, some, [], ◌∷◌, leb, ltb, if◌then◌else◌, ◌&&◌,
  length, ◌>>=◌, member,
}
use locust.Base.Dict.{Dict, lookup, insert, erase, contains}
use locust.Dispatch.Dispatcher.{Dispatcher, add_worker, remove_worker}
use locust.Stats.Requests.{Report, on_worker_report}
use locust.Runner.{
  RunState, spawning, running, missing, is_state, Client, Clients, get_by_state, worker_count,
  new_client, heartbeat_liveness,
}
use locust.Runner.Master.{
  Config, Master, ack, quit_worker, heartbeat_reply, locustfiles, ExceptionRow, send,
  get_worker_index, node_of, start, stop, quit, check_stopped,
}

-- The messages of a worker. `client_ready` says whether it names a version. The key of an exception
-- is the hash of its traceback; a log is a number, and the id of its worker may be missing.
pub data Content : Type 0 where
  client_ready : (has_version : Bool) → Content
  locustfile : Content
  client_stopped : Content
  heartbeat : RunState → (cpu_usage : ℕ) → (memory_usage : Option ℕ) → Content
  stats_report : Report → (user_classes_count : Dict ℕ) → Content
  spawning_begun : Content
  spawning_complete : (user_classes_count : Dict ℕ) → Content
  logs : (worker_id : Option ℕ) → (log : ℕ) → Content
  quitting : Content
  exception_raised : (key msg traceback : ℕ) → Content
  other : Content

-- The address that a message comes from, and the node that it names.
pub record Message : Type 0 where
  pub client_id : ℕ
  pub node_id : ℕ
  pub content : Content

abbrev pub with_client : Client → Master → Master
with_client x m = record m { clients = insert x.id x m.clients }

-- A log line that shows the index of a worker, which is given one where it has none.
abbrev pub show_index : ℕ → Master → Master
show_index id m = (get_worker_index id m).1

unfoldable pub log_exception : (node key msg traceback : ℕ) → Master → Master
log_exception node key msg traceback m =
    let row : ExceptionRow = elim (lookup key m.exceptions) [
      | none ↦ record { count = 0; msg = msg; traceback = traceback; nodes = [] }
      | some row ↦ row
    ] in
    let nodes = if member node row.nodes then row.nodes else node ∷ row.nodes in
    record m {
      exceptions = insert key (record row { count = row.count + 1; nodes = nodes }) m.exceptions;
    }

module _ (c : Config) (at : ℕ → ℕ) where
  -- `if not self._users_dispatcher.dispatch_in_progress and self.state == STATE_RUNNING`
  unfoldable pub restart : Dispatcher → Master → Option Master
  unfolding start
  restart d m =
      let m' = record m { users_dispatcher = some d } in
      if not d.dispatch_in_progress && is_state m.state running
      then start c at m.target_user_count m.spawn_rate none m'
      else some m'

  -- The dispatcher is told of a worker that has come, or gone.
  unfoldable pub join : Client → Master → Option Master
  unfolding restart add_worker
  join x m = elim m.users_dispatcher [
    | none ↦ some m
    | some d ↦ add_worker c.divergence (node_of x) d >>= λ d'. restart d' m
  ]

  unfoldable pub lose : ℕ → Master → Option Master
  unfolding restart remove_worker
  lose id m = elim m.users_dispatcher [
    | none ↦ some m
    | some d ↦ remove_worker c.divergence id d >>= λ d'. restart d' m
  ]

  -- `if self.rebalancing_enabled() and self.state == STATE_RUNNING and self.spawning_completed`
  unfoldable pub rebalance : Master → Option Master
  unfolding start
  rebalance m =
      if c.rebalancing_enabled && (is_state m.state running && m.spawning_completed)
      then start c at m.target_user_count m.spawn_rate none m
      else some m

  unfoldable pub on_client_ready : (client_id : ℕ) → Master → Option Master
  unfolding send get_worker_index join rebalance check_stopped new_client
  on_client_ready client_id m =
      let (index, m1) = get_worker_index client_id m in
      let x = new_client c.host_of client_id in
      join x (with_client x (send (ack client_id index) m1)) >>= λ m2.
      rebalance m2 >>= λ m3. some (check_stopped m3)

  unfoldable pub on_client_stopped : Message → Master → Option Master
  unfolding get_worker_index lose check_stopped
  on_client_stopped msg m =
      if contains msg.node_id m.clients
      then (lose msg.node_id (record m { clients = erase msg.node_id m.clients }) >>= λ m1.
          some (check_stopped (show_index msg.client_id m1)))
      else some m

  -- The CPU usage of a worker, with the warning that is given once.
  unfoldable pub note_cpu : ℕ → Client → Master → Master
  unfolding get_worker_index
  note_cpu usage x m =
      if not x.cpu_warning_emitted && ltb 90 usage
      then with_client (record x { cpu_usage = usage; cpu_warning_emitted = true })
          (show_index x.id (record m { worker_cpu_warning_emitted = true }))
      else with_client (record x { cpu_usage = usage }) m

  -- What a heartbeat says of its worker, which may leave out the memory.
  abbrev pub heard : RunState → (memory_usage : Option ℕ) → Client → Client
  heard state none x = record x { state = state }
  heard state (some used) x = record x { state = state; memory_usage = used }

  unfoldable pub on_heartbeat :
      Message → RunState → (cpu_usage : ℕ) → (memory_usage : Option ℕ) → Master → Option Master
  unfolding join note_cpu send check_stopped
  on_heartbeat msg state usage memory m = elim (lookup msg.node_id m.clients) [
    | none ↦ some (check_stopped m)
    | some x ↦
        let alive = record x { heartbeat = heartbeat_liveness } in
        (if is_state x.state missing
          then join alive (with_client alive m)
          else some (with_client alive m))
        >>= λ m1. some (
            check_stopped
              (send (heartbeat_reply msg.node_id) (note_cpu usage (heard state memory alive) m1)))
  ]

  -- The listener of the statistics comes first, then that of the master.
  unfoldable pub on_stats : (node_id : ℕ) → Report → Dict ℕ → Master → Option Master
  unfolding on_worker_report check_stopped
  on_stats node_id report counts m =
      let m1 = record m { stats = on_worker_report (λ i j. at (4 * i + j)) report m.stats } in
      some (
        check_stopped (elim (lookup node_id m.clients) [
          | none ↦ m1
          | some x ↦ with_client (record x { user_classes_count = counts }) m1
        ]))

  unfoldable pub on_spawning : (node_id : ℕ) → Master → Option Master
  unfolding send check_stopped
  on_spawning node_id m = some (
      check_stopped (elim (lookup node_id m.clients) [
        | none ↦ send (quit_worker node_id) m
        | some x ↦ with_client (record x { state = spawning }) m
      ]))

  -- A KeyError where the worker is not known.
  unfoldable pub on_spawning_complete : (node_id : ℕ) → Dict ℕ → Master → Option Master
  unfolding check_stopped
  on_spawning_complete node_id counts m = elim (lookup node_id m.clients) [
    | none ↦ none
    | some x ↦
        some (
          check_stopped (with_client (record x { state = running; user_classes_count = counts }) m))
  ]

  unfoldable pub on_logs : Option ℕ → ℕ → Master → Option Master
  unfolding check_stopped
  on_logs none log m = some (check_stopped m)
  on_logs (some id) log m =
      some (check_stopped (record m { worker_logs = insert id log m.worker_logs }))

  -- `if self.worker_count - len(self.clients.missing) <= 0`
  abbrev pub seems_last : Clients → Bool
  seems_last clients = leb (worker_count clients) (length (get_by_state missing clients))

  -- What follows a worker that quits: the test is stopped where it seems to have been the last.
  -- `quit` ends the greenlet of the listener itself, before `check_stopped`.
  unfoldable pub end_if_last : Master → Master
  unfolding stop quit worker_count get_by_state check_stopped
  end_if_last m =
      if not (seems_last m.clients)
      then check_stopped m
      else if c.headless
      then quit (stop true m)
      else check_stopped (stop true m)

  unfoldable pub on_quit : (node_id : ℕ) → Master → Option Master
  unfolding get_worker_index lose end_if_last check_stopped
  on_quit node_id m =
      if contains node_id m.clients
      then (lose node_id (record m { clients = erase node_id m.clients }) >>= λ m1.
          some (end_if_last (show_index node_id m1)))
      else some (check_stopped m)

  unfoldable pub on_locustfile : (client_id : ℕ) → Master → Option Master
  unfolding send
  on_locustfile client_id m =
      if c.has_locustfiles then some (send (locustfiles client_id) m) else none

  -- The cases of `handle_message`.
  unfoldable pub handle : Content → Message → Master → Option Master
  unfolding on_client_ready on_locustfile on_client_stopped on_heartbeat on_stats on_spawning
      on_spawning_complete on_logs on_quit log_exception get_worker_index check_stopped
  handle (client_ready true) msg m = on_client_ready msg.client_id m
  handle (client_ready false) msg m = some m
  handle locustfile msg m = on_locustfile msg.client_id m
  handle client_stopped msg m = on_client_stopped msg m
  handle (heartbeat state usage memory) msg m = on_heartbeat msg state usage memory m
  handle (stats_report report counts) msg m = on_stats msg.node_id report counts m
  handle spawning_begun msg m = on_spawning msg.node_id m
  handle (spawning_complete counts) msg m = on_spawning_complete msg.node_id counts m
  handle (logs worker_id log) msg m = on_logs worker_id log m
  handle quitting msg m = on_quit msg.node_id m
  handle (exception_raised key text traceback) msg m =
      some (check_stopped (log_exception msg.node_id key text traceback m))
  handle other msg m = some (check_stopped (show_index msg.node_id m))

  unfoldable pub handle_message : Message → Master → Option Master
  unfolding handle
  handle_message msg m = handle msg.content msg m
