-- ===== src/Runner/Master/Heartbeat.antt =====
-- `heartbeat_worker` of `class MasterRunner`, of locust/runners.py: what it does once a second while
-- the connection is not broken.
use locust.Base.{
  ℕ, Bool, true, not, Option, none, some, List, [], ◌∷◌, ◌++◌, ◌==◌, if◌then◌else◌, ◌&&◌, ◌>>=◌,
}
use locust.Base.Dict.{lookup, erase, keys}
use locust.Base.Int.{pred, is_negative, le_minus}
use locust.Dispatch.Dispatcher.{remove_worker}
use locust.Runner.{missing, is_state, Client, Clients, worker_count}
use locust.Runner.Master.{Config, Master, start, stop, check_stopped, is_up}
use locust.Runner.Master.Messages.{rebalance, with_client}

-- HEARTBEAT_DEAD_INTERNAL is -60.
abbrev pub is_dead : Client → Bool
is_dead x = is_state x.state missing && le_minus 60 x.heartbeat

unfoldable pub remove_clients : List ℕ → Clients → Clients
remove_clients [] clients = clients
remove_clients (id ∷ ids) clients = remove_clients ids (erase id clients)

module _ (c : Config) (at : ℕ → ℕ) where
  -- A worker whose heartbeats have stopped. The dispatcher, where there is one, gives way to
  -- rebalancing.
  unfoldable pub miss : Client → Master → Option Master
  unfolding remove_worker rebalance stop check_stopped worker_count
  miss x m =
      let gone = with_client (record x { state = missing; user_classes_count = [] }) m in
      (elim m.users_dispatcher [
        | none ↦ some gone
        | some d ↦ remove_worker c.divergence x.id d >>= λ d'.
            rebalance c at (record gone { users_dispatcher = some d' })
      ])
      >>= λ m1. some (if worker_count m1.clients == 0 then check_stopped (stop true m1) else m1)

  -- One round of the loop over the clients, but for the list of the dead ones.
  unfoldable pub beat : Client → Master → Option Master
  unfolding miss
  beat x m =
      if is_negative x.heartbeat && not (is_state x.state missing)
      then miss x m
      else some (with_client (record x { heartbeat = pred x.heartbeat }) m)

  -- The loop, over the keys that there are at its start; `dead` are the clients to be removed.
  unfoldable pub beats : (ids dead : List ℕ) → Master → Option (List ℕ × Master)
  unfolding beat
  beats [] dead m = some (dead, m)
  beats (id ∷ ids) dead m = elim (lookup id m.clients) [
    | none ↦ none
    | some x ↦ beat x m >>= λ m'. beats ids (if is_dead x then dead ++ id ∷ [] else dead) m'
  ]

  -- Clients that are dead are removed, and the test starts anew without them.
  unfoldable pub bury : List ℕ → Master → Option Master
  unfolding remove_clients start
  bury [] m = some m
  bury (id ∷ ids) m =
      let m' = record m { clients = remove_clients (id ∷ ids) m.clients } in
      if is_up m.state
      then start c at m.target_user_count m.spawn_rate none (record m' { users_dispatcher = none })
      else some m'

  unfoldable pub heartbeat_worker : Master → Option Master
  unfolding beats bury
  heartbeat_worker m = beats (keys m.clients) [] m >>= λ r. bury r.0 r.1
