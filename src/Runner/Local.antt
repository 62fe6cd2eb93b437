-- ===== src/Runner/Local.antt =====
-- `class LocalRunner` of locust/runners.py: `_start`, and `stop`.
-- A call runs to its end before the next one. The dispatcher does not look at the users, so that all
-- its tables come first here, and then a ramp for each. Listeners of users of the library, the host,
-- the filter of the tasks, which happens once, and the count on the worker node are left out.
pub mod Runs
pub mod Total
pub mod Started
mod Tests
use locust.Base.{
  ℕ, ◌*◌, ◌-◌, Bool, true, false, Option, none, some, List, [], ◌∷◌, ltb, if◌then◌else◌, length,
  map, ◌||◌, ◌&&◌, ◌>>=◌,
}
use locust.Base.Dict.{Dict, lookup}
use locust.Dispatch.Kl.{Divergence}
use locust.Dispatch.Users.{UserClass, WorkerNode, Users}
use locust.Dispatch.Dispatcher.{Dispatcher, init_dispatcher, new_dispatch}
use locust.Dispatch.Dispatcher.Generator.{run}
use locust.Stats.Requests.{RequestStats, clear_all, reset_all}
use locust.Runner.{RunState, running, stopped, is_state}
use locust.Runner.Master.{ExceptionRow, is_up, rounds}
use locust.Runner.Users.{user_classes_count, stop_users, ramp, ramp_waiting}

pub record Config : Type 0 where
  pub divergence : Divergence
  pub user_classes : List UserClass
  pub local_id : ℕ
  pub reset_stats : Bool

pub record Local : Type 0 where
  pub state : RunState
  pub users : List ℕ
  pub users_dispatcher : Option Dispatcher
  pub target_user_count : ℕ
  pub target_user_classes_count : Dict ℕ
  pub final_user_classes_count : Dict ℕ
  pub stats : RequestStats
  pub exceptions : Dict ExceptionRow
  pub cpu_warning_emitted : Bool
  pub worker_cpu_warning_emitted : Bool

-- What a runner that was not running begins with.
abbrev pub clear_before : (at : ℕ → ℕ) → Local → Local
clear_before at l = if is_up l.state then l else record l {
  stats = clear_all at l.stats;
  exceptions = [];
  cpu_warning_emitted = false;
  worker_cpu_warning_emitted = false;
}

-- `wait and user_count - self.user_count > spawn_rate`, the rate in thousandths.
abbrev pub is_too_fast : (wait : Bool) (user_count spawn_rate : ℕ) → Local → Bool
is_too_fast wait user_count spawn_rate l =
    wait && ltb spawn_rate ((user_count - length l.users) * 1000)

-- The users that are waited for have ended.
abbrev pub wait_for : Option (List ℕ) → Option (List ℕ)
wait_for users = users >>= λ ended. some []

module _ (c : Config) where
  abbrev pub names : List ℕ
  names = map (λ u. UserClass.name u) c.user_classes

  abbrev pub local_node : WorkerNode
  local_node = record { id = c.local_id; host = c.local_id; index_within_host = 0 }

  -- The ramp for each table, from the row of the local worker.
  unfoldable pub ramp_tables : (wait : Bool) → List Users → List ℕ → Option (List ℕ)
  unfolding ramp ramp_waiting
  ramp_tables wait [] users = some users
  ramp_tables wait (table ∷ tables) users = lookup c.local_id table >>= λ row.
      (if wait then wait_for (ramp_waiting names row users) else ramp names row users) >>= λ users'.
      ramp_tables wait tables users'

  unfoldable pub dispatcher_of : Local → Option Dispatcher
  unfolding init_dispatcher
  dispatcher_of l = elim l.users_dispatcher [
    | some d ↦ some d
    | none ↦ init_dispatcher (local_node ∷ []) c.user_classes
  ]

  -- The listener of `spawning_complete` sets the state.
  unfoldable pub complete_spawning : (at : ℕ → ℕ) → (counts : Dict ℕ) → Local → Local
  unfolding reset_all
  complete_spawning at counts l = record l {
    target_user_classes_count = counts;
    state = running;
    stats = if c.reset_stats then reset_all at l.stats else l.stats;
  }

  -- `none` for a ValueError too, and for what the dispatcher raises.
  unfoldable pub start :
      (at : ℕ → ℕ) (user_count spawn_rate : ℕ) (wait : Bool)
      → Option (List UserClass)
      → Local
      → Option Local
  unfolding clear_all dispatcher_of ramp_tables user_classes_count complete_spawning
  start at user_count spawn_rate wait user_classes l =
      if is_too_fast wait user_count spawn_rate l
      then none
      else dispatcher_of l >>= λ d.
          new_dispatch user_count spawn_rate user_classes d
          >>= run c.divergence (rounds user_count d)
          >>= λ r. ramp_tables wait r.0 l.users >>= λ users.
              user_classes_count names users >>= λ counts. some (
                complete_spawning at counts (record (clear_before at l) {
                  target_user_count = user_count;
                  users = users;
                  users_dispatcher = some r.1;
                }))

  unfoldable pub stop : Local → Option Local
  unfolding user_classes_count stop_users
  stop l =
      if is_state l.state stopped
      then some l
      else user_classes_count names l.users >>= λ counts.
          stop_users names counts l.users >>= λ users. some (record l {
            final_user_classes_count = counts;
            users = users;
            users_dispatcher = none;
            state = stopped;
          })
