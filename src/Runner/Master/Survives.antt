-- ===== src/Runner/Master/Survives.antt =====
-- Steps of a master that no exception ends, and what is left of it.
pub mod Cases
pub mod Handled
pub mod Beats
use mathlib.Core.Path.{subst, sym, ◌∙◌}
use mathlib.Core.Logic.{◌⊎◌}
use locust.Base.{
  if_lem, ℕ, ◌≡◌, refl, Bool, true, false, not, Option, none, some, List, [], ◌∷◌, ◌==◌, ltb, arith,
  if◌then◌else◌, ◌>>=◌, Bool-cases, Option-cases, inl, inr, ◌&&◌,
}
use locust.Base.Dict.{
  Dict, IsDict, lookup, contains, insert, erase, lookup-insert, insert-IsDict, erase-IsDict,
  lookup-erase_ne, lookup-erase_self, keys,
}
use locust.Stats.Requests.{Report, on_worker_report}
use locust.Runner.{RunState, missing, is_state, Client, Clients, new_client, heartbeat_liveness}
use locust.Runner.Master.{
  Config, Master, Outbound, ack, heartbeat_reply, quit_worker, quit_workers, get_worker_index, send,
  stop, quit, check_stopped,
}
use locust.Runner.Master.Invariant.{
  IsConfig, IsMaster, IsRegister, KeepsIndexes, Follows, Survives, Follows-self, bind-Survives,
  Shares-Follows, get_worker_index-Follows, stop-Follows, check_stopped-Follows,
}
use locust.Runner.Master.Starts.{join-Survives, lose-Survives, rebalance-Survives}
use locust.Runner.Master.Messages.{
  Content, client_ready, locustfile, client_stopped, heartbeat, stats_report, spawning_begun,
  spawning_complete, logs, quitting, exception_raised, other, Message, with_client, show_index,
  log_exception, join, lose, on_client_ready, on_client_stopped, note_cpu, heard, on_heartbeat,
  on_stats, on_spawning, on_spawning_complete, on_logs, seems_last, end_if_last, on_quit,
  on_locustfile, handle, handle_message,
}

-- A worker is put in, or replaced, under its own id.
pub with_client-Follows : {m0 m : Master} (x : Client) → Follows m0 m → Follows m0 (with_client x m)
with_client-Follows {m0} {m} x f =
    let found = λ (id : ℕ). lookup-insert id x.id x m.clients in
    record {
      valid = (
        f.valid.0,
        record {
          listed = insert-IsDict x.id x m.clients f.valid.1.listed;
          named = λ id y e. ground (arith, found id, f.valid.1.named id y);
        },
        f.valid.2,
        f.valid.3,
      );
      indexes = f.indexes;
      clients = λ id e. ground (arith, found id, f.clients id e);
    }

-- A worker that is not there any more.
abbrev pub without : ℕ → Master → Master
without id m = record m { clients = erase id m.clients }

pub without-IsMaster : (id : ℕ) (m : Master) → IsMaster m → IsMaster (without id m)
without-IsMaster id m v = (
  v.0,
  record {
    listed = erase-IsDict id m.clients v.1.listed;
    named = λ k x e. elim (Bool-cases (k == id)) [
      | inl same ↦ ground (arith, same, e, lookup-erase_self id m.clients v.1.listed)
      | inr differ ↦ v.1.named k x (sym (lookup-erase_ne k id m.clients differ) ∙ e)
    ];
  },
  v.2,
  v.3,
)

-- What follows an exception-free step that no client leaves.
pub quit_workers-Follows :
    (m0 : Master) (ids : List ℕ) (m : Master) → Follows m0 m → Follows m0 (quit_workers ids m)
unfolding quit_workers send
quit_workers-Follows m0 [] m f = f
quit_workers-Follows m0 (id ∷ ids) m f =
    quit_workers-Follows m0 ids _
      (Shares-Follows (get_worker_index-Follows m0 id m f) (refl, refl, refl, refl, λ r. r))

pub quit-Follows : (m0 m : Master) → Follows m0 m → Follows m0 (quit m)
unfolding quit
quit-Follows m0 m f =
    Shares-Follows
      (quit_workers-Follows m0 (keys (Master.clients (stop false m))) (stop false m)
        (stop-Follows m0 false m f))
      (refl, refl, refl, refl, λ r. r)

-- What a step does to the indexes, and that it leaves a valid master.
abbrev pub Stays : Master → Option Master → Type 0
Stays m none = ⊥
Stays m (some m') = IsMaster m' × KeepsIndexes m.worker_indexes m'.worker_indexes

pub stays_lem : (m : Master) (o : Option Master) → Survives m o → Stays m o
stays_lem m none f = f
stays_lem m (some m') f = (f.valid, f.indexes)

pub without-Stays :
    (id : ℕ) (m : Master) (o : Option Master) → Survives (without id m) o → Stays m o
without-Stays id m none f = f
without-Stays id m (some m') f = (f.valid, f.indexes)
