-- ===== src/Runner/Master/Invariant.antt =====
-- What holds of a master between two calls, and how the parts of a call keep it.
use mathlib.Core.Path.{subst, sym, ◌∙◌}
use locust.Base.{
  if_lem, ℕ, ◌+◌, ◌<◌, ◌≡◌, refl, Bool, true, false, Option, none, some, List, [], ◌∷◌, arith,
  length, ◌⊎◌, ◌>>=◌, Option-cases, inl, inr,
}
use locust.Base.Dict.{Dict, IsDict, lookup, contains, insert, keys, lookup-insert, insert-IsDict}
use locust.Dispatch.Users.{Users}
use locust.Dispatch.Workers.{sorted_by}
use locust.Dispatch.Spawn.Draw.{has_weighted}
use locust.Dispatch.Dispatcher.{Dispatcher, le_name, distinct}
use locust.Dispatch.Dispatcher.Invariant.{IsDispatcher}
use locust.Runner.{Client, Clients, RunState}
use locust.Runner.Master.{
  Config, Outbound, Master, send, send_all, get_worker_index, send_table, send_tables, stop,
  check_stopped, has_stopped, stop_worker, stop_requested, nothing_to_stop, is_up, spawn,
}

-- There is a user class, their names differ, and one has a weight.
pub record IsConfig (c : Config) : Type 0 where
  pub some_class : 0 < length c.user_classes
  pub different : distinct (sorted_by le_name c.user_classes) ≡ true
  pub weighted : has_weighted (sorted_by le_name c.user_classes) ≡ true

-- The dispatcher is valid, where there is one, and has always found a user to spawn.
abbrev pub IsDispatching : Option Dispatcher → Type 0
IsDispatching none = Unit
IsDispatching (some d) = IsDispatcher d × (d.no_user_to_spawn ≡ false)

pub record IsIndexed (indexes : Dict ℕ) (next : ℕ) : Type 0 where
  pub listed : IsDict indexes
  pub below : (id i : ℕ) → lookup id indexes ≡ some i → i < next
  pub apart : (id id' i : ℕ) → lookup id indexes ≡ some i → lookup id' indexes ≡ some i → id ≡ id'

pub record IsRegister (clients : Clients) : Type 0 where
  pub listed : IsDict clients
  pub named : (id : ℕ) (x : Client) → lookup id clients ≡ some x → x.id ≡ id

-- Where a test spawns or runs, the rate is not 0.
abbrev pub IsRated : RunState → (spawn_rate : ℕ) → Type 0
IsRated state spawn_rate = (is_up state ≡ false) ⊎ (0 < spawn_rate)

pub up-rated : (state : RunState) (rate : ℕ) → IsRated state rate → is_up state ≡ true → 0 < rate
up-rated state rate (inl down) up = absurd (ground (arith, down, up))
up-rated state rate (inr positive) up = positive

-- The workers have different indexes below the next one, a worker is registered under its id, the
-- dispatcher is valid, and a test that spawns or runs has a positive rate.
abbrev pub IsMaster : Master → Type 0
IsMaster m =
    IsIndexed m.worker_indexes m.worker_index_max
    × IsRegister m.clients
    × IsDispatching m.users_dispatcher
    × IsRated m.state m.spawn_rate

-- An index that was given stays.
abbrev pub KeepsIndexes : Dict ℕ → Dict ℕ → Type 0
KeepsIndexes old new = (id i : ℕ) → lookup id old ≡ some i → lookup id new ≡ some i

abbrev pub KeepsClients : Clients → Clients → Type 0
KeepsClients old new = (id : ℕ) → contains id old ≡ true → contains id new ≡ true

-- A valid master that knows the workers and the indexes that `m0` knows.
pub record Follows (m0 m : Master) : Type 0 where
  pub valid : IsMaster m
  pub indexes : KeepsIndexes m0.worker_indexes m.worker_indexes
  pub clients : KeepsClients m0.clients m.clients

-- A step that raises no exception and ends in such a master.
abbrev pub Survives : Master → Option Master → Type 0
Survives m0 none = ⊥
Survives m0 (some m) = Follows m0 m

pub Follows-self : (m : Master) → IsMaster m → Follows m m
Follows-self m v = record { valid = v; indexes = λ id i e. e; clients = λ id e. e }

-- A step that leaves the workers, the indexes and the dispatcher alone, and does not leave a test
-- without a rate.
abbrev pub Shares : Master → Master → Type 0
Shares m m' =
    (m'.worker_indexes ≡ m.worker_indexes)
    × (m'.worker_index_max ≡ m.worker_index_max)
    × (m'.clients ≡ m.clients)
    × (m'.users_dispatcher ≡ m.users_dispatcher)
    × (IsRated m.state m.spawn_rate → IsRated m'.state m'.spawn_rate)

pub Shares-Follows : {m0 m m' : Master} → Follows m0 m → Shares m m' → Follows m0 m'
Shares-Follows {m0} {m} {m'} f s = record {
  valid = (
    subst (λ i. IsIndexed i m'.worker_index_max) (sym s.0)
        (subst (IsIndexed m.worker_indexes) (sym s.1) f.valid.0),
    subst IsRegister (sym s.2) f.valid.1,
    subst IsDispatching (sym s.3) f.valid.2,
    s.4 f.valid.3,
  );
  indexes = subst (KeepsIndexes m0.worker_indexes) (sym s.0) f.indexes;
  clients = subst (KeepsClients m0.clients) (sym s.2) f.clients;
}

pub bind-Survives :
    (m0 : Master) (o : Option Master) (f : Master → Option Master)
    → Survives m0 o
    → ((m : Master) → Follows m0 m → Survives m0 (f m))
    → Survives m0 (o >>= f)
bind-Survives m0 none f s h = s
bind-Survives m0 (some m) f s h = h m s

pub get_worker_index-Follows :
    (m0 : Master) (id : ℕ) (m : Master) → Follows m0 m → Follows m0 (get_worker_index id m).1
unfolding get_worker_index
get_worker_index-Follows m0 id m f = elim (Option-cases (lookup id m.worker_indexes)) [
  | inr (i, known) ↦ rw (known, get_worker_index) f
  | inl unknown ↦
      let found = λ (j : ℕ). lookup-insert j id m.worker_index_max m.worker_indexes in
      let valid : IsIndexed (insert id m.worker_index_max m.worker_indexes)
          (m.worker_index_max + 1) =
        record {
          listed = insert-IsDict id m.worker_index_max m.worker_indexes f.valid.0.listed;
          below = λ j i e. ground (arith, found j, f.valid.0.below j i);
          apart = λ j k i e e'. ground (
            arith,
            found j,
            found k,
            f.valid.0.below j i,
            f.valid.0.below k i,
            f.valid.0.apart j k i,
          );
        } in
      rw (unknown, get_worker_index)
        (record {
          valid = (valid, f.valid.1, f.valid.2, f.valid.3);
          indexes = λ j i e. ground (arith, found j, f.indexes j i e, f.valid.0.below j i);
          clients = f.clients;
        })
]

pub send_all-Follows :
    (m0 : Master) (msg : ℕ → Outbound) (ids : List ℕ) (m : Master)
    → Follows m0 m
    → Follows m0 (send_all msg ids m)
unfolding send_all send
send_all-Follows m0 msg [] m f = f
send_all-Follows m0 msg (id ∷ ids) m f =
    send_all-Follows m0 msg ids (send (msg id) m)
      (Shares-Follows f (refl, refl, refl, refl, λ r. r))

send_table-Follows :
    (m0 : Master) (table : Users) (m : Master) → Follows m0 m → Follows m0 (send_table table m)
unfolding send_table send
send_table-Follows m0 [] m f = f
send_table-Follows m0 ((id, counts) ∷ rows) m f =
    send_table-Follows m0 rows _ (Shares-Follows f (refl, refl, refl, refl, λ r. r))

pub send_tables-Follows :
    (m0 : Master) (tables : List Users) (m : Master)
    → Follows m0 m
    → Follows m0 (send_tables tables m)
unfolding send_tables
send_tables-Follows m0 [] m f = f
send_tables-Follows m0 (table ∷ tables) m f =
    send_tables-Follows m0 tables _
      (Shares-Follows (send_table-Follows m0 table m f) (refl, refl, refl, refl, λ r. r))

-- The messages of a spawning leave the rate alone.
send_table-rate :
    (table : Users) (m : Master) → Master.spawn_rate (send_table table m) ≡ m.spawn_rate
unfolding send_table send
send_table-rate [] m = refl
send_table-rate ((id, counts) ∷ rows) m = send_table-rate rows (send (spawn id counts) m)

pub send_tables-rate :
    (tables : List Users) (m : Master) → Master.spawn_rate (send_tables tables m) ≡ m.spawn_rate
unfolding send_tables
send_tables-rate [] m = refl
send_tables-rate (table ∷ tables) m = send_tables-rate tables _ ∙ send_table-rate table m

pub check_stopped-Follows : (m0 m : Master) → Follows m0 m → Follows m0 (check_stopped m)
unfolding check_stopped
check_stopped-Follows m0 m f =
    if_lem (Follows m0) (has_stopped m)
      (λ e. Shares-Follows f (refl, refl, refl, refl, λ r. inl refl)) (λ e. f)

pub without_dispatcher-Follows :
    {m0 m : Master} → Follows m0 m → Follows m0 (record m { users_dispatcher = none })
without_dispatcher-Follows f = record {
  valid = (f.valid.0, f.valid.1, tt, f.valid.3);
  indexes = f.indexes;
  clients = f.clients;
}

pub stop-Follows : (m0 : Master) (b : Bool) (m : Master) → Follows m0 m → Follows m0 (stop b m)
unfolding stop
stop-Follows m0 b m f =
    let f' = without_dispatcher-Follows f in
    if_lem (Follows m0) (nothing_to_stop m) (λ e. f)
      (λ e.
        if_lem (Follows m0) b
          (λ e.
            send_all-Follows m0 stop_worker (keys m.clients) (stop_requested m)
              (Shares-Follows f' (refl, refl, refl, refl, λ r. inl refl)))
          (λ e. Shares-Follows f' (refl, refl, refl, refl, λ r. inl refl)))
