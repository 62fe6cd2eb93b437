-- ===== src/Runner/Master/Indexes.antt =====
-- A master from its creation on, with the calls it may get in any order, and the indexes of its
-- workers.
use mathlib.Core.Path.{subst, sym, ◌∙◌}
use locust.Base.{ℕ, ◌≡◌, ◌↔◌, refl, inl, inr, Option-cases, Bool, Option, some, List, arith}
use locust.Base.Dict.{lookup, lookup-insert}
use locust.Dispatch.Users.{UserClass}
use locust.Dispatch.Dispatcher.{Dispatcher}
use locust.Dispatch.Dispatcher.Dispatches.{Usable}
use locust.Runner.Master.{
  Config, Master, new_master, get_worker_index, dispatcher_of, start, stop, quit,
}
use locust.Runner.Master.Messages.{Message, handle_message}
use locust.Runner.Master.Heartbeat.{heartbeat_worker}
use locust.Runner.Master.Invariant.{
  IsConfig, IsMaster, Follows-self, stop-Follows, get_worker_index-Follows,
}
use locust.Runner.Master.Starts.{start-Survives}
use locust.Runner.Master.Spawned.{start_reaches_target}
use locust.Runner.Master.Survives.{Stays, stays_lem, quit-Follows}
use locust.Runner.Master.Survives.Handled.{handle_message-Stays}
use locust.Runner.Master.Survives.Beats.{heartbeat_worker-Stays}

-- The calls, each of which runs to its end; one that raises an exception is no step.
pub data Step (c : Config) : Master → Master → Type 0 where
  started :
      {m m' : Master} (at : ℕ → ℕ) (user_count rate : ℕ) (us : Option (List UserClass))
      → ((d : Dispatcher) → dispatcher_of c m ≡ some d → Usable d us)
      → start c at user_count rate us m ≡ some m'
      → Step c m m'
  ordered_to_stop :
      (m : Master) (send_stop_to_client : Bool) → Step c m (stop send_stop_to_client m)
  ordered_to_quit : (m : Master) → Step c m (quit m)
  received :
      {m m' : Master} (at : ℕ → ℕ) (msg : Message)
      → handle_message c at msg m ≡ some m'
      → Step c m m'
  checked : {m m' : Master} (at : ℕ → ℕ) → heartbeat_worker c at m ≡ some m' → Step c m m'
  asked_index : (m : Master) (id : ℕ) → Step c m (get_worker_index id m).1

pub data Reaches (c : Config) (m : Master) : Master → Type 0 where
  here : Reaches c m m
  next : {m' m'' : Master} → Reaches c m m' → Step c m' m'' → Reaches c m m''

new_master-IsMaster : (at : ℕ → ℕ) (cached : Bool) → IsMaster (new_master at cached)
unfolding new_master
new_master-IsMaster at cached = (
  record { listed = tt; below = λ id i e. ground (arith, e); apart = λ j k i e. ground (arith, e) },
  record { listed = tt; named = λ id x e. ground (arith, e) },
  tt,
  inl refl,
)

-- `get_worker_index` returns what it has stored.
known_index :
    (id : ℕ) (m : Master)
    → lookup id (get_worker_index id m).1.worker_indexes ≡ some (get_worker_index id m).0
unfolding get_worker_index
known_index id m = elim (Option-cases (lookup id m.worker_indexes)) [
  | inl e ↦
      rw (e, get_worker_index)
        (ground (arith, lookup-insert id id m.worker_index_max m.worker_indexes))
  | inr (i, e) ↦ rw (e, get_worker_index) e
]

returned :
    (id : ℕ) (m : Master) (i : ℕ)
    → lookup id m.worker_indexes ≡ some i
    → (get_worker_index id m).0 ≡ i
unfolding get_worker_index
returned id m i e = rw (e, get_worker_index) refl

module _ (c : Config) where
  Step-Stays : {m m' : Master} → IsConfig c → IsMaster m → Step c m m' → Stays m (some m')
  Step-Stays config v (started {m} {m'} at n rate us usable e) =
      elim (start_reaches_target c at n rate us m config v usable) [
        | inl (idle, noted) ↦ subst (Stays m) (sym noted ∙ e) (v, λ id i h. h)
        | inr (up, inl (zero_rate, raised)) ↦ absurd (ground (arith, e, raised))
        | inr (up, inr (positive, begun)) ↦ subst (Stays m) e (
            stays_lem m (start c at n rate us m)
              (start-Survives c m at n rate us m positive config (Follows-self m v) usable))
      ]
  Step-Stays config v (ordered_to_stop m b) =
      stays_lem m (some (stop b m)) (stop-Follows m b m (Follows-self m v))
  Step-Stays config v (ordered_to_quit m) =
      stays_lem m (some (quit m)) (quit-Follows m m (Follows-self m v))
  Step-Stays config v (received {m} {m'} at msg e) =
      elim (handle_message-Stays c at msg m config v) [
        | inl (ended, raised) ↦ absurd (ground (arith, e, raised))
        | inr (other, s) ↦ subst (Stays m) e s
      ]
  Step-Stays config v (checked {m} {m'} at e) =
      subst (Stays m) e (heartbeat_worker-Stays c at m config v)
  Step-Stays config v (asked_index m id) =
      stays_lem m (some (get_worker_index id m).1)
        (get_worker_index-Follows m id m (Follows-self m v))

  Reaches-Stays : {m m' : Master} → IsConfig c → IsMaster m → Reaches c m m' → Stays m (some m')
  Reaches-Stays config v here = (v, λ id i e. e)
  Reaches-Stays config v (next r step) =
      let (v1, k1) = Reaches-Stays config v r in
      let (v2, k2) = Step-Stays config v1 step in (v2, λ id i e. k2 id i (k1 id i e))

  -- Whatever calls that raise no exception a master has got since its creation, that was with some
  -- weighted user class and classes of different names, where each start was over the classes in use
  -- or over others that the dispatcher in use can spawn, it is valid; and whatever such calls follow, the index that
  -- `get_worker_index` returns for a worker is one it will return for it at any later time, and
  -- never for another worker.
  pub index_is_for_good :
      (at : ℕ → ℕ) (cached : Bool) (m m' : Master) (id id' : ℕ)
      → IsConfig c
      → Reaches c (new_master at cached) m
      → Reaches c (get_worker_index id m).1 m'
      → IsMaster m'
        × ((get_worker_index id m').0 ≡ (get_worker_index id m).0)
        × (((get_worker_index id' m').0 ≡ (get_worker_index id m).0) ↔ (id' ≡ id))
  unfolding get_worker_index
  index_is_for_good at cached m m' id id' config r r' =
      let (v, _) = Reaches-Stays config (new_master-IsMaster at cached) r in
      let f = get_worker_index-Follows m id m (Follows-self m v) in
      let (v', k) = Reaches-Stays config f.valid r' in
      let found = k id (get_worker_index id m).0 (known_index id m) in
      let f' = get_worker_index-Follows m' id' m' (Follows-self m' v') in
      let same = returned id m' (get_worker_index id m).0 found in
      let apart = f'.valid.0.apart id' id (get_worker_index id m).0 in
      (
        v',
        same,
        (
          λ e.
              apart
                (subst (λ i. lookup id' (get_worker_index id' m').1.worker_indexes ≡ some i) e
                  (known_index id' m'))
                (f'.indexes id _ found),
          λ e. subst (λ k. (get_worker_index k m').0 ≡ (get_worker_index id m).0) (sym e) same,
        ),
      )
