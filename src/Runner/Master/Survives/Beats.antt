-- ===== src/Runner/Master/Survives/Beats.antt =====
-- `heartbeat_worker`: a round over the workers raises no exception.
use mathlib.Core.Path.{subst, sym}
use locust.Base.{
  if_lem, ℕ, ◌≡◌, refl, true, not, Option, none, some, List, [], ◌∷◌, ◌++◌, ◌==◌, arith,
  if◌then◌else◌, Option-cases, inl, inr, ◌&&◌, All, All-map,
}
use locust.Base.Dict.{lookup, contains, keys}
use locust.Base.Int.{is_negative}
use locust.Runner.{missing, is_state, Client, Clients, worker_count}
use locust.Runner.Master.{Config, Master, start, stop, is_up}
use locust.Runner.Master.Messages.{with_client, rebalance}
use locust.Runner.Master.Heartbeat.{
  is_dead, remove_clients, miss, beat, beats, bury, heartbeat_worker,
}
use locust.Runner.Master.Invariant.{
  IsConfig, IsDispatching, IsMaster, KeepsIndexes, Follows, Survives, Follows-self, bind-Survives,
  up-rated, stop-Follows, check_stopped-Follows,
}
use locust.Runner.Master.Starts.{
  start-Survives, remove_worker-IsDispatching, rebalance-Survives, with_dispatcher-Follows,
}
use locust.Runner.Master.Survives.{with_client-Follows, Stays, without, without-IsMaster}

abbrev AreKnown : List ℕ → Master → Type 0
AreKnown ids m = All (λ id. contains id m.clients ≡ true) ids

known_self : (clients : Clients) → All (λ id. contains id clients ≡ true) (keys clients)
known_self [] = tt
known_self (e ∷ d) =
    let known = λ (id : ℕ). contains id d ≡ true in
    let known' = λ (id : ℕ). contains id (e ∷ d) ≡ true in
    (ground arith, All-map known known' (keys d) (λ id h. ground (arith, h)) (known_self d))

remove_clients-IsMaster :
    (ids : List ℕ) (m : Master)
    → IsMaster m
    → IsMaster (record m { clients = remove_clients ids m.clients })
unfolding remove_clients
remove_clients-IsMaster [] m v = v
remove_clients-IsMaster (id ∷ ids) m v =
    remove_clients-IsMaster ids (without id m) (without-IsMaster id m v)

Survives-some :
    (m0 : Master) (o : Option Master) → Survives m0 o → (m : Master) × (o ≡ some m) × Follows m0 m
Survives-some m0 none f = absurd f
Survives-some m0 (some m) f = (m, refl, f)

-- The indexes of a former master are those of the present one.
Stays-after :
    (m0 m : Master) (o : Option Master)
    → KeepsIndexes m0.worker_indexes m.worker_indexes
    → Stays m o
    → Stays m0 o
Stays-after m0 m none k s = s
Stays-after m0 m (some m') k s = (s.0, λ id i e. s.1 id i (k id i e))

module _ (c : Config) (at : ℕ → ℕ) where
  miss-Survives :
      (m0 : Master) (x : Client) (m : Master)
      → IsConfig c
      → Follows m0 m
      → Survives m0 (miss c at x m)
  unfolding miss
  miss-Survives m0 x m config f =
      let x' = record x { state = missing; user_classes_count = [] } in
      let gone = with_client x' m in
      let f' : Follows m0 gone = with_client-Follows x' f in
      let last = λ (m1 : Master). λ (g : Follows m0 m1).
        if_lem (Follows m0) (worker_count m1.clients == 0)
          (λ e. check_stopped-Follows m0 (stop true m1) (stop-Follows m0 true m1 g)) (λ e. g) in
      elim (Option-cases m.users_dispatcher) [
        | inl e ↦ rw (e, miss) (last gone f')
        | inr (d, e) ↦
            let (d', e', v) =
              remove_worker-IsDispatching c x.id d (subst IsDispatching e f.valid.2) in
            rw (e, e', miss)
              (bind-Survives m0 (rebalance c at (record gone { users_dispatcher = some d' })) _
                (rebalance-Survives c m0 at _ config (with_dispatcher-Follows d' f' v)) last)
      ]

  beat-Survives :
      (m0 : Master) (x : Client) (m : Master)
      → IsConfig c
      → Follows m0 m
      → Survives m0 (beat c at x m)
  unfolding beat
  beat-Survives m0 x m config f =
      if_lem (Survives m0) (is_negative x.heartbeat && not (is_state x.state missing))
        (λ e. miss-Survives m0 x m config f) (λ e. with_client-Follows _ f)

  beats_more :
      (id : ℕ) (ids dead : List ℕ) (x : Client) (m m1 : Master) (r : List ℕ × Master)
      → lookup id m.clients ≡ some x
      → beat c at x m ≡ some m1
      → beats c at ids (if is_dead x then dead ++ id ∷ [] else dead) m1 ≡ some r
      → beats c at (id ∷ ids) dead m ≡ some r
  unfolding beats
  beats_more id ids dead x m m1 r e e1 e2 = rw (e, e1, beats) e2

  beats-Follows :
      (ids dead : List ℕ) (m : Master)
      → IsConfig c
      → IsMaster m
      → AreKnown ids m
      → (dead' : List ℕ) × (m' : Master) × (beats c at ids dead m ≡ some (dead', m'))
        × IsMaster m'
        × KeepsIndexes m.worker_indexes m'.worker_indexes
  unfolding beats
  beats-Follows [] dead m config v known = (dead, m, refl, v, λ id i e. e)
  beats-Follows (id ∷ ids) dead m config v known = elim (Option-cases (lookup id m.clients)) [
    | inl e ↦ absurd (ground (arith, e, known.0))
    | inr (x, e) ↦
        let (m1, e1, f) =
          Survives-some m (beat c at x m) (beat-Survives m x m config (Follows-self m v)) in
        let known1 =
          All-map (λ k. contains k m.clients ≡ true) (λ k. contains k m1.clients ≡ true) ids
            f.clients known.1 in
        let dead1 = if is_dead x then dead ++ id ∷ [] else dead in
        let (dead2, m2, e2, v2, k2) = beats-Follows ids dead1 m1 config f.valid known1 in
        (
          dead2,
          m2,
          beats_more id ids dead x m m1 (dead2, m2) e e1 e2,
          v2,
          λ k i h. k2 k i (f.indexes k i h),
        )
  ]

  bury-Stays : (ids : List ℕ) (m : Master) → IsConfig c → IsMaster m → Stays m (bury c at ids m)
  unfolding bury
  bury-Stays [] m config v = (v, λ id i e. e)
  bury-Stays (id ∷ ids) m config v =
      let m' = record m { clients = remove_clients (id ∷ ids) m.clients } in
      let v' = remove_clients-IsMaster (id ∷ ids) m v in
      let m1 = record m' { users_dispatcher = none } in
      if_lem (Stays m) (is_up m.state)
        (λ e.
          let (m2, e2, f) = Survives-some m1 (start c at m.target_user_count m.spawn_rate none m1) (
            start-Survives c m1 at m.target_user_count m.spawn_rate none m1
              (up-rated m.state m.spawn_rate v.3 e) config (Follows-self m1 (v'.0, v'.1, tt, v'.3))
              (λ d e. tt)) in
          subst (Stays m) (sym e2) (f.valid, f.indexes))
        (λ e. (v', λ id i e. e))

  -- A valid master, the rate of which is positive where a test spawns or runs, and that was created
  -- with some weighted user class and classes of different names, goes through its workers once without an exception: whichever of them have stopped to send
  -- heartbeats or are dead, it leaves a valid master, in which the index of each worker is what it
  -- was.
  pub heartbeat_worker-Stays :
      (m : Master) → IsConfig c → IsMaster m → Stays m (heartbeat_worker c at m)
  unfolding heartbeat_worker
  heartbeat_worker-Stays m config v =
      let (dead, m1, e, v1, k1) =
        beats-Follows (keys m.clients) [] m config v (known_self m.clients) in
      rw (e, heartbeat_worker)
        (Stays-after m m1 (bury c at dead m1) k1 (bury-Stays dead m1 config v1))
