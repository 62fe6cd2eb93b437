-- ===== src/Runner/Worker/Newest.antt =====
-- Spawn messages that reach a worker in any order: the newest one decides which users it runs.
use mathlib.Core.Path.{sym, subst, ◌∙◌}
use locust.Base.{
  ℕ, ◌<◌, ◌≤◌, ◌≡◌, refl, Option, some, List, [], ◌∷◌, ◌++◌, arith, leb, All, ◌>>=◌, Bool-cases,
  inl, inr, sum_by, length,
}
use locust.Base.Dict.{Dict, get, values}
use locust.Runner.{running, spawning}
use locust.Runner.Users.Counts.{number_of, AreOf, user_classes_count_lem}
use locust.Runner.Users.Ramp.{ramp-IsRamped, IsRequest, requested_numbers}
use locust.Runner.Master.{is_up}
use locust.Runner.Worker.{
  Worker, spawning_begun, spawning_complete, send, spawning_done, start_worker, clear_before,
  on_spawn,
}

-- A spawn message: its timestamp, and the requested numbers of users.
abbrev pub Job : Type 0
Job = ℕ × Dict ℕ

-- The worker runs users of its classes.
abbrev pub IsWorker : List ℕ → Worker → Type 0
IsWorker classes w = (w.user_classes ≡ classes) × AreOf classes w.users

-- A worker that runs what was requested at a time.
pub record Runs (classes : List ℕ) (timestamp : ℕ) (requested : Dict ℕ) (w : Worker) : Type 0 where
  pub valid : IsWorker classes w
  pub numbers : (v : ℕ) → number_of v w.users ≡ get v 0 requested
  pub running_state : w.state ≡ running
  pub last : w.last_received_spawn_timestamp ≡ timestamp

abbrev pub receive : (at : ℕ → ℕ) → List Job → Worker → Option Worker
receive at [] w = some w
receive at (job ∷ jobs) w = on_spawn at job.0 job.1 w >>= λ w'. receive at jobs w'

-- What `start_worker` leaves.
start_worker_lem :
    (classes : List ℕ) (requested : Dict ℕ) (w : Worker)
    → IsRequest classes requested
    → IsWorker classes w
    → (w' : Worker) × (start_worker requested w ≡ some w')
      × Runs classes w.last_received_spawn_timestamp requested w'
unfolding start_worker spawning_done send
start_worker_lem classes requested w q v =
    let known = subst (λ us. AreOf us w.users) (sym v.0) v.1 in
    let q' = subst (λ us. IsRequest us requested) (sym v.0) q in
    let (users, e, r) = (ramp-IsRamped w.user_classes requested w.users q'.0 q'.1 known).0 in
    let (counts, e', f) = user_classes_count_lem w.user_classes users r.0 in
    (
      record w {
        users = users;
        target_user_classes_count = requested;
        target_user_count = sum_by (λ n. n) (values requested);
        state = running;
        worker_state = running;
        sent = spawning_complete counts (length users) ∷ w.sent;
      },
      ground (arith, e, e'),
      record {
        valid = (v.0, subst (λ us. AreOf us users) v.0 r.0);
        numbers = requested_numbers w.user_classes requested w.users users q' known r;
        running_state = refl;
        last = refl;
      },
    )

-- A worker, and one that has discarded what is not newer than a time, is as it was.
cleared_lem :
    (at : ℕ → ℕ) (w : Worker)
    → ((clear_before at w).user_classes ≡ w.user_classes) × ((clear_before at w).users ≡ w.users)
cleared_lem at w = elim (Bool-cases (is_up w.worker_state)) [
  | inl e ↦ rw e (refl, refl)
  | inr e ↦ rw e (refl, refl)
]

newer_lem :
    (at : ℕ → ℕ) (classes : List ℕ) (t : ℕ) (requested : Dict ℕ) (w : Worker)
    → IsRequest classes requested
    → IsWorker classes w
    → w.last_received_spawn_timestamp < t
    → (w' : Worker) × (on_spawn at t requested w ≡ some w') × Runs classes t requested w'
unfolding on_spawn send
newer_lem at classes t requested w q v newer =
    let begun = record w { sent = spawning_begun ∷ w.sent } in
    let same = cleared_lem at begun in
    let (w', e, r) =
      start_worker_lem classes requested
        (record (clear_before at begun) {
          worker_state = spawning;
          last_received_spawn_timestamp = t;
        })
        q (same.0 ∙ v.0, subst (AreOf classes) (sym same.1) v.1) in
    (w', ground (arith, e, newer), r)

older_lem :
    (at : ℕ → ℕ) (t : ℕ) (requested : Dict ℕ) (w : Worker)
    → t ≤ w.last_received_spawn_timestamp
    → on_spawn at t requested w ≡ some (send spawning_begun w)
unfolding on_spawn
older_lem at t requested w older = ground (arith, older)

-- Messages that are not newer leave the users alone.
discarded :
    (at : ℕ → ℕ) (classes : List ℕ) (t : ℕ) (requested : Dict ℕ) (jobs : List Job) (w : Worker)
    → Runs classes t requested w
    → All (λ job. job.0 ≤ t) jobs
    → (w' : Worker) × (receive at jobs w ≡ some w') × Runs classes t requested w'
unfolding send
discarded at classes t requested [] w r older = (w, refl, r)
discarded at classes t requested ((t', job) ∷ jobs) w r older =
    let r' : Runs classes t requested (send spawning_begun w) = record {
      valid = r.valid;
      numbers = r.numbers;
      running_state = r.running_state;
      last = r.last;
    } in
    let (w', e, r'') = discarded at classes t requested jobs (send spawning_begun w) r' older.1 in
    let first = older_lem at t' job w (omega (arith, older.0, r.last)) in
    (w', rw (first, receive) e, r'')

-- A worker that has received nothing as new as a spawn message runs exactly the users that the
-- message asks for, once it has received it among others: ones that it got earlier, which are
-- older, and ones that it got later, which are not newer. All ask for each of the classes of the
-- worker once, and for no other, and no exception is raised. The worker is then in the state
-- "running", whatever it ran before.
pub newest_spawn_wins :
    (at : ℕ → ℕ) (classes : List ℕ) (before after : List Job) (t : ℕ) (requested : Dict ℕ)
    (w : Worker)
    → IsWorker classes w
    → w.last_received_spawn_timestamp < t
    → IsRequest classes requested
    → All (λ job. (job.0 < t) × IsRequest classes job.1) before
    → All (λ job. job.0 ≤ t) after
    → (w' : Worker) × (receive at (before ++ (t, requested) ∷ after) w ≡ some w')
      × Runs classes t requested w'
unfolding send
newest_spawn_wins at classes [] after t requested w v newer q earlier later =
    let (w1, e, r) = newer_lem at classes t requested w q v newer in
    let (w2, e', r') = discarded at classes t requested after w1 r later in
    (w2, rw (e, receive) e', r')
newest_spawn_wins at classes ((t', job) ∷ before) after t requested w v newer q earlier later =
    elim (Bool-cases (leb t' w.last_received_spawn_timestamp)) [
      | inl old ↦
          let (w2, e, r) =
            newest_spawn_wins at classes before after t requested (send spawning_begun w) v newer q
              earlier.1 later in
          (w2, rw (older_lem at t' job w (ground (arith, old)), receive) e, r)
      | inr new ↦
          let (w1, e1, r1) = newer_lem at classes t' job w earlier.0.1 v (ground (arith, new)) in
          let (w2, e, r) =
            newest_spawn_wins at classes before after t requested w1 r1.valid
              (omega (arith, r1.last, earlier.0.0)) q earlier.1 later in
          (w2, rw (e1, receive) e, r)
    ]
