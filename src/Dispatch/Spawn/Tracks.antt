-- ===== src/Dispatch/Spawn/Tracks.antt =====
-- The list of running users, the table and the counter say the same, and no lookup fails.
use locust.Base.{
  ℕ, suc, ◌+◌, ◌<◌, ◌≡◌, refl, true, some, List, [], ◌∷◌, arith, ◌==◌, ◌&&◌, count_by, length,
  member, All,
}
use locust.Dispatch.Kl.{Entry}
use locust.Dispatch.Users.{Users, at, has, get_current_user_count}
use locust.Dispatch.Users.Bump.{bump_lem}
use locust.Dispatch.Spawn.{cycle_from, cycle_next, Pool, place, UserGen}

-- How often a user class runs on a worker, by the list of the running users.
abbrev pub running : ℕ → ℕ → List (ℕ × ℕ) → ℕ
running w u = count_by (λ p. w == p.0 && u == p.1)

-- The workers and classes of a table are those of two lists.
abbrev pub HasDomain : List ℕ → List ℕ → Users → Type 0
HasDomain ids names users = (w u : ℕ) → has w u users ≡ (member w ids && member u names)

-- A generator draws names of a list only.
abbrev pub Draws : List ℕ → UserGen → Type 0
Draws names g =
    All (λ e. member (Entry.name e) names ≡ true) g.weighted
    × All (λ e. member (Entry.name e) names ≡ true) g.fixed

abbrev pub InDomain : List ℕ → List ℕ → List (ℕ × ℕ) → Type 0
InDomain ids names = All (λ p. (member p.0 ids ≡ true) × (member p.1 names ≡ true))

-- The table, the list of running users and the counter agree, and the workers and the classes
-- that can be drawn have entries in the table.
pub record IsPool (ids names : List ℕ) (p : Pool) : Type 0 where
  pub each : (w u : ℕ) → at w u p.users_on_workers ≡ running w u p.active_users
  pub total : get_current_user_count p.users_on_workers ≡ p.user_count
  pub listed : length p.active_users ≡ p.user_count
  pub domain : HasDomain ids names p.users_on_workers
  pub known : InDomain ids names p.active_users
  pub live : 0 < length p.worker_node_generator.saved
  pub saved_known : All (λ w. member w ids ≡ true) p.worker_node_generator.saved
  pub rest_known : All (λ w. member w ids ≡ true) p.worker_node_generator.rest
  pub draws : Draws names p.user_generator

cycle_from_lem :
    (P : ℕ → Type 0) (saved rest : List ℕ)
    → 0 < length saved
    → All P saved
    → All P rest
    → (w : ℕ) × (rest' : List ℕ) × (cycle_from saved rest
        ≡ some (w, record { saved = saved; rest = rest' }))
      × P w
      × All P rest'
cycle_from_lem P saved (w ∷ rest) live hs hr = (w, rest, refl, hr.0, hr.1)
cycle_from_lem P (w ∷ ws) [] live hs hr = (w, ws, refl, hs.0, hs.1)
cycle_from_lem P [] [] live hs hr = absurd (omega arith)

-- A user whose class is in the table is placed with no exception, on the worker whose turn it is.
pub place-IsPool :
    (ids names : List ℕ) (user : ℕ) (p : Pool)
    → member user names ≡ true
    → IsPool ids names p
    → (p' : Pool) × (place user p ≡ some p')
      × IsPool ids names p'
      × (p'.user_count ≡ p.user_count + 1)
      × ((w : ℕ) × (p'.active_users ≡ (w, user) ∷ p.active_users))
      × (p'.user_generator ≡ p.user_generator)
unfolding place cycle_next
place-IsPool ids names user p drawn v =
    let (w, rest, next, w_known, rest_known) =
      cycle_from_lem (λ w. member w ids ≡ true) p.worker_node_generator.saved
        p.worker_node_generator.rest v.live v.saved_known v.rest_known in
    let (users, bumped, b) =
      bump_lem suc w user p.users_on_workers (ground (arith, v.domain w user)) in
    (
      record p {
        users_on_workers = users;
        worker_node_generator = record { saved = p.worker_node_generator.saved; rest = rest };
        active_users = (w, user) ∷ p.active_users;
        user_count = p.user_count + 1;
      },
      ground arith,
      record {
        each = λ w' u'. ground (arith, b.at_lem w' u', v.each w' u', v.each w user);
        total = omega (arith, b.total, v.total);
        listed = omega (arith, v.listed);
        domain = λ w' u'. ground (arith, b.has_lem w' u', v.domain w' u');
        known = ((w_known, drawn), v.known);
        live = v.live;
        saved_known = v.saved_known;
        rest_known = rest_known;
        draws = v.draws;
      },
      refl,
      (w, refl),
      refl,
    )
