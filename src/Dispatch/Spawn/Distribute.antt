-- ===== src/Dispatch/Spawn/Distribute.antt =====
-- `_distribute_users`: the pool that it builds is a consistent one, with no exception on the way.
use mathlib.Core.Path.{subst, sym}
use locust.Base.{
  ℕ, zero, suc, ◌+◌, ◌≤◌, ◌<◌, ◌≡◌, refl, Bool, true, some, List, [], ◌∷◌, arith, length, member,
  member_self, length-map, sum_by, Option-cases, inl, inr, map, ◌&&◌, ◌||◌,
}
use locust.Base.Dict.{insert, lookup-insert, Dict, contains, get}
use locust.Dispatch.Kl.{Divergence}
use locust.Dispatch.Users.{
  UserClass, WorkerNode, Users, no_users, add_zeros, add_rows, get_current_user_count, at, has,
}
use locust.Dispatch.Spawn.{
  UserGen, user_gen, user_next, Pool, place, distribute_loop, distribute_users, cycle,
}
use locust.Dispatch.Spawn.Tracks.{IsPool, place-IsPool, Draws, HasDomain}
use locust.Dispatch.Spawn.Draw.{
  AreNamed, has_weighted, Yields, user_gen-Draws, user_next-Draws, IsReady, user_gen-IsReady,
  user_next-ne-none, user_next-IsReady,
}

abbrev pub ids_of : List WorkerNode → List ℕ
ids_of ws = map (λ w. WorkerNode.id w) ws

abbrev pub names_of : List UserClass → List ℕ
names_of us = map (λ u. UserClass.name u) us

contains-add_zeros :
    (us : List UserClass) (row : Dict ℕ) (u : ℕ)
    → contains u (add_zeros row us) ≡ (contains u row || member u (names_of us))
unfolding add_zeros
contains-add_zeros [] row u = ground arith
contains-add_zeros (v ∷ us) row u =
    ground (arith, contains-add_zeros us (insert v.name 0 row) u, lookup-insert u v.name 0 row)

get-add_zeros :
    (us : List UserClass) (row : Dict ℕ) (u : ℕ) → get u 0 row ≡ 0 → get u 0 (add_zeros row us) ≡ 0
unfolding add_zeros
get-add_zeros [] row u h = h
get-add_zeros (v ∷ us) row u h =
    get-add_zeros us (insert v.name 0 row) u (ground (arith, lookup-insert u v.name 0 row))

sum-insert_zero :
    (k : ℕ) (d : Dict ℕ) → sum_by (λ e. e.1) d ≡ 0 → sum_by (λ e. e.1) (insert k 0 d) ≡ 0
sum-insert_zero k [] h = refl
sum-insert_zero k (e ∷ d) h = ground (arith, sum-insert_zero k d)

sum-add_zeros :
    (us : List UserClass) (row : Dict ℕ)
    → sum_by (λ e. e.1) row ≡ 0
    → sum_by (λ e. e.1) (add_zeros row us) ≡ 0
unfolding add_zeros
sum-add_zeros [] row h = h
sum-add_zeros (v ∷ us) row h = sum-add_zeros us (insert v.name 0 row) (sum-insert_zero v.name row h)

has-add_rows :
    (ws : List WorkerNode) (us : List UserClass) (users : Users) (ids : List ℕ)
    → HasDomain ids (names_of us) users
    → (w u : ℕ)
    → has w u (add_rows users ws us)
      ≡ ((member w ids || member w (ids_of ws)) && member u (names_of us))
unfolding add_rows
has-add_rows [] us users ids h w u = ground (arith, h w u)
has-add_rows (v ∷ ws) us users ids h w u = ground (
  arith,
  has-add_rows ws us (insert v.id (add_zeros [] us) users) (v.id ∷ ids)
      (λ w' u'. ground (
        arith,
        h w' u',
        lookup-insert w' v.id (add_zeros [] us) users,
        contains-add_zeros us [] u',
      ))
      w u,
)

at-add_rows :
    (ws : List WorkerNode) (us : List UserClass) (users : Users)
    → ((w u : ℕ) → at w u users ≡ 0)
    → (w u : ℕ) → at w u (add_rows users ws us) ≡ 0
unfolding add_rows
at-add_rows [] us users h w u = h w u
at-add_rows (v ∷ ws) us users h w u =
    at-add_rows ws us (insert v.id (add_zeros [] us) users)
      (λ w' u'.
        ground
          (arith, h w' u', lookup-insert w' v.id (add_zeros [] us) users, get-add_zeros us [] u'))
      w u

sum-insert_row :
    (k : ℕ) (row : Dict ℕ) (users : Users)
    → sum_by (λ e. e.1) row ≡ 0
    → get_current_user_count users ≡ 0
    → get_current_user_count (insert k row users) ≡ 0
unfolding get_current_user_count
sum-insert_row k row [] z h = omega arith
sum-insert_row k row (e ∷ users) z h = ground (arith, sum-insert_row k row users z)

total-add_rows :
    (ws : List WorkerNode) (us : List UserClass) (users : Users)
    → get_current_user_count users ≡ 0
    → get_current_user_count (add_rows users ws us) ≡ 0
unfolding add_rows
total-add_rows [] us users h = h
total-add_rows (v ∷ ws) us users h =
    total-add_rows ws us (insert v.id (add_zeros [] us) users)
      (sum-insert_row v.id (add_zeros [] us) users (sum-add_zeros us [] refl) h)

has-no_users :
    (ws : List WorkerNode) (us : List UserClass)
    → HasDomain (ids_of ws) (names_of us) (no_users ws us)
unfolding no_users
has-no_users ws us w u = has-add_rows ws us [] [] (λ w' u'. refl) w u

at-no_users : (ws : List WorkerNode) (us : List UserClass) (w u : ℕ) → at w u (no_users ws us) ≡ 0
unfolding no_users
at-no_users ws us w u = at-add_rows ws us [] (λ w' u'. refl) w u

pub total-no_users :
    (ws : List WorkerNode) (us : List UserClass) → get_current_user_count (no_users ws us) ≡ 0
unfolding no_users
total-no_users ws us = total-add_rows ws us [] (unfold get_current_user_count in refl)

pub initial-IsPool :
    (ws : List WorkerNode) (us originals : List UserClass)
    → 0 < length ws
    → AreNamed (names_of originals) us
    → IsPool (ids_of ws) (names_of originals) (record {
      users_on_workers = no_users ws originals;
      user_generator = user_gen us;
      worker_node_generator = cycle ws;
      active_users = [];
      user_count = 0;
    })
unfolding cycle
initial-IsPool ws us originals h n = record {
  each = at-no_users ws originals;
  total = total-no_users ws originals;
  listed = refl;
  domain = has-no_users ws originals;
  known = tt;
  live = omega (arith, length-map ws (λ w. WorkerNode.id w));
  saved_known = member_self (ids_of ws);
  rest_known = member_self (ids_of ws);
  draws = user_gen-Draws (names_of originals) us n;
}

-- How a spawning loop of `n` rounds leaves the pool.
pub record Distributed (ids names : List ℕ) (n : ℕ) (p p' : Pool) : Type 0 where
  pub valid : IsPool ids names p'
  pub at_most : p'.user_count ≤ p.user_count + n
  pub ready :
      IsReady p.user_generator → (p'.user_count ≡ p.user_count + n) × IsReady p'.user_generator

abbrev pub drawn_from : UserGen → Pool → Pool
drawn_from g p = record p { user_generator = g }

pub drawn_from-IsPool :
    (ids names : List ℕ) (p : Pool) (g : UserGen)
    → IsPool ids names p
    → Draws names g
    → IsPool ids names (drawn_from g p)
drawn_from-IsPool ids names p g v d = record {
  each = v.each;
  total = v.total;
  listed = v.listed;
  domain = v.domain;
  known = v.known;
  live = v.live;
  saved_known = v.saved_known;
  rest_known = v.rest_known;
  draws = d;
}

-- Where nothing is drawn only the generator has changed.
pub no_spawn-IsPool :
    (div : Divergence) (us : List UserClass) (counted : Users) (ids names : List ℕ)
    (try_fixed : Bool) (p : Pool)
    → AreNamed names us
    → IsPool ids names p
    → IsPool ids names
        (record p { user_generator = (user_next div us counted try_fixed p.user_generator).2 })
no_spawn-IsPool div us counted ids names try_fixed p named v =
    drawn_from-IsPool ids names p (user_next div us counted try_fixed p.user_generator).2 v
      (user_next-Draws names div us counted try_fixed p.user_generator named v.draws).1

-- A drawn class is placed, and the pool stays consistent.
pub spawn_lem :
    (div : Divergence) (us : List UserClass) (counted : Users) (ids names : List ℕ)
    (try_fixed : Bool) (p : Pool) {user : ℕ}
    → AreNamed names us
    → IsPool ids names p
    → (user_next div us counted try_fixed p.user_generator).0 ≡ some user
    → let g = (user_next div us counted try_fixed p.user_generator).2 in
      (p' : Pool) × (place user (record p { user_generator = g }) ≡ some p')
      × IsPool ids names p'
      × (p'.user_count ≡ p.user_count + 1)
      × ((w : ℕ) × (p'.active_users ≡ (w, user) ∷ p.active_users))
      × (p'.user_generator ≡ g)
spawn_lem div us counted ids names try_fixed p {user} named v drawn =
    let next = user_next div us counted try_fixed p.user_generator in
    let (yields, draws) =
      user_next-Draws names div us counted try_fixed p.user_generator named v.draws in
    place-IsPool ids names user (record p { user_generator = next.2 })
      (subst (Yields names) drawn yields) (drawn_from-IsPool ids names p next.2 v draws)

module _ (div : Divergence) (us : List UserClass) (counted : Users) (ids names : List ℕ)
    (named : AreNamed names us) where
  distribute_loop-Distributed :
      (n : ℕ) (try_fixed : Bool) (p : Pool)
      → IsPool ids names p
      → (r : Bool × Pool) × (distribute_loop div us counted n try_fixed p ≡ some r)
        × Distributed ids names n p r.1
  unfolding distribute_loop
  distribute_loop-Distributed zero try_fixed p v = (
    (try_fixed, p),
    refl,
    record { valid = v; at_most = omega arith; ready = λ r. (omega arith, r) },
  )
  distribute_loop-Distributed (suc n) try_fixed p v =
      let next = user_next div us counted try_fixed p.user_generator in
      elim (Option-cases next.0) [
        | inl stop ↦ (
          (next.1, record p { user_generator = next.2 }),
          ground arith,
          record {
            valid = no_spawn-IsPool div us counted ids names try_fixed p named v;
            at_most = omega arith;
            ready =
                λ r. absurd (user_next-ne-none div us counted try_fixed p.user_generator r stop);
          },
        )
        | inr (user, drawn) ↦
            let (p', placed, v', count, _, gen) =
              spawn_lem div us counted ids names try_fixed p named v drawn in
            let (r, rest, d) = distribute_loop-Distributed n next.1 p' v' in
            (
              r,
              ground arith,
              record {
                valid = d.valid;
                at_most = omega (arith, d.at_most, count);
                ready = λ ready.
                    let more = user_next-IsReady div us counted try_fixed p.user_generator ready in
                    let (sum, last) = d.ready (subst IsReady (sym gen) more) in
                    (omega (arith, sum, count), last);
              },
            )
      ]

-- Over some workers and classes with entries in the table, `_distribute_users` raises no
-- exception: it places at most as many users as are asked for, all of them where some class has a
-- weight, and its table, its list of users and its counter agree.
pub distribute_users-IsPool :
    (div : Divergence) (us originals : List UserClass) (ws : List WorkerNode) (counted : Users)
    (try_fixed : Bool) (target : ℕ)
    → 0 < length ws
    → AreNamed (names_of originals) us
    → (r : Bool × Pool) × (distribute_users div us originals ws counted try_fixed target ≡ some r)
      × IsPool (ids_of ws) (names_of originals) r.1
      × (r.1.user_count ≤ target)
      × (has_weighted us ≡ true → (r.1.user_count ≡ target) × IsReady r.1.user_generator)
unfolding distribute_users
distribute_users-IsPool div us originals ws counted try_fixed target live named =
    let (r, e, d) =
      distribute_loop-Distributed div us counted (ids_of ws) (names_of originals) named target
        try_fixed _ (initial-IsPool ws us originals live named) in
    (
      r,
      e,
      d.valid,
      omega (arith, d.at_most),
      λ h. let (count, gen) = d.ready (user_gen-IsReady us h) in (omega (arith, count), gen),
    )
