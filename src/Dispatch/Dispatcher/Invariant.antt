-- ===== src/Dispatch/Dispatcher/Invariant.antt =====
-- The invariant of a dispatcher, and the two loops that add and remove users.
use mathlib.Core.Path.{subst, sym, ap, ap₂, ◌∙◌}
use mathlib.Core.List.{append_assoc}
use locust.Base.{
  ℕ, zero, suc, ◌+◌, ◌-◌, ◌≤◌, ◌<◌, ◌≡◌, refl, min, max, true, some, List, [], ◌∷◌, ◌++◌, arith,
  ◌==◌, leb, length, drop, Bool-cases, Option-cases, inl, inr, ◌||◌,
}
use locust.Dispatch.Kl.{Divergence}
use locust.Dispatch.Users.{Users, bump, at}
use locust.Dispatch.Users.Bump.{bump_lem}
use locust.Dispatch.Spawn.{user_next, Pool}
use locust.Dispatch.Spawn.Tracks.{IsPool, InDomain, running}
use locust.Dispatch.Spawn.Draw.{
  AreNamed, IsReady, has_weighted, user_next-IsReady, user_next-ne-none,
}
use locust.Dispatch.Spawn.Distribute.{names_of, spawn_lem}
use locust.Dispatch.Dispatcher.{
  Dispatcher, current, add_loop, add_users_on_workers, remove_loop, remove_users_from_workers,
}

-- The pool is consistent over the workers `ids` of the table and the original classes; the
-- classes in use are among those, and some has a weight, so that there always is a user to spawn.
pub record IsDispatcher (d : Dispatcher) : Type 0 where
  pub ids : List ℕ
  pub pool : IsPool ids (names_of d.original_user_classes) d.pool
  pub named : AreNamed (names_of d.original_user_classes) d.user_classes
  pub weighted : has_weighted d.user_classes ≡ true
  pub ready : IsReady d.pool.user_generator

-- Every attribute but the pool and the flag of the fixed users is as before.
abbrev pub Keeps : Dispatcher → Dispatcher → Type 0
Keeps d d' = d' ≡ record d { pool = d'.pool; try_dispatch_fixed = d'.try_dispatch_fixed }

-- What `add_loop` does from a count below the goal.
pub record Added (goal : ℕ) (d d' : Dispatcher) : Type 0 where
  pub valid : IsDispatcher d'
  pub keeps : Keeps d d'
  pub count : current d' ≡ goal
  pub front : List (ℕ × ℕ)
  pub active : d'.pool.active_users ≡ front ++ d.pool.active_users

module _ (div : Divergence) where
  add_loop-Added :
      (fuel goal : ℕ) (d : Dispatcher)
      → current d < goal
      → goal ≤ current d + fuel
      → IsDispatcher d
      → (d' : Dispatcher) × (add_loop div fuel goal d ≡ some d') × Added goal d d'
  unfolding add_loop
  add_loop-Added zero goal d low high v = absurd (omega arith)
  add_loop-Added (suc fuel) goal d low high v =
      let next =
        user_next div d.user_classes d.pool.users_on_workers d.try_dispatch_fixed
          d.pool.user_generator in
      elim (Option-cases next.0) [
        | inl stop ↦ absurd (
            user_next-ne-none div d.user_classes d.pool.users_on_workers d.try_dispatch_fixed
              d.pool.user_generator v.ready stop)
        | inr (user, drawn) ↦
            let (p, placed, pv, count, (w, active), gen) =
              spawn_lem div d.user_classes d.pool.users_on_workers v.ids
                (names_of d.original_user_classes) d.try_dispatch_fixed d.pool v.named v.pool
                drawn in
            let d1 : Dispatcher = record d { pool = p; try_dispatch_fixed = next.1 } in
            let v1 : IsDispatcher d1 = record {
              ids = v.ids;
              pool = pv;
              named = v.named;
              weighted = v.weighted;
              ready = subst IsReady (sym gen) (
                  user_next-IsReady div d.user_classes d.pool.users_on_workers d.try_dispatch_fixed
                    d.pool.user_generator v.ready);
            } in
            elim (Bool-cases (leb goal (current d1))) [
              | inl reached ↦ (
                d1,
                ground arith,
                record {
                  valid = v1;
                  keeps = refl;
                  count = ground arith;
                  front = (w, user) ∷ [];
                  active = active;
                },
              )
              | inr below ↦
                  let (d2, rest, a) =
                    add_loop-Added fuel goal d1 (ground arith) (omega (arith, count)) v1 in
                  (
                    d2,
                    ground arith,
                    record {
                      valid = a.valid;
                      keeps = a.keeps;
                      count = a.count;
                      front = a.front ++ (w, user) ∷ [];
                      active = cc (append_assoc a.front ((w, user) ∷ []) d.pool.active_users);
                    },
                  )
            ]
      ]

  -- From a valid dispatcher below its target, with a positive number of users an iteration, one
  -- iteration of a ramp-up raises no exception: it adds users in front of the active ones up to
  -- the goal of the iteration, and leaves a valid dispatcher whose other attributes, but for the
  -- flag of the fixed users, are as before.
  pub add_users_on_workers-Added :
      (d : Dispatcher)
      → IsDispatcher d
      → current d < d.target_user_count
      → 0 < d.user_count_per_dispatch_iteration
      → (d' : Dispatcher) × (add_users_on_workers div d ≡ some d')
        × Added (min (current d + d.user_count_per_dispatch_iteration) d.target_user_count) d d'
  unfolding add_users_on_workers
  add_users_on_workers-Added d v low step =
      let goal = min (current d + d.user_count_per_dispatch_iteration) d.target_user_count in
      add_loop-Added (suc (goal - current d)) goal d (omega arith) (omega arith) v

-- What the loop of a ramp-down does: the last users leave first.
pub record Removed (goal : ℕ) (d d' : Dispatcher) : Type 0 where
  pub valid : IsDispatcher d'
  pub keeps : Keeps d d'
  pub count : current d' ≡ goal
  pub active : d'.pool.active_users ≡ drop (current d - goal) d.pool.active_users

-- The user that leaves is counted in the table, so that `-= 1` does not pass below zero.
pop-IsPool :
    {ids names : List ℕ} (p : Pool) (w user : ℕ) (active : List (ℕ × ℕ))
    → IsPool ids names p
    → p.active_users ≡ (w, user) ∷ active
    → (users : Users) × (bump (λ n. n - 1) w user p.users_on_workers ≡ some users)
      × IsPool ids names (record p {
        users_on_workers = users;
        active_users = active;
        user_count = p.user_count - 1;
      })
pop-IsPool {ids} {names} p w user active v e =
    let known = subst (InDomain ids names) e v.known in
    let (users, bumped, b) =
      bump_lem (λ n. n - 1) w user p.users_on_workers (ground (arith, v.domain w user, known)) in
    let each : (w' u' : ℕ) → at w' u' p.users_on_workers ≡ running w' u' ((w, user) ∷ active) =
      λ w' u'. subst (λ l. at w' u' p.users_on_workers ≡ running w' u' l) e (v.each w' u') in
    (
      users,
      bumped,
      record {
        each = λ w' u'. ground (arith, b.at_lem w' u', each w' u', each w user);
        total = ground (arith, b.total, v.total, each w user);
        listed = ground (arith, v.listed, e);
        domain = λ w' u'. b.has_lem w' u' ∙ v.domain w' u';
        known = known.1;
        live = v.live;
        saved_known = v.saved_known;
        rest_known = v.rest_known;
        draws = v.draws;
      },
    )

drop-active :
    {n m : ℕ} {x : ℕ × ℕ} {xs ys : List (ℕ × ℕ)} → ys ≡ x ∷ xs → n ≡ suc m → drop n ys ≡ drop m xs
drop-active {m = m} {x = x} {xs = xs} e h = ap₂ drop h e

remove_loop-Removed :
    (goal : ℕ) (active : List (ℕ × ℕ)) (d : Dispatcher)
    → d.pool.active_users ≡ active
    → goal < current d
    → IsDispatcher d
    → (d' : Dispatcher) × (remove_loop goal active d ≡ some d') × Removed goal d d'
unfolding remove_loop
remove_loop-Removed goal [] d e high v = absurd (omega (arith, v.pool.listed, ap length e))
remove_loop-Removed goal ((w, user) ∷ active) d e high v =
    let (users, bumped, pv) = pop-IsPool d.pool w user active v.pool e in
    let d1 : Dispatcher = record d {
      pool = record d.pool {
        users_on_workers = users;
        active_users = active;
        user_count = current d - 1;
      };
      try_dispatch_fixed = true;
    } in
    let v1 : IsDispatcher d1 = record {
      ids = v.ids;
      pool = pv;
      named = v.named;
      weighted = v.weighted;
      ready = v.ready;
    } in
    elim (Bool-cases (current d1 == 0 || leb (current d1) goal)) [
      | inl reached ↦ (
        d1,
        ground arith,
        record {
          valid = v1;
          keeps = refl;
          count = ground arith;
          active = sym (drop-active {m = 0} e (ground arith));
        },
      )
      | inr above ↦
          let (d2, rest, r) = remove_loop-Removed goal active d1 refl (ground arith) v1 in
          (
            d2,
            ground arith,
            record {
              valid = r.valid;
              keeps = r.keeps;
              count = r.count;
              active = r.active ∙ sym (drop-active {m = current d1 - goal} e (ground arith));
            },
          )
    ]

-- From a valid dispatcher above its target, with a positive number of users an iteration, one
-- iteration of a ramp-down raises no exception: it takes the users that were added last away down
-- to the goal of the iteration, and leaves a valid dispatcher whose other attributes, but for the
-- flag of the fixed users, are as before.
pub remove_users_from_workers-Removed :
    (d : Dispatcher)
    → IsDispatcher d
    → d.target_user_count < current d
    → 0 < d.user_count_per_dispatch_iteration
    → (d' : Dispatcher) × (remove_users_from_workers d ≡ some d')
      × Removed (max (current d - d.user_count_per_dispatch_iteration) d.target_user_count) d d'
unfolding remove_users_from_workers
remove_users_from_workers-Removed d v high step =
    remove_loop-Removed (max (current d - d.user_count_per_dispatch_iteration) d.target_user_count)
      d.pool.active_users d refl (omega arith) v
