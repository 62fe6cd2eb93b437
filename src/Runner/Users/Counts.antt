-- ===== src/Runner/Users/Counts.antt =====
-- How many users of each class there are after users were spawned and stopped.
use locust.Base.{
  ℕ, zero, suc, ◌+◌, ◌-◌, ◌≡◌, refl, true, some, List, [], ◌∷◌, ◌++◌, ◌==◌, if◌then◌else◌, arith,
  member, count_by, All, All-append, All-map, Option-cases, inl, inr,
}
use locust.Base.Dict.{Dict, keys, lookup, contains, insert, lookup-insert, contains-insert}
use locust.Runner.Users.{count_users, zeros, user_classes_count, spawn, spawn_users, take_out}

-- How many users of a class run.
abbrev pub number_of : ℕ → List ℕ → ℕ
number_of v users = count_by (λ u. v == u) users

-- The classes of the users are known.
abbrev pub AreOf : List ℕ → List ℕ → Type 0
AreOf classes users = All (λ u. member u classes ≡ true) users

-- How often a key is listed, weighed by the values.
abbrev pub sum_at : ℕ → Dict ℕ → ℕ
sum_at v [] = 0
sum_at v (e ∷ d) = (if v == e.0 then e.1 else 0) + sum_at v d

number_of-append :
    (v : ℕ) (us ws : List ℕ) → number_of v (us ++ ws) ≡ number_of v us + number_of v ws
number_of-append v [] ws = omega arith
number_of-append v (u ∷ us) ws = ground (arith, number_of-append v us ws)

count_users_lem :
    (users : List ℕ) (d : Dict ℕ)
    → All (λ u. contains u d ≡ true) users
    → (d' : Dict ℕ) × (count_users users d ≡ some d')
      × ((v m : ℕ) → lookup v d ≡ some m → lookup v d' ≡ some (m + number_of v users))
unfolding count_users
count_users_lem [] d known = (d, refl, λ v m e. ground (arith, e))
count_users_lem (u ∷ us) d known = elim (Option-cases (lookup u d)) [
  | inl e ↦ absurd (ground (arith, e, known.0))
  | inr (n, e) ↦
      let kept = λ (w : ℕ). contains w d ≡ true in
      let kept' = λ (w : ℕ). contains w (insert u (n + 1) d) ≡ true in
      let (d', r, f) =
        count_users_lem us (insert u (n + 1) d) (
          All-map kept kept' us (λ w h. ground (arith, h, contains-insert w u (n + 1) d))
            known.1) in
      let found = λ (v : ℕ). lookup-insert v u (n + 1) d in
      (d', rw (e, count_users) r, λ v m h. ground (arith, f v (n + 1), f v m, found v, e, h))
]

lookup-zeros : (v : ℕ) (us : List ℕ) → member v us ≡ true → lookup v (zeros us) ≡ some 0
unfolding zeros
lookup-zeros v [] h = ground (arith, h)
lookup-zeros v (u ∷ us) h = ground (arith, h, lookup-zeros v us)

-- The counts of known users, by class.
pub user_classes_count_lem :
    (classes users : List ℕ)
    → AreOf classes users
    → (d : Dict ℕ) × (user_classes_count classes users ≡ some d)
      × ((v : ℕ) → member v classes ≡ true → lookup v d ≡ some (number_of v users))
unfolding user_classes_count
user_classes_count_lem classes users known =
    let (d, e, f) = count_users_lem users (zeros classes) (
      All-map (λ u. member u classes ≡ true) (λ u. contains u (zeros classes) ≡ true) users
        (λ u h. ground (arith, lookup-zeros u classes h)) known) in
    (d, e, λ v h. ground (arith, f v 0 (lookup-zeros v classes h)))

pub spawn_lem :
    (classes : List ℕ) (u n : ℕ) (users : List ℕ)
    → AreOf classes users
    → member u classes ≡ true
    → (users' : List ℕ) × (spawn classes u n users ≡ some users')
      × AreOf classes users'
      × ((v : ℕ) → number_of v users' ≡ number_of v users + (if v == u then n else 0))
unfolding spawn
spawn_lem classes u zero users known h = (users, refl, known, λ v. ground arith)
spawn_lem classes u (suc n) users known h =
    let known1 = All-append (λ w. member w classes ≡ true) users (u ∷ []) known (h, tt) in
    let (users', e, known', f) = spawn_lem classes u n (users ++ u ∷ []) known1 h in
    (
      users',
      ground (arith, e, h),
      known',
      λ v. ground (arith, f v, number_of-append v users (u ∷ [])),
    )

-- Spawning adds the users that are listed.
pub spawn_users_lem :
    (classes : List ℕ) (spawns : Dict ℕ) (users : List ℕ)
    → AreOf classes users
    → AreOf classes (keys spawns)
    → (users' : List ℕ) × (spawn_users classes spawns users ≡ some users')
      × AreOf classes users'
      × ((v : ℕ) → number_of v users' ≡ number_of v users + sum_at v spawns)
unfolding spawn_users
spawn_users_lem classes [] users known h = (users, refl, known, λ v. omega arith)
spawn_users_lem classes ((u, n) ∷ spawns) users known h =
    let (users1, e1, known1, f1) = spawn_lem classes u n users known h.0 in
    let (users2, e2, known2, f2) = spawn_users_lem classes spawns users1 known1 h.1 in
    (users2, rw (e1, spawn_users) e2, known2, λ v. ground (arith, f1 v, f2 v))

pub take_out-AreOf :
    (classes : List ℕ) (u n : ℕ) (users : List ℕ)
    → AreOf classes users
    → AreOf classes (take_out u n users)
unfolding take_out
take_out-AreOf classes u zero users known = known
take_out-AreOf classes u (suc n) [] known = tt
take_out-AreOf classes u (suc n) (w ∷ ws) known = ground (
  arith,
  known.0,
  take_out-AreOf classes u n ws known.1,
  take_out-AreOf classes u (suc n) ws known.1,
)

pub number_of-take_out :
    (v u n : ℕ) (users : List ℕ)
    → number_of v (take_out u n users) ≡ number_of v users - (if v == u then n else 0)
unfolding take_out
number_of-take_out v u zero users = ground arith
number_of-take_out v u (suc n) [] = omega arith
number_of-take_out v u (suc n) (w ∷ ws) =
    ground (arith, number_of-take_out v u n ws, number_of-take_out v u (suc n) ws)
