-- ===== src/Runner/Users/Ramp.antt =====
-- From the users that run to those that are requested.
use mathlib.Core.Path.{sym, ◌∙◌}
use locust.Base.{
  ℕ, zero, suc, ◌-◌, ◌≡◌, refl, true, false, some, List, [], ◌∷◌, ◌==◌, ltb, if◌then◌else◌, arith,
  member, All, All-map, Option-cases, Bool-cases, inl, inr,
}
use locust.Base.Dict.{Dict, keys, lookup, get, contains, IsDict}
use locust.Runner.Users.{
  user_classes_count, take_out, stop_class, stop_users, differences, ramp, ramp_waiting,
}
use locust.Runner.Users.Counts.{
  number_of, AreOf, sum_at, user_classes_count_lem, spawn_users_lem, take_out-AreOf,
  number_of-take_out,
}

stop_class_lem :
    (classes : List ℕ) (u n : ℕ) (users : List ℕ)
    → AreOf classes users
    → member u classes ≡ true
    → (users' : List ℕ) × (stop_class classes u n users ≡ some users')
      × AreOf classes users'
      × ((v : ℕ) → number_of v users' ≡ number_of v users - (if v == u then n else 0))
unfolding stop_class
stop_class_lem classes u n users known h =
    let (counts, e, f) = user_classes_count_lem classes users known in
    number_lem (number_of u users) refl counts e (f u h)
  where
    number_lem :
        (k : ℕ)
        → number_of u users ≡ k
        → (counts : Dict ℕ) → user_classes_count classes users ≡ some counts
        → lookup u counts ≡ some (number_of u users)
        → (users' : List ℕ) × (stop_class classes u n users ≡ some users')
          × AreOf classes users'
          × ((v : ℕ) → number_of v users' ≡ number_of v users - (if v == u then n else 0))
    number_lem zero c counts e f = (users, ground (arith, e, f, c), known, λ v. ground (arith, c))
    number_lem (suc k) c counts e f = (
      take_out u n users,
      ground (arith, e, f, c),
      take_out-AreOf classes u n users known,
      λ v. number_of-take_out v u n users,
    )

-- Stopping takes away the users that are listed, or all that there are.
stop_users_lem :
    (classes : List ℕ) (stops : Dict ℕ) (users : List ℕ)
    → AreOf classes users
    → AreOf classes (keys stops)
    → (users' : List ℕ) × (stop_users classes stops users ≡ some users')
      × AreOf classes users'
      × ((v : ℕ) → number_of v users' ≡ number_of v users - sum_at v stops)
unfolding stop_users
stop_users_lem classes [] users known h = (users, refl, known, λ v. omega arith)
stop_users_lem classes ((u, n) ∷ stops) users known h =
    let (users1, e1, known1, f1) = stop_class_lem classes u n users known h.0 in
    let (users2, e2, known2, f2) = stop_users_lem classes stops users1 known1 h.1 in
    (users2, rw (e1, stop_users) e2, known2, λ v. ground (arith, f1 v, f2 v))

-- What is listed brings a class from its count to the requested one.
abbrev Bridges : (requested : Dict ℕ) (counts : Dict ℕ) → Dict ℕ × Dict ℕ → Type 0
Bridges requested counts r =
    (v k : ℕ)
    → lookup v counts ≡ some k
    → (sum_at v r.0 ≡ get v k requested - k) × (sum_at v r.1 ≡ k - get v k requested)

differences_lem :
    (classes : List ℕ) (requested counts : Dict ℕ)
    → IsDict requested
    → AreOf classes (keys requested)
    → All (λ u. contains u counts ≡ true) (keys requested)
    → (r : Dict ℕ × Dict ℕ) × (differences requested counts ≡ some r)
      × AreOf classes (keys r.0)
      × AreOf classes (keys r.1)
      × Bridges requested counts r
unfolding differences
differences_lem classes [] counts d h known =
    (([], []), refl, tt, tt, λ v k e. (omega arith, omega arith))
differences_lem classes ((u, n) ∷ requested) counts d h known =
    elim (Option-cases (lookup u counts)) [
      | inl e ↦ absurd (ground (arith, e, known.0))
      | inr (k, e) ↦
          let (r, r_eq, known0, known1, f) =
            differences_lem classes requested counts d.1 h.1 known.1 in
          elim (Bool-cases (ltb n k)) [
            | inl more ↦ (
              (r.0, (u, k - n) ∷ r.1),
              rw (e, r_eq, more, differences) refl,
              known0,
              (h.0, known1),
              λ v j g. ground (arith, f v j g, e, g, d.0, more),
            )
            | inr no_more ↦ elim (Bool-cases (ltb k n)) [
              | inl less ↦ (
                ((u, n - k) ∷ r.0, r.1),
                rw (e, r_eq, no_more, less, differences) refl,
                (h.0, known0),
                known1,
                λ v j g. ground (arith, f v j g, e, g, d.0, less),
              )
              | inr no_less ↦ (
                r,
                rw (e, r_eq, no_more, no_less, differences) refl,
                known0,
                known1,
                λ v j g. ground (arith, f v j g, e, g, d.0, no_more, no_less),
              )
            ]
          ]
    ]

-- After a ramp the classes that were requested have the requested numbers of users, and the others
-- the numbers that they had.
abbrev pub IsRamped : (classes : List ℕ) (requested : Dict ℕ) (users users' : List ℕ) → Type 0
IsRamped classes requested users users' =
    AreOf classes users' × ((v : ℕ) → number_of v users' ≡ get v (number_of v users) requested)

pub absent :
    (classes users : List ℕ) (v : ℕ)
    → AreOf classes users
    → member v classes ≡ false
    → number_of v users ≡ 0
absent classes [] v known h = refl
absent classes (u ∷ us) v known h = ground (arith, known.0, h, absent classes us v known.1 h)

pub get-absent :
    (classes : List ℕ) (requested : Dict ℕ) (v n : ℕ)
    → AreOf classes (keys requested)
    → member v classes ≡ false
    → get v n requested ≡ n
get-absent classes [] v n known h = refl
get-absent classes ((u, k) ∷ requested) v n known h =
    ground (arith, known.0, h, get-absent classes requested v n known.1 h)

-- It is enough to see to the known classes.
ramped :
    (classes : List ℕ) (requested : Dict ℕ) (users users' : List ℕ)
    → AreOf classes (keys requested)
    → AreOf classes users
    → AreOf classes users'
    → ((v : ℕ) → member v classes ≡ true → number_of v users' ≡ get v (number_of v users) requested)
    → IsRamped classes requested users users'
ramped classes requested users users' h known known' f = (
  known',
  λ v. elim (Bool-cases (member v classes)) [
    | inl e ↦ f v e
    | inr e ↦
        absent classes users' v known' e
        ∙ sym (
            get-absent classes requested v (number_of v users) h e ∙ absent classes users v known e)
  ],
)

-- The counts of the users, with what is to be spawned and stopped.
bridge :
    (classes : List ℕ) (requested : Dict ℕ) (users : List ℕ)
    → IsDict requested
    → AreOf classes (keys requested)
    → AreOf classes users
    → (counts : Dict ℕ) × (r : Dict ℕ × Dict ℕ) × (user_classes_count classes users ≡ some counts)
      × (differences requested counts ≡ some r)
      × AreOf classes (keys r.0)
      × AreOf classes (keys r.1)
      × ((v : ℕ)
          → member v classes ≡ true
          → let n = number_of v users in
            (sum_at v r.0 ≡ get v n requested - n) × (sum_at v r.1 ≡ n - get v n requested))
bridge classes requested users d h known =
    let (counts, e, f) = user_classes_count_lem classes users known in
    let (r, r_eq, known0, known1, b) = differences_lem classes requested counts d h (
      All-map (λ u. member u classes ≡ true) (λ u. contains u counts ≡ true) (keys requested)
        (λ u k. ground (arith, f u k)) h) in
    (counts, r, e, r_eq, known0, known1, λ v k. b v (number_of v users) (f v k))

-- For requested counts of some of the classes, and users of the classes: it makes no difference to
-- the numbers whether users are spawned before others are stopped, or after, as with `wait` before
-- the wait begins. Neither raises an exception, and the requested classes have the requested numbers
-- of users, and the others the numbers that they had.
pub ramp-IsRamped :
    (classes : List ℕ) (requested : Dict ℕ) (users : List ℕ)
    → IsDict requested
    → AreOf classes (keys requested)
    → AreOf classes users
    → ((users' : List ℕ) × (ramp classes requested users ≡ some users')
        × IsRamped classes requested users users')
      × ((users' : List ℕ) × (ramp_waiting classes requested users ≡ some users')
          × IsRamped classes requested users users')
unfolding ramp ramp_waiting
ramp-IsRamped classes requested users d h known =
    let (counts, r, e, r_eq, known0, known1, b) = bridge classes requested users d h known in
    let (us1, e1, k1, f1) = spawn_users_lem classes r.0 users known known0 in
    let (us2, e2, k2, f2) = stop_users_lem classes r.1 us1 k1 known1 in
    let (ws1, e3, k3, f3) = stop_users_lem classes r.1 users known known1 in
    let (ws2, e4, k4, f4) = spawn_users_lem classes r.0 ws1 k3 known0 in
    (
      (
        us2,
        ground (arith, e, r_eq, e1, e2),
        ramped classes requested users us2 h known k2
            (λ v k. omega (arith, f1 v, f2 v, (b v k).0, (b v k).1)),
      ),
      (
        ws2,
        ground (arith, e, r_eq, e3, e4),
        ramped classes requested users ws2 h known k4
            (λ v k. omega (arith, f3 v, f4 v, (b v k).0, (b v k).1)),
      ),
    )

-- Each of the classes, and no other, is requested once.
abbrev pub IsRequest : (classes : List ℕ) → Dict ℕ → Type 0
IsRequest classes requested =
    IsDict requested
    × AreOf classes (keys requested)
    × All (λ u. contains u requested ≡ true) classes

-- The keys of the requested counts are the classes.
pub requested_numbers :
    (classes : List ℕ) (requested : Dict ℕ) (users users' : List ℕ)
    → IsRequest classes requested
    → AreOf classes users
    → IsRamped classes requested users users'
    → (v : ℕ) → number_of v users' ≡ get v 0 requested
requested_numbers classes requested users users' q known r v =
    elim (Bool-cases (member v classes)) [
      | inl e ↦ r.1 v ∙ ground (arith, all_contained classes v e q.2)
      | inr e ↦ absent classes users' v r.0 e ∙ sym (get-absent classes requested v 0 q.1 e)
    ]
  where
    all_contained :
        (us : List ℕ) (v : ℕ)
        → member v us ≡ true
        → All (λ u. contains u requested ≡ true) us
        → contains v requested ≡ true
    all_contained [] v e h = ground (arith, e)
    all_contained (u ∷ us) v e h = elim (Bool-cases (v == u)) [
      | inl same ↦ ground (arith, same, h.0)
      | inr differ ↦ all_contained us v (ground (arith, e, differ)) h.1
    ]
