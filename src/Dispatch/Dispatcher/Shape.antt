-- ===== src/Dispatch/Dispatcher/Shape.antt =====
-- The workers and the classes of the table that a dispatcher holds stay while users come and go.
use mathlib.Core.Path.{subst, ap, ◌∙◌}
use locust.Base.{
  ℕ, zero, suc, ◌-◌, ◌≡◌, refl, true, Option, none, some, List, [], ◌∷◌, ◌==◌, leb, ◌||◌,
  Bool-cases, Option-cases, inl, inr,
}
use locust.Base.Dict.{Dict, keys}
use locust.Dispatch.Kl.{Divergence}
use locust.Dispatch.Users.{Users, bump, bump_row}
use locust.Dispatch.Spawn.{Pool, place, cycle_next, user_next}
use locust.Dispatch.Dispatcher.{Dispatcher, current, add_loop, remove_loop}

-- What holds of the result of a step that may raise an exception.
abbrev pub IfSome {ℓ κ} : {A : Type ℓ} → (A → Type κ) → Option A → Type κ
IfSome P none = Unit
IfSome P (some a) = P a

IfSome-map {ℓ κ μ} :
    {A : Type ℓ} (P : A → Type κ) (Q : A → Type μ) (o : Option A)
    → ((a : A) → P a → Q a)
    → IfSome P o
    → IfSome Q o
IfSome-map P Q none f h = tt
IfSome-map P Q (some a) f h = f a h

-- The workers of a table, each with its classes, in their order.
abbrev pub shape : Users → List (ℕ × List ℕ)
shape [] = []
shape (row ∷ rows) = (row.0, keys row.1) ∷ shape rows

keys-bump_row :
    (f : ℕ → ℕ) (u : ℕ) (row : Dict ℕ) → IfSome (λ row'. keys row' ≡ keys row) (bump_row f u row)
unfolding bump_row
keys-bump_row f u [] = tt
keys-bump_row f u (e ∷ row) = elim (Bool-cases (u == e.0)) [
  | inl same ↦ rw (same, bump_row) refl
  | inr differ ↦ elim (Option-cases (bump_row f u row)) [
    | inl z ↦ rw (differ, z, bump_row) tt
    | inr (row', z) ↦
        rw (differ, z, bump_row)
          (ap (λ ks. e.0 ∷ ks) (subst (IfSome (λ r. keys r ≡ keys row)) z (keys-bump_row f u row)))
  ]
]

shape-bump :
    (f : ℕ → ℕ) (w u : ℕ) (users : Users)
    → IfSome (λ users'. shape users' ≡ shape users) (bump f w u users)
unfolding bump
shape-bump f w u [] = tt
shape-bump f w u (e ∷ users) = elim (Bool-cases (w == e.0)) [
  | inl same ↦ elim (Option-cases (bump_row f u e.1)) [
    | inl z ↦ rw (same, z, bump) tt
    | inr (row, z) ↦
        rw (same, z, bump)
          (ap (λ ks. (e.0, ks) ∷ shape users)
            (subst (IfSome (λ r. keys r ≡ keys e.1)) z (keys-bump_row f u e.1)))
  ]
  | inr differ ↦ elim (Option-cases (bump f w u users)) [
    | inl z ↦ rw (differ, z, bump) tt
    | inr (users', z) ↦
        rw (differ, z, bump)
          (ap (λ rows. (e.0, keys e.1) ∷ rows)
            (subst (IfSome (λ r. shape r ≡ shape users)) z (shape-bump f w u users)))
  ]
]

shape-place :
    (user : ℕ) (p : Pool)
    → IfSome (λ p'. shape (Pool.users_on_workers p') ≡ shape p.users_on_workers) (place user p)
unfolding place
shape-place user p = elim (Option-cases (cycle_next p.worker_node_generator)) [
  | inl e ↦ rw (e, place) tt
  | inr ((w, c), e) ↦ elim (Option-cases (bump suc w user p.users_on_workers)) [
    | inl z ↦ rw (e, z, place) tt
    | inr (users, z) ↦
        rw (e, z, place)
          (subst (IfSome (λ us. shape us ≡ shape p.users_on_workers)) z
            (shape-bump suc w user p.users_on_workers))
  ]
]

-- The same workers and classes, and the same attributes but the pool and two flags.
abbrev pub table_of : Dispatcher → Users
table_of d = d.pool.users_on_workers

abbrev pub Shaped : Dispatcher → Dispatcher → Type 0
Shaped d d' = shape (table_of d') ≡ shape (table_of d)

pub Shaped-remove_loop :
    (goal : ℕ) (active : List (ℕ × ℕ)) (d : Dispatcher)
    → IfSome (Shaped d) (remove_loop goal active d)
unfolding remove_loop
Shaped-remove_loop goal [] d = refl
Shaped-remove_loop goal ((w, user) ∷ active) d =
    elim (Option-cases (bump (λ n. n - 1) w user (table_of d))) [
      | inl z ↦ rw (z, remove_loop) tt
      | inr (users, z) ↦
          let d1 : Dispatcher = record d {
            pool = record d.pool {
              users_on_workers = users;
              active_users = active;
              user_count = current d - 1;
            };
            try_dispatch_fixed = true;
          } in
          let step : Shaped d d1 =
            subst (IfSome (λ us. shape us ≡ shape (table_of d))) z
              (shape-bump (λ n. n - 1) w user (table_of d)) in
          elim (Bool-cases (current d1 == 0 || leb (current d1) goal)) [
            | inl reached ↦ rw (z, reached, remove_loop) step
            | inr above ↦
                rw (z, above, remove_loop)
                  (IfSome-map (Shaped d1) (Shaped d) (remove_loop goal active d1) (λ d' h. h ∙ step)
                    (Shaped-remove_loop goal active d1))
          ]
    ]

module _ (div : Divergence) where
  pub Shaped-add_loop :
      (fuel goal : ℕ) (d : Dispatcher) → IfSome (Shaped d) (add_loop div fuel goal d)
  unfolding add_loop
  Shaped-add_loop zero goal d = tt
  Shaped-add_loop (suc fuel) goal d =
      let drawn =
        user_next div d.user_classes d.pool.users_on_workers d.try_dispatch_fixed
          d.pool.user_generator in
      let pool = record d.pool { user_generator = drawn.2 } in
      elim (Option-cases drawn.0) [
        | inl e ↦ rw (e, add_loop) refl
        | inr (user, e) ↦ elim (Option-cases (place user pool)) [
          | inl z ↦ rw (e, z, add_loop) tt
          | inr (p, z) ↦
              let d1 : Dispatcher = record d { pool = p; try_dispatch_fixed = drawn.1 } in
              let step : Shaped d d1 =
                subst (IfSome (λ p'. shape (Pool.users_on_workers p') ≡ shape (table_of d))) z
                  (shape-place user pool) in
              elim (Bool-cases (leb goal (current d1))) [
                | inl reached ↦ rw (e, z, reached, add_loop) step
                | inr below ↦
                    rw (e, z, below, add_loop)
                      (IfSome-map (Shaped d1) (Shaped d) (add_loop div fuel goal d1)
                        (λ d' h. h ∙ step) (Shaped-add_loop fuel goal d1))
              ]
        ]
      ]
