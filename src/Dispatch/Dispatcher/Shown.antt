-- ===== src/Dispatch/Dispatcher/Shown.antt =====
-- The tables that a dispatch yields: what they have in common with the one that the dispatcher
-- holds, and that the last one is it.
use mathlib.Core.Path.{subst, sym, ap, ◌∙◌}
use locust.Base.{
  if_lem, All, All-map, ℕ, zero, suc, ◌+◌, ◌-◌, ◌<◌, ◌≡◌, refl, true, false, Option, none, some,
  List, [], ◌∷◌, ◌==◌, ltb, min, max, Bool-cases, Option-cases, inl, inr, ◌>>=◌,
}
use locust.Dispatch.Kl.{Divergence}
use locust.Dispatch.Users.{UserClass, Users}
use locust.Dispatch.Dispatcher.{
  Dispatcher, Point, start, rebalanced, unchanged, adding, adding_rebalanced, removing,
  removing_rebalanced, done, current, add_users_on_workers, remove_users_from_workers, new_dispatch,
  begin_dispatch,
}
use locust.Dispatch.Dispatcher.Dispatches.{take_classes-Retains, new_dispatch_lem}
use locust.Dispatch.Dispatcher.Generator.{
  Outcome, yielded, stopped, next, run, resume, first, grow, shrink, after_adding,
}
use locust.Dispatch.Dispatcher.Shape.{
  IfSome, shape, table_of, Shaped, Shaped-remove_loop, Shaped-add_loop,
}

module _ (div : Divergence) where
  -- Where the first statements of `_dispatcher` are still to come, the table that they may yield is
  -- the present one.
  abbrev AtFirst : Point → Dispatcher → Type 0
  AtFirst start d = d.initial_users_on_workers ≡ table_of d
  AtFirst rebalanced d = d.initial_users_on_workers ≡ table_of d
  AtFirst _ d = Unit

  -- What a resumption shows.
  abbrev Shows : Dispatcher → Outcome → Type 0
  Shows d (yielded users d') =
      (users ≡ table_of d') × Shaped d d' × AtFirst d'.dispatcher_generator d'
  Shows d (stopped d') = table_of d' ≡ table_of d

  shrink-Shows : (d : Dispatcher) → IfSome (Shows d) (shrink d)
  unfolding shrink remove_users_from_workers
  shrink-Shows d = elim (Bool-cases (ltb d.target_user_count (current d))) [
    | inr e ↦ rw (e, shrink) refl
    | inl e ↦
        let h =
          Shaped-remove_loop
            (max (current d - d.user_count_per_dispatch_iteration) d.target_user_count)
            d.pool.active_users d in
        elim (Option-cases (remove_users_from_workers d)) [
          | inl z ↦ rw (e, z, shrink) tt
          | inr (d', z) ↦ rw (e, z, shrink) (refl, subst (IfSome (Shaped d)) z h, tt)
        ]
  ]

  grow-Shows : (d : Dispatcher) → IfSome (Shows d) (grow div d)
  unfolding grow add_users_on_workers
  grow-Shows d = elim (Bool-cases (ltb (current d) d.target_user_count)) [
    | inr e ↦ rw (e, grow) (shrink-Shows d)
    | inl e ↦
        let goal = min (current d + d.user_count_per_dispatch_iteration) d.target_user_count in
        let h = Shaped-add_loop div (suc (goal - current d)) goal d in
        elim (Option-cases (add_users_on_workers div d)) [
          | inl z ↦ rw (e, z, grow) tt
          | inr (d', z) ↦ rw (e, z, grow) (refl, subst (IfSome (Shaped d)) z h, tt)
        ]
  ]

  first-Shows :
      (d : Dispatcher) → d.initial_users_on_workers ≡ table_of d → IfSome (Shows d) (first div d)
  unfolding first
  first-Shows d h = elim (Bool-cases (current d == d.target_user_count)) [
    | inl e ↦ rw (e, first) (h, refl, tt)
    | inr e ↦ rw (e, first) (grow-Shows d)
  ]

  after_adding-Shows : (d : Dispatcher) → IfSome (Shows d) (after_adding div d)
  unfolding after_adding
  after_adding-Shows d =
      if_lem (IfSome (Shows d)) d.no_user_to_spawn
        (λ e. shrink-Shows (record d { no_user_to_spawn = false })) (λ e. grow-Shows d)

  resume-Shows : (p : Point) (d : Dispatcher) → AtFirst p d → IfSome (Shows d) (resume div p d)
  unfolding resume
  resume-Shows start d h =
      if_lem (IfSome (Shows d)) d.rebalance (λ e. (refl, refl, h))
        (λ e. first-Shows (record d { dispatch_in_progress = true }) h)
  resume-Shows rebalanced d h =
      if_lem (IfSome (Shows d)) (current d == d.target_user_count) (λ e. refl)
        (λ e. first-Shows d h)
  resume-Shows unchanged d h = refl
  resume-Shows adding d h =
      if_lem (IfSome (Shows d)) d.rebalance (λ e. (refl, refl, tt)) (λ e. after_adding-Shows d)
  resume-Shows adding_rebalanced d h = after_adding-Shows d
  resume-Shows removing d h =
      if_lem (IfSome (Shows d)) d.rebalance (λ e. (refl, refl, tt)) (λ e. shrink-Shows d)
  resume-Shows removing_rebalanced d h = shrink-Shows d
  resume-Shows done d h = refl

  -- The last table of a list, or the one before it.
  abbrev pub last_table : Users → List Users → Users
  last_table users [] = users
  last_table users (table ∷ tables) = last_table table tables

  -- All the tables of a dispatch have the workers and classes of the table that it begins with, and
  -- the last one is the table that the dispatcher holds in the end.
  abbrev pub ShowsAll : Dispatcher → List Users × Dispatcher → Type 0
  ShowsAll d r =
      (last_table (table_of d) r.0 ≡ table_of r.1)
      × All (λ table. shape table ≡ shape (table_of d)) r.0
      × Shaped d r.1

  run-ShowsAll :
      (fuel : ℕ) (d : Dispatcher)
      → AtFirst d.dispatcher_generator d
      → IfSome (ShowsAll d) (run div fuel d)
  unfolding run next
  run-ShowsAll zero d h = tt
  run-ShowsAll (suc fuel) d h =
      outcome_lem (λ d' h'. run-ShowsAll fuel d' h') (next div d) refl
        (resume-Shows d.dispatcher_generator d h)
    where
      outcome_lem :
          ((d' : Dispatcher)
            → AtFirst d'.dispatcher_generator d'
            → IfSome (ShowsAll d') (run div fuel d'))
          → (o : Option Outcome) → next div d ≡ o
          → IfSome (Shows d) o
          → IfSome (ShowsAll d) (run div (suc fuel) d)
      outcome_lem ih none e s = rw (e, run) tt
      outcome_lem ih (some (stopped d')) e s = rw (e, run) (sym s, tt, ap shape s)
      outcome_lem ih (some (yielded users d')) e s = elim (Option-cases (run div fuel d')) [
        | inl z ↦ rw (e, z, run) tt
        | inr ((tables, last), z) ↦
            let (shown, shaped, end) = subst (IfSome (ShowsAll d')) z (ih d' s.2) in
            let alike = λ (t : Users). shape t ≡ shape (table_of d') in
            rw (e, z, run)
              (
                ap (λ t. last_table t tables) s.0 ∙ shown,
                (
                  ap shape s.0 ∙ s.1,
                  All-map alike (λ t. shape t ≡ shape (table_of d)) tables (λ t f. f ∙ s.1) shaped,
                ),
                end ∙ s.1,
              )
      ]

  -- Of a dispatch that ends, as `dispatch_ends` says it does.
  pub dispatch_shows :
      (fuel target rate : ℕ) (us : Option (List UserClass)) (d last : Dispatcher)
      (tables : List Users)
      → 0 < rate
      → (new_dispatch target rate us d >>= run div fuel) ≡ some (tables, last)
      → ShowsAll d (tables, last)
  unfolding begin_dispatch
  dispatch_shows fuel target rate us d last tables positive e =
      let begun = new_dispatch_lem target rate us d positive in
      let kept = (take_classes-Retains us d).2 in
      let r =
        subst (IfSome (ShowsAll (begin_dispatch target rate us d)))
          (sym (ap (λ o. o >>= run div fuel) begun) ∙ e)
          (run-ShowsAll fuel (begin_dispatch target rate us d) refl) in
      subst
        (λ t.
          (last_table t tables ≡ table_of last)
          × All (λ table. shape table ≡ shape t) tables
          × (shape (table_of last) ≡ shape t))
        kept r
