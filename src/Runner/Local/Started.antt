-- ===== src/Runner/Local/Started.antt =====
-- A whole `_start`: the dispatcher and the ramps together.
use mathlib.Core.Path.{subst, sym, ◌∙◌}
use locust.Base.{
  ℕ, ◌<◌, ◌≡◌, refl, true, false, Option, some, List, [], ◌∷◌, ◌==◌, arith, All, All-map,
  Bool-cases, inl, inr, member, length, sum_by,
}
use locust.Base.Dict.{Dict, lookup, get}
use locust.Dispatch.Users.{UserClass, Users, get_current_user_count}
use locust.Dispatch.Dispatcher.{Dispatcher}
use locust.Dispatch.Dispatcher.Dispatches.{Usable}
use locust.Dispatch.Dispatcher.Total.{dispatch_ends}
use locust.Dispatch.Dispatcher.Shape.{shape, table_of}
use locust.Dispatch.Dispatcher.Shown.{last_table, dispatch_shows}
use locust.Runner.{running}
use locust.Runner.Users.Counts.{number_of, AreOf, user_classes_count_lem}
use locust.Runner.Master.{rounds}
use locust.Runner.Master.Invariant.{IsDispatching}
use locust.Runner.Local.{
  Config, Local, names, ramp_tables, dispatcher_of, complete_spawning, clear_before, start,
}
use locust.Runner.Local.Runs.{
  AreDistinct, AreClasses, one_row, shown, AreShown, IsLocalTable, step_lem, ramp_more,
  ramp_tables_lem,
}
use locust.Runner.Local.Total.{sum_number_of, sum_row}

covered :
    (u : ℕ) (ks us : List ℕ)
    → All (λ w. member w ks ≡ true) us
    → member u us ≡ true
    → member u ks ≡ true
covered u ks [] h e = ground (arith, e)
covered u ks (w ∷ us) h e = elim (Bool-cases (u == w)) [
  | inl same ↦ ground (arith, same, h.0)
  | inr differ ↦ covered u ks us h.1 (ground (arith, e, differ))
]

sum_shown :
    (c : Config) (ks ls : List ℕ) (table : Users) (row : Dict ℕ) (users : List ℕ)
    → lookup c.local_id table ≡ some row
    → ((v : ℕ) → number_of v users ≡ shown c v table)
    → sum_by (λ k. number_of k users) ks ≡ sum_by (λ k. get k 0 row) ks
sum_shown c [] ls table row users e f = refl
sum_shown c (k ∷ ks) ls table row users e f =
    ground (arith, sum_shown c ks ls table row users e f, f k, e)

-- As many users run as the table has.
length_lem :
    (c : Config) (ks : List ℕ) (table : Users) (users : List ℕ)
    → AreClasses (names c) ks
    → IsLocalTable c ks table
    → AreShown c table users
    → length users ≡ get_current_user_count table
unfolding get_current_user_count
length_lem c ks table users h e v =
    let (row, found, same, total) = one_row c.local_id ks table e in
    let own =
      All-map (λ u. member u (names c) ≡ true) (λ u. member u ks ≡ true) users
        (λ u g. covered u ks (names c) h.2 g) v.0 in
    let by_class = sum_number_of ks users h.0 own in
    let by_row = sum_row row (subst AreDistinct (sym same) h.0) in
    let counts = sum_shown c ks ks table row users found v.1 in
    sym by_class
    ∙ counts
    ∙ subst (λ l. sum_by (λ k. get k 0 row) l ≡ sum_by (λ x. x.1) row) same by_row
    ∙ sym total

-- A local runner runs the users of a dispatcher.
pub record HasStarted (c : Config) (user_count : ℕ) (l : Local) : Type 0 where
  pub running_state : l.state ≡ running
  pub target : l.target_user_count ≡ user_count
  pub dispatcher : Dispatcher
  pub dispatches : l.users_dispatcher ≡ some dispatcher
  pub valid : IsDispatching (some dispatcher)
  pub by_class : AreShown c (table_of dispatcher) l.users
  pub total : length l.users ≡ user_count

module _ (c : Config) where
  shown_users :
      (ks : List ℕ) (first : Users) (tables : List Users) (users : List ℕ)
      → AreClasses (names c) ks
      → All (IsLocalTable c ks) tables
      → AreOf (names c) users
      → 0 < length tables
      → (users' : List ℕ) × (ramp_tables c false tables users ≡ some users')
        × AreShown c (last_table c.divergence first tables) users'
  shown_users ks first [] users h e known pos = absurd (omega arith)
  shown_users ks first (table ∷ tables) users h e known pos =
      let (row, users1, found, r, v1) = step_lem c ks table users h e.0 known in
      let (users2, r2, v2) = ramp_tables_lem c ks table tables users1 h e.1 v1 in
      (users2, ramp_more c row table tables users users1 users2 found r r2, v2)

  -- A local runner starts a test at a positive rate, without `wait`. The dispatcher that it has, or creates, is valid,
  -- its one worker is the local one, and the row of this worker has each class of the runner once
  -- and no other; the users that run are of these classes; and the classes to spawn are those in
  -- use, or others that the dispatcher can spawn. No exception is raised. In the end the runner is in
  -- the state "running", and exactly `user_count` users run: of each class as many as the table of
  -- the dispatcher says.
  pub start_runs :
      (at : ℕ → ℕ) (user_count rate : ℕ) (us : Option (List UserClass)) (l : Local) (d : Dispatcher)
      (ks : List ℕ)
      → 0 < rate
      → dispatcher_of c l ≡ some d
      → IsDispatching (some d)
      → Usable d us
      → AreClasses (names c) ks
      → IsLocalTable c ks (table_of d)
      → AreOf (names c) l.users
      → (l' : Local) × (start c at user_count rate false us l ≡ some l')
        × HasStarted c user_count l'
  unfolding start complete_spawning
  start_runs at user_count rate us l d ks positive e v usable h one known =
      let (tables, last, r, end) =
        dispatch_ends c.divergence user_count rate us d positive v.0 usable v.1 in
      let (shows, shaped, same) =
        dispatch_shows c.divergence (rounds user_count d) user_count rate us d last tables positive
          r in
      let alike =
        All-map (λ t. shape t ≡ shape (table_of d)) (IsLocalTable c ks) tables (λ t f. f ∙ one)
          shaped in
      let (users, r', a) = shown_users ks (table_of d) tables l.users h alike known end.told in
      let a' = subst (λ t. AreShown c t users) shows a in
      let (counts, counted, _) = user_classes_count_lem (names c) users a.0 in
      (
        complete_spawning c at counts (record (clear_before at l) {
          target_user_count = user_count;
          users = users;
          users_dispatcher = some last;
        }),
        ground (arith, e, r, r', counted),
        record {
          running_state = refl;
          target = refl;
          dispatcher = last;
          dispatches = refl;
          valid = (end.valid, end.supplied);
          by_class = a';
          total =
              length_lem c ks (table_of last) users h (same ∙ one) a'
              ∙ end.valid.pool.total
              ∙ end.reached;
        },
      )
