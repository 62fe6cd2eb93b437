-- ===== src/Runner/Local/Runs.antt =====
-- The users that a local runner runs after `_start` are those of the dispatcher.
use mathlib.Core.Path.{subst, sym, ap, ◌∙◌}
use locust.Base.{
  ℕ, ◌≡◌, refl, true, false, some, List, [], ◌∷◌, arith, All, member, All-map, sum_by,
}
use locust.Base.Dict.{Dict, keys, lookup, get, contains, IsDict}
use locust.Dispatch.Users.{Users, get_current_user_count}
use locust.Dispatch.Dispatcher.Shape.{shape}
use locust.Dispatch.Dispatcher.Shown.{last_table}
use locust.Runner.Users.{ramp}
use locust.Runner.Users.Counts.{number_of, AreOf}
use locust.Runner.Users.Ramp.{IsRequest, requested_numbers, ramp-IsRamped}
use locust.Runner.Local.{Config, names, ramp_tables}

abbrev pub AreDistinct : List ℕ → Type 0
AreDistinct [] = Unit
AreDistinct (k ∷ ks) = (member k ks ≡ false) × AreDistinct ks

contains_lem : (k : ℕ) (row : Dict ℕ) → contains k row ≡ member k (keys row)
contains_lem k [] = refl
contains_lem k (e ∷ row) = ground (arith, contains_lem k row)

keys-IsDict : (row : Dict ℕ) → AreDistinct (keys row) → IsDict row
keys-IsDict [] h = tt
keys-IsDict (e ∷ row) h = (contains_lem e.0 row ∙ h.0, keys-IsDict row h.1)

-- Each of the classes once, and no other.
abbrev pub AreClasses : (classes : List ℕ) → List ℕ → Type 0
AreClasses classes row =
    AreDistinct row × AreOf classes row × All (λ u. member u row ≡ true) classes

-- A table with one worker has one row.
pub one_row :
    (id : ℕ) (ks : List ℕ) (table : Users)
    → shape table ≡ (id, ks) ∷ []
    → (row : Dict ℕ) × (lookup id table ≡ some row)
      × (keys row ≡ ks)
      × (get_current_user_count table ≡ sum_by (λ x. x.1) row)
unfolding get_current_user_count
one_row id ks [] e = absurd (ground (arith, e))
one_row id ks (r ∷ []) e = (r.1, ground (arith, e), ground (arith, e), omega arith)
one_row id ks (r ∷ r' ∷ table) e = absurd (ground (arith, e))

module _ (c : Config) where
  -- How many users of a class the row of the local worker has.
  abbrev pub shown : ℕ → Users → ℕ
  shown v table = get v 0 (get c.local_id [] table)

  -- The users are of the classes, as many as a table says.
  abbrev pub AreShown : Users → List ℕ → Type 0
  AreShown table users = AreOf (names c) users × ((v : ℕ) → number_of v users ≡ shown v table)

  -- The one worker of a table is the local one, with all the classes.
  abbrev pub IsLocalTable : List ℕ → Users → Type 0
  IsLocalTable row table = shape table ≡ (c.local_id, row) ∷ []

  pub ramp_more :
      (row : Dict ℕ) (table : Users) (tables : List Users) (users users1 users2 : List ℕ)
      → lookup c.local_id table ≡ some row
      → ramp (names c) row users ≡ some users1
      → ramp_tables c false tables users1 ≡ some users2
      → ramp_tables c false (table ∷ tables) users ≡ some users2
  unfolding ramp_tables
  ramp_more row table tables users users1 users2 found r r2 = ground (arith, found, r, r2)

  pub step_lem :
      (ks : List ℕ) (table : Users) (users : List ℕ)
      → AreClasses (names c) ks
      → IsLocalTable ks table
      → AreOf (names c) users
      → (row : Dict ℕ) × (users' : List ℕ) × (lookup c.local_id table ≡ some row)
        × (ramp (names c) row users ≡ some users')
        × AreShown table users'
  step_lem ks table users h e known =
      let (row, found, same, _) = one_row c.local_id ks table e in
      let distinct = subst AreDistinct (sym same) h.0 in
      let all = λ (us : List ℕ). λ (u : ℕ). member u us ≡ true in
      let q : IsRequest (names c) row = (
        keys-IsDict row distinct,
        subst (AreOf (names c)) (sym same) h.1,
        All-map (all ks) (λ u. contains u row ≡ true) (names c)
            (λ u g. contains_lem u row ∙ (ap (member u) same ∙ g)) h.2,
      ) in
      let (users', e', r) = (ramp-IsRamped (names c) row users q.0 q.1 known).0 in
      let from_row : (v : ℕ) → get v 0 row ≡ shown v table = λ v. ground (arith, found) in
      let numbers =
        λ (v : ℕ). requested_numbers (names c) row users users' q known r v ∙ from_row v in
      (row, users', found, e', (r.0, numbers))

  -- The ramps for one table after the other: the last one says which users run in the end.
  pub ramp_tables_lem :
      (ks : List ℕ) (prev : Users) (tables : List Users) (users : List ℕ)
      → AreClasses (names c) ks
      → All (IsLocalTable ks) tables
      → AreShown prev users
      → (users' : List ℕ) × (ramp_tables c false tables users ≡ some users')
        × AreShown (last_table c.divergence prev tables) users'
  unfolding ramp_tables
  ramp_tables_lem ks prev [] users h e v = (users, refl, v)
  ramp_tables_lem ks prev (table ∷ tables) users h e v =
      let (row, users1, found, r, v1) = step_lem ks table users h e.0 v.0 in
      let (users2, r2, v2) = ramp_tables_lem ks table tables users1 h e.1 v1 in
      (users2, ramp_more row table tables users users1 users2 found r r2, v2)
