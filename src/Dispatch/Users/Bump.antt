-- ===== src/Dispatch/Users/Bump.antt =====
-- One count of a table is changed: every other stays, and the sum moves with it.
use locust.Base.{
  ℕ, ◌+◌, ◌≡◌, true, some, [], ◌∷◌, arith, ◌==◌, ◌&&◌, if◌then◌else◌, sum_by, inl, inr, Bool-cases,
}
use locust.Base.Dict.{Dict, get, contains}
use locust.Dispatch.Users.{Users, at, has, bump, bump_row, get_current_user_count}

record RowBumped (f : ℕ → ℕ) (u : ℕ) (row row' : Dict ℕ) : Type 0 where
  get_lem : (u' : ℕ) → get u' 0 row' ≡ (if u' == u then f (get u 0 row) else get u' 0 row)
  contains_lem : (u' : ℕ) → contains u' row' ≡ contains u' row
  total : sum_by (λ e. e.1) row' + get u 0 row ≡ sum_by (λ e. e.1) row + f (get u 0 row)

bump_row_lem :
    (f : ℕ → ℕ) (u : ℕ) (row : Dict ℕ)
    → contains u row ≡ true
    → (row' : Dict ℕ) × (bump_row f u row ≡ some row') × RowBumped f u row row'
unfolding bump_row
bump_row_lem f u [] h = absurd (cc)
bump_row_lem f u (e ∷ row) h = elim (Bool-cases (u == e.0)) [
  | inl here ↦ (
    (e.0, f e.1) ∷ row,
    ground arith,
    record {
      get_lem = λ u'. ground arith;
      contains_lem = λ u'. ground arith;
      total = ground arith;
    },
  )
  | inr there ↦
      let (row', e', b) = bump_row_lem f u row (ground arith) in
      (
        e ∷ row',
        ground arith,
        record {
          get_lem = λ u'. ground (arith, b.get_lem u');
          contains_lem = λ u'. ground (arith, b.contains_lem u');
          total = ground (arith, b.total);
        },
      )
]

pub record Bumped (f : ℕ → ℕ) (w u : ℕ) (users users' : Users) : Type 0 where
  pub at_lem :
      (w' u' : ℕ)
      → at w' u' users' ≡ (if w' == w && u' == u then f (at w u users) else at w' u' users)
  pub has_lem : (w' u' : ℕ) → has w' u' users' ≡ has w' u' users
  pub total :
      get_current_user_count users' + at w u users ≡ get_current_user_count users + f (at w u users)

-- Where the worker and the class are in the table there is no KeyError.
pub bump_lem :
    (f : ℕ → ℕ) (w u : ℕ) (users : Users)
    → has w u users ≡ true
    → (users' : Users) × (bump f w u users ≡ some users') × Bumped f w u users users'
unfolding bump get_current_user_count
bump_lem f w u [] h = absurd (cc)
bump_lem f w u (e ∷ users) h = elim (Bool-cases (w == e.0)) [
  | inl here ↦
      let (row, e', b) = bump_row_lem f u e.1 (ground arith) in
      (
        (e.0, row) ∷ users,
        ground arith,
        record {
          at_lem = λ w' u'. ground (arith, b.get_lem u');
          has_lem = λ w' u'. ground (arith, b.contains_lem u');
          total = ground (arith, b.total);
        },
      )
  | inr there ↦
      let (users', e', b) = bump_lem f w u users (ground arith) in
      (
        e ∷ users',
        ground arith,
        record {
          at_lem = λ w' u'. ground (arith, b.at_lem w' u');
          has_lem = λ w' u'. ground (arith, b.has_lem w' u');
          total = ground (arith, b.total);
        },
      )
]
