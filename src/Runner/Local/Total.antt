-- ===== src/Runner/Local/Total.antt =====
-- Users counted class by class are counted once each.
use locust.Base.{
  ℕ, ◌+◌, ◌≡◌, refl, false, List, [], ◌∷◌, ◌==◌, arith, if◌then◌else◌, member, length, sum_by,
}
use locust.Base.Dict.{Dict, keys, get}
use locust.Runner.Users.Counts.{number_of, AreOf}
use locust.Runner.Local.Runs.{AreDistinct}

sum_zero : (ks : List ℕ) → sum_by (λ k. 0) ks ≡ 0
sum_zero [] = refl
sum_zero (k ∷ ks) = omega (arith, sum_zero ks)

-- A class is listed once, or not at all.
hits :
    (u : ℕ) (ks : List ℕ)
    → AreDistinct ks
    → sum_by (λ k. if k == u then 1 else 0) ks ≡ (if member u ks then 1 else 0)
hits u [] h = refl
hits u (k ∷ ks) h = ground (arith, hits u ks h.1, h.0)

one_more_user :
    (u : ℕ) (us ks : List ℕ)
    → sum_by (λ k. number_of k (u ∷ us)) ks
      ≡ sum_by (λ k. if k == u then 1 else 0) ks + sum_by (λ k. number_of k us) ks
one_more_user u us [] = omega arith
one_more_user u us (k ∷ ks) = ground (arith, one_more_user u us ks)

pub sum_number_of :
    (ks users : List ℕ)
    → AreDistinct ks
    → AreOf ks users
    → sum_by (λ k. number_of k users) ks ≡ length users
sum_number_of ks [] d h = sum_zero ks
sum_number_of ks (u ∷ us) d h =
    ground (arith, one_more_user u us ks, hits u ks d, h.0, sum_number_of ks us d h.1)

skip_row :
    (k n : ℕ) (row : Dict ℕ) (ks : List ℕ)
    → member k ks ≡ false
    → sum_by (λ j. get j 0 ((k, n) ∷ row)) ks ≡ sum_by (λ j. get j 0 row) ks
skip_row k n row [] h = refl
skip_row k n row (j ∷ ks) h = ground (arith, skip_row k n row ks, h)

pub sum_row :
    (row : Dict ℕ)
    → AreDistinct (keys row)
    → sum_by (λ k. get k 0 row) (keys row) ≡ sum_by (λ e. e.1) row
sum_row [] h = refl
sum_row ((k, n) ∷ row) h = ground (arith, skip_row k n row (keys row) h.0, sum_row row h.1)
