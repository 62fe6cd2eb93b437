-- ===== src/Stats/Entry/Counts.antt =====
-- How many of the things that a `{key => count}` dict of locust/stats.py counts pass a test.
use locust.Base.{
  ℕ, ◌+◌, ◌≡◌, refl, Bool, false, List, [], ◌∷◌, arith, ◌==◌, if◌then◌else◌, sum_by, All,
}
use locust.Base.Dict.{Dict, get, insert, keys, contains, IsDict, insert-IsDict}
use locust.Stats.Entry.{count_up, add_counts}

abbrev pub counts : (ℕ → Bool) → Dict ℕ → ℕ
counts p = sum_by (λ e. if p e.0 then e.1 else 0)

counts-insert :
    (p : ℕ → Bool) (k n : ℕ) (d : Dict ℕ)
    → counts p (insert k (get k 0 d + n) d) ≡ counts p d + (if p k then n else 0)
counts-insert p k n [] = ground arith
counts-insert p k n (e ∷ d) = ground (arith, counts-insert p k n d)

pub counts-count_up :
    (p : ℕ → Bool) (k n : ℕ) (d : Dict ℕ)
    → counts p (count_up k n d) ≡ counts p d + (if p k then n else 0)
unfolding count_up
counts-count_up = counts-insert

pub counts-add_counts :
    (p : ℕ → Bool) (d other : Dict ℕ) → counts p (add_counts d other) ≡ counts p d + counts p other
unfolding add_counts
counts-add_counts p d [] = omega arith
counts-add_counts p d (e ∷ other) =
    omega (arith, counts-add_counts p (count_up e.0 e.1 d) other, counts-count_up p e.0 e.1 d)

pub count_up-IsDict : (k n : ℕ) (d : Dict ℕ) → IsDict d → IsDict (count_up k n d)
unfolding count_up
count_up-IsDict k n d = insert-IsDict k (get k 0 d + n) d

pub add_counts-IsDict : (d other : Dict ℕ) → IsDict d → IsDict (add_counts d other)
unfolding add_counts
add_counts-IsDict d [] h = h
add_counts-IsDict d (e ∷ other) h =
    add_counts-IsDict (count_up e.0 e.1 d) other (count_up-IsDict e.0 e.1 d h)

-- A key that is not in the dict is not among its keys.
other_keys : (j : ℕ) (d : Dict ℕ) → contains j d ≡ false → All (λ k. (k == j) ≡ false) (keys d)
other_keys j [] h = tt
other_keys j (e ∷ d) h = (ground arith, other_keys j d (ground arith))

skip :
    (p : ℕ → Bool) (e : ℕ × ℕ) (d : Dict ℕ) (ks : List ℕ)
    → All (λ k. (k == e.0) ≡ false) ks
    → sum_by (λ k. if p k then get k 0 (e ∷ d) else 0) ks
      ≡ sum_by (λ k. if p k then get k 0 d else 0) ks
skip p e d [] h = refl
skip p e d (k ∷ ks) h = ground (arith, skip p e d ks h.1)

-- The sum over the keys is that over the entries.
pub counts-keys :
    (p : ℕ → Bool) (d : Dict ℕ)
    → IsDict d
    → sum_by (λ k. if p k then get k 0 d else 0) (keys d) ≡ counts p d
counts-keys p [] h = refl
counts-keys p (e ∷ d) h =
    ground (arith, skip p e d (keys d) (other_keys e.0 d h.0), counts-keys p d h.1)
