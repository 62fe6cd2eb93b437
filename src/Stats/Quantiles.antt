-- ===== src/Stats/Quantiles.antt =====
-- `calculate_response_time_percentile` and `median_from_dict` of locust/stats.py: what they return is
-- the quantile of the counted response times. `int(num_requests * percent)`, a floating point
-- product, is the argument `num_of_request`.
use mathlib.Core.Path.{subst, sym}
use locust.Base.{
  false, ℕ, ◌+◌, ◌-◌, ◌*◌, ◌≤◌, ◌<◌, ◌≡◌, refl, Bool, List, [], ◌∷◌, true, arith, ltb, leb,
  if◌then◌else◌, sum_by, All, All-map, Bool-cases, inl, inr, member, ◌==◌, ==→eq,
}
use locust.Base.Dict.{Dict, get, keys}
use locust.Dispatch.Workers.{sorted_by, insert_by}
use locust.Dispatch.Workers.Sorted.{sorted_by-IsSorted, IsSorted, IsOrder, sum_by-sorted_by}

unfoldable pub le : ℕ → ℕ → Bool
le a b = leb a b

unfoldable pub ge : ℕ → ℕ → Bool
ge a b = leb b a

-- The `for` loop over the keys, the largest first.
unfoldable pub percentile_loop :
    Dict ℕ → (num_requests num_of_request processed_count : ℕ) → List ℕ → ℕ
percentile_loop d n m processed [] = 0
percentile_loop d n m processed (k ∷ ks) =
    let processed' = processed + get k 0 d in
    if leb (n - processed') m then k else percentile_loop d n m processed' ks

unfoldable pub calculate_response_time_percentile : Dict ℕ → (num_requests num_of_request : ℕ) → ℕ
unfolding percentile_loop sorted_by ge
calculate_response_time_percentile d n m = percentile_loop d n m 0 (sorted_by ge (keys d))

-- The `for` loop over the keys, the least first. `pos = (total - 1) / 2`, and `pos < count` is
-- `total ≤ 2 * count`: the argument is the total less twice what has been passed. `last` is the
-- key that the loop variable holds when the loop runs out.
unfoldable pub median_loop : Dict ℕ → (last total : ℕ) → List ℕ → ℕ
median_loop d last total [] = last
median_loop d last total (k ∷ ks) =
    if leb total (2 * get k 0 d) then k else median_loop d k (total - 2 * get k 0 d) ks

unfoldable pub median_from_dict : (total : ℕ) → Dict ℕ → ℕ
unfolding median_loop sorted_by le
median_from_dict total d = median_loop d 0 total (sorted_by le (keys d))

-- How many of the counted response times, over some keys, lie below a value, and how many do not
-- pass it.
abbrev pub counted : Dict ℕ → List ℕ → ℕ
counted d = sum_by (λ k. get k 0 d)

abbrev pub below : ℕ → Dict ℕ → List ℕ → ℕ
below r d = sum_by (λ k. if ltb k r then get k 0 d else 0)

abbrev pub at_most : ℕ → Dict ℕ → List ℕ → ℕ
at_most r d = sum_by (λ k. if leb k r then get k 0 d else 0)

below-le : (r : ℕ) (d : Dict ℕ) (ks : List ℕ) → below r d ks ≤ counted d ks
below-le r d [] = omega arith
below-le r d (k ∷ ks) = ground (arith, below-le r d ks)

at_most-All :
    (r : ℕ) (d : Dict ℕ) (ks : List ℕ) → All (λ k. k ≤ r) ks → at_most r d ks ≡ counted d ks
at_most-All r d [] h = refl
at_most-All r d (k ∷ ks) h = ground (arith, at_most-All r d ks h.1)

below_none : (r : ℕ) (d : Dict ℕ) (ks : List ℕ) → All (λ k. r ≤ k) ks → below r d ks ≡ 0
below_none r d [] h = refl
below_none r d (k ∷ ks) h = ground (arith, below_none r d ks h.1)

All-member : (P : ℕ → Type 0) (r : ℕ) (ks : List ℕ) → member r ks ≡ true → All P ks → P r
All-member P r [] m h = absurd cc
All-member P r (k ∷ ks) m h = elim (Bool-cases (r == k)) [
  | inl same ↦ rw (==→eq r k same) h.0
  | inr other ↦ All-member P r ks (ground arith) h.1
]

ge-le : (k : ℕ) (ks : List ℕ) → All (λ j. ge k j ≡ true) ks → All (λ j. j ≤ k) ks
unfolding ge
ge-le k ks = All-map (λ j. ge k j ≡ true) (λ j. j ≤ k) ks (λ j h. ground arith)

le-ge : (k : ℕ) (ks : List ℕ) → All (λ j. le k j ≡ true) ks → All (λ j. k ≤ j) ks
unfolding le
le-ge k ks = All-map (λ j. le k j ≡ true) (λ j. k ≤ j) ks (λ j h. ground arith)

-- `r` is one of the keys, at most `m` of the counted values lie below it, and more than `m` do not
-- pass it.
abbrev pub IsPercentile : (r m : ℕ) → Dict ℕ → List ℕ → Type 0
IsPercentile r m d ks = (member r ks ≡ true) × (below r d ks ≤ m) × (m < at_most r d ks)

module _ (d : Dict ℕ) (n m processed k : ℕ) (ks : List ℕ) where
  percentile_stops :
      leb (n - (processed + get k 0 d)) m ≡ true → percentile_loop d n m processed (k ∷ ks) ≡ k
  unfolding percentile_loop
  percentile_stops h = ground arith

  percentile_goes :
      leb (n - (processed + get k 0 d)) m ≡ false
      → percentile_loop d n m processed (k ∷ ks) ≡ percentile_loop d n m (processed + get k 0 d) ks
  unfolding percentile_loop
  percentile_goes h = ground arith

-- A percentile of the smaller keys is one of all.
IsPercentile-step :
    (d : Dict ℕ) (m r k : ℕ) (ks : List ℕ)
    → member r ks ≡ true
    → below r d ks ≤ m
    → m < at_most r d ks
    → r ≤ k
    → IsPercentile r m d (k ∷ ks)
IsPercentile-step d m r k ks mem low high under = (ground arith, ground arith, ground arith)

percentile_loop-IsPercentile :
    (d : Dict ℕ) (n m processed : ℕ) (ks : List ℕ)
    → IsSorted ge ks
    → processed + counted d ks ≡ n
    → m < counted d ks
    → IsPercentile (percentile_loop d n m processed ks) m d ks
unfolding percentile_loop
percentile_loop-IsPercentile d n m processed [] s e lt = absurd (omega arith)
percentile_loop-IsPercentile d n m processed (k ∷ ks) s e lt =
    elim (Bool-cases (leb (n - (processed + get k 0 d)) m)) [
      | inl stop ↦
          let here : IsPercentile k m d (k ∷ ks) = (
            ground arith,
            ground (arith, below-le k d ks),
            ground (arith, at_most-All k d ks (ge-le k ks s.0)),
          ) in
          subst (λ r. IsPercentile r m d (k ∷ ks))
            (sym (percentile_stops d n m processed k ks stop)) here
      | inr go ↦
          let r = percentile_loop d n m (processed + get k 0 d) ks in
          let (mem, low, high) =
            percentile_loop-IsPercentile d n m (processed + get k 0 d) ks s.1 (omega arith)
              (ground arith) in
          let under = All-member (λ j. j ≤ k) r ks mem (ge-le k ks s.0) in
          subst (λ r. IsPercentile r m d (k ∷ ks)) (sym (percentile_goes d n m processed k ks go))
            (IsPercentile-step d m r k ks mem low high under)
    ]

ge-IsOrder : IsOrder ge
unfolding ge
ge-IsOrder = record { total = λ x y h. ground arith; trans = λ x y z h k. ground arith }

le-IsOrder : IsOrder le
unfolding le
le-IsOrder = record { total = λ x y h. ground arith; trans = λ x y z h k. ground arith }

member-insert_by :
    (le : ℕ → ℕ → Bool) (r k : ℕ) (ks : List ℕ)
    → member r (insert_by le k ks) ≡ true
    → member r (k ∷ ks) ≡ true
unfolding insert_by
member-insert_by le r k [] h = h
member-insert_by le r k (j ∷ ks) h = ground (arith, member-insert_by le r k ks)

member-sorted_by :
    (le : ℕ → ℕ → Bool) (r : ℕ) (ks : List ℕ)
    → member r (sorted_by le ks) ≡ true
    → member r ks ≡ true
unfolding sorted_by
member-sorted_by le r [] h = h
member-sorted_by le r (k ∷ ks) h =
    ground (arith, member-insert_by le r k (sorted_by le ks) h, member-sorted_by le r ks)

-- Of `n` counted response times, for a rank `m` below `n`, the percentile is one of the counted
-- values: at most `m` of the response times are below it, and more than `m` are not above it.
pub calculate_response_time_percentile-IsPercentile :
    (d : Dict ℕ) (n m : ℕ)
    → counted d (keys d) ≡ n
    → m < n
    → IsPercentile (calculate_response_time_percentile d n m) m d (keys d)
unfolding calculate_response_time_percentile
calculate_response_time_percentile-IsPercentile d n m e lt =
    let r = calculate_response_time_percentile d n m in
    let ks = sorted_by ge (keys d) in
    let same = sum_by-sorted_by ge (λ k. get k 0 d) (keys d) in
    let (mem, low, high) =
      percentile_loop-IsPercentile d n m 0 ks (sorted_by-IsSorted ge ge-IsOrder (keys d))
        (omega (arith, same)) (omega (arith, same)) in
    (
      member-sorted_by ge r (keys d) mem,
      omega (arith, low, sum_by-sorted_by ge (λ k. if ltb k r then get k 0 d else 0) (keys d)),
      omega (arith, high, sum_by-sorted_by ge (λ k. if leb k r then get k 0 d else 0) (keys d)),
    )

-- `r` is one of the keys, less than half of `t` are below it, and at least half are not above it.
abbrev pub IsMedian : (r t : ℕ) → Dict ℕ → List ℕ → Type 0
IsMedian r t d ks = (member r ks ≡ true) × (2 * below r d ks < t) × (t ≤ 2 * at_most r d ks)

module _ (d : Dict ℕ) (last t k : ℕ) (ks : List ℕ) where
  median_stops : leb t (2 * get k 0 d) ≡ true → median_loop d last t (k ∷ ks) ≡ k
  unfolding median_loop
  median_stops h = ground arith

  median_goes :
      leb t (2 * get k 0 d) ≡ false
      → median_loop d last t (k ∷ ks) ≡ median_loop d k (t - 2 * get k 0 d) ks
  unfolding median_loop
  median_goes h = ground arith

IsMedian-step :
    (d : Dict ℕ) (t r k : ℕ) (ks : List ℕ)
    → 2 * get k 0 d < t
    → member r ks ≡ true
    → 2 * below r d ks < t - 2 * get k 0 d
    → t - 2 * get k 0 d ≤ 2 * at_most r d ks
    → k ≤ r
    → IsMedian r t d (k ∷ ks)
IsMedian-step d t r k ks less mem low high over = (ground arith, ground arith, ground arith)

median_loop-IsMedian :
    (d : Dict ℕ) (last t : ℕ) (ks : List ℕ)
    → IsSorted le ks
    → 0 < t
    → t ≤ 2 * counted d ks
    → IsMedian (median_loop d last t ks) t d ks
unfolding median_loop
median_loop-IsMedian d last t [] s pos h = absurd (omega arith)
median_loop-IsMedian d last t (k ∷ ks) s pos h = elim (Bool-cases (leb t (2 * get k 0 d))) [
  | inl stop ↦
      let here : IsMedian k t d (k ∷ ks) =
        (ground arith, ground (arith, below_none k d ks (le-ge k ks s.0)), ground arith) in
      subst (λ r. IsMedian r t d (k ∷ ks)) (sym (median_stops d last t k ks stop)) here
  | inr go ↦
      let r = median_loop d k (t - 2 * get k 0 d) ks in
      let (mem, low, high) =
        median_loop-IsMedian d k (t - 2 * get k 0 d) ks s.1 (ground arith) (ground arith) in
      let over = All-member (λ j. k ≤ j) r ks mem (le-ge k ks s.0) in
      subst (λ r. IsMedian r t d (k ∷ ks)) (sym (median_goes d last t k ks go))
        (IsMedian-step d t r k ks (ground arith) mem low high over)
]

-- The median of `n` counted response times, one or more, is one of the counted values: less than
-- half of them are below it, and at least half of them are not above it.
pub median_from_dict-IsMedian :
    (d : Dict ℕ) (n : ℕ)
    → counted d (keys d) ≡ n
    → 0 < n
    → IsMedian (median_from_dict n d) n d (keys d)
unfolding median_from_dict
median_from_dict-IsMedian d n e pos =
    let r = median_from_dict n d in
    let ks = sorted_by le (keys d) in
    let same = sum_by-sorted_by le (λ k. get k 0 d) (keys d) in
    let (mem, low, high) =
      median_loop-IsMedian d 0 n ks (sorted_by-IsSorted le le-IsOrder (keys d)) pos
        (omega (arith, same)) in
    (
      member-sorted_by le r (keys d) mem,
      omega (arith, low, sum_by-sorted_by le (λ k. if ltb k r then get k 0 d else 0) (keys d)),
      omega (arith, high, sum_by-sorted_by le (λ k. if leb k r then get k 0 d else 0) (keys d)),
    )
