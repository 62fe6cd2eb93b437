-- ===== src/Stats/Rounding.antt =====
-- `bucket_response_time` of locust/stats.py: for response times that are floats, in microseconds, and
-- for those that are whole milliseconds, as they are where they are logged here.
use locust.Base.{
  ℕ, ◌+◌, ◌*◌, ◌/◌, ◌%◌, ◌≤◌, ◌<◌, ◌≡◌, refl, arith, ltb, ◌==◌, ◌⊎◌, inl, inr, Bool-cases,
  if◌then◌else◌,
}

-- `round(n, -k)` for a whole number, with unit = 10 ** k: the nearest multiple of the unit, and the
-- even one of two that are as near.
unfoldable pub round_to : (unit n : ℕ) → ℕ
round_to unit n =
    let q = n / unit in
    let r = n % unit in
    if ltb (2 * r) unit
    then q * unit
    else if ltb unit (2 * r)
    then (q + 1) * unit
    else if q % 2 == 0
    then q * unit
    else (q + 1) * unit

unfoldable pub bucket_response_time : ℕ → ℕ
unfolding round_to
bucket_response_time n =
    if ltb n 100
    then n
    else if ltb n 1000
    then round_to 10 n
    else if ltb n 10000
    then round_to 100 n
    else round_to 1000 n

-- The same of a float, in microseconds; `round` gives whole milliseconds under 100.
unfoldable pub bucket_float_response_time : ℕ → ℕ
unfolding round_to
bucket_float_response_time t =
    let rounded =
      if ltb t 100000
      then round_to 1000 t
      else if ltb t 1000000
      then round_to 10000 t
      else if ltb t 10000000
      then round_to 100000 t
      else round_to 1000000 t in
    rounded / 1000

-- Rounding is off by half a unit at most.
abbrev IsNear : (unit n m : ℕ) → Type 0
IsNear unit n m = (2 * m ≤ 2 * n + unit) × (2 * n ≤ 2 * m + unit) × (m % 1000 ≡ 0)

units-IsNear : (t : ℕ) → IsNear 1000 t (round_to 1000 t)
unfolding round_to
units-IsNear t = ground arith

tens-IsNear : (t : ℕ) → IsNear 10000 t (round_to 10000 t)
unfolding round_to
tens-IsNear t = ground arith

hundreds-IsNear : (t : ℕ) → IsNear 100000 t (round_to 100000 t)
unfolding round_to
hundreds-IsNear t = ground arith

thousands-IsNear : (t : ℕ) → IsNear 1000000 t (round_to 1000000 t)
unfolding round_to
thousands-IsNear t = ground arith

-- A whole number of milliseconds is rounded as it is in microseconds.
whole : (n : ℕ) → round_to 1000 (n * 1000) ≡ n * 1000
unfolding round_to
whole n = ground arith

whole_tens : (n : ℕ) → round_to 10000 (n * 1000) ≡ round_to 10 n * 1000
unfolding round_to
whole_tens n = ground arith

whole_hundreds : (n : ℕ) → round_to 100000 (n * 1000) ≡ round_to 100 n * 1000
unfolding round_to
whole_hundreds n = ground arith

whole_thousands : (n : ℕ) → round_to 1000000 (n * 1000) ≡ round_to 1000 n * 1000
unfolding round_to
whole_thousands n = ground arith

-- The same function, with the rounding named.
by_range :
    (n : ℕ)
    → bucket_response_time n ≡ (
        if ltb n 100
        then n
        else if ltb n 1000
        then round_to 10 n
        else if ltb n 10000
        then round_to 100 n
        else round_to 1000 n)
unfolding bucket_response_time
by_range n = refl

finer_tests :
    (n : ℕ)
    → (ltb (n * 1000) 100000 ≡ ltb n 100)
      × (ltb (n * 1000) 1000000 ≡ ltb n 1000)
      × (ltb (n * 1000) 10000000 ≡ ltb n 10000)
finer_tests n = (ground arith, ground arith, ground arith)

float_by_range :
    (t : ℕ)
    → bucket_float_response_time t
      ≡ (if ltb t 100000
          then round_to 1000 t
          else if ltb t 1000000
          then round_to 10000 t
          else if ltb t 10000000
          then round_to 100000 t
          else round_to 1000000 t)
        / 1000
unfolding bucket_float_response_time
float_by_range t = refl

under_near :
    (t : ℕ)
    → t < 100000
    → (2000 * bucket_float_response_time t ≤ 2 * t + 1000)
      × (2 * t ≤ 2000 * bucket_float_response_time t + 1000)
under_near t h = rw float_by_range (ground (arith, units-IsNear t))

over_near :
    (t : ℕ)
    → 100000 ≤ t
    → (20000 * bucket_float_response_time t ≤ 21 * t)
      × (19 * t ≤ 20000 * bucket_float_response_time t)
over_near t h =
    rw float_by_range (ground (arith, tens-IsNear t, hundreds-IsNear t, thousands-IsNear t))

bucket_float_response_time-whole :
    (n : ℕ) → bucket_float_response_time (n * 1000) ≡ bucket_response_time n
bucket_float_response_time-whole n =
    let (small, middle, large) = finer_tests n in
    rw
      (
        float_by_range,
        by_range n,
        small,
        middle,
        large,
        whole n,
        whole_tens n,
        whole_hundreds n,
        whole_thousands n,
      )
      (ground arith)

-- The bucket of a response time, in microseconds, is off by half a millisecond at most under 100
-- milliseconds, and from there on by a twentieth of it at most; a whole number of milliseconds falls
-- into the same bucket whether it is a float or not.
pub bucket_response_time-near :
    (t : ℕ)
    → ((t < 100000)
          × (2000 * bucket_float_response_time t ≤ 2 * t + 1000)
          × (2 * t ≤ 2000 * bucket_float_response_time t + 1000)
        ⊎ (100000 ≤ t)
          × (20000 * bucket_float_response_time t ≤ 21 * t)
          × (19 * t ≤ 20000 * bucket_float_response_time t))
      × ((n : ℕ) → bucket_float_response_time (n * 1000) ≡ bucket_response_time n)
bucket_response_time-near t = elim (Bool-cases (ltb t 100000)) [
  | inl under ↦
      let h : t < 100000 = ground (arith, under) in
      let (above, below) = under_near t h in
      (inl (h, above, below), bucket_float_response_time-whole)
  | inr over ↦
      let h : 100000 ≤ t = ground (arith, over) in
      let (above, below) = over_near t h in
      (inr (h, above, below), bucket_float_response_time-whole)
]

round_to_ten : (n m : ℕ) → n ≤ m → round_to 10 n ≤ round_to 10 m
unfolding round_to
round_to_ten n m h = ground arith

round_to_hundred : (n m : ℕ) → n ≤ m → round_to 100 n ≤ round_to 100 m
unfolding round_to
round_to_hundred n m h = ground arith

round_to_thousand : (n m : ℕ) → n ≤ m → round_to 1000 n ≤ round_to 1000 m
unfolding round_to
round_to_thousand n m h = ground arith

-- Each range of response times is rounded into the same range, its upper end included.
tens : (n : ℕ) → 100 ≤ n → n < 1000 → (100 ≤ round_to 10 n) × (round_to 10 n ≤ 1000)
unfolding round_to
tens n low high = ground arith

hundreds : (n : ℕ) → 1000 ≤ n → n < 10000 → (1000 ≤ round_to 100 n) × (round_to 100 n ≤ 10000)
unfolding round_to
hundreds n low high = ground arith

thousands : (n : ℕ) → 10000 ≤ n → 10000 ≤ round_to 1000 n
unfolding round_to
thousands n low = ground arith

-- A longer response time never falls into a lower bucket.
pub bucket_response_time_mono : (n m : ℕ) → n ≤ m → bucket_response_time n ≤ bucket_response_time m
bucket_response_time_mono n m h =
    rw (by_range n, by_range m)
      (ground (
        arith,
        round_to_ten n m,
        round_to_hundred n m,
        round_to_thousand n m,
        tens n,
        tens m,
        hundreds n,
        hundreds m,
        thousands m,
      ))

round_to_multiple :
    (n : ℕ) → (round_to 10 n % 10 ≡ 0) × (round_to 100 n % 100 ≡ 0) × (round_to 1000 n % 1000 ≡ 0)
unfolding round_to
round_to_multiple n = ground arith

round_to_fixed :
    (n : ℕ)
    → (n % 10 ≡ 0 → round_to 10 n ≡ n)
      × (n % 100 ≡ 0 → round_to 100 n ≡ n)
      × (n % 1000 ≡ 0 → round_to 1000 n ≡ n)
unfolding round_to
round_to_fixed n = (λ h. ground arith, λ h. ground arith, λ h. ground arith)

tens_fixed : (b : ℕ) → 100 ≤ b → b ≤ 1000 → b % 10 ≡ 0 → bucket_response_time b ≡ b
tens_fixed b low high h = rw by_range (ground (arith, (round_to_fixed b).0 h, (round_to_fixed b).1))

hundreds_fixed : (b : ℕ) → 1000 ≤ b → b ≤ 10000 → b % 100 ≡ 0 → bucket_response_time b ≡ b
hundreds_fixed b low high h =
    rw by_range (ground (arith, (round_to_fixed b).1 h, (round_to_fixed b).2))

thousands_fixed : (b : ℕ) → 10000 ≤ b → b % 1000 ≡ 0 → bucket_response_time b ≡ b
thousands_fixed b low h = rw by_range (ground (arith, (round_to_fixed b).2 h))

small_fixed : (b : ℕ) → b < 100 → bucket_response_time b ≡ b
small_fixed b h = rw by_range (ground arith)

-- Bucketing a bucket changes nothing, so a report that is bucketed again keeps its keys.
pub bucket_response_time_idem :
    (n : ℕ) → bucket_response_time (bucket_response_time n) ≡ bucket_response_time n
bucket_response_time_idem n =
    let m = round_to_multiple n in
    rw (by_range n) (
      ground (
        arith,
        tens n,
        hundreds n,
        thousands n,
        small_fixed n,
        tens_fixed (round_to 10 n),
        hundreds_fixed (round_to 100 n),
        thousands_fixed (round_to 1000 n),
      ))
