-- ===== src/Stats/Entry/Answers.antt =====
-- What the quantiles of a `StatsEntry` of locust/stats.py say of the logged requests.
use mathlib.Core.Path.{subst, sym}
use locust.Base.{
  ◌∙◌, ℕ, suc, ◌-◌, ◌*◌, ◌≤◌, ◌<◌, ◌≡◌, refl, ap, min, true, Option, none, some, List, [], ◌∷◌,
  arith, ◌==◌, ltb, leb, if◌then◌else◌, length, Bool-cases, inl, inr, ==→eq,
}
use locust.Base.Dict.{Dict, keys}
use locust.Stats.Rounding.{
  bucket_response_time, bucket_response_time_mono, bucket_response_time_idem,
}
use locust.Stats.Quantiles.{
  counted, below, at_most, calculate_response_time_percentile-IsPercentile,
  median_from_dict-IsMedian, median_from_dict,
}
use locust.Stats.Entry.{StatsEntry, median_response_time, get_response_time_percentile, min_of}
use locust.Stats.Entry.Counts.{counts-keys}
use locust.Stats.Entry.Represents.{Event, Represents, times, least, greatest, bucketed}

-- How many of some response times have a bucket below a value, and one that does not pass it.
abbrev pub fewer : ℕ → List ℕ → ℕ
fewer r = bucketed (λ k. ltb k r)

abbrev pub reaching : ℕ → List ℕ → ℕ
reaching r = bucketed (λ k. leb k r)

pub count_by_all : (ts : List ℕ) → bucketed (λ k. true) ts ≡ length ts
count_by_all [] = refl
count_by_all (t ∷ ts) = ap suc (count_by_all ts)

module _ (es : List Event) (e : StatsEntry) (r : Represents es e) where
  counted-times : counted e.response_times (keys e.response_times) ≡ length (times es)
  counted-times =
      counts-keys (λ k. true) e.response_times r.dict
      ∙ (r.histogram (λ k. true) ∙ count_by_all (times es))

  below-fewer : (q : ℕ) → below q e.response_times (keys e.response_times) ≡ fewer q (times es)
  below-fewer q = counts-keys (λ k. ltb k q) e.response_times r.dict ∙ r.histogram (λ k. ltb k q)

  at_most-reaching :
      (q : ℕ) → at_most q e.response_times (keys e.response_times) ≡ reaching q (times es)
  at_most-reaching q =
      counts-keys (λ k. leb k q) e.response_times r.dict ∙ r.histogram (λ k. leb k q)

  timed : e.num_requests - e.num_none_requests ≡ length (times es)
  timed = omega (arith, r.none_requests)

-- Of an entry that stands for `n` response times, and a rank below `n`: at most that many of the
-- response times have a bucket below the percentile, and more have one that is not above it.
pub get_response_time_percentile-fewer :
    (es : List Event) (e : StatsEntry) (rank : ℕ → ℕ)
    → Represents es e
    → rank (length (times es)) < length (times es)
    → let p = get_response_time_percentile rank e in
      (fewer p (times es) ≤ rank (length (times es)))
      × (rank (length (times es)) < reaching p (times es))
unfolding get_response_time_percentile
get_response_time_percentile-fewer es e rank r h =
    let n = e.num_requests - e.num_none_requests in
    let same = timed es e r in
    let p = get_response_time_percentile rank e in
    let (mem, low, high) =
      calculate_response_time_percentile-IsPercentile e.response_times n (rank n)
        (counted-times es e r ∙ sym same) (subst (λ m. rank m < m) (sym same) h) in
    (
      subst (λ m. fewer p (times es) ≤ rank m) same (omega (arith, low, below-fewer es e r p)),
      subst (λ m. rank m < reaching p (times es)) same
          (omega (arith, high, at_most-reaching es e r p)),
    )

abbrev first_least : ℕ → Option ℕ → ℕ
first_least s none = s
first_least s (some l) = min l s

first_least_lem : (s : ℕ) (o : Option ℕ) → min_of o (some s) ≡ some (first_least s o)
unfolding min_of
first_least_lem s none = refl
first_least_lem s (some l) = refl

first_least_le : (s : ℕ) (o : Option ℕ) → first_least s o ≤ s
first_least_le s none = omega arith
first_least_le s (some l) = omega arith

-- A value that fewer response times are below than reach it is the bucket of one of them.
attained :
    (q : ℕ) (ts : List ℕ)
    → fewer q ts < reaching q ts
    → (t l : ℕ) × (bucket_response_time t ≡ q) × (t ≤ greatest ts) × (least ts ≡ some l) × (l ≤ t)
unfolding least min_of
attained q [] h = absurd (omega arith)
attained q (s ∷ ts) h = elim (Bool-cases (bucket_response_time s == q)) [
  | inl same ↦ (
    s,
    first_least s (least ts),
    ==→eq (bucket_response_time s) q same,
    omega arith,
    first_least_lem s (least ts),
    first_least_le s (least ts),
  )
  | inr other ↦
      let (t, l, e, high, low, le) = attained q ts (ground arith) in
      (t, min l s, e, omega (arith, high), ap (λ o. min_of o (some s)) low, omega (arith, le))
]

-- A value between the least and the greatest, moved into the range, keeps its bucket.
clamp_keeps :
    (q t low high m : ℕ)
    → bucket_response_time t ≡ q
    → low ≤ t
    → t ≤ high
    → m ≡ (if ltb high q then high else if ltb q low then low else q)
    → (bucket_response_time m ≡ q) × (low ≤ m) × (m ≤ high)
clamp_keeps q t low high m e hl hh c = ground (
  arith,
  bucket_response_time_idem t,
  bucket_response_time_mono t high hh,
  bucket_response_time_mono low t hl,
  bucket_response_time_mono high q,
  bucket_response_time_mono q low,
)

-- The clamp, where a least response time is known.
median_clamped :
    (e : StatsEntry) (low : ℕ)
    → e.min_response_time ≡ some low
    → 0 < length e.response_times
    → let q = median_from_dict (e.num_requests - e.num_none_requests) e.response_times in
      median_response_time e
      ≡ (if ltb e.max_response_time q then e.max_response_time else if ltb q low then low else q)
unfolding median_response_time
median_clamped e low h some_key = ground (arith, h)

some_key : (d : Dict ℕ) → 0 < counted d (keys d) → 0 < length d
some_key [] h = absurd (omega arith)
some_key (e ∷ d) h = omega arith

-- The median of an entry that stands for some response times lies between the least and the
-- greatest of them; less than half of them have a bucket below its own, and at least half have one
-- that is not above.
pub median_response_time-fewer :
    (es : List Event) (e : StatsEntry)
    → Represents es e
    → 0 < length (times es)
    → let m = median_response_time e in
      (low : ℕ) × (least (times es) ≡ some low)
      × (low ≤ m)
      × (m ≤ greatest (times es))
      × (2 * fewer (bucket_response_time m) (times es) < length (times es))
      × (length (times es) ≤ 2 * reaching (bucket_response_time m) (times es))
median_response_time-fewer es e r pos =
    let n = e.num_requests - e.num_none_requests in
    let same = timed es e r in
    let q = median_from_dict n e.response_times in
    let (mem, below_half, half) =
      median_from_dict-IsMedian e.response_times n (counted-times es e r ∙ sym same)
        (omega (arith, same)) in
    let few = below-fewer es e r q in
    let many = at_most-reaching es e r q in
    let (t, low, bucket, high, least_low, low_t) =
      attained q (times es) (omega (arith, few, many, below_half, half)) in
    let clamp =
      median_clamped e low (r.low ∙ least_low)
        (some_key e.response_times (omega (arith, counted-times es e r))) in
    let (keeps, above, under) =
      clamp_keeps q t low e.max_response_time (median_response_time e) bucket low_t
        (omega (arith, high, r.high)) clamp in
    (
      low,
      least_low,
      above,
      omega (arith, under, r.high),
      rw keeps (omega (arith, few, below_half, same)),
      rw keeps (omega (arith, many, half, same)),
    )
