-- ===== src/Stats/Entry/Recent.antt =====
-- The current percentile of locust/stats.py is one of the requests since the copy in the cache.
use locust.Base.{
  ℕ, suc, ◌+◌, ◌≤◌, ◌<◌, ◌≡◌, refl, sym, ap, ◌∙◌, Bool, true, false, some, List, [], ◌∷◌, ◌++◌,
  ◌==◌, ltb, leb, if◌then◌else◌, arith, sum_by, length, length-append, Bool-cases, inl, inr, ==→eq,
}
use locust.Base.Dict.{Dict, get, keys, contains, IsDict}
use locust.Stats.Rounding.{bucket_response_time}
use locust.Stats.Quantiles.{
  calculate_response_time_percentile, calculate_response_time_percentile-IsPercentile,
}
use locust.Stats.Entry.{CachedResponseTimes, StatsEntry}
use locust.Stats.Entry.Counts.{counts, counts-keys}
use locust.Stats.Entry.Represents.{Event, Represents, times, bucketed}
use locust.Stats.Entry.Reports.{times-append, count_by-append}
use locust.Stats.Entry.Answers.{fewer, reaching, count_by_all}
use locust.Stats.Entry.Current.{
  diff_response_time_dicts, cached_for, since, get_current_response_time_percentile,
}

no_clash : ¬ (false ≡ true)
no_clash e = cc

-- How many of some response times have a bucket.
abbrev pub in_bucket : List ℕ → ℕ → ℕ
in_bucket ts k = bucketed (λ j. k == j) ts

absent : (k : ℕ) (d : Dict ℕ) → contains k d ≡ false → counts (λ j. k == j) d ≡ 0
absent k [] h = refl
absent k (e ∷ d) h = ground (arith, absent k d)

get-counts : (k : ℕ) (d : Dict ℕ) → IsDict d → get k 0 d ≡ counts (λ j. k == j) d
get-counts k [] h = refl
get-counts k (e ∷ d) h = elim (Bool-cases (k == e.0)) [
  | inl same ↦ ground (arith, same, absent e.0 d h.0, ==→eq k e.0 same)
  | inr other ↦ ground (arith, other, get-counts k d h.1)
]

-- The entries whose count is not zero, with another count.
kept : (ℕ → ℕ) → Dict ℕ → Dict ℕ
kept b [] = []
kept b (e ∷ d) = if b e.0 == 0 then kept b d else (e.0, b e.0) ∷ kept b d

get-tail :
    (e : ℕ × ℕ) (d : Dict ℕ) (k : ℕ)
    → contains e.0 d ≡ false
    → contains k d ≡ true
    → (contains k (e ∷ d) ≡ true) × (get k 0 (e ∷ d) ≡ get k 0 d)
get-tail e d k h c = elim (Bool-cases (k == e.0)) [
  | inl same ↦ absurd (no_clash (sym h ∙ (ap (λ j. contains j d) (sym (==→eq k e.0 same)) ∙ c)))
  | inr other ↦ ground (arith, other, c)
]

diff-kept :
    (b : ℕ → ℕ) (old d : Dict ℕ)
    → IsDict d
    → ((k : ℕ) → contains k d ≡ true → get k 0 d ≡ b k + get k 0 old)
    → diff_response_time_dicts d old ≡ some (kept b d)
unfolding diff_response_time_dicts kept
diff-kept b old [] h g = refl
diff-kept b old (e ∷ d) h g =
    rw (diff-kept b old d h.1 (λ k c. let (has, same) = get-tail e d k h.0 c in sym same ∙ g k has))
      (ground (arith, g e.0))

contains-kept :
    (b : ℕ → ℕ) (k : ℕ) (d : Dict ℕ) → contains k d ≡ false → contains k (kept b d) ≡ false
unfolding kept
contains-kept b k [] h = refl
contains-kept b k (e ∷ d) h = ground (arith, contains-kept b k d)

kept-IsDict : (b : ℕ → ℕ) (d : Dict ℕ) → IsDict d → IsDict (kept b d)
unfolding kept
kept-IsDict b [] h = tt
kept-IsDict b (e ∷ d) h = ground (arith, kept-IsDict b d h.1, contains-kept b e.0 d h.0)

abbrev chosen : (ℕ → Bool) → (ℕ → ℕ) → Dict ℕ → ℕ
chosen p b d = sum_by (λ k. if p k then b k else 0) (keys d)

counts-kept : (p : ℕ → Bool) (b : ℕ → ℕ) (d : Dict ℕ) → counts p (kept b d) ≡ chosen p b d
unfolding kept
counts-kept p b [] = refl
counts-kept p b (e ∷ d) = ground (arith, counts-kept p b d)

chosen_none : (p : ℕ → Bool) (d : Dict ℕ) → chosen p (λ k. 0) d ≡ 0
chosen_none p [] = refl
chosen_none p (e ∷ d) = ground (arith, chosen_none p d)

abbrev one_at : ℕ → ℕ → ℕ
one_at x k = if k == x then 1 else 0

chosen_absent :
    (p : ℕ → Bool) (x : ℕ) (d : Dict ℕ) → contains x d ≡ false → chosen p (one_at x) d ≡ 0
chosen_absent p x [] h = refl
chosen_absent p x (e ∷ d) h = ground (arith, chosen_absent p x d)

chosen_once :
    (p : ℕ → Bool) (x : ℕ) (d : Dict ℕ)
    → IsDict d
    → contains x d ≡ true
    → chosen p (one_at x) d ≡ (if p x then 1 else 0)
chosen_once p x [] h c = cc
chosen_once p x (e ∷ d) h c = elim (Bool-cases (x == e.0)) [
  | inl same ↦ ground (arith, same, chosen_absent p e.0 d h.0, ==→eq x e.0 same)
  | inr other ↦ ground (arith, other, chosen_once p x d h.1)
]

chosen_more :
    (p : ℕ → Bool) (x : ℕ) (b : ℕ → ℕ) (d : Dict ℕ)
    → chosen p (λ k. if k == x then suc (b k) else b k) d ≡ chosen p (one_at x) d + chosen p b d
chosen_more p x b [] = refl
chosen_more p x b (e ∷ d) = ground (arith, chosen_more p x b d)

chosen-bucketed :
    (p : ℕ → Bool) (d : Dict ℕ) (ts : List ℕ)
    → IsDict d
    → ((k : ℕ) → 0 < in_bucket ts k → contains k d ≡ true)
    → chosen p (in_bucket ts) d ≡ bucketed p ts
chosen-bucketed p d [] h g = chosen_none p d
chosen-bucketed p d (t ∷ ts) h g =
    let x = bucket_response_time t in
    let here = chosen_once p x d h (g x (ground arith)) in
    let rest = chosen-bucketed p d ts h (λ k pos. g k (ground (arith, pos))) in
    chosen_more p x (in_bucket ts) d ∙ ground (arith, here, rest)

abbrev pub copy : StatsEntry → CachedResponseTimes
copy e = record {
  response_times = e.response_times;
  num_requests = e.num_requests;
  num_none_requests = e.num_none_requests;
}

module _ (es before : List Event) (e old : StatsEntry) (r : Represents (es ++ before) e)
    (r0 : Represents before old) where
  recent : Dict ℕ
  recent = kept (in_bucket (times es)) e.response_times

  all_bucketed :
      (p : ℕ → Bool)
      → counts p e.response_times ≡ bucketed p (times es) + counts p old.response_times
  all_bucketed p = omega (
    arith,
    r.histogram p,
    ap (bucketed p) (times-append es before),
    count_by-append (λ t. p (bucket_response_time t)) (times es) (times before),
    r0.histogram p,
  )

  get-recent :
      (k : ℕ) → get k 0 e.response_times ≡ in_bucket (times es) k + get k 0 old.response_times
  get-recent k = omega (
    arith,
    get-counts k e.response_times r.dict,
    get-counts k old.response_times r0.dict,
    all_bucketed (λ j. k == j),
  )

  diff-recent : diff_response_time_dicts e.response_times old.response_times ≡ some recent
  unfolding recent
  diff-recent = diff-kept _ old.response_times e.response_times r.dict (λ k c. get-recent k)

  contains-recent : (k : ℕ) → 0 < in_bucket (times es) k → contains k e.response_times ≡ true
  contains-recent k pos = ground (arith, get-recent k)

  recent-IsDict : IsDict recent
  unfolding recent
  recent-IsDict = kept-IsDict _ e.response_times r.dict

  counts-recent :
      (p : ℕ → Bool)
      → sum_by (λ k. if p k then get k 0 recent else 0) (keys recent) ≡ bucketed p (times es)
  unfolding recent
  counts-recent p =
      counts-keys p recent recent-IsDict
      ∙ (counts-kept p _ e.response_times
          ∙ chosen-bucketed p e.response_times (times es) r.dict contains-recent)

  since-recent : since e (copy old) ≡ length (times es)
  since-recent = omega (
    arith,
    r.none_requests,
    r0.none_requests,
    ap length (times-append es before),
    length-append (times es) (times before),
  )

  percentile-recent :
      (m : ℕ)
      → m < length (times es)
      → let p = calculate_response_time_percentile recent (length (times es)) m in
        (fewer p (times es) ≤ m) × (m < reaching p (times es))
  percentile-recent m h =
      let n = length (times es) in
      let p = calculate_response_time_percentile recent n m in
      let (mem, low, high) =
        calculate_response_time_percentile-IsPercentile recent n m
          (counts-recent (λ k. true) ∙ count_by_all (times es)) h in
      (
        omega (arith, low, counts-recent (λ k. ltb k p)),
        omega (arith, high, counts-recent (λ k. leb k p)),
      )

-- An entry with a cache stands for some events, and the copy that is chosen from its cache is that of
-- an entry that stood for the events before the last ones, `es`. Then, for a rank below the number
-- of response times of `es`, there is a current percentile: at most that many of these response
-- times have a bucket below it, and more have one that is not above it.
pub get_current_response_time_percentile-fewer :
    (es before : List Event) (e old : StatsEntry) (rank : ℕ → ℕ) (now : ℕ)
    → Represents (es ++ before) e
    → Represents before old
    → e.use_response_times_cache ≡ true
    → cached_for now e ≡ some (copy old)
    → rank (length (times es)) < length (times es)
    → (p : ℕ) × (get_current_response_time_percentile rank now e ≡ some (some p))
      × (fewer p (times es) ≤ rank (length (times es)))
      × (rank (length (times es)) < reaching p (times es))
unfolding get_current_response_time_percentile
get_current_response_time_percentile-fewer es before e old rank now r r0 cached found h =
    let n = length (times es) in
    let d = recent es before e old r r0 in
    let (low, high) = percentile-recent es before e old r r0 (rank n) h in
    (
      calculate_response_time_percentile d n (rank n),
      rw (cached, found, diff-recent es before e old r r0, since-recent es before e old r r0) refl,
      low,
      high,
    )
