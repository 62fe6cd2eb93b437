-- ===== src/Stats/Entry/Current.antt =====
-- The current percentile of locust/stats.py: `diff_response_time_dicts`, and
-- `StatsEntry.get_current_response_time_percentile` with its choice of a copy from the cache.
use locust.Base.{
  ℕ, zero, suc, ◌+◌, ◌-◌, Option, none, some, List, [], ◌∷◌, ◌==◌, ltb, if◌then◌else◌,
}
use locust.Base.Dict.{Dict, get, lookup}
use locust.Stats.Quantiles.{calculate_response_time_percentile}
use locust.Stats.Entry.{CachedResponseTimes, StatsEntry, second}

-- A count that is not the same is kept; one that has fallen, which would be kept as a negative
-- number, is not followed, and gives `none`.
unfoldable pub diff_response_time_dicts : (latest old : Dict ℕ) → Option (Dict ℕ)
diff_response_time_dicts [] old = some []
diff_response_time_dicts (e ∷ latest) old = elim (diff_response_time_dicts latest old) [
  | none ↦ none
  | some new ↦
      if ltb e.1 (get e.0 0 old)
      then none
      else if e.1 == get e.0 0 old
      then some new
      else some ((e.0, e.1 - get e.0 0 old) ∷ new)
]

-- CURRENT_RESPONSE_TIME_PERCENTILE_WINDOW
abbrev pub window : ℕ
window = 10

-- The loop that appends two seconds for each of `n` distances, from `i` on.
abbrev pub around : (t i n : ℕ) → List ℕ
around t i zero = []
around t i (suc n) = (t - window - i) ∷ (t - window + i) ∷ around t (i + 1) n

-- `t` is a second of the clock, far above the window.
unfoldable pub acceptable_timestamps : (t : ℕ) → List ℕ
acceptable_timestamps t = (t - window) ∷ around t 1 8

unfoldable pub find_cached : List ℕ → Dict CachedResponseTimes → Option CachedResponseTimes
find_cached [] cache = none
find_cached (t ∷ ts) cache = elim (lookup t cache) [
  | none ↦ find_cached ts cache
  | some cached ↦ some cached
]

abbrev pub cached_for : (now : ℕ) → StatsEntry → Option CachedResponseTimes
cached_for now e = elim e.response_times_cache [
  | none ↦ none
  | some cache ↦ find_cached (acceptable_timestamps (second now)) cache
]

abbrev pub since : StatsEntry → CachedResponseTimes → ℕ
since e c = e.num_requests - e.num_none_requests - (c.num_requests - c.num_none_requests)

-- The outer `none` is the ValueError, or a count that has fallen. `rank` is as for the percentile of
-- all requests.
unfoldable pub get_current_response_time_percentile :
    (rank : ℕ → ℕ) (now : ℕ) → StatsEntry → Option (Option ℕ)
unfolding diff_response_time_dicts find_cached acceptable_timestamps
    calculate_response_time_percentile
get_current_response_time_percentile rank now e =
    if e.use_response_times_cache
    then elim (cached_for now e) [
      | none ↦ some none
      | some c ↦ elim (diff_response_time_dicts e.response_times c.response_times) [
        | none ↦ none
        | some new ↦
            some (some (calculate_response_time_percentile new (since e c) (rank (since e c))))
      ]
    ]
    else none
