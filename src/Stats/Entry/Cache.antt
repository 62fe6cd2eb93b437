-- ===== src/Stats/Entry/Cache.antt =====
-- The cache of a `StatsEntry` of locust/stats.py.
use locust.Base.{
  ℕ, zero, suc, ◌+◌, ◌-◌, ◌≤◌, ◌≡◌, Bool, true, false, Option, none, some, List, [], ◌∷◌, arith,
  ltb, if◌then◌else◌, length, drop, ◌&&◌,
}
use locust.Base.Dict.{Dict, insert}
use locust.Stats.Entry.{
  CachedResponseTimes, StatsEntry, second, second_or_zero, cache_size, cache_response_times, reset,
  log, extend, merged, enters_second, cleared, log_error, log_response_time, log_time_of_request,
  is_later, or_empty,
}

-- The cache holds at most twenty copies.
abbrev pub IsBounded : StatsEntry → Type 0
IsBounded e = length (or_empty e.response_times_cache) ≤ cache_size

length-drop {ℓ} : {A : Type ℓ} (n : ℕ) (xs : List A) → length (drop n xs) ≡ length xs - n
length-drop zero xs = omega arith
length-drop (suc n) [] = omega arith
length-drop (suc n) (x ∷ xs) = omega (arith, length-drop n xs)

trimmed :
    (cache : Dict CachedResponseTimes)
    → length
        (if ltb cache_size (length cache) then drop (length cache - cache_size) cache else cache)
      ≤ cache_size
trimmed cache = ground (arith, length-drop (length cache - cache_size) cache)

pub cache_response_times-IsBounded : (t : ℕ) (e : StatsEntry) → IsBounded (cache_response_times t e)
unfolding cache_response_times
cache_response_times-IsBounded t e = trimmed (
    insert t
      (record {
        response_times = e.response_times;
        num_requests = e.num_requests;
        num_none_requests = e.num_none_requests;
      })
      (or_empty e.response_times_cache))

if-IsBounded :
    (b : Bool) (e e' : StatsEntry) → IsBounded e → IsBounded e' → IsBounded (if b then e else e')
if-IsBounded true e e' h h' = h
if-IsBounded false e e' h h' = h'

log_response_time-IsBounded :
    (t : Option ℕ) (e : StatsEntry) → IsBounded e → IsBounded (log_response_time t e)
unfolding log_response_time
log_response_time-IsBounded none e h = h
log_response_time-IsBounded (some t) e h = h

log-IsBounded :
    (now : ℕ) (t : Option ℕ) (c : ℕ) (e : StatsEntry) → IsBounded e → IsBounded (log now t c e)
unfolding log log_time_of_request
log-IsBounded now t c e h =
    let e' =
      if e.use_response_times_cache && is_later (second now) e.last_request_timestamp
      then cache_response_times (second now - 1) e
      else e in
    let counted = record e' { num_requests = e'.num_requests + 1 } in
    log_response_time-IsBounded t (log_time_of_request now counted) (
      if-IsBounded (e.use_response_times_cache && is_later (second now) e.last_request_timestamp)
        (cache_response_times (second now - 1) e) e
        (cache_response_times-IsBounded (second now - 1) e) h)

merged-IsBounded : (e other : StatsEntry) → IsBounded e → IsBounded (merged e other)
unfolding merged
merged-IsBounded e other h = h

extend-IsBounded : (e other : StatsEntry) → IsBounded e → IsBounded (extend e other)
unfolding extend
extend-IsBounded e other h =
    let last_time = second_or_zero (merged e other).last_request_timestamp in
    if-IsBounded (e.use_response_times_cache && enters_second e other)
      (cache_response_times last_time (merged e other)) (merged e other)
      (cache_response_times-IsBounded last_time (merged e other)) (merged-IsBounded e other h)

reset-IsBounded : (now now' : ℕ) (e : StatsEntry) → IsBounded e → IsBounded (reset now now' e)
unfolding reset cleared
reset-IsBounded now now' e h =
    let emptied = record (cleared now e) { response_times_cache = some [] } in
    if-IsBounded e.use_response_times_cache (cache_response_times (second now') emptied)
      (cleared now e) (cache_response_times-IsBounded (second now') emptied) h

-- What changes a cache, one step at a time.
pub data Step : StatsEntry → StatsEntry → Type 0 where
  logged : (now : ℕ) (t : Option ℕ) (c : ℕ) (e : StatsEntry) → Step e (log now t c e)
  failed : (now : ℕ) (e : StatsEntry) → Step e (log_error now e)
  extended : (e other : StatsEntry) → Step e (extend e other)
  emptied : (now now' : ℕ) (e : StatsEntry) → Step e (reset now now' e)

pub data Steps : StatsEntry → StatsEntry → Type 0 where
  stay : (e : StatsEntry) → Steps e e
  then_step : (e f g : StatsEntry) → Steps e f → Step f g → Steps e g

Step-IsBounded : (e f : StatsEntry) → Step e f → IsBounded e → IsBounded f
unfolding log_error
Step-IsBounded e f (logged now t c _) h = log-IsBounded now t c e h
Step-IsBounded e f (failed now _) h = h
Step-IsBounded e f (extended _ other) h = extend-IsBounded e other h
Step-IsBounded e f (emptied now now' _) h = reset-IsBounded now now' e h

-- Whatever sequence of `log`, `log_error`, `extend` and `reset` an entry goes through, its cache
-- holds at most twenty copies, where it did at first.
pub Steps-IsBounded : (e f : StatsEntry) → Steps e f → IsBounded e → IsBounded f
Steps-IsBounded e f (stay _) h = h
Steps-IsBounded e f (then_step _ m _ steps step) h =
    Step-IsBounded m f step (Steps-IsBounded e m steps h)
