-- ===== src/Stats/Entry.antt =====
-- `class StatsEntry` of locust/stats.py: its attributes and the methods that change them.
-- A time is in whole microseconds, and is passed to the methods that read the clock. Names and
-- methods are numbers. The attribute `stats`, the back reference, is left out.
pub mod Counts
pub mod Represents
pub mod Reports
pub mod Cache
pub mod Answers
pub mod Current
pub mod Recent
use locust.Base.{
  ℕ, ◌+◌, ◌-◌, ◌/◌, min, max, Bool, true, false, Option, none, some, List, [], ◌∷◌, ◌==◌, ltb, not,
  if◌then◌else◌, length, drop, ◌&&◌,
}
use locust.Base.Dict.{Dict, get, insert}
use locust.Stats.Rounding.{bucket_response_time}
use locust.Stats.Quantiles.{median_from_dict, calculate_response_time_percentile}

pub record CachedResponseTimes : Type 0 where
  pub response_times : Dict ℕ
  pub num_requests : ℕ
  pub num_none_requests : ℕ

pub record StatsEntry : Type 0 where
  pub name : ℕ
  pub method : ℕ
  pub use_response_times_cache : Bool
  pub num_requests : ℕ
  pub num_none_requests : ℕ
  pub num_failures : ℕ
  pub total_response_time : ℕ
  pub min_response_time : Option ℕ
  pub max_response_time : ℕ
  pub num_reqs_per_sec : Dict ℕ
  pub num_fail_per_sec : Dict ℕ
  pub response_times : Dict ℕ
  pub response_times_cache : Option (Dict CachedResponseTimes)
  pub total_content_length : ℕ
  pub start_time : ℕ
  pub last_request_timestamp : Option ℕ

-- `int(t)`
abbrev pub second : ℕ → ℕ
second t = t / 1000000

-- `int(t)` of a timestamp, and 0 where it is falsy.
abbrev pub second_or_zero : Option ℕ → ℕ
second_or_zero none = 0
second_or_zero (some t) = second t

-- `d[k] += n` on a `defaultdict(int)`, and `d[k] = d.get(k, 0) + n`.
unfoldable pub count_up : ℕ → ℕ → Dict ℕ → Dict ℕ
count_up k n d = insert k (get k 0 d + n) d

-- CURRENT_RESPONSE_TIME_PERCENTILE_WINDOW + 10
abbrev pub cache_size : ℕ
cache_size = 20

abbrev pub or_empty : Option (Dict CachedResponseTimes) → Dict CachedResponseTimes
or_empty none = []
or_empty (some cache) = cache

-- `popitem(last=False)` drops the entry that was inserted first.
unfoldable pub cache_response_times : ℕ → StatsEntry → StatsEntry
cache_response_times t e =
    let cached : CachedResponseTimes = record {
      response_times = e.response_times;
      num_requests = e.num_requests;
      num_none_requests = e.num_none_requests;
    } in
    let cache = insert t cached (or_empty e.response_times_cache) in
    record e {
      response_times_cache =
          some (
            if ltb cache_size (length cache)
            then drop (length cache - cache_size) cache
            else cache);
    }

-- The first assignments of `reset`.
unfoldable pub cleared : (now : ℕ) → StatsEntry → StatsEntry
cleared now e = record e {
  start_time = now;
  num_requests = 0;
  num_none_requests = 0;
  num_failures = 0;
  total_response_time = 0;
  response_times = [];
  min_response_time = none;
  max_response_time = 0;
  last_request_timestamp = none;
  num_reqs_per_sec = [];
  num_fail_per_sec = [];
  total_content_length = 0;
}

-- The clock is read at `now` and, for the cache, at `now'`.
unfoldable pub reset : (now now' : ℕ) → StatsEntry → StatsEntry
unfolding cleared cache_response_times
reset now now' e =
    if e.use_response_times_cache
    then cache_response_times (second now')
        (record (cleared now e) { response_times_cache = some [] })
    else cleared now e

-- `__init__`
unfoldable pub new_entry : (now now' name method : ℕ) → Bool → StatsEntry
unfolding reset
new_entry now now' name method cached = reset now now' (record {
  name = name;
  method = method;
  use_response_times_cache = cached;
  num_requests = 0;
  num_none_requests = 0;
  num_failures = 0;
  total_response_time = 0;
  min_response_time = none;
  max_response_time = 0;
  num_reqs_per_sec = [];
  num_fail_per_sec = [];
  response_times = [];
  response_times_cache = none;
  total_content_length = 0;
  start_time = 0;
  last_request_timestamp = none;
})

unfoldable pub log_time_of_request : ℕ → StatsEntry → StatsEntry
unfolding count_up
log_time_of_request now e = record e {
  num_reqs_per_sec = count_up (second now) 1 e.num_reqs_per_sec;
  last_request_timestamp = some now;
}

-- The smaller of two minima, of which either can be missing.
unfoldable pub min_of : Option ℕ → Option ℕ → Option ℕ
min_of none o = o
min_of (some a) none = some a
min_of (some a) (some b) = some (min a b)

unfoldable pub log_response_time : Option ℕ → StatsEntry → StatsEntry
unfolding count_up min_of bucket_response_time
log_response_time none e = record e { num_none_requests = e.num_none_requests + 1 }
log_response_time (some response_time) e = record e {
  total_response_time = e.total_response_time + response_time;
  min_response_time = min_of e.min_response_time (some response_time);
  max_response_time = max e.max_response_time response_time;
  response_times = count_up (bucket_response_time response_time) 1 e.response_times;
}

-- `self.last_request_timestamp and t > int(self.last_request_timestamp)`
abbrev pub is_later : ℕ → Option ℕ → Bool
is_later t none = false
is_later t (some last) = not (last == 0) && ltb (second last) t

unfoldable pub log : (now : ℕ) → Option ℕ → ℕ → StatsEntry → StatsEntry
unfolding log_time_of_request log_response_time cache_response_times
log now response_time content_length e =
    let t = second now in
    let e' =
      if e.use_response_times_cache && is_later t e.last_request_timestamp
      then cache_response_times (t - 1) e
      else e in
    let counted = record e' { num_requests = e'.num_requests + 1 } in
    let timed = log_response_time response_time (log_time_of_request now counted) in
    record timed { total_content_length = timed.total_content_length + content_length }

unfoldable pub log_error : (now : ℕ) → StatsEntry → StatsEntry
unfolding count_up
log_error now e = record e {
  num_failures = e.num_failures + 1;
  num_fail_per_sec = count_up (second now) 1 e.num_fail_per_sec;
}

-- `for key in other: d[key] = d.get(key, 0) + other[key]`
unfoldable pub add_counts : Dict ℕ → Dict ℕ → Dict ℕ
unfolding count_up
add_counts d [] = d
add_counts d (entry ∷ other) = add_counts (count_up entry.0 entry.1 d) other

unfoldable pub last_of : Option ℕ → Option ℕ → Option ℕ
last_of (some a) (some b) = some (max a b)
last_of none o = o
last_of (some a) none = some a

-- `extend` up to its loops over the dicts.
unfoldable pub merged : StatsEntry → StatsEntry → StatsEntry
unfolding last_of min_of add_counts
merged e other = record e {
  last_request_timestamp = last_of e.last_request_timestamp other.last_request_timestamp;
  start_time = min e.start_time other.start_time;
  num_requests = e.num_requests + other.num_requests;
  num_none_requests = e.num_none_requests + other.num_none_requests;
  num_failures = e.num_failures + other.num_failures;
  total_response_time = e.total_response_time + other.total_response_time;
  max_response_time = max e.max_response_time other.max_response_time;
  min_response_time = min_of e.min_response_time other.min_response_time;
  total_content_length = e.total_content_length + other.total_content_length;
  response_times = add_counts e.response_times other.response_times;
  num_reqs_per_sec = add_counts e.num_reqs_per_sec other.num_reqs_per_sec;
  num_fail_per_sec = add_counts e.num_fail_per_sec other.num_fail_per_sec;
}

-- `last_time` with the last test of `extend`.
unfoldable pub enters_second : StatsEntry → StatsEntry → Bool
unfolding merged
enters_second e other =
    let last_time = second_or_zero (merged e other).last_request_timestamp in
    ltb 0 last_time && ltb (second_or_zero e.last_request_timestamp) last_time

unfoldable pub extend : StatsEntry → StatsEntry → StatsEntry
unfolding merged enters_second cache_response_times
extend e other =
    if e.use_response_times_cache && enters_second e other
    then cache_response_times (second_or_zero (merged e other).last_request_timestamp)
        (merged e other)
    else merged e other

-- `class StatsEntryDict`, what `serialize` gives.
pub record StatsEntryDict : Type 0 where
  pub name : ℕ
  pub method : ℕ
  pub last_request_timestamp : Option ℕ
  pub start_time : ℕ
  pub num_requests : ℕ
  pub num_none_requests : ℕ
  pub num_failures : ℕ
  pub total_response_time : ℕ
  pub max_response_time : ℕ
  pub min_response_time : Option ℕ
  pub total_content_length : ℕ
  pub response_times : Dict ℕ
  pub num_reqs_per_sec : Dict ℕ
  pub num_fail_per_sec : Dict ℕ

unfoldable pub serialize : StatsEntry → StatsEntryDict
serialize e = record {
  name = e.name;
  method = e.method;
  last_request_timestamp = e.last_request_timestamp;
  start_time = e.start_time;
  num_requests = e.num_requests;
  num_none_requests = e.num_none_requests;
  num_failures = e.num_failures;
  total_response_time = e.total_response_time;
  max_response_time = e.max_response_time;
  min_response_time = e.min_response_time;
  total_content_length = e.total_content_length;
  response_times = e.response_times;
  num_reqs_per_sec = e.num_reqs_per_sec;
  num_fail_per_sec = e.num_fail_per_sec;
}

-- A new entry without a cache, whose attributes are set to those of the report.
unfoldable pub unserialize : (now now' : ℕ) → StatsEntryDict → StatsEntry
unfolding new_entry
unserialize now now' report = record (new_entry now now' report.name report.method false) {
  last_request_timestamp = report.last_request_timestamp;
  start_time = report.start_time;
  num_requests = report.num_requests;
  num_none_requests = report.num_none_requests;
  num_failures = report.num_failures;
  total_response_time = report.total_response_time;
  max_response_time = report.max_response_time;
  min_response_time = report.min_response_time;
  total_content_length = report.total_content_length;
  response_times = report.response_times;
  num_reqs_per_sec = report.num_reqs_per_sec;
  num_fail_per_sec = report.num_fail_per_sec;
}

unfoldable pub get_stripped_report : (now now' : ℕ) → StatsEntry → StatsEntryDict × StatsEntry
unfolding serialize reset
get_stripped_report now now' e = (serialize e, reset now now' e)

unfoldable pub median_response_time : StatsEntry → ℕ
unfolding median_from_dict
median_response_time e =
    if length e.response_times == 0
    then 0
    else let median = median_from_dict (e.num_requests - e.num_none_requests) e.response_times in
      if ltb e.max_response_time median then e.max_response_time else elim e.min_response_time [
        | none ↦ median
        | some least ↦ if ltb median least then least else median
      ]

-- `rank` stands for the number that `int(num_requests * percent)` gives for a number of requests.
unfoldable pub get_response_time_percentile : (rank : ℕ → ℕ) → StatsEntry → ℕ
unfolding calculate_response_time_percentile
get_response_time_percentile rank e =
    let n = e.num_requests - e.num_none_requests in
    calculate_response_time_percentile e.response_times n (rank n)
