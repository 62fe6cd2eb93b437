-- ===== src/Stats/Tests.antt =====
-- Runs of the statistics on small inputs, and instances of their theorems.
use locust.Base.{
  ℕ, ◌*◌, ◌≤◌, ◌≡◌, refl, [], ◌∷◌, arith, map, List, ◌++◌, some, none, true, ◌<◌, ◌/◌, ◌⊎◌, ◌+◌,
}
use locust.Base.Dict.{Dict}
use locust.Dispatch.Workers.{sorted_by, insert_by}
use locust.Stats.Rounding.{
  bucket_response_time, bucket_float_response_time, round_to, bucket_response_time-near,
}
use locust.Stats.Entry.{
  StatsEntry, new_entry, log, log_error, extend, get_stripped_report, unserialize,
  median_response_time, log_time_of_request, log_response_time, count_up, min_of,
  cache_response_times, reset, cleared,
}
use locust.Stats.Entry.Represents.{
  Event, request, failure, Represents, log-Represents, log_error-Represents, times, least, greatest,
}
use locust.Stats.Entry.Reports.{
  extend-Represents, new_entry-Represents, get_stripped_report-Represents,
}
use locust.Stats.Entry.Cache.{IsBounded, Steps-IsBounded, stay, then_step, logged, failed}
use locust.Stats.Entry.Answers.{fewer, reaching, median_response_time-fewer}
use locust.Stats.Entry.Current.{
  acceptable_timestamps, find_cached, cached_for, get_current_response_time_percentile,
}
use locust.Stats.Entry.Recent.{copy, get_current_response_time_percentile-fewer}
use locust.Stats.Quantiles.{
  calculate_response_time_percentile, median_from_dict, percentile_loop, median_loop, ge, le,
}

-- The numbers of the comments in the source: 147 becomes 150, 3432 becomes 3400, 58760 becomes
-- 59000.
buckets : map bucket_response_time (147 ∷ 3432 ∷ 58760 ∷ 99 ∷ []) ≡ 150 ∷ 3400 ∷ 59000 ∷ 99 ∷ []
unfolding bucket_response_time round_to
buckets = refl

abbrev histogram : Dict ℕ
histogram = (30, 4) ∷ (10, 3) ∷ (20, 2) ∷ (1000, 1) ∷ []

median_of_histogram : median_from_dict 10 histogram ≡ 20
unfolding median_from_dict median_loop sorted_by le
median_of_histogram = refl

percentiles_of_histogram :
    map (calculate_response_time_percentile histogram 10) (0 ∷ 5 ∷ 8 ∷ 9 ∷ [])
    ≡ 10 ∷ 30 ∷ 30 ∷ 1000 ∷ []
unfolding calculate_response_time_percentile percentile_loop sorted_by ge
percentiles_of_histogram = refl

-- 1.1 milliseconds, and floats that fall to the even side.
abbrev one_and_a_bit : ℕ
one_and_a_bit = 1100

float_buckets :
    map bucket_float_response_time (500 ∷ one_and_a_bit ∷ 1500 ∷ 99500 ∷ 145000 ∷ 147600 ∷ [])
    ≡ 0 ∷ 1 ∷ 2 ∷ 100 ∷ 140 ∷ 150 ∷ []
unfolding bucket_float_response_time round_to
float_buckets = refl

bucket_response_time-near_example :
    ((one_and_a_bit < 100000)
        × (2000 * bucket_float_response_time one_and_a_bit ≤ 2 * one_and_a_bit + 1000)
        × (2 * one_and_a_bit ≤ 2000 * bucket_float_response_time one_and_a_bit + 1000)
      ⊎ (100000 ≤ one_and_a_bit)
        × (20000 * bucket_float_response_time one_and_a_bit ≤ 21 * one_and_a_bit)
        × (19 * one_and_a_bit ≤ 20000 * bucket_float_response_time one_and_a_bit))
    × ((n : ℕ) → bucket_float_response_time (n * 1000) ≡ bucket_response_time n)
bucket_response_time-near_example = bucket_response_time-near one_and_a_bit

-- Three requests, two of them in one second, and a failure: newest first.
abbrev logged_events : List Event
logged_events =
    request 7 (some 250) 3 ∷ failure 6 ∷ request 6 none 20 ∷ request 6 (some 144) 100 ∷ []

abbrev blank : StatsEntry
blank = new_entry 5000000 5000000 1 2 true

abbrev logged_entry : StatsEntry
logged_entry =
    log 7100000 (some 250) 3
      (log_error 6800000 (log 6700000 none 20 (log 6200000 (some 144) 100 blank)))

logged_entry-Represents : Represents logged_events logged_entry
logged_entry-Represents =
    log-Represents (failure 6 ∷ request 6 none 20 ∷ request 6 (some 144) 100 ∷ []) 7100000
      (some 250) 3 _
      (log_error-Represents (request 6 none 20 ∷ request 6 (some 144) 100 ∷ []) 6800000 _ (
        log-Represents (request 6 (some 144) 100 ∷ []) 6700000 none 20 _ (
          log-Represents [] 6200000 (some 144) 100 blank
            (new_entry-Represents 5000000 5000000 1 2 true))))

extend-Represents_example :
    Represents (logged_events ++ logged_events) (extend logged_entry logged_entry)
extend-Represents_example =
    extend-Represents logged_events logged_events logged_entry logged_entry logged_entry-Represents
      logged_entry-Represents

get_stripped_report-Represents_example :
    let (report, left) = get_stripped_report 9000000 9000000 logged_entry in
    Represents logged_events (unserialize 1 2 report) × Represents [] left
get_stripped_report-Represents_example =
    get_stripped_report-Represents logged_events 9000000 9000000 1 2 logged_entry
      logged_entry-Represents

median_response_time-fewer_example :
    let m = median_response_time logged_entry in
    (low : ℕ) × (least (times logged_events) ≡ some low)
    × (low ≤ m)
    × (m ≤ greatest (times logged_events))
    × (2 * fewer (bucket_response_time m) (times logged_events) < 2)
    × (2 ≤ 2 * reaching (bucket_response_time m) (times logged_events))
median_response_time-fewer_example =
    median_response_time-fewer logged_events logged_entry logged_entry-Represents (omega arith)

-- The median is the least response time, as its bucket, 140, lies below it.
median_of_logged : median_response_time logged_entry ≡ 144
unfolding median_response_time median_from_dict median_loop sorted_by insert_by le new_entry log
    log_error log_time_of_request log_response_time count_up min_of cache_response_times reset
    cleared bucket_response_time round_to
median_of_logged = refl

Steps-IsBounded_example : IsBounded (log_error 6800000 (log 6700000 none 20 blank))
unfolding new_entry reset cleared cache_response_times
Steps-IsBounded_example =
    Steps-IsBounded blank (log_error 6800000 (log 6700000 none 20 blank))
      (then_step blank (log 6700000 none 20 blank) _
        (then_step blank blank _ (stay blank) (logged 6700000 none 20 blank))
        (failed 6800000 (log 6700000 none 20 blank)))
      (omega arith)

abbrev earlier_entry : StatsEntry
earlier_entry = log_error 6800000 (log 6700000 none 20 (log 6200000 (some 144) 100 blank))

earlier_entry-Represents :
    Represents (failure 6 ∷ request 6 none 20 ∷ request 6 (some 144) 100 ∷ []) earlier_entry
earlier_entry-Represents =
    log_error-Represents (request 6 none 20 ∷ request 6 (some 144) 100 ∷ []) 6800000 _ (
      log-Represents (request 6 (some 144) 100 ∷ []) 6700000 none 20 _ (
        log-Represents [] 6200000 (some 144) 100 blank
          (new_entry-Represents 5000000 5000000 1 2 true)))

-- Ten seconds after the copy of second 6.
copied : cached_for 16000000 logged_entry ≡ some (copy earlier_entry)
unfolding acceptable_timestamps find_cached new_entry log log_error log_time_of_request
    log_response_time count_up min_of cache_response_times reset cleared bucket_response_time
    round_to
copied = refl

cached_entry : StatsEntry.use_response_times_cache logged_entry ≡ true
unfolding new_entry log log_error log_time_of_request log_response_time cache_response_times reset
    cleared
cached_entry = refl

get_current_response_time_percentile-fewer_example :
    (p : ℕ) × (get_current_response_time_percentile (λ n. n / 2) 16000000 logged_entry
      ≡ some (some p))
    × (fewer p (250 ∷ []) ≤ 0)
    × (0 < reaching p (250 ∷ []))
get_current_response_time_percentile-fewer_example =
    get_current_response_time_percentile-fewer (request 7 (some 250) 3 ∷ [])
      (failure 6 ∷ request 6 none 20 ∷ request 6 (some 144) 100 ∷ []) logged_entry earlier_entry
      (λ n. n / 2) 16000000 logged_entry-Represents earlier_entry-Represents cached_entry copied
      (omega arith)
