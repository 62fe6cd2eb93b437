-- ===== src/Stats/Entry/Reports.antt =====
-- How entries of locust/stats.py are merged and reported: `extend`, `serialize`, `unserialize`,
-- `reset` and `get_stripped_report`.
use locust.Base.{
  ℕ, ◌+◌, ◌≡◌, refl, ap, max, Bool, Option, none, some, List, [], ◌∷◌, ◌++◌, arith, count_by,
  length-append, sum_by-append, ◌&&◌,
}
use locust.Base.Dict.{Dict}
use locust.Stats.Rounding.{bucket_response_time}
use locust.Stats.Entry.{
  CachedResponseTimes, cleared, second, StatsEntry, second_or_zero, cache_response_times, reset,
  new_entry, min_of, merged, enters_second, extend, serialize, unserialize, get_stripped_report,
}
use locust.Stats.Entry.Counts.{counts-add_counts, add_counts-IsDict}
use locust.Stats.Entry.Represents.{
  Event, request, failure, Represents, request_seconds, failure_seconds, times, content, greatest,
  least, cache_response_times-Represents, if-Represents,
}

request_seconds-append :
    (es fs : List Event) → request_seconds (es ++ fs) ≡ request_seconds es ++ request_seconds fs
request_seconds-append [] fs = refl
request_seconds-append (request s t c ∷ es) fs = ap (◌∷◌ s) (request_seconds-append es fs)
request_seconds-append (failure s ∷ es) fs = request_seconds-append es fs

failure_seconds-append :
    (es fs : List Event) → failure_seconds (es ++ fs) ≡ failure_seconds es ++ failure_seconds fs
failure_seconds-append [] fs = refl
failure_seconds-append (request s t c ∷ es) fs = failure_seconds-append es fs
failure_seconds-append (failure s ∷ es) fs = ap (◌∷◌ s) (failure_seconds-append es fs)

pub times-append : (es fs : List Event) → times (es ++ fs) ≡ times es ++ times fs
times-append [] fs = refl
times-append (request s none c ∷ es) fs = times-append es fs
times-append (request s (some t) c ∷ es) fs = ap (◌∷◌ t) (times-append es fs)
times-append (failure s ∷ es) fs = times-append es fs

content-append : (es fs : List Event) → content (es ++ fs) ≡ content es + content fs
content-append [] fs = omega arith
content-append (request s t c ∷ es) fs = omega (arith, content-append es fs)
content-append (failure s ∷ es) fs = content-append es fs

pub count_by-append {ℓ} :
    {A : Type ℓ} (p : A → Bool) (xs ys : List A)
    → count_by p (xs ++ ys) ≡ count_by p xs + count_by p ys
count_by-append p [] ys = omega arith
count_by-append p (x ∷ xs) ys = ground (arith, count_by-append p xs ys)

greatest-append : (xs ys : List ℕ) → greatest (xs ++ ys) ≡ max (greatest xs) (greatest ys)
greatest-append [] ys = omega arith
greatest-append (x ∷ xs) ys = omega (arith, greatest-append xs ys)

min_of_assoc : (a b c : Option ℕ) → min_of (min_of a b) c ≡ min_of a (min_of b c)
unfolding min_of
min_of_assoc none b c = refl
min_of_assoc (some a) none c = refl
min_of_assoc (some a) (some b) none = refl
min_of_assoc (some a) (some b) (some c) = ap some (omega arith)

min_of_comm : (a b : Option ℕ) → min_of a b ≡ min_of b a
unfolding min_of
min_of_comm none none = refl
min_of_comm none (some b) = refl
min_of_comm (some a) none = refl
min_of_comm (some a) (some b) = ap some (omega arith)

least-append : (xs ys : List ℕ) → least (xs ++ ys) ≡ min_of (least xs) (least ys)
unfolding least min_of
least-append [] ys = refl
least-append (x ∷ xs) ys = cc (
  least-append xs ys,
  min_of_assoc (least xs) (least ys) (some x),
  min_of_assoc (least xs) (some x) (least ys),
  min_of_comm (least ys) (some x),
)

merged-Represents :
    (es fs : List Event) (e other : StatsEntry)
    → Represents es e
    → Represents fs other
    → Represents (es ++ fs) (merged e other)
unfolding merged
merged-Represents es fs e o r q =
    let reqs = request_seconds-append es fs in
    let fails = failure_seconds-append es fs in
    let ts = times-append es fs in
    record {
      requests = rw reqs (
          omega (
            arith,
            r.requests,
            q.requests,
            length-append (request_seconds es) (request_seconds fs),
          ));
      none_requests =
          rw ts
            (omega (arith, r.none_requests, q.none_requests, length-append (times es) (times fs)));
      failures = rw fails (
          omega (
            arith,
            r.failures,
            q.failures,
            length-append (failure_seconds es) (failure_seconds fs),
          ));
      sum = rw ts (omega (arith, r.sum, q.sum, sum_by-append (λ n. n) (times es) (times fs)));
      low = rw ts (cc (r.low, q.low, least-append (times es) (times fs)));
      high = rw ts (omega (arith, r.high, q.high, greatest-append (times es) (times fs)));
      bytes = omega (arith, r.bytes, q.bytes, content-append es fs);
      reqs = λ p. rw reqs (
          omega (
            arith,
            r.reqs p,
            q.reqs p,
            counts-add_counts p e.num_reqs_per_sec o.num_reqs_per_sec,
            count_by-append p (request_seconds es) (request_seconds fs),
          ));
      fails = λ p. rw fails (
          omega (
            arith,
            r.fails p,
            q.fails p,
            counts-add_counts p e.num_fail_per_sec o.num_fail_per_sec,
            count_by-append p (failure_seconds es) (failure_seconds fs),
          ));
      histogram = λ p. rw ts (
          omega (
            arith,
            r.histogram p,
            q.histogram p,
            counts-add_counts p e.response_times o.response_times,
            count_by-append (λ t. p (bucket_response_time t)) (times es) (times fs),
          ));
      dict = add_counts-IsDict e.response_times o.response_times r.dict;
    }

-- Of two entries that stand for some events each, `extend` makes the first stand for the events of
-- both: the counters, the sums, the least and greatest response time and the three dicts.
pub extend-Represents :
    (es fs : List Event) (e other : StatsEntry)
    → Represents es e
    → Represents fs other
    → Represents (es ++ fs) (extend e other)
unfolding extend
extend-Represents es fs e o r q =
    let m = merged-Represents es fs e o r q in
    let last_time = second_or_zero (merged e o).last_request_timestamp in
    if-Represents (e.use_response_times_cache && enters_second e o) (es ++ fs)
      (cache_response_times last_time (merged e o)) (merged e o)
      (cache_response_times-Represents (es ++ fs) last_time (merged e o) m) m

cleared-Represents :
    (now : ℕ) (cache : Option (Dict CachedResponseTimes)) (e : StatsEntry)
    → Represents [] (record (cleared now e) { response_times_cache = cache })
unfolding least cleared
cleared-Represents now cache e = record {
  requests = refl;
  none_requests = refl;
  failures = refl;
  sum = refl;
  low = refl;
  high = refl;
  bytes = refl;
  reqs = λ p. refl;
  fails = λ p. refl;
  histogram = λ p. refl;
  dict = tt;
}

-- An entry that is reset stands for nothing.
pub reset-Represents : (now now' : ℕ) (e : StatsEntry) → Represents [] (reset now now' e)
unfolding reset cleared
reset-Represents now now' e =
    let emptied = record (cleared now e) { response_times_cache = some [] } in
    if-Represents e.use_response_times_cache [] (cache_response_times (second now') emptied)
      (cleared now e)
      (cache_response_times-Represents [] (second now') emptied
        (cleared-Represents now (some []) e))
      (cleared-Represents now e.response_times_cache e)

pub new_entry-Represents :
    (now now' name method : ℕ) (cached : Bool)
    → Represents [] (new_entry now now' name method cached)
unfolding new_entry
new_entry-Represents now now' name method cached = reset-Represents now now' (record {
  name = name;
  method = method;
  use_response_times_cache = cached;
  num_requests = 0;
  num_none_requests = 0;
  num_failures = 0;
  total_response_time = 0;
  min_response_time = none;
  max_response_time = 0;
  num_reqs_per_sec = [];
  num_fail_per_sec = [];
  response_times = [];
  response_times_cache = none;
  total_content_length = 0;
  start_time = 0;
  last_request_timestamp = none;
})

-- What the master reads back from a report stands for what was serialized.
pub report-Represents :
    (es : List Event) (now now' : ℕ) (e : StatsEntry)
    → Represents es e
    → Represents es (unserialize now now' (serialize e))
unfolding unserialize serialize
report-Represents es now now' e r = record {
  requests = r.requests;
  none_requests = r.none_requests;
  failures = r.failures;
  sum = r.sum;
  low = r.low;
  high = r.high;
  bytes = r.bytes;
  reqs = r.reqs;
  fails = r.fails;
  histogram = r.histogram;
  dict = r.dict;
}

-- `get_stripped_report` moves what an entry stands for into the report: the entry that the master
-- reads back stands for all of it, and the entry that stays stands for nothing.
pub get_stripped_report-Represents :
    (es : List Event) (now now' there there' : ℕ) (e : StatsEntry)
    → Represents es e
    → let (report, left) = get_stripped_report now now' e in
      Represents es (unserialize there there' report) × Represents [] left
unfolding get_stripped_report
get_stripped_report-Represents es now now' there there' e r =
    (report-Represents es there there' e r, reset-Represents now now' e)
