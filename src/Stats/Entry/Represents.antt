-- ===== src/Stats/Entry/Represents.antt =====
-- What a `StatsEntry` of locust/stats.py stands for: the requests and failures that were logged on
-- it, on the workers that report to it and before a report is stripped.
use locust.Base.{
  ℕ, ◌+◌, ◌-◌, ◌≡◌, ap, max, Bool, true, false, Option, none, some, List, [], ◌∷◌, arith,
  if◌then◌else◌, length, sum_by, count_by, ◌&&◌,
}
use locust.Base.Dict.{IsDict}
use locust.Stats.Rounding.{bucket_response_time}
use locust.Stats.Entry.{
  StatsEntry, second, cache_response_times, log_time_of_request, min_of, log_response_time,
  is_later, log, log_error,
}
use locust.Stats.Entry.Counts.{counts, counts-count_up, count_up-IsDict}

-- What is logged: a request or a failure, with the second it is logged in.
pub data Event : Type 0 where
  request : ℕ → Option ℕ → ℕ → Event
  failure : ℕ → Event

abbrev pub with_time : Option ℕ → List ℕ → List ℕ
with_time none ts = ts
with_time (some t) ts = t ∷ ts

-- The seconds of the requests and of the failures, and the response times that are not None.
abbrev pub request_seconds : List Event → List ℕ
request_seconds [] = []
request_seconds (request s t c ∷ es) = s ∷ request_seconds es
request_seconds (failure s ∷ es) = request_seconds es

abbrev pub failure_seconds : List Event → List ℕ
failure_seconds [] = []
failure_seconds (request s t c ∷ es) = failure_seconds es
failure_seconds (failure s ∷ es) = s ∷ failure_seconds es

abbrev pub times : List Event → List ℕ
times [] = []
times (request s t c ∷ es) = with_time t (times es)
times (failure s ∷ es) = times es

abbrev pub content : List Event → ℕ
content [] = 0
content (request s t c ∷ es) = c + content es
content (failure s ∷ es) = content es

abbrev pub total : List ℕ → ℕ
total = sum_by (λ n. n)

abbrev pub greatest : List ℕ → ℕ
greatest [] = 0
greatest (n ∷ ns) = max n (greatest ns)

unfoldable pub least : List ℕ → Option ℕ
unfolding min_of
least [] = none
least (n ∷ ns) = min_of (least ns) (some n)

-- How many of the response times pass a test of their bucket.
abbrev pub bucketed : (ℕ → Bool) → List ℕ → ℕ
bucketed p = count_by (λ t. p (bucket_response_time t))

-- The attributes of an entry that stands for the events.
pub record Represents (es : List Event) (e : StatsEntry) : Type 0 where
  pub requests : e.num_requests ≡ length (request_seconds es)
  pub none_requests : e.num_none_requests + length (times es) ≡ e.num_requests
  pub failures : e.num_failures ≡ length (failure_seconds es)
  pub sum : e.total_response_time ≡ total (times es)
  pub low : e.min_response_time ≡ least (times es)
  pub high : e.max_response_time ≡ greatest (times es)
  pub bytes : e.total_content_length ≡ content es
  pub reqs : (p : ℕ → Bool) → counts p e.num_reqs_per_sec ≡ count_by p (request_seconds es)
  pub fails : (p : ℕ → Bool) → counts p e.num_fail_per_sec ≡ count_by p (failure_seconds es)
  pub histogram : (p : ℕ → Bool) → counts p e.response_times ≡ bucketed p (times es)
  pub dict : IsDict e.response_times

-- The cache does not matter.
pub cache_response_times-Represents :
    (es : List Event) (t : ℕ) (e : StatsEntry)
    → Represents es e
    → Represents es (cache_response_times t e)
unfolding cache_response_times
cache_response_times-Represents es t e r = record {
  requests = r.requests;
  none_requests = r.none_requests;
  failures = r.failures;
  sum = r.sum;
  low = r.low;
  high = r.high;
  bytes = r.bytes;
  reqs = r.reqs;
  fails = r.fails;
  histogram = r.histogram;
  dict = r.dict;
}

-- Either branch of a conditional will do.
pub if-Represents :
    (b : Bool) (es : List Event) (e e' : StatsEntry)
    → Represents es e
    → Represents es e'
    → Represents es (if b then e else e')
if-Represents true es e e' r r' = r
if-Represents false es e e' r r' = r'

request-Represents :
    (es : List Event) (now : ℕ) (t : Option ℕ) (c : ℕ) (e : StatsEntry)
    → Represents es e
    → let counted = record e { num_requests = e.num_requests + 1 } in
      let timed = log_response_time t (log_time_of_request now counted) in
      Represents
        (request (second now) t c ∷ es)
        (record timed { total_content_length = timed.total_content_length + c })
unfolding log_response_time log_time_of_request least
request-Represents es now none c e r = record {
  requests = omega (arith, r.requests);
  none_requests = omega (arith, r.none_requests);
  failures = r.failures;
  sum = r.sum;
  low = r.low;
  high = r.high;
  bytes = omega (arith, r.bytes);
  reqs = λ p. ground (arith, counts-count_up p (second now) 1 e.num_reqs_per_sec, r.reqs p);
  fails = r.fails;
  histogram = r.histogram;
  dict = r.dict;
}
request-Represents es now (some t) c e r = record {
  requests = omega (arith, r.requests);
  none_requests = omega (arith, r.none_requests);
  failures = r.failures;
  sum = omega (arith, r.sum);
  low = ap (λ o. min_of o (some t)) r.low;
  high = omega (arith, r.high);
  bytes = omega (arith, r.bytes);
  reqs = λ p. ground (arith, counts-count_up p (second now) 1 e.num_reqs_per_sec, r.reqs p);
  fails = r.fails;
  histogram = λ p.
      ground (arith, counts-count_up p (bucket_response_time t) 1 e.response_times, r.histogram p);
  dict = count_up-IsDict (bucket_response_time t) 1 e.response_times r.dict;
}

-- `log` adds the request to the events that an entry stands for, with the second of the clock.
pub log-Represents :
    (es : List Event) (now : ℕ) (t : Option ℕ) (c : ℕ) (e : StatsEntry)
    → Represents es e
    → Represents (request (second now) t c ∷ es) (log now t c e)
unfolding log
log-Represents es now t c e r = request-Represents es now t c _ (
    if-Represents (e.use_response_times_cache && is_later (second now) e.last_request_timestamp) es
      (cache_response_times (second now - 1) e) e
      (cache_response_times-Represents es (second now - 1) e r) r)

-- `log_error` adds the failure to the events that an entry stands for, with the second of the
-- clock.
pub log_error-Represents :
    (es : List Event) (now : ℕ) (e : StatsEntry)
    → Represents es e
    → Represents (failure (second now) ∷ es) (log_error now e)
unfolding log_error
log_error-Represents es now e r = record {
  requests = r.requests;
  none_requests = r.none_requests;
  failures = omega (arith, r.failures);
  sum = r.sum;
  low = r.low;
  high = r.high;
  bytes = r.bytes;
  reqs = r.reqs;
  fails = λ p. ground (arith, counts-count_up p (second now) 1 e.num_fail_per_sec, r.fails p);
  histogram = r.histogram;
  dict = r.dict;
}
