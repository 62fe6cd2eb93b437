-- ===== src/Stats/Requests/Tests.antt =====
-- Instances of the theorems on `RequestStats`, on small statistics.
use locust.Base.{ℕ, ◌+◌, ◌*◌, true, false, some, [], ◌∷◌, ◌++◌}
use locust.Stats.Entry.Represents.{request}
use locust.Stats.Requests.{
  RequestStats, StatsError, new_stats, log_request, on_report_to_master, on_worker_report,
}
use locust.Stats.Requests.Stands.{Each, Stands, set, new_stats-Stands, log_request-Stands}
use locust.Stats.Requests.Keys.{IsEntries}
use locust.Stats.Requests.Keyed.{log_request-IsEntries}
use locust.Stats.Requests.Exchange.{report-Stands}

-- A clock that moves on by a tenth of a second whenever it is read.
abbrev clock : ℕ → ℕ → ℕ
clock start i = start + 100000 * i

abbrev none_yet : Each
none_yet n m = []

abbrev master : RequestStats
master = new_stats (clock 1000000) true

abbrev worker : RequestStats
worker = new_stats (clock 1000000) false

abbrev busy_worker : RequestStats
busy_worker = log_request (clock 3000000) 1 20 (some 150) 64 worker

worker-IsEntries : IsEntries worker.entries
unfolding new_stats
worker-IsEntries = tt

abbrev busy_each : Each
busy_each = set 20 1 (request 3 (some 150) 64 ∷ []) none_yet

busy_worker-Stands : Stands (request 3 (some 150) 64 ∷ []) busy_each busy_worker
busy_worker-Stands =
    log_request-Stands (clock 3000000) 1 20 (some 150) 64 [] none_yet worker
      (new_stats-Stands (clock 1000000) false)

busy_worker-IsEntries : IsEntries busy_worker.entries
busy_worker-IsEntries =
    log_request-IsEntries (clock 3000000) 1 20 (some 150) 64 worker worker-IsEntries

report-Stands_example :
    let (report, left) = on_report_to_master (clock 5000000) (clock 5500000) busy_worker in
    Stands [] none_yet left
    × Stands
        ([] ++ request 3 (some 150) 64 ∷ [])
        (λ n m. none_yet n m ++ busy_each n m)
        (on_worker_report (λ i. clock (6000000 + i)) report master)
report-Stands_example =
    report-Stands (clock 5000000) (clock 5500000) (λ i. clock (6000000 + i))
      (request 3 (some 150) 64 ∷ []) [] busy_each none_yet busy_worker master busy_worker-IsEntries
      busy_worker-Stands (new_stats-Stands (clock 1000000) true)

abbrev timeout : ℕ → StatsError
timeout n = record {
  method = 1;
  name = 20;
  error = 7;
  occurrences = n;
  first_seen = some 1000000;
  last_seen = some 2000000;
}
