-- ===== src/Stats/Requests/Stands.antt =====
-- What the statistics of locust/stats.py stand for: what is logged in all, and under each name and
-- method.
use locust.Base.{
  ℕ, ◌≡◌, refl, Bool, true, false, Option, none, some, List, [], ◌∷◌, arith, ◌==◌, ◌&&◌,
  if◌then◌else◌,
}
use locust.Stats.Entry.{StatsEntry, new_entry, second, log, log_error}
use locust.Stats.Entry.Represents.{
  Event, request, failure, Represents, log-Represents, log_error-Represents,
}
use locust.Stats.Entry.Reports.{new_entry-Represents}
use locust.Stats.Requests.{
  Entries, find, put, RequestStats, entry_of, log_request, log_failure, new_stats,
}

-- What is logged under a name and a method; an entry that is missing stands for nothing.
abbrev pub Each : Type 0
Each = ℕ → ℕ → List Event

abbrev pub Stood : List Event → Option StatsEntry → Type 0
Stood es none = es ≡ []
Stood es (some e) = Represents es e

pub record Stands (all : List Event) (each : Each) (s : RequestStats) : Type 0 where
  pub total : Represents all s.total
  pub entries : (name method : ℕ) → Stood (each name method) (find name method s.entries)

-- The events of one name and method replaced.
abbrev pub set : ℕ → ℕ → List Event → Each → Each
set name method es each n m = if n == name && m == method then es else each n m

pub find-put :
    (n m name method : ℕ) (e : StatsEntry) (es : Entries)
    → find n m (put name method e es) ≡ (if n == name && m == method then some e else find n m es)
unfolding find put
find-put n m name method e [] = ground arith
find-put n m name method e (x ∷ es) = ground (arith, find-put n m name method e es)

if-Stood :
    (b : Bool) (es fs : List Event) (e : StatsEntry) (o : Option StatsEntry)
    → Represents es e
    → Stood fs o
    → Stood (if b then es else fs) (if b then some e else o)
if-Stood true es fs e o r h = r
if-Stood false es fs e o r h = h

pub put-Stood :
    (each : Each) (entries : Entries) (name method : ℕ) (es : List Event) (e : StatsEntry)
    → Represents es e
    → ((n m : ℕ) → Stood (each n m) (find n m entries))
    → (n m : ℕ) → Stood (set name method es each n m) (find n m (put name method e entries))
put-Stood each entries name method es e r h n m =
    rw (find-put n m name method e entries)
      (if-Stood (n == name && m == method) es (each n m) e (find n m entries) r (h n m))

-- An entry that is looked up, or created, stands for what is logged under its key.
pub found-Represents :
    (es : List Event) (o : Option StatsEntry) (now now' name method : ℕ) (cached : Bool)
    → Stood es o
    → Represents es (elim o [ none ↦ new_entry now now' name method cached | some e ↦ e ])
found-Represents es none now now' name method cached h =
    rw h (new_entry-Represents now now' name method cached)
found-Represents es (some e) now now' name method cached h = h

-- New statistics stand for nothing.
pub new_stats-Stands : (at : ℕ → ℕ) (cached : Bool) → Stands [] (λ n m. []) (new_stats at cached)
unfolding new_stats find
new_stats-Stands at cached = record {
  total = new_entry-Represents (at 0) (at 1) 0 0 cached;
  entries = λ n m. refl;
}

-- Of statistics that stand for some events, `log_request` adds the request to what the total and
-- the entry of its name and method stand for, and to no other.
pub log_request-Stands :
    (at : ℕ → ℕ) (method name : ℕ) (t : Option ℕ) (c : ℕ) (all : List Event) (each : Each)
    (s : RequestStats)
    → Stands all each s
    → Stands
        (request (second (at 0)) t c ∷ all)
        (set name method (request (second (at 3)) t c ∷ each name method) each)
        (log_request at method name t c s)
unfolding log_request entry_of
log_request-Stands at method name t c all each s h = record {
  total = log-Represents all (at 0) t c s.total h.total;
  entries =
      put-Stood each s.entries name method (request (second (at 3)) t c ∷ each name method)
        (log (at 3) t c (entry_of (at 1) (at 2) name method s))
        (log-Represents (each name method) (at 3) t c (entry_of (at 1) (at 2) name method s) (
          found-Represents (each name method) (find name method s.entries) (at 1) (at 2) name method
            s.use_response_times_cache (h.entries name method)))
        h.entries;
}

-- Of statistics that stand for some events, `RequestStats.log_error` adds the failure to what the
-- total and the entry of its name and method stand for, and to no other.
pub log_failure-Stands :
    (create_key : ℕ → ℕ → ℕ → ℕ) (at : ℕ → ℕ) (method name error : ℕ) (all : List Event)
    (each : Each) (s : RequestStats)
    → Stands all each s
    → Stands
        (failure (second (at 0)) ∷ all)
        (set name method (failure (second (at 3)) ∷ each name method) each)
        (log_failure create_key at method name error s)
unfolding log_failure entry_of
log_failure-Stands create_key at method name error all each s h = record {
  total = log_error-Represents all (at 0) s.total h.total;
  entries =
      put-Stood each s.entries name method (failure (second (at 3)) ∷ each name method)
        (log_error (at 3) (entry_of (at 1) (at 2) name method s))
        (log_error-Represents (each name method) (at 3) (entry_of (at 1) (at 2) name method s) (
          found-Represents (each name method) (find name method s.entries) (at 1) (at 2) name method
            s.use_response_times_cache (h.entries name method)))
        h.entries;
}
