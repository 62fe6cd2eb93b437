-- ===== src/Stats/Requests.antt =====
-- `class RequestStats`, `class StatsError` and the listeners of
-- `setup_distributed_stats_event_listeners`, of locust/stats.py. `at` is what the clock gives at
-- the successive times that a call reads it. The history, which a greenlet fills, is left out. An
-- error is the number of its text as `parse_error` gives it.
pub mod Stands
pub mod Exchange
mod Tests
pub mod Errors
pub mod Keyed
pub mod Keys
use locust.Base.{
  ℕ, suc, ◌+◌, min, max, Bool, true, false, not, Option, none, some, List, [], ◌∷◌, ◌==◌,
  if◌then◌else◌, ◌&&◌,
}
use locust.Base.Dict.{Dict, lookup, insert}
use locust.Stats.Entry.{
  StatsEntry, StatsEntryDict, new_entry, log, log_error, reset, extend, unserialize,
  get_stripped_report,
}

pub record StatsError : Type 0 where
  pub method : ℕ
  pub name : ℕ
  pub error : ℕ
  pub occurrences : ℕ
  pub first_seen : Option ℕ
  pub last_seen : Option ℕ

unfoldable pub occurred : (now : ℕ) → StatsError → StatsError
occurred now e = record e {
  occurrences = e.occurrences + 1;
  first_seen = elim e.first_seen [ none ↦ some now | some first ↦ some first ];
  last_seen = some now;
}

-- `EntriesDict`, a dict from a name and a method.
abbrev pub Entries : Type 0
Entries = List (ℕ × ℕ × StatsEntry)

abbrev pub is_key : (name method : ℕ) → ℕ × ℕ × StatsEntry → Bool
is_key name method entry = entry.0 == name && entry.1 == method

unfoldable pub find : (name method : ℕ) → Entries → Option StatsEntry
find name method [] = none
find name method (entry ∷ es) =
    if is_key name method entry then some entry.2 else find name method es

-- `entries[(name, method)] = e`
unfoldable pub put : (name method : ℕ) → StatsEntry → Entries → Entries
put name method e [] = (name, method, e) ∷ []
put name method e (entry ∷ es) =
    if is_key name method entry then (name, method, e) ∷ es else entry ∷ put name method e es

pub record RequestStats : Type 0 where
  pub use_response_times_cache : Bool
  pub entries : Entries
  pub errors : Dict StatsError
  pub total : StatsEntry

-- "Aggregated" and "".
abbrev pub aggregated : ℕ
aggregated = 0

abbrev pub no_method : ℕ
no_method = 0

unfoldable pub new_stats : (at : ℕ → ℕ) → Bool → RequestStats
unfolding new_entry
new_stats at cached = record {
  use_response_times_cache = cached;
  entries = [];
  errors = [];
  total = new_entry (at 0) (at 1) aggregated no_method cached;
}

-- `entries[(name, method)]`, which `__missing__` creates where there is none.
unfoldable pub entry_of : (now now' name method : ℕ) → RequestStats → StatsEntry
unfolding find new_entry
entry_of now now' name method s = elim (find name method s.entries) [
  | none ↦ new_entry now now' name method s.use_response_times_cache
  | some e ↦ e
]

unfoldable pub log_request :
    (at : ℕ → ℕ) (method name : ℕ) → Option ℕ → ℕ → RequestStats → RequestStats
unfolding log entry_of put
log_request at method name response_time content_length s = record s {
  total = log (at 0) response_time content_length s.total;
  entries =
      put name method
        (log (at 3) response_time content_length (entry_of (at 1) (at 2) name method s)) s.entries;
}

-- `create_key` is a hash of the method, the name and the text of the error.
unfoldable pub count_error :
    (create_key : ℕ → ℕ → ℕ → ℕ) (now method name error : ℕ) → Dict StatsError → Dict StatsError
unfolding occurred
count_error create_key now method name error errors =
    let key = create_key method name error in
    let fresh : StatsError = record {
      method = method;
      name = name;
      error = error;
      occurrences = 0;
      first_seen = none;
      last_seen = none;
    } in
    let entry : StatsError = elim (lookup key errors) [ none ↦ fresh | some e ↦ e ] in
    insert key (occurred now entry) errors

unfoldable pub log_failure :
    (create_key : ℕ → ℕ → ℕ → ℕ) (at : ℕ → ℕ) (method name error : ℕ) → RequestStats → RequestStats
unfolding log_error entry_of put count_error
log_failure create_key at method name error s = record s {
  total = log_error (at 0) s.total;
  entries = put name method (log_error (at 3) (entry_of (at 1) (at 2) name method s)) s.entries;
  errors = count_error create_key (at 4) method name error s.errors;
}

-- The loop of `reset_all`, from the reading `i` of the clock on.
unfoldable pub reset_entries : (at : ℕ → ℕ) (i : ℕ) → Entries → Entries
unfolding reset
reset_entries at i [] = []
reset_entries at i ((name, method, e) ∷ es) =
    (name, method, reset (at i) (at (i + 1)) e) ∷ reset_entries at (i + 2) es

unfoldable pub reset_all : (at : ℕ → ℕ) → RequestStats → RequestStats
unfolding reset reset_entries
reset_all at s = record s {
  total = reset (at 0) (at 1) s.total;
  errors = [];
  entries = reset_entries at 2 s.entries;
}

unfoldable pub clear_all : (at : ℕ → ℕ) → RequestStats → RequestStats
unfolding new_entry
clear_all at s = record s {
  total = new_entry (at 0) (at 1) aggregated no_method s.use_response_times_cache;
  entries = [];
  errors = [];
}

abbrev pub is_idle : StatsEntry → Bool
is_idle e = e.num_requests == 0 && e.num_failures == 0

-- `serialize_stats`: the reports of the entries that are not empty, and the entries after it.
unfoldable pub strip_entries : (at : ℕ → ℕ) (i : ℕ) → Entries → List StatsEntryDict × Entries
unfolding get_stripped_report
strip_entries at i [] = ([], [])
strip_entries at i ((name, method, e) ∷ es) =
    let (reports, rest) = strip_entries at (if is_idle e then i else i + 2) es in
    let (report, left) = get_stripped_report (at i) (at (i + 1)) e in
    if is_idle e
    then (reports, (name, method, e) ∷ rest)
    else (report ∷ reports, (name, method, left) ∷ rest)

-- The message of a report. An error travels as it is: `serialize` and `unserialize` of a
-- `StatsError` keep its attributes.
pub record Report : Type 0 where
  pub stats : List StatsEntryDict
  pub stats_total : StatsEntryDict
  pub errors : Dict StatsError

unfoldable pub on_report_to_master : (at at' : ℕ → ℕ) → RequestStats → Report × RequestStats
unfolding strip_entries get_stripped_report
on_report_to_master at at' s =
    let (reports, entries) = strip_entries at 0 s.entries in
    let (total, left) = get_stripped_report (at' 0) (at' 1) s.total in
    (
      record { stats = reports; stats_total = total; errors = s.errors },
      record s { entries = entries; total = left; errors = [] },
    )

-- One round of the first loop of `on_worker_report`.
unfoldable pub merge_entry : (at : ℕ → ℕ) → StatsEntryDict → Entries → Entries
unfolding find put unserialize new_entry extend
merge_entry at report entries =
    let entry = unserialize (at 0) (at 1) report in
    let mine : StatsEntry = elim (find entry.name entry.method entries) [
      | none ↦ new_entry (at 2) (at 3) entry.name entry.method true
      | some e ↦ e
    ] in
    put entry.name entry.method (extend mine entry) entries

unfoldable pub merge_entries : (at : ℕ → ℕ → ℕ) → List StatsEntryDict → Entries → Entries
unfolding merge_entry
merge_entries at [] entries = entries
merge_entries at (report ∷ reports) entries =
    merge_entries (λ i. at (suc i)) reports (merge_entry (at 0) report entries)

-- A timestamp that is None or 0 is falsy.
unfoldable pub merge_seen : (ℕ → ℕ → ℕ) → Option ℕ → Option ℕ → Option ℕ
merge_seen f seen none = seen
merge_seen f none (some t) = if t == 0 then none else some t
merge_seen f (some s) (some t) = if t == 0 then some s else some (f s t)

unfoldable pub merge_error : ℕ → StatsError → Dict StatsError → Dict StatsError
unfolding merge_seen
merge_error key error errors = elim (lookup key errors) [
  | none ↦ insert key error errors
  | some existing ↦
      insert key
        (record existing {
          occurrences = existing.occurrences + error.occurrences;
          first_seen = merge_seen min existing.first_seen error.first_seen;
          last_seen = merge_seen max existing.last_seen error.last_seen;
        })
        errors
]

unfoldable pub merge_errors : Dict StatsError → Dict StatsError → Dict StatsError
unfolding merge_error
merge_errors [] errors = errors
merge_errors ((key, error) ∷ rest) errors = merge_errors rest (merge_error key error errors)

unfoldable pub on_worker_report : (at : ℕ → ℕ → ℕ) → Report → RequestStats → RequestStats
unfolding merge_entries merge_errors extend unserialize
on_worker_report at report s = record s {
  entries = merge_entries (λ i. at (suc i)) report.stats s.entries;
  errors = merge_errors report.errors s.errors;
  total = extend s.total (unserialize (at 0 0) (at 0 1) report.stats_total);
}
