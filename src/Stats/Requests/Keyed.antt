-- ===== src/Stats/Requests/Keyed.antt =====
-- The entries of `RequestStats`, of locust/stats.py, stand under their own names and methods.
use mathlib.Core.Path.{subst, sym}
use locust.Base.{
  ℕ, ◌+◌, ◌-◌, ◌≡◌, refl, ◌∙◌, Bool, true, false, Option, none, some, [], ◌∷◌, ◌==◌, ◌&&◌,
  if◌then◌else◌, inl, inr, Bool-cases,
}
use locust.Stats.Entry.{
  StatsEntry, new_entry, reset, cleared, log, log_error, log_response_time, log_time_of_request,
  cache_response_times, is_later, second,
}
use locust.Stats.Requests.{Entries, find, put, RequestStats, entry_of, log_request, log_failure}
use locust.Stats.Requests.Keys.{IsEntries, same_key}
use locust.Stats.Requests.Stands.{find-put}

abbrev pub IsUnder : (name method : ℕ) → StatsEntry → Type 0
IsUnder name method e = (e.name ≡ name) × (e.method ≡ method)

log_response_time-IsUnder :
    (name method : ℕ) (t : Option ℕ) (e : StatsEntry)
    → IsUnder name method e
    → IsUnder name method (log_response_time t e)
unfolding log_response_time
log_response_time-IsUnder name method none e h = h
log_response_time-IsUnder name method (some t) e h = h

if-IsUnder :
    (b : Bool) (name method : ℕ) (e e' : StatsEntry)
    → IsUnder name method e
    → IsUnder name method e'
    → IsUnder name method (if b then e else e')
if-IsUnder true name method e e' h h' = h
if-IsUnder false name method e e' h h' = h'

cache_response_times-IsUnder :
    (name method t : ℕ) (e : StatsEntry)
    → IsUnder name method e
    → IsUnder name method (cache_response_times t e)
unfolding cache_response_times
cache_response_times-IsUnder name method t e h = h

log-IsUnder :
    (name method now : ℕ) (t : Option ℕ) (c : ℕ) (e : StatsEntry)
    → IsUnder name method e
    → IsUnder name method (log now t c e)
unfolding log log_time_of_request
log-IsUnder name method now t c e h =
    let late = e.use_response_times_cache && is_later (second now) e.last_request_timestamp in
    let e' = if late then cache_response_times (second now - 1) e else e in
    let counted = record e' { num_requests = e'.num_requests + 1 } in
    log_response_time-IsUnder name method t (log_time_of_request now counted) (
      if-IsUnder late name method (cache_response_times (second now - 1) e) e
        (cache_response_times-IsUnder name method (second now - 1) e h) h)

log_error-IsUnder :
    (name method now : ℕ) (e : StatsEntry)
    → IsUnder name method e
    → IsUnder name method (log_error now e)
unfolding log_error
log_error-IsUnder name method now e h = h

new_entry-IsUnder :
    (now now' name method : ℕ) (cached : Bool)
    → IsUnder name method (new_entry now now' name method cached)
unfolding new_entry reset cleared cache_response_times
new_entry-IsUnder now now' name method true = (refl, refl)
new_entry-IsUnder now now' name method false = (refl, refl)

found_first :
    (name method n m : ℕ) (x : StatsEntry) (es : Entries)
    → (n == name && m == method) ≡ true
    → find name method ((n, m, x) ∷ es) ≡ some x
unfolding find
found_first name method n m x es h = rw h refl

found_later :
    (name method n m : ℕ) (x : StatsEntry) (es : Entries)
    → (n == name && m == method) ≡ false
    → find name method ((n, m, x) ∷ es) ≡ find name method es
unfolding find
found_later name method n m x es h = rw h refl

some-inj : {x y : StatsEntry} → some x ≡ some y → x ≡ y
some-inj h = cc h

put-IsEntries :
    (name method : ℕ) (e : StatsEntry) (es : Entries)
    → IsUnder name method e
    → IsEntries es
    → IsEntries (put name method e es)
unfolding put find
put-IsEntries name method e [] h v = (h.0, h.1, refl, tt)
put-IsEntries name method e ((n, m, x) ∷ es) h v = elim (Bool-cases (n == name && m == method)) [
  | inl same ↦
      let (sn, sm) = same_key n m name method same in
      rw same (
        h.0,
        h.1,
        subst (λ k. find name k es ≡ none) sm (subst (λ k. find k m es ≡ none) sn v.2),
        v.3,
      )
  | inr other ↦ rw other (
    v.0,
    v.1,
    find-put n m name method e es ∙ (rw other v.2),
    put-IsEntries name method e es h v.3,
  )
]

find-IsUnder :
    (name method : ℕ) (es : Entries) (e : StatsEntry)
    → find name method es ≡ some e
    → IsEntries es
    → IsUnder name method e
unfolding find
find-IsUnder name method [] e h v = absurd cc
find-IsUnder name method ((n, m, x) ∷ es) e h v = elim (Bool-cases (n == name && m == method)) [
  | inl same ↦
      let (sn, sm) = same_key n m name method same in
      let found : x ≡ e = some-inj (sym (found_first name method n m x es same) ∙ h) in
      subst (IsUnder name method) found (v.0 ∙ sn, v.1 ∙ sm)
  | inr other ↦ find-IsUnder name method es e (sym (found_later name method n m x es other) ∙ h) v.3
]

found-IsUnder :
    (o : Option StatsEntry) (now now' name method : ℕ) (cached : Bool)
    → ((e : StatsEntry) → o ≡ some e → IsUnder name method e)
    → IsUnder name method (elim o [ none ↦ new_entry now now' name method cached | some e ↦ e ])
found-IsUnder none now now' name method cached h = new_entry-IsUnder now now' name method cached
found-IsUnder (some e) now now' name method cached h = h e refl

entry_of-IsUnder :
    (now now' name method : ℕ) (s : RequestStats)
    → IsEntries s.entries
    → IsUnder name method (entry_of now now' name method s)
unfolding entry_of
entry_of-IsUnder now now' name method s v =
    found-IsUnder (find name method s.entries) now now' name method s.use_response_times_cache
      (λ e found. find-IsUnder name method s.entries e found v)

-- Where each entry stands under its own name and method, once, it does so after `log_request`.
pub log_request-IsEntries :
    (at : ℕ → ℕ) (method name : ℕ) (t : Option ℕ) (c : ℕ) (s : RequestStats)
    → IsEntries s.entries
    → IsEntries (log_request at method name t c s).entries
unfolding log_request
log_request-IsEntries at method name t c s v =
    put-IsEntries name method (log (at 3) t c (entry_of (at 1) (at 2) name method s)) s.entries
      (log-IsUnder name method (at 3) t c (entry_of (at 1) (at 2) name method s)
        (entry_of-IsUnder (at 1) (at 2) name method s v))
      v

pub log_failure-IsEntries :
    (create_key : ℕ → ℕ → ℕ → ℕ) (at : ℕ → ℕ) (method name error : ℕ) (s : RequestStats)
    → IsEntries s.entries
    → IsEntries (log_failure create_key at method name error s).entries
unfolding log_failure
log_failure-IsEntries create_key at method name error s v =
    put-IsEntries name method (log_error (at 3) (entry_of (at 1) (at 2) name method s)) s.entries
      (log_error-IsUnder name method (at 3) (entry_of (at 1) (at 2) name method s)
        (entry_of-IsUnder (at 1) (at 2) name method s v))
      v
