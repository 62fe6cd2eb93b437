-- ===== src/Stats/Requests/Errors.antt =====
-- How often an error of `RequestStats`, of locust/stats.py, has occurred: what is logged, and what
-- the master adds up.
use locust.Base.{
  ℕ, ◌+◌, ◌≡◌, refl, Option, none, some, [], ◌∷◌, arith, ◌==◌, if◌then◌else◌, Option-cases, inl,
  inr, min, max,
}
use locust.Base.Dict.{Dict, lookup, insert, lookup-insert, IsDict}
use locust.Stats.Requests.{StatsError, occurred, count_error, merge_error, merge_errors, merge_seen}

-- The occurrences under a key.
abbrev pub occurs : ℕ → Dict StatsError → ℕ
occurs k d = elim (lookup k d) [ none ↦ 0 | some e ↦ e.occurrences ]

occurs-insert :
    (k key : ℕ) (e : StatsError) (d : Dict StatsError)
    → occurs k (insert key e d) ≡ (if k == key then e.occurrences else occurs k d)
occurs-insert k key e d = ground (arith, lookup-insert k key e d)

counted_again :
    (now k key : ℕ) (new : StatsError) (o : Option StatsError) (d : Dict StatsError)
    → o ≡ lookup key d
    → new.occurrences ≡ 0
    → let entry : StatsError = elim o [ none ↦ new | some e ↦ e ] in
      occurs k (insert key (occurred now entry) d)
      ≡ (if k == key then occurs k d + 1 else occurs k d)
unfolding occurred
counted_again now k key new none d h z =
    ground (arith, h, z, occurs-insert k key (occurred now new) d)
counted_again now k key new (some e) d h z =
    ground (arith, h, occurs-insert k key (occurred now e) d)

-- An error that is logged occurs once more, and no other does.
pub count_error-occurs :
    (create_key : ℕ → ℕ → ℕ → ℕ) (now method name error k : ℕ) (d : Dict StatsError)
    → occurs k (count_error create_key now method name error d)
      ≡ (if k == create_key method name error then occurs k d + 1 else occurs k d)
unfolding count_error
count_error-occurs create_key now method name error k d =
    let key = create_key method name error in
    counted_again now k key
      (record {
        method = method;
        name = name;
        error = error;
        occurrences = 0;
        first_seen = none;
        last_seen = none;
      })
      (lookup key d) d refl refl

merge_error-occurs :
    (k key : ℕ) (e : StatsError) (d : Dict StatsError)
    → occurs k (merge_error key e d) ≡ occurs k d + (if k == key then e.occurrences else 0)
unfolding merge_error
merge_error-occurs k key e d = elim (Option-cases (lookup key d)) [
  | inl gone ↦ ground (arith, gone, occurs-insert k key e d)
  | inr (old, found) ↦ ground (
    arith,
    found,
    occurs-insert k key
        (record old {
          occurrences = old.occurrences + e.occurrences;
          first_seen = merge_seen min old.first_seen e.first_seen;
          last_seen = merge_seen max old.last_seen e.last_seen;
        })
        d,
  )
]

-- The master adds the occurrences of each error in a report, a dict without a key twice, to its
-- own.
pub merge_errors-occurs :
    (k : ℕ) (report d : Dict StatsError)
    → IsDict report
    → occurs k (merge_errors report d) ≡ occurs k d + occurs k report
unfolding merge_errors
merge_errors-occurs k [] d v = omega arith
merge_errors-occurs k ((key, e) ∷ report) d v =
    let first = merge_error-occurs k key e d in
    let rest = merge_errors-occurs k report (merge_error key e d) v.1 in
    ground (arith, first, rest, v.0)
