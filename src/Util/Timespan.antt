-- ===== src/Util/Timespan.antt =====
-- `parse_timespan` of locust/util/timespan.py. A character is a digit, one of the three units, the
-- newline, which `$` of a regular expression allows at the end, or another.
use locust.Base.{
  ℕ, ◌+◌, ◌*◌, ◌<◌, ◌≡◌, refl, ◌∙◌, Bool, true, false, Option, none, some, List, [], ◌∷◌, ltb,
  if◌then◌else◌, arith, ◌&&◌,
}

pub data TimeUnit : Type 0 where
  hours : TimeUnit
  minutes : TimeUnit
  seconds : TimeUnit

pub data Symbol : Type 0 where
  digit : ℕ → Symbol
  unit : TimeUnit → Symbol
  newline : Symbol
  other : Symbol

abbrev pub same_unit : TimeUnit → TimeUnit → Bool
same_unit hours hours = true
same_unit minutes minutes = true
same_unit seconds seconds = true
same_unit u v = false

-- `int` of some digits, after those that have been read.
abbrev pub value_from : ℕ → List ℕ → ℕ
value_from n [] = n
value_from n (d ∷ ds) = value_from (10 * n + d) ds

-- `^\d+$`, for at least one digit before.
unfoldable pub all_digits : (read : ℕ) → List Symbol → Option ℕ
all_digits n [] = some n
all_digits n (digit d ∷ cs) = all_digits (10 * n + d) cs
all_digits n (newline ∷ []) = some n
all_digits n (newline ∷ c ∷ cs) = none
all_digits n (unit u ∷ cs) = none
all_digits n (other ∷ cs) = none

-- `\d+?` and a unit, for at least one digit before: the number, and what is left.
unfoldable pub number_of : TimeUnit → (read : ℕ) → List Symbol → Option (ℕ × List Symbol)
number_of u n [] = none
number_of u n (digit d ∷ cs) = number_of u (10 * n + d) cs
number_of u n (unit v ∷ cs) = if same_unit u v then some (n, cs) else none
number_of u n (newline ∷ cs) = none
number_of u n (other ∷ cs) = none

-- A group that may be missing: its number, and what is left.
unfoldable pub part_of : TimeUnit → List Symbol → Option ℕ × List Symbol
unfolding number_of
part_of u (digit d ∷ cs) = elim (number_of u d cs) [
  | none ↦ (none, digit d ∷ cs)
  | some (n, rest) ↦ (some n, rest)
]
part_of u cs = (none, cs)

abbrev pub or_zero : Option ℕ → ℕ
or_zero none = 0
or_zero (some n) = n

abbrev pub is_missing : Option ℕ → Bool
is_missing none = true
is_missing (some n) = false

-- The seconds of a `timedelta`, which has at most 999999999 days; `none` is its OverflowError.
abbrev pub total_seconds : (h m s : ℕ) → Option ℕ
total_seconds h m s =
    if ltb (3600 * h + 60 * m + s) (1000000000 * 86400) then some (3600 * h + 60 * m + s) else none

abbrev pub sum_parts : (h m s : Option ℕ) → (rest : List Symbol) → Option ℕ
sum_parts h m s (c ∷ rest) = none
sum_parts h m s [] =
    if is_missing h && is_missing m && is_missing s
    then none
    else total_seconds (or_zero h) (or_zero m) (or_zero s)

abbrev pub parse_parts : List Symbol → Option ℕ
parse_parts cs =
    let h = part_of hours cs in
    let m = part_of minutes h.1 in let s = part_of seconds m.1 in sum_parts h.0 m.0 s.0 s.1

-- `none` is its ValueError too.
unfoldable pub parse_timespan : List Symbol → Option ℕ
unfolding all_digits part_of
parse_timespan [] = none
parse_timespan (digit d ∷ cs) = elim (all_digits d cs) [
  | some n ↦ some n
  | none ↦ parse_parts (digit d ∷ cs)
]
parse_timespan (c ∷ cs) = parse_parts (c ∷ cs)

-- A number with its unit, as digits, or nothing.
abbrev pub Part : Type 0
Part = Option (ℕ × List ℕ)

abbrev pub digits_of : List ℕ → List Symbol → List Symbol
digits_of [] rest = rest
digits_of (d ∷ ds) rest = digit d ∷ digits_of ds rest

abbrev pub write : TimeUnit → Part → List Symbol → List Symbol
write u none rest = rest
write u (some (d, ds)) rest = digit d ∷ digits_of ds (unit u ∷ rest)

abbrev pub number : Part → Option ℕ
number none = none
number (some (d, ds)) = some (value_from d ds)

number_of-digits :
    (u : TimeUnit) (n : ℕ) (ds : List ℕ) (rest : List Symbol)
    → number_of u n (digits_of ds (unit u ∷ rest)) ≡ some (value_from n ds, rest)
unfolding number_of
number_of-digits hours n [] rest = refl
number_of-digits minutes n [] rest = refl
number_of-digits seconds n [] rest = refl
number_of-digits u n (d ∷ ds) rest = number_of-digits u (10 * n + d) ds rest

number_of-skips :
    (u v : TimeUnit) (n : ℕ) (ds : List ℕ) (rest : List Symbol)
    → same_unit u v ≡ false
    → number_of u n (digits_of ds (unit v ∷ rest)) ≡ none
unfolding number_of
number_of-skips u v n [] rest h = rw h refl
number_of-skips u v n (d ∷ ds) rest h = number_of-skips u v (10 * n + d) ds rest h

all_digits-digits : (n : ℕ) (ds : List ℕ) → all_digits n (digits_of ds []) ≡ some (value_from n ds)
unfolding all_digits
all_digits-digits n [] = refl
all_digits-digits n (d ∷ ds) = all_digits-digits (10 * n + d) ds

all_digits-fails :
    (v : TimeUnit) (n : ℕ) (ds : List ℕ) (rest : List Symbol)
    → all_digits n (digits_of ds (unit v ∷ rest)) ≡ none
unfolding all_digits
all_digits-fails v n [] rest = refl
all_digits-fails v n (d ∷ ds) rest = all_digits-fails v (10 * n + d) ds rest

part_of-write :
    (u : TimeUnit) (d : ℕ) (ds : List ℕ) (rest : List Symbol)
    → part_of u (write u (some (d, ds)) rest) ≡ (some (value_from d ds), rest)
unfolding part_of
part_of-write u d ds rest = rw (part_of, number_of-digits u d ds rest) refl

part_of-skips :
    (u v : TimeUnit) (d : ℕ) (ds : List ℕ) (rest : List Symbol)
    → same_unit u v ≡ false
    → part_of u (write v (some (d, ds)) rest) ≡ (none, write v (some (d, ds)) rest)
unfolding part_of
part_of-skips u v d ds rest h = rw (part_of, number_of-skips u v d ds rest h) refl

seconds_part : (s : Part) → part_of seconds (write seconds s []) ≡ (number s, [])
unfolding part_of
seconds_part none = refl
seconds_part (some (d, ds)) = part_of-write seconds d ds []

minutes_part :
    (m s : Part)
    → part_of minutes (write minutes m (write seconds s [])) ≡ (number m, write seconds s [])
unfolding part_of
minutes_part (some (d, ds)) s = part_of-write minutes d ds (write seconds s [])
minutes_part none none = refl
minutes_part none (some (d, ds)) = part_of-skips minutes seconds d ds [] refl

abbrev pub text : (h m s : Part) → List Symbol
text h m s = write hours h (write minutes m (write seconds s []))

hours_part :
    (h m s : Part) → part_of hours (text h m s) ≡ (number h, write minutes m (write seconds s []))
unfolding part_of
hours_part (some (d, ds)) m s = part_of-write hours d ds (write minutes m (write seconds s []))
hours_part none none none = refl
hours_part none none (some (d, ds)) = part_of-skips hours seconds d ds [] refl
hours_part none (some (d, ds)) s = part_of-skips hours minutes d ds (write seconds s []) refl

parse_parts-text :
    (h m s : Part) → parse_parts (text h m s) ≡ sum_parts (number h) (number m) (number s) []
parse_parts-text h m s = rw (hours_part h m s, minutes_part m s, seconds_part s) refl

text-parse_parts :
    (h m s : Part)
    → is_missing (number h) && is_missing (number m) && is_missing (number s) ≡ false
    → parse_timespan (text h m s) ≡ parse_parts (text h m s)
unfolding parse_timespan
text-parse_parts (some (d, ds)) m s e =
    rw (parse_timespan, all_digits-fails hours d ds (write minutes m (write seconds s []))) refl
text-parse_parts none (some (d, ds)) s e =
    rw (parse_timespan, all_digits-fails minutes d ds (write seconds s [])) refl
text-parse_parts none none (some (d, ds)) e =
    rw (parse_timespan, all_digits-fails seconds d ds []) refl
text-parse_parts none none none e = cc

-- A text of hours, minutes and seconds, in this order, each a number of one or more digits with its
-- unit, of which any may be missing but not all, is parsed as the number of seconds that they make,
-- where it is that of less than 1000000000 days.
pub parse_timespan-text :
    (h m s : Part)
    → is_missing (number h) && is_missing (number m) && is_missing (number s) ≡ false
    → let total = 3600 * or_zero (number h) + 60 * or_zero (number m) + or_zero (number s) in
      total < 1000000000 * 86400 → parse_timespan (text h m s) ≡ some total
unfolding parse_timespan
parse_timespan-text h m s e bound =
    text-parse_parts h m s e ∙ (parse_parts-text h m s ∙ ground (arith, e, bound))

-- A number without a unit, of one or more digits, is parsed as that number.
pub parse_timespan-digits :
    (d : ℕ) (ds : List ℕ) → parse_timespan (digit d ∷ digits_of ds []) ≡ some (value_from d ds)
unfolding parse_timespan
parse_timespan-digits d ds = rw (parse_timespan, all_digits-digits d ds) refl
