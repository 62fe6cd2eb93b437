-- ===== src/Util/Tests.antt =====
-- Spans of time and cached calls, and instances of the theorems about them.
use locust.Base.{◌-◌, ◌≤◌, ◌≡◌, refl, ◌⊎◌, true, none, some, [], ◌∷◌, arith}
use locust.Util.Timespan.{
  digit, unit, newline, other, hours, minutes, parse_timespan, text, parse_timespan-text,
}
use locust.Util.Memoize.{Cache, Call, wrapper, called, cleared, after, Among, wrapper_recent}

-- 1h20m, 3m, 20 with a newline; not 20m1h, and not 5x.
spans :
    (parse_timespan (digit 1 ∷ unit hours ∷ digit 2 ∷ digit 0 ∷ unit minutes ∷ []) ≡ some 4800)
    × (parse_timespan (digit 3 ∷ unit minutes ∷ []) ≡ some 180)
    × (parse_timespan (digit 2 ∷ digit 0 ∷ newline ∷ []) ≡ some 20)
    × (parse_timespan (digit 2 ∷ digit 0 ∷ unit minutes ∷ digit 1 ∷ unit hours ∷ []) ≡ none)
    × (parse_timespan (digit 5 ∷ other ∷ []) ≡ none)
unfolding parse_timespan
spans = (refl, refl, refl, refl, refl)

parse_timespan-text_example :
    parse_timespan (text (some (3, [])) (some (3, 0 ∷ [])) (some (1, 0 ∷ []))) ≡ some 12610
parse_timespan-text_example =
    parse_timespan-text (some (3, [])) (some (3, 0 ∷ [])) (some (1, 0 ∷ [])) refl (omega arith)

abbrev first : Call
first = record { start = 100; returns = some 7; finish = 130 }

abbrev second : Call
second = record { start = 140; returns = some 8; finish = 141 }

hit : (wrapper true second (after true 20 (called first ∷ []))).0 ≡ some 7
unfolding after
hit = refl

-- The first call took longer than the timeout, which is doubled.
doubled : Cache.timeout (after true 20 (called first ∷ [])) ≡ 40
unfolding after
doubled = refl

forgets : (wrapper true second (after true 20 (cleared ∷ called first ∷ []))).0 ≡ some 8
unfolding after
forgets = refl

wrapper_recent_example :
    (Call.returns second ≡ some 7)
    ⊎ ((source : Call) × Among (called source) (called first ∷ [])
        × (source.returns ≡ some 7)
        × (140 - source.finish ≤ Cache.timeout (after true 20 (called first ∷ []))))
wrapper_recent_example = wrapper_recent true 20 (called first ∷ []) second 7 hit
