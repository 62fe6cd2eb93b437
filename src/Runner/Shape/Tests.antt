-- ===== src/Runner/Shape/Tests.antt =====
-- A load shape, and an instance of the theorem about it.
use locust.Base.{◌≡◌, refl, true, false, none, some, List, [], ◌∷◌}
use locust.Runner.Shape.{pair, triple, start, stop, Round, shape_worker}

-- Two seconds of ten users, two of twenty, and the end.
abbrev rounds : List Round
rounds =
    (record { up = true; tick = some (pair 10 5) })
    ∷ (record { up = true; tick = some (pair 10 5) })
    ∷ (record { up = true; tick = some (triple 20 5 none) })
    ∷ (record { up = true; tick = some (triple 20 5 none) })
    ∷ (record { up = true; tick = none })
    ∷ []

two_stages : (shape_worker false rounds none).0 ≡ start 10 5 none ∷ start 20 5 none ∷ stop ∷ []
unfolding shape_worker
two_stages = refl
