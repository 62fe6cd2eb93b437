-- ===== src/Wait/Pacing.antt =====
-- What `constant_pacing` of locust/user/wait_time.py keeps constant.
use locust.Base.{ℕ, ◌+◌, ◌-◌, ◌≤◌, ◌≡◌, refl, max, arith}
use locust.Wait.{Paced, constant_pacing}

-- When the wait that was asked for last is over, and the next task starts.
abbrev pub next_start : Paced → ℕ
next_start u = u.last_run + u.last_wait_time

-- Where the clock does not go back between its two readings, the next start is a pacing after the
-- last one, or right after a task that takes longer, with nothing added but the time between the
-- two readings.
pub constant_pacing-next_start :
    (wait_time now now' : ℕ) (u : Paced)
    → now ≤ now'
    → let (wait, u') = constant_pacing wait_time now now' u in
      (next_start u' ≡ max (next_start u + wait_time) now + (now' - now))
      × (next_start u' ≡ now' + wait)
unfolding constant_pacing
constant_pacing-next_start wait_time now now' u h = (omega (arith, h), refl)
