-- ===== src/Wait.antt =====
-- `constant_pacing` of locust/user/wait_time.py, in whole microseconds.
pub mod Pacing
mod Tests
use locust.Base.{ℕ, ◌+◌, ◌-◌}

-- `_cp_last_run` and `_cp_last_wait_time`, the attributes of the user.
pub record Paced : Type 0 where
  pub last_run : ℕ
  pub last_wait_time : ℕ

-- The clock is read at `now` and at `now'`. `max(0, wait_time - run_time)`, where the run time is
-- `now` less the two attributes: what is subtracted from is added, so that nothing is cut off but
-- by the `max`.
unfoldable pub constant_pacing : (wait_time now now' : ℕ) → Paced → ℕ × Paced
constant_pacing wait_time now now' u =
    let wait = (wait_time + u.last_run + u.last_wait_time) - now in
    (wait, record { last_run = now'; last_wait_time = wait })
