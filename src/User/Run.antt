-- ===== src/User/Run.antt =====
-- `run` of `class User` of locust/user/users.py.
use locust.Base.{ℕ}
use locust.User.{
  stop_user, stop_test, greenlet_exit, raised, running, user_on_start, user_on_stop, Setup, World,
  Result, ◌>>◌, call,
}
use locust.User.Loop
use locust.User.Loop.{default_task_set}

module _ (s : Setup) where
  abbrev pub stopped : Result → Result
  stopped (raised stop_user, w) = call s user_on_stop w
  stopped (raised stop_test, w) = call s user_on_stop w
  stopped (raised greenlet_exit, w) = call s user_on_stop w
  stopped r = r

  unfoldable pub run : (fuel : ℕ) → World → Result
  unfolding call Loop.run
  run fuel w =
      stopped
        (call s user_on_start (record w { state = running }) >> Loop.run s fuel default_task_set)
