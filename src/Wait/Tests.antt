-- ===== src/Wait/Tests.antt =====
-- An instance of the theorem on `constant_pacing`: a task of 4 seconds, paced at 10.
use locust.Base.{◌≡◌, refl}
use locust.Wait.{Paced, constant_pacing}

abbrev user : Paced
user = record { last_run = 50000000; last_wait_time = 6000000 }

waits : (constant_pacing 10000000 60000000 60000001 user).0 ≡ 6000000
unfolding constant_pacing
waits = refl
