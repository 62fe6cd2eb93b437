-- ===== src/Runner/Shape.antt =====
-- `Runner.shape_worker` of locust/runners.py: how a load shape of locust/shape.py drives a runner.
-- What `tick` gives in each round of the loop is an argument, and so is whether the test is up then.
pub mod Stages
mod Tests
use locust.Base.{ℕ, Bool, true, false, Option, none, some, List, [], ◌∷◌, ◌==◌, ◌&&◌, if◌then◌else◌}

-- A tuple of two, or of three with None or a list of classes, by number.
pub data Tick : Type 0 where
  pair : (user_count spawn_rate : ℕ) → Tick
  triple : (user_count spawn_rate : ℕ) → Option ℕ → Tick

pub data Action : Type 0 where
  start : (user_count spawn_rate : ℕ) → (user_classes : Option ℕ) → Action
  stop : Action
  quit : Action

-- Whether the state is one of the three of the loop, and what `tick` gives.
pub record Round : Type 0 where
  pub up : Bool
  pub tick : Option Tick

abbrev pub same_classes : Option ℕ → Option ℕ → Bool
same_classes none none = true
same_classes (some a) (some b) = a == b
same_classes _ _ = false

abbrev pub same_tick : Tick → Tick → Bool
same_tick (pair n r) (pair n' r') = n == n' && r == r'
same_tick (triple n r c) (triple n' r' c') = n == n' && r == r' && same_classes c c'
same_tick _ _ = false

abbrev pub is_last : Tick → Option Tick → Bool
is_last t none = false
is_last t (some last) = same_tick t last

abbrev pub start_of : Tick → Action
start_of (pair n r) = start n r none
start_of (triple n r c) = start n r c

abbrev pub ending : (headless : Bool) → Action
ending headless = if headless then quit else stop

-- The calls of the runner, and `shape_last_tick` then. The rounds may end before the loop does.
unfoldable pub shape_worker :
    (headless : Bool) → List Round → (shape_last_tick : Option Tick) → List Action × Option Tick
shape_worker headless [] last = ([], last)
shape_worker headless (r ∷ rounds) last =
    let go = shape_worker headless rounds in
    if r.up
    then elim r.tick [
      | none ↦ (ending headless ∷ [], none)
      | some t ↦ if is_last t last then go last else (start_of t ∷ (go (some t)).0, (go (some t)).1)
    ]
    else ([], last)
