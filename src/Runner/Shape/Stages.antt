-- ===== src/Runner/Shape/Stages.antt =====
-- A load shape starts one test for each of its stages.
use locust.Base.{ℕ, ◌≡◌, ◌≢◌, Bool, true, false, Option, none, some, List, [], ◌∷◌}
use locust.Runner.Shape.{Tick, pair, triple, Action, start, stop, quit, Round, shape_worker}

-- What a tick asks for: the classes are those of the runner where it names none.
pub data Asks : Tick → Action → Type 0 where
  of_two : (n r : ℕ) → Asks (pair n r) (start n r none)
  of_three : (n r : ℕ) (c : Option ℕ) → Asks (triple n r c) (start n r c)

-- What the loop does, from the last tick that was started: nothing once the test is not up; at the
-- end of the shape it quits or stops the runner, and forgets the tick; a tick that is the last one
-- is passed over; and any other one is started.
pub data Drives (headless : Bool)
    : Option Tick → List Round → List Action → Option Tick → Type 0 where
  waits : (last : Option Tick) → Drives headless last [] [] last
  is_down :
      (last : Option Tick) (r : Round) (rs : List Round)
      → r.up ≡ false
      → Drives headless last (r ∷ rs) [] last
  quits :
      (last : Option Tick) (r : Round) (rs : List Round)
      → r.up ≡ true
      → r.tick ≡ none
      → headless ≡ true
      → Drives headless last (r ∷ rs) (quit ∷ []) none
  stops :
      (last : Option Tick) (r : Round) (rs : List Round)
      → r.up ≡ true
      → r.tick ≡ none
      → headless ≡ false
      → Drives headless last (r ∷ rs) (stop ∷ []) none
  stays :
      (t : Tick) (r : Round) (rs : List Round) (actions : List Action) (end : Option Tick)
      → r.up ≡ true
      → r.tick ≡ some t
      → Drives headless (some t) rs actions end
      → Drives headless (some t) (r ∷ rs) actions end
  starts :
      (last : Option Tick) (t : Tick) (a : Action) (r : Round) (rs : List Round)
      (actions : List Action) (end : Option Tick)
      → r.up ≡ true
      → r.tick ≡ some t
      → last ≢ some t
      → Asks t a
      → Drives headless (some t) rs actions end
      → Drives headless last (r ∷ rs) (a ∷ actions) end

-- What the loop does with some rounds.
abbrev IsDriven : (headless : Bool) → List Round → Option Tick → Type 0
IsDriven headless rounds last =
    let done = shape_worker headless rounds last in Drives headless last rounds done.0 done.1
