-- ===== src/User/Fired.antt =====
-- `EventHook.fire` of locust/event.py.
use locust.Base.{ℕ, ◌+◌, ◌≡◌, refl, ap, ◌∙◌, Option, none, some, List, [], ◌∷◌, length, arith}
use locust.User.{
  Raised, other_exception, returned, UserState, Event, handled, outcome_of, survive, ◌>>◌,
  Behaviour, Setup, World, fire,
}
use locust.User.Ends.{at}

-- What a listener may raise, and the next one be called.
pub data IsCaught : Option Raised → Type 0 where
  nothing : IsCaught none
  ordinary : IsCaught (some other_exception)

-- The events of the listeners, the last one first, on top of what was before.
unfoldable pub all_handled : List ℕ → List Event → List Event
all_handled [] es = es
all_handled (h ∷ hs) es = all_handled hs (handled h ∷ es)

survive_lem :
    (e : Option Raised) (w : World) → IsCaught e → survive (outcome_of e, w) ≡ (returned, w)
survive_lem _ w nothing = refl
survive_lem _ w ordinary = refl

module _ (s : Setup) where
  -- Where no listener raises an exception that steers the user, and nobody stops it, all are called,
  -- in the order of the list, also after one that fails, and `fire` returns.
  pub fire-all_handled :
      (hs : List ℕ) (state : UserState) (n : ℕ) (es : List Event)
      → ((k : ℕ) → Behaviour.stopped (Setup.behaviour s k) ≡ none)
      → ((k : ℕ) → IsCaught (Behaviour.raises (Setup.behaviour s k)))
      → fire s hs (at state n es) ≡ (returned, at state (n + length hs) (all_handled hs es))
  unfolding fire all_handled
  fire-all_handled [] state n es h k = ap (λ c. (returned, at state c es)) (omega arith)
  fire-all_handled (l ∷ hs) state n es h k =
      rw (h n) (ap (λ r. r >> fire s hs) (survive_lem _ (at state (n + 1) (handled l ∷ es)) (k n)))
      ∙ fire-all_handled hs state (n + 1) (handled l ∷ es) h k
      ∙ ap (λ c. (returned, at state c (all_handled hs (handled l ∷ es)))) (omega arith)
