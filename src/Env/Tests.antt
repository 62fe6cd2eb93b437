-- ===== src/Env/Tests.antt =====
-- Environments on small inputs, and instances of the theorems about them.
use locust.Base.{
  ℕ, ◌≡◌, refl, true, false, none, some, List, [], ◌∷◌, arith, Bool, not, ◌==◌, ltb, ◌⊎◌,
}
use locust.Dispatch.Users.{UserClass, WorkerNode}
use locust.Dispatch.Dispatcher.{Dispatcher, current, init_dispatcher}
use locust.Dispatch.Dispatcher.Invariant.{IsDispatcher}
use locust.Tasks.{plain, task_set, nil, cons}
use locust.Env.{
  TaskedClass, ok, error, same_class_name, no_weighted_users, classes_of, check_user_classes,
  assign_equal_weights,
}
use locust.Env.Accepted.{AreSpawned, check_user_classes-IsDispatcher}
use locust.Env.Equal.{every_callable, AreEqualized, assign_equal_weights-AreEqualized}

abbrev named : (name weight : ℕ) → TaskedClass
named name weight = record {
  user_class = record { name = name; weight = weight; fixed_count = 0 };
  tasks = cons (plain 4 none) (
      cons (plain 4 none)
        (cons (task_set 8 false (cons (plain 5 none) (cons (plain 4 none) nil))) nil));
}

-- The last task first, and a task set in the place of its tasks.
equal :
    assign_equal_weights (λ f. true) (named 1 9 ∷ [])
    ≡ some ((record { name = 1; weight = 1; fixed_count = 0 }, 4 ∷ 5 ∷ []) ∷ [])
unfolding assign_equal_weights
equal = refl

-- The function 5 is not callable.
refused : assign_equal_weights (λ f. not (f == 5)) (named 1 9 ∷ []) ≡ none
unfolding assign_equal_weights
refused = refl

abbrev below_nine : ℕ → Bool
below_nine f = ltb f 9

all_zero : check_user_classes none (named 1 0 ∷ []) ≡ error no_weighted_users
unfolding check_user_classes
all_zero = refl

same_name : check_user_classes none (named 1 2 ∷ named 1 3 ∷ []) ≡ error same_class_name
unfolding check_user_classes
same_name = refl

accepted :
    check_user_classes (some true) (named 3 2 ∷ named 1 0 ∷ named 2 5 ∷ [])
    ≡ ok (named 3 2 ∷ named 2 5 ∷ [])
unfolding check_user_classes
accepted = refl

abbrev node : WorkerNode
node = record { id = 20; host = 20; index_within_host = 0 }

check_user_classes-IsDispatcher_example :
    AreSpawned (named 3 2 ∷ named 1 0 ∷ named 2 5 ∷ []) (named 3 2 ∷ named 2 5 ∷ [])
    × ((d : Dispatcher) × (init_dispatcher (node ∷ []) (classes_of (named 3 2 ∷ named 2 5 ∷ []))
          ≡ some d)
        × IsDispatcher d
        × (current d ≡ 0))
check_user_classes-IsDispatcher_example =
    check_user_classes-IsDispatcher (some true) (named 3 2 ∷ named 1 0 ∷ named 2 5 ∷ [])
      (named 3 2 ∷ named 2 5 ∷ []) (node ∷ []) (omega arith) (omega arith) accepted refl

assign_equal_weights-AreEqualized_example :
    ((every_callable below_nine (named 1 9 ∷ named 2 3 ∷ []) ≡ false)
      × (assign_equal_weights below_nine (named 1 9 ∷ named 2 3 ∷ []) ≡ none))
    ⊎ ((every_callable below_nine (named 1 9 ∷ named 2 3 ∷ []) ≡ true)
        × ((rs : List (UserClass × List ℕ)) × (assign_equal_weights below_nine
                (named 1 9 ∷ named 2 3 ∷ [])
              ≡ some rs)
            × AreEqualized (named 1 9 ∷ named 2 3 ∷ []) rs))
assign_equal_weights-AreEqualized_example =
    assign_equal_weights-AreEqualized below_nine (named 1 9 ∷ named 2 3 ∷ [])
