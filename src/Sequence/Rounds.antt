-- ===== src/Sequence/Rounds.antt =====
-- A `SequentialTaskSet` of locust/user/sequential_taskset.py runs its tasks round after round.
use mathlib.Core.Path.{sym}
use locust.Base.{
  ℕ, zero, suc, ◌+◌, ◌*◌, ◌<◌, ◌≡◌, refl, ◌∙◌, some, List, [], ◌∷◌, ◌++◌, arith, length,
}
use locust.Sequence.{SequentialTaskSet, new_task_set, next_of, get_next_task, run_tasks}

-- A list, a number of times.
abbrev pub times : ℕ → List ℕ → List ℕ
times zero tasks = []
times (suc k) tasks = tasks ++ times k tasks

abbrev at_rest : (tasks rest : List ℕ) → SequentialTaskSet
at_rest tasks rest = record { tasks = tasks; rest = rest }

-- The task that is left over first runs first.
run_left :
    (m t r : ℕ) (ts rest us : List ℕ)
    → run_tasks m (at_rest (t ∷ ts) rest) ≡ some us
    → run_tasks (suc m) (at_rest (t ∷ ts) (r ∷ rest)) ≡ some (r ∷ us)
unfolding run_tasks get_next_task next_of
run_left m t r ts rest us h = rw h refl

-- The rest of a round runs before the next one.
rest_first :
    (m n t : ℕ) (ts rest us : List ℕ)
    → m ≡ length rest + n
    → run_tasks n (at_rest (t ∷ ts) []) ≡ some us
    → run_tasks m (at_rest (t ∷ ts) rest) ≡ some (rest ++ us)
rest_first m n t ts [] us e h = let same : m ≡ n = omega (arith, e) in rw same h
rest_first zero n t ts (r ∷ rest) us e h = absurd (omega (arith, e))
rest_first (suc m) n t ts (r ∷ rest) us e h =
    run_left m t r ts rest (rest ++ us) (rest_first m n t ts rest us (omega (arith, e)) h)

-- A round that has ended is as good as one that has not begun.
new_round :
    (n t : ℕ) (ts : List ℕ)
    → run_tasks n (at_rest (t ∷ ts) []) ≡ run_tasks n (at_rest (t ∷ ts) (t ∷ ts))
unfolding run_tasks get_next_task next_of
new_round zero t ts = refl
new_round (suc n) t ts = refl

more : (k m n : ℕ) → m ≡ suc k * n → m ≡ n + k * n
more k m n e = grind (arith, e)

rounds :
    (k m t : ℕ) (ts : List ℕ)
    → m ≡ k * length (t ∷ ts)
    → run_tasks m (at_rest (t ∷ ts) []) ≡ some (times k (t ∷ ts))
unfolding run_tasks
rounds zero zero t ts e = refl
rounds zero (suc m) t ts e = absurd (omega (arith, e))
rounds (suc k) m t ts e =
    new_round m t ts
    ∙ rest_first m (k * length (t ∷ ts)) t ts (t ∷ ts) (times k (t ∷ ts))
        (more k m (length (t ∷ ts)) e) (rounds k (k * length (t ∷ ts)) t ts refl)

-- An instance with some tasks runs all of them in their order, then all of them again, and so on:
-- `k` rounds are `k` times the list of the tasks.
pub run_tasks-times :
    (k : ℕ) (tasks : List ℕ)
    → 0 < length tasks
    → run_tasks (k * length tasks) (new_task_set tasks) ≡ some (times k tasks)
unfolding new_task_set
run_tasks-times k [] some_task = absurd (omega arith)
run_tasks-times k (t ∷ ts) some_task =
    sym (new_round (k * length (t ∷ ts)) t ts) ∙ rounds k (k * length (t ∷ ts)) t ts refl
