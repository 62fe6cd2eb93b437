-- ===== src/Tasks/Collected.antt =====
-- How often a task is collected from the bases and the class dict.
use locust.Base.{
  ℕ, ◌+◌, ◌≡◌, refl, Option, none, some, List, [], ◌∷◌, ◌++◌, ◌==◌, arith, if◌then◌else◌, count_by,
  sum_by, replicate, zero, suc,
}
use locust.Tasks.{Declared, declared_tasks, base_tasks, weighted_tasks, get_tasks_from_base_classes}

-- How often a task is listed.
abbrev pub times : ℕ → List ℕ → ℕ
times t tasks = count_by (λ u. t == u) tasks

-- How often it is asked for: once where no count is given, or not at all.
abbrev pub asked : (otherwise : ℕ) → ℕ → ℕ × Option ℕ → ℕ
asked otherwise t (u, none) = if t == u then otherwise else 0
asked otherwise t (u, some n) = if t == u then n else 0

-- How often a base has it.
abbrev pub inherited : ℕ → Option (List ℕ) → ℕ
inherited t none = 0
inherited t (some tasks) = times t tasks

-- How often the entry "tasks" of the class dict asks for it.
abbrev pub declared : ℕ → Option Declared → ℕ
declared t none = 0
declared t (some tasks) = sum_by (asked 1 t) tasks

times-append : (t : ℕ) (us ws : List ℕ) → times t (us ++ ws) ≡ times t us + times t ws
times-append t [] ws = omega arith
times-append t (u ∷ us) ws = ground (arith, times-append t us ws)

times-replicate : (t u n : ℕ) → times t (replicate n u) ≡ (if t == u then n else 0)
times-replicate t u zero = ground arith
times-replicate t u (suc n) = ground (arith, times-replicate t u n)

times-base_tasks :
    (t : ℕ) (bases : List (Option (List ℕ)))
    → times t (base_tasks bases) ≡ sum_by (inherited t) bases
unfolding base_tasks
times-base_tasks t [] = refl
times-base_tasks t (none ∷ bases) = omega (arith, times-base_tasks t bases)
times-base_tasks t (some tasks ∷ bases) =
    omega (arith, times-append t tasks (base_tasks bases), times-base_tasks t bases)

times-declared_tasks :
    (t : ℕ) (tasks : Declared) → times t (declared_tasks tasks) ≡ sum_by (asked 1 t) tasks
unfolding declared_tasks
times-declared_tasks t [] = refl
times-declared_tasks t ((u, none) ∷ tasks) = ground (arith, times-declared_tasks t tasks)
times-declared_tasks t ((u, some n) ∷ tasks) = omega (
  arith,
  times-append t (replicate n u) (declared_tasks tasks),
  times-replicate t u n,
  times-declared_tasks t tasks,
)

times-weighted_tasks :
    (t : ℕ) (items : List (ℕ × Option ℕ))
    → times t (weighted_tasks items) ≡ sum_by (asked 0 t) items
unfolding weighted_tasks
times-weighted_tasks t [] = refl
times-weighted_tasks t ((u, none) ∷ items) = ground (arith, times-weighted_tasks t items)
times-weighted_tasks t ((u, some n) ∷ items) = omega (
  arith,
  times-append t (replicate n u) (weighted_tasks items),
  times-replicate t u n,
  times-weighted_tasks t items,
)

-- A task is collected as often as the bases have it, as the entry "tasks" asks for it, once where it
-- gives no count, and as the weights of the decorated values of the class dict say, all together.
pub get_tasks_from_base_classes-times :
    (t : ℕ) (bases : List (Option (List ℕ))) (tasks : Option Declared) (items : List (ℕ × Option ℕ))
    → times t (get_tasks_from_base_classes bases tasks items)
      ≡ sum_by (inherited t) bases + declared t tasks + sum_by (asked 0 t) items
unfolding get_tasks_from_base_classes
get_tasks_from_base_classes-times t bases none items = omega (
  arith,
  times-append t (base_tasks bases) (weighted_tasks items),
  times-base_tasks t bases,
  times-weighted_tasks t items,
)
get_tasks_from_base_classes-times t bases (some tasks) items = omega (
  arith,
  times-append t (base_tasks bases ++ declared_tasks tasks) (weighted_tasks items),
  times-append t (base_tasks bases) (declared_tasks tasks),
  times-base_tasks t bases,
  times-declared_tasks t tasks,
  times-weighted_tasks t items,
)
