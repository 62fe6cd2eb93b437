-- ===== src/Env/Equal.antt =====
-- `assign_equal_weights` of locust/env.py: each function once, whatever task sets it is nested in.
use locust.Base.{
  ℕ, zero, suc, ◌+◌, ◌≤◌, ◌≡◌, refl, ◌∙◌, Bool, true, false, not, none, some, List, [], ◌∷◌, ◌++◌,
  ◌==◌, ◌||◌, ◌&&◌, member, sum_by, if◌then◌else◌, arith, Bool-cases, ◌⊎◌, inl, inr, ==→eq,
}
use locust.Dispatch.Users.{UserClass}
use locust.Tasks.{Task, plain, task_set, Tasks, nil, cons}
use locust.Env.{TaskedClass, extend, collect_tasks, size_of, size_all, assign_equal_weights}

-- Whether a function is a task, or a task of a task set, at any depth.
unfoldable mutual
  pub in_task : ℕ → Task → Bool
  in_task f (plain id tags) = f == id
  in_task f (task_set id markov tasks) = in_tasks f tasks

  pub in_tasks : ℕ → Tasks → Bool
  in_tasks f nil = false
  in_tasks f (cons task tasks) = in_task f task || in_tasks f tasks

abbrev in_frontier : ℕ → List Task → Bool
in_frontier f [] = false
in_frontier f (task ∷ frontier) = in_task f task || in_frontier f frontier

abbrev size_frontier : List Task → ℕ
size_frontier = sum_by size_of

-- No function twice.
abbrev pub is_distinct : List ℕ → Bool
is_distinct [] = true
is_distinct (f ∷ fs) = not (member f fs) && is_distinct fs

size-extend :
    (tasks : Tasks) (frontier : List Task)
    → size_frontier (extend tasks frontier) ≡ size_all tasks + size_frontier frontier
unfolding extend size_all
size-extend nil frontier = omega arith
size-extend (cons task tasks) frontier = omega (arith, size-extend tasks (task ∷ frontier))

in-extend :
    (f : ℕ) (tasks : Tasks) (frontier : List Task)
    → in_frontier f (extend tasks frontier) ≡ (in_tasks f tasks || in_frontier f frontier)
unfolding extend in_tasks
in-extend f nil frontier = refl
in-extend f (cons task tasks) frontier = ground (arith, in-extend f tasks (task ∷ frontier))

member-snoc : (f id : ℕ) (fs : List ℕ) → member f (fs ++ id ∷ []) ≡ (member f fs || f == id)
member-snoc f id [] = ground arith
member-snoc f id (g ∷ fs) = ground (arith, member-snoc f id fs)

snoc_distinct :
    (id : ℕ) (fs : List ℕ)
    → member id fs ≡ false
    → is_distinct fs ≡ true
    → is_distinct (fs ++ id ∷ []) ≡ true
snoc_distinct id [] h d = refl
snoc_distinct id (f ∷ fs) h d = ground (arith, h, d, snoc_distinct id fs, member-snoc f id fs)

-- Whether every task is callable, at any depth.
unfoldable mutual
  pub all_callable : (ℕ → Bool) → Task → Bool
  all_callable callable (plain id tags) = callable id
  all_callable callable (task_set id markov tasks) = all_callable_in callable tasks

  pub all_callable_in : (ℕ → Bool) → Tasks → Bool
  all_callable_in callable nil = true
  all_callable_in callable (cons task tasks) =
      all_callable callable task && all_callable_in callable tasks

abbrev callable_frontier : (ℕ → Bool) → List Task → Bool
callable_frontier callable [] = true
callable_frontier callable (task ∷ frontier) =
    all_callable callable task && callable_frontier callable frontier

callable-extend :
    (callable : ℕ → Bool) (tasks : Tasks) (frontier : List Task)
    → callable_frontier callable (extend tasks frontier)
      ≡ (all_callable_in callable tasks && callable_frontier callable frontier)
unfolding extend all_callable
callable-extend callable nil frontier = refl
callable-extend callable (cons task tasks) frontier =
    ground (arith, callable-extend callable tasks (task ∷ frontier))

-- What is collected from a frontier.
record Collects (callable : ℕ → Bool) (fuel : ℕ) (frontier : List Task) (user_tasks : List ℕ)
    : Type 0 where
  pub tasks : List ℕ
  pub found : collect_tasks callable fuel frontier user_tasks ≡ some tasks
  pub once : is_distinct tasks ≡ true
  pub all : (f : ℕ) → member f tasks ≡ (member f user_tasks || in_frontier f frontier)

abbrev with_task : ℕ → List ℕ → List ℕ
with_task id fs = if member id fs then fs else fs ++ id ∷ []

with_task_distinct :
    (id : ℕ) (fs : List ℕ) → is_distinct fs ≡ true → is_distinct (with_task id fs) ≡ true
with_task_distinct id fs d = ground (arith, d, snoc_distinct id fs)

member-with_task : (f id : ℕ) (fs : List ℕ) → member f (with_task id fs) ≡ (member f fs || f == id)
member-with_task f id fs = elim (Bool-cases (member id fs)) [
  | inl old ↦ rw old (elim (Bool-cases (f == id)) [
    | inl same ↦ rw (==→eq f id same) (ground (arith, old))
    | inr other ↦ ground (arith, other)
  ])
  | inr new ↦ rw new (member-snoc f id fs)
]

collect_tasks-Collects :
    (callable : ℕ → Bool) (fuel : ℕ) (frontier : List Task) (user_tasks : List ℕ)
    → callable_frontier callable frontier ≡ true
    → size_frontier frontier ≤ fuel
    → is_distinct user_tasks ≡ true
    → Collects callable fuel frontier user_tasks
unfolding collect_tasks size_all in_tasks all_callable
collect_tasks-Collects callable fuel [] user_tasks k h d = record {
  tasks = user_tasks;
  found = refl;
  once = d;
  all = λ f. ground arith;
}
collect_tasks-Collects callable zero (plain id tags ∷ frontier) user_tasks k h d =
    absurd (omega arith)
collect_tasks-Collects callable zero (task_set id markov tasks ∷ frontier) user_tasks k h d =
    absurd (omega arith)
collect_tasks-Collects callable (suc fuel) (plain id tags ∷ frontier) user_tasks k h d =
    let c =
      collect_tasks-Collects callable fuel frontier (with_task id user_tasks) (ground (arith, k))
        (omega arith) (with_task_distinct id user_tasks d) in
    record {
      tasks = c.tasks;
      found = ground (arith, c.found, k);
      once = c.once;
      all = λ f. ground (arith, c.all f, member-with_task f id user_tasks);
    }
collect_tasks-Collects callable (suc fuel) (task_set id markov tasks ∷ frontier) user_tasks k h d =
    let c =
      collect_tasks-Collects callable fuel (extend tasks frontier) user_tasks
        (callable-extend callable tasks frontier ∙ k) (omega (arith, size-extend tasks frontier))
        d in
    record {
      tasks = c.tasks;
      found = c.found;
      once = c.once;
      all = λ f. ground (arith, c.all f, in-extend f tasks frontier);
    }

-- A class and what is made of it: its weight, and each function among its tasks, nested ones
-- included, once and no other.
pub record IsEqualized (c : TaskedClass) (r : UserClass × List ℕ) : Type 0 where
  pub weighs : r.0 ≡ record c.user_class { weight = 1 }
  pub once : is_distinct r.1 ≡ true
  pub all : (f : ℕ) → member f r.1 ≡ in_tasks f c.tasks

abbrev pub AreEqualized : List TaskedClass → List (UserClass × List ℕ) → Type 0
AreEqualized [] [] = Unit {0}
AreEqualized (c ∷ classes) (r ∷ rs) = IsEqualized c r × AreEqualized classes rs
AreEqualized _ _ = ⊥

abbrev pub every_callable : (ℕ → Bool) → List TaskedClass → Bool
every_callable callable [] = true
every_callable callable (c ∷ classes) =
    all_callable_in callable c.tasks && every_callable callable classes

equal_weights :
    (callable : ℕ → Bool) (classes : List TaskedClass)
    → every_callable callable classes ≡ true
    → (rs : List (UserClass × List ℕ)) × (assign_equal_weights callable classes ≡ some rs)
      × AreEqualized classes rs
unfolding assign_equal_weights
equal_weights callable [] k = ([], refl, tt)
equal_weights callable (c ∷ classes) k =
    let here =
      collect_tasks-Collects callable (size_all c.tasks) (extend c.tasks []) []
        (callable-extend callable c.tasks [] ∙ ground (arith, k))
        (omega (arith, size-extend c.tasks [])) refl in
    let (rs, found, rest) = equal_weights callable classes (ground (arith, k)) in
    (
      (record c.user_class { weight = 1 }, here.tasks) ∷ rs,
      rw (here.found, found) refl,
      (
        record {
          weighs = refl;
          once = here.once;
          all = λ f. ground (arith, here.all f, in-extend f c.tasks []);
        },
        rest,
      ),
    )

uncollected :
    (callable : ℕ → Bool) (fuel : ℕ) (frontier : List Task) (user_tasks : List ℕ)
    → callable_frontier callable frontier ≡ false
    → collect_tasks callable fuel frontier user_tasks ≡ none
unfolding collect_tasks all_callable
uncollected callable fuel [] user_tasks k = absurd cc
uncollected callable zero (task ∷ frontier) user_tasks k = refl
uncollected callable (suc fuel) (plain id tags ∷ frontier) user_tasks k =
    elim (Bool-cases (callable id)) [
      | inl called ↦
          rw called (
            uncollected callable fuel frontier (with_task id user_tasks)
              (ground (arith, k, called)))
      | inr refused ↦ rw refused refl
    ]
uncollected callable (suc fuel) (task_set id markov tasks ∷ frontier) user_tasks k =
    uncollected callable fuel (extend tasks frontier) user_tasks
      (callable-extend callable tasks frontier ∙ k)

no_weights :
    (callable : ℕ → Bool) (classes : List TaskedClass)
    → every_callable callable classes ≡ false
    → assign_equal_weights callable classes ≡ none
unfolding assign_equal_weights
no_weights callable [] k = absurd cc
no_weights callable (c ∷ classes) k = elim (Bool-cases (all_callable_in callable c.tasks)) [
  | inr refused ↦
      let e =
        uncollected callable (size_all c.tasks) (extend c.tasks []) []
          (callable-extend callable c.tasks [] ∙ ground (arith, refused)) in
      rw e refl
  | inl called ↦
      let here =
        collect_tasks-Collects callable (size_all c.tasks) (extend c.tasks []) []
          (callable-extend callable c.tasks [] ∙ ground (arith, called))
          (omega (arith, size-extend c.tasks [])) refl in
      rw (here.found, no_weights callable classes (ground (arith, k, called))) refl
]

-- For any user classes, no task set of which is nested in itself: where a task, at any depth, is not
-- callable, `assign_equal_weights` raises an exception. Otherwise it comes to an end, and gives each
-- class the weight 1 and as its tasks each function that is among them or in a task set among them,
-- at any depth, once, and no other.
pub assign_equal_weights-AreEqualized :
    (callable : ℕ → Bool) (classes : List TaskedClass)
    → ((every_callable callable classes ≡ false) × (assign_equal_weights callable classes ≡ none))
      ⊎ ((every_callable callable classes ≡ true)
          × ((rs : List (UserClass × List ℕ)) × (assign_equal_weights callable classes ≡ some rs)
              × AreEqualized classes rs))
assign_equal_weights-AreEqualized callable classes =
    elim (Bool-cases (every_callable callable classes)) [
      | inl all ↦ inr (all, equal_weights callable classes all)
      | inr some_not ↦ inl (some_not, no_weights callable classes some_not)
    ]
