-- ===== src/Markov/Walk.antt =====
-- A class that locust/user/markov_taskset.py accepts runs for ever, where no task has only
-- transitions of weight 0.
use mathlib.Core.Path.{subst}
use locust.Base.{
  ℕ, zero, suc, ◌+◌, ◌<◌, ◌≡◌, refl, ap, true, some, List, [], ◌∷◌, ◌++◌, arith, ◌==◌,
  if◌then◌else◌, replicate, length, get_elem?, count_by, Option-cases, inl, inr, All, Bool-cases,
}
use locust.Base.Dict.{Dict, lookup, get, contains, IsDict}
use locust.Markov.{to_weighted_list, Chain, get_next_task, walk}

count_by-replicate :
    (k n a : ℕ) → count_by (λ j. k == j) (replicate n a) ≡ (if k == a then n else 0)
count_by-replicate k zero a = ground arith
count_by-replicate k (suc n) a = ground (arith, count_by-replicate k n a)

count_by-append :
    (k : ℕ) (xs ys : List ℕ)
    → count_by (λ j. k == j) (xs ++ ys) ≡ count_by (λ j. k == j) xs + count_by (λ j. k == j) ys
count_by-append k [] ys = omega arith
count_by-append k (x ∷ xs) ys = ground (arith, count_by-append k xs ys)

-- Of a dict without a key twice, each transition is listed as often as its weight says.
pub to_weighted_list-get :
    (ts : Dict ℕ) (k : ℕ) → IsDict ts → count_by (λ j. k == j) (to_weighted_list ts) ≡ get k 0 ts
unfolding to_weighted_list
to_weighted_list-get [] k v = refl
to_weighted_list-get (t ∷ ts) k v =
    let rest = to_weighted_list-get ts k v.1 in
    let split = count_by-append k (replicate t.1 t.0) (to_weighted_list ts) in
    let same = count_by-replicate k t.1 t.0 in ground (arith, rest, split, same, v.0)

-- The current task and every destination are tasks of the chain, and each task has a destination.
pub record IsChain (c : Chain) : Type 0 where
  pub known : contains c.current c.weighted ≡ true
  pub closed : All (λ e. (0 < length e.1) × All (λ n. contains n c.weighted ≡ true) e.1) c.weighted

All-lookup :
    (P : ℕ × List ℕ → Type 0) (k : ℕ) (d : Dict (List ℕ)) (names : List ℕ)
    → lookup k d ≡ some names
    → All P d
    → (j : ℕ) × P (j, names)
All-lookup P k [] names h a = absurd cc
All-lookup P k (e ∷ d) names h a = elim (Bool-cases (k == e.0)) [
  | inl same ↦
      let found : e.1 ≡ names = ground (arith, h) in (e.0, subst (λ l. P (e.0, l)) found a.0)
  | inr other ↦ All-lookup P k d names (ground (arith, h)) a.1
]

picked :
    (P : ℕ → Type 0) (i : ℕ) (names : List ℕ)
    → i < length names
    → All P names
    → (n : ℕ) × (get_elem? names i ≡ some n) × P n
picked P i [] lt a = absurd (omega arith)
picked P zero (n ∷ names) lt a = (n, refl, a.0)
picked P (suc i) (n ∷ names) lt a = picked P i names (omega arith) a.1

contained :
    (k : ℕ) (d : Dict (List ℕ)) → contains k d ≡ true → (names : List ℕ) × (lookup k d ≡ some names)
contained k d h = elim (Option-cases (lookup k d)) [
  | inl gone ↦ absurd (ground (arith, h, gone))
  | inr (names, found) ↦ (names, found)
]

-- What `random.choice` may take: an index of the list, where there is one.
abbrev pub IsPick : (ℕ → ℕ) → Type 0
IsPick pick = (n : ℕ) → 0 < n → pick n < n

get_next_task_lem :
    (pick : ℕ → ℕ) (c : Chain) (names : List ℕ) (next : ℕ)
    → lookup c.current c.weighted ≡ some names
    → get_elem? names (pick (length names)) ≡ some next
    → get_next_task pick c ≡ some (c.current, record c { current = next })
unfolding get_next_task
get_next_task_lem pick c names next h e = rw (get_next_task, h, e) refl

walk_lem :
    (pick : ℕ → ℕ) (picks : List (ℕ → ℕ)) (c c' : Chain) (task : ℕ) (tasks : List ℕ)
    → get_next_task pick c ≡ some (task, c')
    → walk picks c' ≡ some tasks
    → walk (pick ∷ picks) c ≡ some (task ∷ tasks)
unfolding walk
walk_lem pick picks c c' task tasks h e = rw (walk, h, e) refl

get_next_task-IsChain :
    (pick : ℕ → ℕ) (c : Chain)
    → IsPick pick
    → IsChain c
    → (c' : Chain) × (get_next_task pick c ≡ some (c.current, c'))
      × IsChain c'
      × (c'.weighted ≡ c.weighted)
get_next_task-IsChain pick c ok v =
    let (names, found) = contained c.current c.weighted v.known in
    let (j, (some_name, all_known)) =
      All-lookup (λ e. (0 < length e.1) × All (λ n. contains n c.weighted ≡ true) e.1) c.current
        c.weighted names found v.closed in
    let (next, is_next, known) =
      picked (λ n. contains n c.weighted ≡ true) (pick (length names)) names
        (ok (length names) some_name) all_known in
    (
      record c { current = next },
      get_next_task_lem pick c names next found is_next,
      record { known = known; closed = v.closed },
      refl,
    )

-- A chain in that state never stops.
pub walk-IsChain :
    (picks : List (ℕ → ℕ)) (c : Chain)
    → All IsPick picks
    → IsChain c
    → (tasks : List ℕ) × (walk picks c ≡ some tasks)
      × (length tasks ≡ length picks)
      × All (λ n. contains n c.weighted ≡ true) tasks
unfolding walk
walk-IsChain [] c ok v = ([], refl, refl, tt)
walk-IsChain (pick ∷ picks) c ok v =
    let (c', e, v', same) = get_next_task-IsChain pick c ok.0 v in
    let (tasks, f, n, known) = walk-IsChain picks c' ok.1 v' in
    (
      c.current ∷ tasks,
      walk_lem pick picks c c' c.current tasks e f,
      ap suc n,
      (v.known, subst (λ w. All (λ k. contains k w ≡ true) tasks) same known),
    )
