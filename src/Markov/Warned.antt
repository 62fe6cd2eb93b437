-- ===== src/Markov/Warned.antt =====
-- What locust/user/markov_taskset.py warns of, for a class that its other checks accept.
use mathlib.Core.Path.{subst}
use locust.Base.{
  ℕ, ◌≡◌, refl, sym, ap, ◌∙◌, true, false, not, none, some, List, [], ◌∷◌, ◌⊎◌, inl, inr, ◌↔◌, keep,
  member, length, arith, All, ◌==◌, ==→eq, Bool-cases, Option-cases, length-keep-le, length-map,
}
use locust.Base.Dict.{Dict, contains, IsDict}
use locust.Markov.{
  Member, Task, get_markov_tasks, to_weighted_list, validate_destination, validate_destinations,
  validate_transitions, validate_markov_chain,
}
use locust.Markov.Accepted.{first_of-none, transitions_valid, All-to_weighted_list}
use locust.Markov.Search.{transitions_of, names_of, unreachable_tasks}
use locust.Markov.Reached.{Reaches, AreTasks, Within, dfs-Ends, visited-Reaches, kept_name}

no_clash : ¬ (false ≡ true)
no_clash e = cc

abbrev names_in : Dict Member → List ℕ
names_in d = names_of (get_markov_tasks d)

task_named :
    (x : ℕ) (d : Dict Member) (ts : Dict ℕ)
    → transitions_of d x ≡ some ts
    → member x (names_in d) ≡ true
unfolding get_markov_tasks
task_named x [] ts h = cc
task_named x ((name, m) ∷ d) ts h = elim (Bool-cases (x == name)) [
  | inl same ↦ ground (arith, same, h)
  | inr other ↦ ground (arith, other, h, task_named x d ts)
]

named_contains : (x : ℕ) (d : Dict Member) → member x (names_in d) ≡ true → contains x d ≡ true
unfolding get_markov_tasks
named_contains x [] h = cc
named_contains x ((name, m) ∷ d) h = ground (arith, h, named_contains x d)

named_task :
    (x : ℕ) (d : Dict Member)
    → IsDict d
    → member x (names_in d) ≡ true
    → (ts : Dict ℕ) × (transitions_of d x ≡ some ts)
unfolding get_markov_tasks
named_task x [] k h = cc
named_task x ((name, m) ∷ d) k h = elim (Bool-cases (x == name)) [
  | inl same ↦ elim (Option-cases m.transitions) [
    | inl plain ↦
        let e = ==→eq x name same in
        absurd (
          no_clash (
            sym k.0
            ∙ (ap (λ y. contains y d) (sym e) ∙ named_contains x d (ground (arith, h, plain)))))
    | inr (ts, t) ↦ (ts, ground (arith, same, t))
  ]
  | inr other ↦
      let (ts, t) = named_task x d k.1 (ground (arith, h, other)) in (ts, ground (arith, other, t))
]

destination_named :
    (d : Dict Member) (task dest : ℕ)
    → validate_destination d task dest ≡ none
    → member dest (names_in d) ≡ true
unfolding validate_destination
destination_named d task dest h = elim (Option-cases (transitions_of d dest)) [
  | inl gone ↦ ground (arith, h, gone)
  | inr (ts, t) ↦ task_named dest d ts t
]

destinations_named :
    (d : Dict Member) (task : ℕ) (ts : Dict ℕ)
    → validate_destinations d task ts ≡ none
    → All (λ t. member t.0 (names_in d) ≡ true) ts
unfolding validate_destinations
destinations_named d task [] h = tt
destinations_named d task (t ∷ ts) h =
    let (first, later) =
      first_of-none (validate_destination d task t.0) (validate_destinations d task ts) h in
    (destination_named d task t.0 first, destinations_named d task ts later)

every_task_leads_on :
    (d : Dict Member) (tasks : List Task)
    → validate_transitions d tasks ≡ none
    → All
        (λ t. All (λ n. member n (names_in d) ≡ true) (to_weighted_list (Task.transitions t)))
        tasks
unfolding validate_transitions
every_task_leads_on d [] h = tt
every_task_leads_on d (t ∷ ts) h =
    let (first, later) =
      first_of-none (validate_destinations d t.name t.transitions) (validate_transitions d ts) h in
    (
      All-to_weighted_list (λ n. member n (names_in d) ≡ true) t.transitions
          (destinations_named d t.name t.transitions first),
      every_task_leads_on d ts later,
    )

plain_tail :
    (name : ℕ) (m : Member) (d : Dict Member)
    → m.transitions ≡ none
    → get_markov_tasks ((name, m) ∷ d) ≡ get_markov_tasks d
unfolding get_markov_tasks
plain_tail name m d h = rw (get_markov_tasks, h) refl

task_head :
    (name : ℕ) (m : Member) (d : Dict Member) (ts : Dict ℕ)
    → m.transitions ≡ some ts
    → get_markov_tasks ((name, m) ∷ d)
      ≡ (record { name = name; transitions = ts; tagged = m.tagged }) ∷ get_markov_tasks d
unfolding get_markov_tasks
task_head name m d ts h = rw (get_markov_tasks, h) refl

none-some : {ts : Dict ℕ} → none ≡ some ts → ⊥
none-some h = cc h

some-inj : {us ts : Dict ℕ} → some us ≡ some ts → us ≡ ts
some-inj h = cc h

-- What holds of the transitions of all tasks holds of those that are looked up.
looked_up :
    (P : Dict ℕ → Type 0) (x : ℕ) (d : Dict Member) (ts : Dict ℕ)
    → All (λ t. P (Task.transitions t)) (get_markov_tasks d)
    → transitions_of d x ≡ some ts
    → P ts
unfolding get_markov_tasks
looked_up P x [] ts a h = cc
looked_up P x ((name, m) ∷ d) ts a h =
    let Q : List Task → Type 0 = All (λ t. P (Task.transitions t)) in
    elim (Option-cases m.transitions) [
      | inl plain ↦ elim (Bool-cases (x == name)) [
        | inl same ↦ absurd (none-some {ts = ts} (ground (arith, h, plain, same)))
        | inr other ↦
            looked_up P x d ts (subst Q (plain_tail name m d plain) a) (ground (arith, h, other))
      ]
      | inr (us, t) ↦
          let here = subst Q (task_head name m d us t) a in
          elim (Bool-cases (x == name)) [
            | inl same ↦ subst P (some-inj {us = us} {ts = ts} (ground (arith, h, t, same))) here.0
            | inr other ↦ looked_up P x d ts here.1 (ground (arith, h, other))
          ]
    ]

All-Within : (xs ys : List ℕ) → All (λ n. member n ys ≡ true) xs → Within xs ys
All-Within [] ys a x m = cc
All-Within (y ∷ xs) ys a x m = elim (Bool-cases (x == y)) [
  | inl same ↦ subst (λ z. member z ys ≡ true) (sym (==→eq x y same)) a.0
  | inr other ↦ All-Within xs ys a.1 x (ground (arith, other, m))
]

valid-AreTasks :
    (run : ℕ) (d : Dict Member)
    → IsDict d
    → validate_markov_chain run d (get_markov_tasks d) ≡ none
    → AreTasks d (names_in d)
valid-AreTasks run d k h x m =
    let (ts, t) = named_task x d k m in
    let all =
      looked_up (λ us. All (λ n. member n (names_in d) ≡ true) (to_weighted_list us)) x d ts
        (every_task_leads_on d (get_markov_tasks d)
          (transitions_valid run d (get_markov_tasks d) h))
        t in
    (ts, t, All-Within (to_weighted_list ts) (names_in d) all)

only_one : (s start : ℕ) → member s (start ∷ []) ≡ true → s ≡ start
only_one s start h = ground (arith, h)

from_start :
    {d : Dict Member} {start x : ℕ}
    → (member x [] ≡ true) ⊎ ((s : ℕ) × (member s (start ∷ []) ≡ true) × Reaches d s x)
    → Reaches d start x
from_start (inl never) = cc
from_start {d} {start} {x} (inr (s, among, r)) =
    subst (λ y. Reaches d y x) (only_one s start among) r

-- Of a class dict, with no key twice, that has a task and whose other checks raise nothing: the search comes to an end, and the names that it
-- warns of are those of the tasks that cannot be reached from the first task by transitions with a
-- weight.
pub unreachable_tasks-Reaches :
    (run : ℕ) (d : Dict Member) (t : Task) (tasks : List Task)
    → IsDict d
    → get_markov_tasks d ≡ t ∷ tasks
    → validate_markov_chain run d (get_markov_tasks d) ≡ none
    → (warned : List ℕ) × (unreachable_tasks d (t ∷ tasks) ≡ some warned)
      × ((x : ℕ)
          → member x (names_of (t ∷ tasks)) ≡ true
          → ((member x warned ≡ false) ↔ Reaches d t.name x))
unfolding unreachable_tasks
unreachable_tasks-Reaches run d t tasks k first h =
    let names = names_of (t ∷ tasks) in
    let valid = subst (λ l. AreTasks d (names_of l)) first (valid-AreTasks run d k h) in
    let (visited, found, e) =
      dfs-Ends d names valid (length (t ∷ tasks)) t.name [] (ground arith) refl (
        omega (
          arith,
          length-keep-le (λ n. not (member n [])) names,
          length-map tasks (λ u. Task.name u),
        )) in
    (
      keep (λ n. not (member n visited)) names,
      rw found refl,
      λ x m. (
        λ gone. from_start (e.sound x (ground (arith, gone, kept_name x names visited m))),
        λ r. ground (
          arith,
          kept_name x names visited m,
          visited-Reaches d t.name visited e t.name x (e.visits t.name (ground arith)) r,
        ),
      ),
    )
