-- ===== src/Markov/Accepted.antt =====
-- What the validation of locust/user/markov_taskset.py makes sure of.
use mathlib.Core.Path.{subst, sym}
use locust.Base.{
  ℕ, zero, suc, ◌<◌, ◌≡◌, refl, ap, ◌∙◌, Bool, true, false, Option, none, some, List, [], ◌∷◌,
  arith, ◌==◌, if◌then◌else◌, replicate, length, Option-cases, inl, inr, All, All-append,
  length-append, length-replicate, sum_by, Bool-cases,
}
use locust.Base.Dict.{Dict, lookup, contains}
use locust.Markov.{
  Member, Task, get_markov_tasks, to_weighted_list, Fault, first_of, validate_destination,
  validate_destinations, validate_transitions, validate_markov_chain, Chain, weigh, made,
  make_chain, validate_tasks, no_markov_tasks, new_class, walk, invalid_transition,
  non_markov_transition,
}
use locust.Markov.Walk.{IsChain, IsPick, walk-IsChain}

pub first_of-none : (o later : Option Fault) → first_of o later ≡ none → (o ≡ none) × (later ≡ none)
first_of-none none later h = (refl, h)
first_of-none (some f) later h = absurd cc

-- The names of the tasks of a class, with their weighted lists.
abbrev pub weighted_of : Dict Member → Dict (List ℕ)
weighted_of d = weigh (get_markov_tasks d)

Member-inj : {x y : Member} → some x ≡ some y → x ≡ y
Member-inj h = cc h

task_lem :
    (name : ℕ) (x : Member) (d : Dict Member) (ts : Dict ℕ)
    → x.transitions ≡ some ts
    → weighted_of ((name, x) ∷ d) ≡ (name, to_weighted_list ts) ∷ weighted_of d
unfolding get_markov_tasks weigh
task_lem name x d ts h = rw (get_markov_tasks, h) refl

other_lem :
    (name : ℕ) (x : Member) (d : Dict Member)
    → x.transitions ≡ none
    → weighted_of ((name, x) ∷ d) ≡ weighted_of d
unfolding get_markov_tasks weigh
other_lem name x d h = rw (get_markov_tasks, h) refl

head_contains :
    (dest name : ℕ) (x : Member) (d : Dict Member) (ts : Dict ℕ)
    → x.transitions ≡ some ts
    → (dest == name) ≡ true
    → contains dest (weighted_of ((name, x) ∷ d)) ≡ true
head_contains dest name x d ts t same =
    subst (λ w. contains dest w ≡ true) (sym (task_lem name x d ts t)) (ground (arith, same))

tail_contains :
    (dest name : ℕ) (x : Member) (d : Dict Member)
    → contains dest (weighted_of d) ≡ true
    → contains dest (weighted_of ((name, x) ∷ d)) ≡ true
tail_contains dest name x d h = elim (Option-cases x.transitions) [
  | inl gone ↦ subst (λ w. contains dest w ≡ true) (sym (other_lem name x d gone)) h
  | inr (ts, t) ↦
      subst (λ w. contains dest w ≡ true) (sym (task_lem name x d ts t)) (ground (arith, h))
]

-- A member with transitions is a task.
member_contains :
    (dest : ℕ) (d : Dict Member) (m : Member) (ts : Dict ℕ)
    → lookup dest d ≡ some m
    → m.transitions ≡ some ts
    → contains dest (weighted_of d) ≡ true
unfolding get_markov_tasks weigh
member_contains dest [] m ts h t = absurd cc
member_contains dest ((name, x) ∷ d) m ts h t = elim (Bool-cases (dest == name)) [
  | inl same ↦
      let found : x ≡ m = Member-inj (ground (arith, h, same)) in
      head_contains dest name x d ts (ap (λ y. Member.transitions y) found ∙ t) same
  | inr other ↦
      tail_contains dest name x d (member_contains dest d m ts (ground (arith, h, other)) t)
]

some-none : {f : Fault} → some f ≡ none → ⊥
some-none h = cc h

destination_gone :
    (d : Dict Member) (task dest : ℕ)
    → lookup dest d ≡ none
    → validate_destination d task dest ≡ some (invalid_transition dest task)
unfolding validate_destination
destination_gone d task dest h = rw (validate_destination, h) refl

destination_plain :
    (d : Dict Member) (task dest : ℕ) (m : Member)
    → lookup dest d ≡ some m
    → m.transitions ≡ none
    → m.truthy ≡ true
    → validate_destination d task dest ≡ some (non_markov_transition dest task)
unfolding validate_destination
destination_plain d task dest m h t b = rw (validate_destination, h, t, b) refl

destination_falsy :
    (d : Dict Member) (task dest : ℕ) (m : Member)
    → lookup dest d ≡ some m
    → m.truthy ≡ false
    → validate_destination d task dest ≡ some (invalid_transition dest task)
unfolding validate_destination
destination_falsy d task dest m h b = rw (validate_destination, h, b) refl

destination_contains :
    (d : Dict Member) (task dest : ℕ)
    → validate_destination d task dest ≡ none
    → contains dest (weighted_of d) ≡ true
destination_contains d task dest h = elim (Option-cases (lookup dest d)) [
  | inl gone ↦ absurd (some-none (sym (destination_gone d task dest gone) ∙ h))
  | inr (m, found) ↦ elim (Option-cases m.transitions) [
    | inl plain ↦ elim (Bool-cases m.truthy) [
      | inl b ↦ absurd (some-none (sym (destination_plain d task dest m found plain b) ∙ h))
      | inr b ↦ absurd (some-none (sym (destination_falsy d task dest m found b) ∙ h))
    ]
    | inr (ts, t) ↦ member_contains dest d m ts found t
  ]
]

destinations_contain :
    (d : Dict Member) (task : ℕ) (ts : Dict ℕ)
    → validate_destinations d task ts ≡ none
    → All (λ t. contains t.0 (weighted_of d) ≡ true) ts
unfolding validate_destinations
destinations_contain d task [] h = tt
destinations_contain d task (t ∷ ts) h =
    let (first, later) =
      first_of-none (validate_destination d task t.0) (validate_destinations d task ts) h in
    (destination_contains d task t.0 first, destinations_contain d task ts later)

All-replicate : (P : ℕ → Type 0) (n k : ℕ) → P k → All P (replicate n k)
All-replicate P zero k p = tt
All-replicate P (suc n) k p = (p, All-replicate P n k p)

pub All-to_weighted_list :
    (P : ℕ → Type 0) (ts : Dict ℕ) → All (λ t. P t.0) ts → All P (to_weighted_list ts)
unfolding to_weighted_list
All-to_weighted_list P [] a = tt
All-to_weighted_list P (t ∷ ts) a =
    All-append P (replicate t.1 t.0) (to_weighted_list ts) (All-replicate P t.1 t.0 a.0)
      (All-to_weighted_list P ts a.1)

length-to_weighted_list : (ts : Dict ℕ) → length (to_weighted_list ts) ≡ sum_by (λ t. t.1) ts
unfolding to_weighted_list
length-to_weighted_list [] = refl
length-to_weighted_list (t ∷ ts) = omega (
  arith,
  length-append (replicate t.1 t.0) (to_weighted_list ts),
  length-replicate t.1 t.0,
  length-to_weighted_list ts,
)

-- Some transition of each task has a weight.
abbrev pub AreWeighted : List Task → Type 0
AreWeighted = All (λ t. 0 < sum_by (λ e. e.1) (Task.transitions t))

closed_lem :
    (d : Dict Member) (tasks : List Task)
    → validate_transitions d tasks ≡ none
    → AreWeighted tasks
    → All (λ e. (0 < length e.1) × All (λ n. contains n (weighted_of d) ≡ true) e.1) (weigh tasks)
unfolding validate_transitions weigh
closed_lem d [] h w = tt
closed_lem d (t ∷ ts) h w =
    let (first, later) =
      first_of-none (validate_destinations d t.name t.transitions) (validate_transitions d ts) h in
    (
      (
        omega (arith, w.0, length-to_weighted_list t.transitions),
        All-to_weighted_list (λ n. contains n (weighted_of d) ≡ true) t.transitions
            (destinations_contain d t.name t.transitions first),
      ),
      closed_lem d ts later w.1,
    )

made-inj : {x y : Chain} → made x ≡ made y → x ≡ y
made-inj h = cc h

accepted :
    (fault : Option Fault) (tasks : List Task) (c : Chain)
    → make_chain fault tasks ≡ made c
    → (fault ≡ none) × (c.weighted ≡ weigh tasks) × (contains c.current (weigh tasks) ≡ true)
unfolding make_chain weigh
accepted (some f) tasks c h = absurd cc
accepted none [] c h = absurd cc
accepted none (t ∷ ts) c h =
    let first : Chain = record { current = t.name; weighted = weigh (t ∷ ts) } in
    let e : first ≡ c = made-inj h in
    (
      refl,
      sym (ap (λ x. Chain.weighted x) e),
      subst (λ x. contains (Chain.current x) (weigh (t ∷ ts)) ≡ true) e (ground arith),
    )

nonempty : (t : Task) (ts : List Task) → (length (t ∷ ts) == 0) ≡ false
nonempty t ts = ground arith

pub transitions_valid :
    (run : ℕ) (d : Dict Member) (tasks : List Task)
    → validate_markov_chain run d tasks ≡ none
    → validate_transitions d tasks ≡ none
unfolding validate_markov_chain validate_transitions
transitions_valid run d [] h = refl
transitions_valid run d (t ∷ ts) h =
    (first_of-none (validate_transitions d (t ∷ ts)) (validate_tasks run (t ∷ ts)) (
      subst
        (λ b.
          (if b
            then some no_markov_tasks
            else first_of (validate_transitions d (t ∷ ts)) (validate_tasks run (t ∷ ts)))
          ≡ none)
        (nonempty t ts) h)).0

-- A class that the metaclass validates and accepts, which an abstract one is not, and each task of which has a transition with a weight, can be
-- walked for any number of steps, whatever `random.choice` picks: every step runs a Markov task of
-- the class, and none raises an exception.
pub new_class-walk :
    (abstract : Bool) (run : ℕ) (d : Dict Member) (c : Chain) (picks : List (ℕ → ℕ))
    → new_class abstract run d ≡ made c
    → AreWeighted (get_markov_tasks d)
    → All IsPick picks
    → (tasks : List ℕ) × (walk picks c ≡ some tasks)
      × (length tasks ≡ length picks)
      × All (λ n. contains n (weigh (get_markov_tasks d)) ≡ true) tasks
unfolding new_class
new_class-walk true run d c picks h w ok = absurd cc
new_class-walk false run d c picks h w ok =
    let tasks = get_markov_tasks d in
    let (sound, same, known) = accepted (validate_markov_chain run d tasks) tasks c h in
    let closed = closed_lem d tasks (transitions_valid run d tasks sound) w in
    let chain : IsChain c = record {
      known = subst (λ l. contains c.current l ≡ true) (sym same) known;
      closed =
          subst (λ l. All (λ e. (0 < length e.1) × All (λ n. contains n l ≡ true) e.1) l) (sym same)
            closed;
    } in
    let (steps, e, n, all_known) = walk-IsChain picks c ok chain in
    (steps, e, n, subst (λ l. All (λ k. contains k l ≡ true) steps) same all_known)
