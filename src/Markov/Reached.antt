-- ===== src/Markov/Reached.antt =====
-- The search of locust/user/markov_taskset.py ends, and visits what can be reached.
use mathlib.Core.Path.{subst}
use locust.Base.{
  ℕ, zero, suc, ◌≤◌, ◌<◌, ◌≡◌, refl, sym, ap, true, false, not, Option, none, some, List, [], ◌∷◌,
  ◌⊎◌, inl, inr, keep, member, length, arith, ◌==◌, ==→eq, Bool-cases,
}
use locust.Base.Dict.{Dict}
use locust.Markov.{Member, to_weighted_list}
use locust.Markov.Search.{transitions_of, visit_all, dfs}

abbrev pub dests : Dict Member → ℕ → List ℕ
dests d x = elim (transitions_of d x) [ none ↦ [] | some ts ↦ to_weighted_list ts ]

abbrev dests_from : Option (Dict ℕ) → List ℕ
dests_from o = elim o [ none ↦ [] | some ts ↦ to_weighted_list ts ]

-- A task can be reached from another by transitions that have a weight.
pub data Reaches (d : Dict Member) : ℕ → ℕ → Type 0 where
  here : {x : ℕ} → Reaches d x x
  via : {x z : ℕ} (y : ℕ) → member y (dests d x) ≡ true → Reaches d y z → Reaches d x z

abbrev pub Within : List ℕ → List ℕ → Type 0
Within v w = (x : ℕ) → member x v ≡ true → member x w ≡ true

-- What a search from some names makes of what was visited.
pub record Explores (d : Dict Member) (starts v w : List ℕ) : Type 0 where
  pub kept : Within v w
  pub visits : Within starts w
  pub sound :
      (x : ℕ)
      → member x w ≡ true
      → (member x v ≡ true) ⊎ ((s : ℕ) × (member s starts ≡ true) × Reaches d s x)
  pub closed : (x : ℕ) → member x w ≡ true → (member x v ≡ true) ⊎ Within (dests d x) w

member_cons : (x y : ℕ) (v : List ℕ) → member x (y ∷ v) ≡ true → (x ≡ y) ⊎ (member x v ≡ true)
member_cons x y v h = elim (Bool-cases (x == y)) [
  | inl same ↦ inl (==→eq x y same)
  | inr other ↦ inr (ground (arith, other, h))
]

member_later : (x y : ℕ) (v : List ℕ) → member x v ≡ true → member x (y ∷ v) ≡ true
member_later x y v h = ground (arith, h)

member_here : (x : ℕ) (v : List ℕ) → member x (x ∷ v) ≡ true
member_here x v = ground arith

-- How many names are left to be visited.
abbrev pub left : List ℕ → List ℕ → ℕ
left names v = length (keep (λ n. not (member n v)) names)

left_mono : (names v w : List ℕ) → Within v w → left names w ≤ left names v
left_mono [] v w h = omega arith
left_mono (n ∷ names) v w h = elim (Bool-cases (member n v)) [
  | inl old ↦ ground (arith, old, h n old, left_mono names v w h)
  | inr new ↦ ground (arith, new, left_mono names v w h)
]

pub left_less :
    (names v : List ℕ) (name : ℕ)
    → member name names ≡ true
    → member name v ≡ false
    → left names (name ∷ v) < left names v
left_less [] v name m h = cc
left_less (n ∷ names) v name m h = elim (Bool-cases (name == n)) [
  | inl same ↦
      let e = ==→eq name n same in
      let less = left_mono names v (name ∷ v) (λ x. member_later x name v) in
      rw (sym e) (ground (arith, h, less))
  | inr other ↦ ground (arith, other, left_less names v name, m, h)
]

-- Nothing is left to do.
Explores-none : (d : Dict Member) (v : List ℕ) → Explores d [] v v
Explores-none d v = record {
  kept = λ x m. m;
  visits = λ x m. cc;
  sound = λ x m. inl m;
  closed = λ x m. inl m;
}

-- A name that was visited is passed over.
Explores-skip :
    (d : Dict Member) (name : ℕ) (starts v w : List ℕ)
    → member name v ≡ true
    → Explores d starts v w
    → Explores d (name ∷ starts) v w
Explores-skip d name starts v w m e = record {
  kept = e.kept;
  visits = λ x k. elim (member_cons x name starts k) [
    | inl same ↦ rw same (e.kept name m)
    | inr later ↦ e.visits x later
  ];
  sound = λ x k. elim (e.sound x k) [
    | inl old ↦ inl old
    | inr (s, among, r) ↦ inr (s, member_later s name starts among, r)
  ];
  closed = e.closed;
}

-- Two searches, one after the other.
Explores-both :
    (d : Dict Member) (name : ℕ) (starts v u w : List ℕ)
    → Explores d (name ∷ []) v u
    → Explores d starts u w
    → Explores d (name ∷ starts) v w
Explores-both d name starts v u w e f = record {
  kept = λ x m. f.kept x (e.kept x m);
  visits = λ x k. elim (member_cons x name starts k) [
    | inl same ↦ rw same (f.kept name (e.visits name (member_here name [])))
    | inr later ↦ f.visits x later
  ];
  sound = λ x k. elim (f.sound x k) [
    | inl before ↦ elim (e.sound x before) [
      | inl old ↦ inl old
      | inr (s, among, r) ↦ elim (member_cons s name [] among) [
        | inl same ↦ inr (name, member_here name starts, subst (λ y. Reaches d y x) same r)
        | inr never ↦ cc
      ]
    ]
    | inr (s, among, r) ↦ inr (s, member_later s name starts among, r)
  ];
  closed = λ x k. elim (f.closed x k) [
    | inl before ↦ elim (e.closed x before) [
      | inl old ↦ inl old
      | inr within ↦ inr (λ y m. f.kept y (within y m))
    ]
    | inr within ↦ inr within
  ];
}

-- A name with the search from its destinations.
Explores-name :
    (d : Dict Member) (name : ℕ) (v w : List ℕ)
    → Explores d (dests d name) (name ∷ v) w
    → Explores d (name ∷ []) v w
Explores-name d name v w e = record {
  kept = λ x m. e.kept x (member_later x name v m);
  visits = λ x k. elim (member_cons x name [] k) [
    | inl same ↦ rw same (e.kept name (member_here name v))
    | inr never ↦ cc
  ];
  sound = λ x k. elim (e.sound x k) [
    | inl before ↦ elim (member_cons x name v before) [
      | inl same ↦ inr (name, member_here name [], subst (λ y. Reaches d name y) (sym same) here)
      | inr old ↦ inl old
    ]
    | inr (s, among, r) ↦ inr (name, member_here name [], via s among r)
  ];
  closed = λ x k. elim (e.closed x k) [
    | inl before ↦ elim (member_cons x name v before) [
      | inl same ↦ inr (λ y m. e.visits y (subst (λ z. member y (dests d z) ≡ true) same m))
      | inr old ↦ inl old
    ]
    | inr within ↦ inr within
  ];
}

module _ (d : Dict Member) (names : List ℕ) where
  -- The names are those of tasks, whose transitions lead to tasks.
  abbrev pub AreTasks : Type 0
  AreTasks =
      (x : ℕ)
      → member x names ≡ true
      → (ts : Dict ℕ) × (transitions_of d x ≡ some ts) × Within (to_weighted_list ts) names

  -- A search comes to an end.
  abbrev pub Ends : (List ℕ → Option (List ℕ)) → (starts v : List ℕ) → Type 0
  Ends f starts v = (w : List ℕ) × (f v ≡ some w) × Explores d starts v w

  visit_all-Ends :
      (search : ℕ → List ℕ → Option (List ℕ)) (fuel : ℕ)
      → ((name : ℕ) (v : List ℕ)
          → member name names ≡ true
          → member name v ≡ false
          → left names v ≤ fuel
          → Ends (search name) (name ∷ []) v)
      → (starts v : List ℕ) → Within starts names
      → left names v ≤ fuel
      → Ends (visit_all search starts) starts v
  unfolding visit_all
  visit_all-Ends search fuel ends [] v h k = (v, refl, Explores-none d v)
  visit_all-Ends search fuel ends (s ∷ starts) v h k = elim (Bool-cases (member s v)) [
    | inl old ↦
        let (w, found, e) =
          visit_all-Ends search fuel ends starts v (λ x m. h x (member_later x s starts m)) k in
        (w, rw (visit_all, old) found, Explores-skip d s starts v w old e)
    | inr new ↦
        let (u, first, e) = ends s v (h s (member_here s starts)) new k in
        let (w, found, f) =
          visit_all-Ends search fuel ends starts u (λ x m. h x (member_later x s starts m))
            (omega (arith, left_mono names v u e.kept, k)) in
        (w, rw (visit_all, new, first) found, Explores-both d s starts v u w e f)
  ]

  pub dfs-Ends :
      AreTasks
      → (fuel name : ℕ) (v : List ℕ) → member name names ≡ true
      → member name v ≡ false
      → left names v ≤ fuel
      → Ends (dfs d fuel name) (name ∷ []) v
  unfolding dfs
  dfs-Ends tasks zero name v m new k = absurd (omega (arith, left_less names v name m new))
  dfs-Ends tasks (suc fuel) name v m new k =
      let (ts, t, within) = tasks name m in
      let (w, found, e) =
        visit_all-Ends (dfs d fuel) fuel (dfs-Ends tasks fuel) (to_weighted_list ts) (name ∷ v)
          within (omega (arith, left_less names v name m new, k)) in
      (
        w,
        rw (dfs, t) found,
        Explores-name d name v w (subst (λ l. Explores d l (name ∷ v) w) (sym (ap dests_from t)) e),
      )

-- What is visited from nothing is what can be reached.
pub visited-Reaches :
    (d : Dict Member) (start : ℕ) (w : List ℕ)
    → Explores d (start ∷ []) [] w
    → (y x : ℕ) → member y w ≡ true
    → Reaches d y x
    → member x w ≡ true
visited-Reaches d start w e y x m here = m
visited-Reaches d start w e y x m (via z edge r) = elim (e.closed y m) [
  | inl old ↦ cc
  | inr within ↦ visited-Reaches d start w e z x (within z edge) r
]

kept_gone :
    (x : ℕ) (names visited : List ℕ)
    → member x visited ≡ true
    → member x (keep (λ n. not (member n visited)) names) ≡ false
kept_gone x [] visited h = refl
kept_gone x (n ∷ names) visited h = elim (Bool-cases (x == n)) [
  | inl same ↦ rw (==→eq x n same) (
      ground
        (arith, subst (λ y. member y visited ≡ true) (==→eq x n same) h, kept_gone n names visited))
  | inr other ↦ ground (arith, other, kept_gone x names visited h)
]

kept_here :
    (n : ℕ) (names visited : List ℕ)
    → member n (keep (λ n. not (member n visited)) (n ∷ names)) ≡ not (member n visited)
kept_here n names visited = elim (Bool-cases (member n visited)) [
  | inl old ↦ ground (arith, old, kept_gone n names visited old)
  | inr new ↦ ground (arith, new)
]

pub kept_name :
    (x : ℕ) (names visited : List ℕ)
    → member x names ≡ true
    → member x (keep (λ n. not (member n visited)) names) ≡ not (member x visited)
kept_name x [] visited h = cc
kept_name x (n ∷ names) visited h = elim (Bool-cases (x == n)) [
  | inl same ↦ rw (==→eq x n same) (kept_here n names visited)
  | inr other ↦ ground (arith, other, h, kept_name x names visited)
]
