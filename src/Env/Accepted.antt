-- ===== src/Env/Accepted.antt =====
-- The user classes that an environment accepts are classes that a dispatcher accepts.
use mathlib.Core.Path.{subst, sym}
use locust.Base.{
  ℕ, ◌<◌, ◌≡◌, refl, ◌∙◌, Bool, true, false, Option, none, some, List, [], ◌∷◌, ◌==◌, keep, map,
  member, length, if◌then◌else◌, arith, if_lem, ltb, ◌⊎◌, inl, inr, Bool-cases,
}
use locust.Dispatch.Users.{UserClass, WorkerNode}
use locust.Dispatch.Workers.{sorted_by, insert_by}
use locust.Dispatch.Dispatcher.{Dispatcher, current, init_dispatcher, distinct, le_name}
use locust.Dispatch.Dispatcher.Invariant.{IsDispatcher}
use locust.Dispatch.Dispatcher.Dispatches.{init_dispatcher-IsDispatcher}
use locust.Dispatch.Spawn.Draw.{has_weighted}
use locust.Env.{
  TaskedClass, Checked, ok, error, EnvironmentError, is_spawned, classes_of, check_user_classes,
  and_then, validate_shape_class_instance,
}

abbrev names_of : List UserClass → List ℕ
names_of = map (λ u. UserClass.name u)

member-insert_by :
    (le : UserClass → UserClass → Bool) (n : ℕ) (u : UserClass) (us : List UserClass)
    → member n (names_of (insert_by le u us)) ≡ member n (names_of (u ∷ us))
unfolding insert_by
member-insert_by le n u [] = refl
member-insert_by le n u (v ∷ us) = ground (arith, member-insert_by le n u us)

distinct-insert_by :
    (le : UserClass → UserClass → Bool) (u : UserClass) (us : List UserClass)
    → distinct (u ∷ us) ≡ true
    → distinct (insert_by le u us) ≡ true
unfolding insert_by
distinct-insert_by le u [] h = refl
distinct-insert_by le u (v ∷ us) h =
    ground (arith, h, distinct-insert_by le u us, member-insert_by le v.name u us)

member-sorted_by :
    (le : UserClass → UserClass → Bool) (n : ℕ) (us : List UserClass)
    → member n (names_of (sorted_by le us)) ≡ member n (names_of us)
unfolding sorted_by
member-sorted_by le n [] = refl
member-sorted_by le n (u ∷ us) =
    ground (arith, member-insert_by le n u (sorted_by le us), member-sorted_by le n us)

distinct-sorted_by :
    (le : UserClass → UserClass → Bool) (us : List UserClass)
    → distinct us ≡ true
    → distinct (sorted_by le us) ≡ true
unfolding sorted_by
distinct-sorted_by le [] h = refl
distinct-sorted_by le (u ∷ us) h =
    distinct-insert_by le u (sorted_by le us)
      (ground (arith, h, member-sorted_by le u.name us, distinct-sorted_by le us))

has_weighted-insert_by :
    (le : UserClass → UserClass → Bool) (u : UserClass) (us : List UserClass)
    → has_weighted (insert_by le u us) ≡ has_weighted (u ∷ us)
unfolding insert_by
has_weighted-insert_by le u [] = refl
has_weighted-insert_by le u (v ∷ us) = ground (arith, has_weighted-insert_by le u us)

has_weighted-sorted_by :
    (le : UserClass → UserClass → Bool) (us : List UserClass)
    → has_weighted (sorted_by le us) ≡ has_weighted us
unfolding sorted_by
has_weighted-sorted_by le [] = refl
has_weighted-sorted_by le (u ∷ us) =
    ground (arith, has_weighted-insert_by le u (sorted_by le us), has_weighted-sorted_by le us)

longer : (us : List TaskedClass) → (length us == 0) ≡ false → 0 < length (classes_of us)
longer [] h = cc
longer (u ∷ us) h = omega arith

-- What the checks have let through.
record Accepts (classes us : List TaskedClass) : Type 0 where
  pub filtered : us ≡ keep is_spawned classes
  pub different : distinct (classes_of us) ≡ true
  pub some_class : (length us == 0) ≡ false

shape-ok :
    (shape : Option Bool) (cs us : List TaskedClass)
    → validate_shape_class_instance shape cs ≡ ok us
    → us ≡ cs
shape-ok none cs us h = cc
shape-ok (some true) cs us h = cc
shape-ok (some false) cs us h = cc

unless_lem :
    {A : Type 0} (b : Bool) (e : EnvironmentError) (x y : A) (k : A → Checked A)
    → and_then (if b then error e else ok x) k ≡ ok y
    → (b ≡ false) × (k x ≡ ok y)
unless_lem true e x y k h = cc
unless_lem false e x y k h = (refl, h)

when_lem :
    {A : Type 0} (b : Bool) (e : EnvironmentError) (x y : A) (k : A → Checked A)
    → and_then (if b then ok x else error e) k ≡ ok y
    → (b ≡ true) × (k x ≡ ok y)
when_lem true e x y k h = (refl, h)
when_lem false e x y k h = cc

check-Accepts :
    (shape : Option Bool) (c : TaskedClass) (classes us : List TaskedClass)
    → check_user_classes shape (c ∷ classes) ≡ ok us
    → Accepts (c ∷ classes) us
unfolding check_user_classes
check-Accepts shape c classes us h =
    let (more, named) = unless_lem _ _ _ us _ h in
    let (different, shaped) = when_lem _ _ _ us _ named in
    let same = shape-ok shape (keep is_spawned (c ∷ classes)) us shaped in
    record { filtered = same; different = rw same different; some_class = rw same more }

-- The classes with a positive weight or a fixed count, and no other, in their order.
pub data AreSpawned : (classes us : List TaskedClass) → Type 0 where
  no_more : AreSpawned [] []
  spawned :
      (c : TaskedClass) {classes us : List TaskedClass}
      → (0 < UserClass.weight c.user_class) ⊎ (0 < UserClass.fixed_count c.user_class)
      → AreSpawned classes us
      → AreSpawned (c ∷ classes) (c ∷ us)
  left_out :
      (c : TaskedClass) {classes us : List TaskedClass}
      → UserClass.weight c.user_class ≡ 0
      → UserClass.fixed_count c.user_class ≡ 0
      → AreSpawned classes us
      → AreSpawned (c ∷ classes) us

is_spawned-either :
    (c : TaskedClass)
    → is_spawned c ≡ true
    → (0 < UserClass.weight c.user_class) ⊎ (0 < UserClass.fixed_count c.user_class)
is_spawned-either c h = elim (Bool-cases (ltb 0 (UserClass.weight c.user_class))) [
  | inl weighs ↦ inl (ground (arith, weighs))
  | inr weightless ↦ inr (ground (arith, h, weightless))
]

keep-AreSpawned : (classes : List TaskedClass) → AreSpawned classes (keep is_spawned classes)
keep-AreSpawned [] = no_more
keep-AreSpawned (c ∷ classes) =
    let rest = keep-AreSpawned classes in
    if_lem (AreSpawned (c ∷ classes)) (is_spawned c) (λ e. spawned c (is_spawned-either c e) rest)
      (λ e. left_out c (ground (arith, e)) (ground (arith, e)) rest)

-- An environment that is given some user classes and lets some of them through: those are the
-- classes with a positive weight or a fixed count, in their order; and over some workers, where one
-- of them has a positive weight and no fixed count, the dispatcher takes them and is valid, with no
-- user running.
pub check_user_classes-IsDispatcher :
    (shape : Option Bool) (classes us : List TaskedClass) (ws : List WorkerNode)
    → 0 < length classes
    → 0 < length ws
    → check_user_classes shape classes ≡ ok us
    → has_weighted (classes_of us) ≡ true
    → AreSpawned classes us
      × ((d : Dispatcher) × (init_dispatcher ws (classes_of us) ≡ some d)
          × IsDispatcher d
          × (current d ≡ 0))
check_user_classes-IsDispatcher shape [] us ws some_class live h weighted = absurd (omega arith)
check_user_classes-IsDispatcher shape (c ∷ classes) us ws some_class live h weighted =
    let a = check-Accepts shape c classes us h in
    (
      subst (AreSpawned (c ∷ classes)) (sym a.filtered) (keep-AreSpawned (c ∷ classes)),
      init_dispatcher-IsDispatcher ws (classes_of us) live (longer us a.some_class)
          (distinct-sorted_by le_name (classes_of us) a.different)
          (has_weighted-sorted_by le_name (classes_of us) ∙ weighted),
    )
