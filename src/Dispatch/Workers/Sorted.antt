-- ===== src/Dispatch/Workers/Sorted.antt =====
-- `sorted` orders its list and keeps its elements, and `_sort_workers` keeps the ids of the workers.
use mathlib.Core.List.Perm
use mathlib.Core.List.{Perm}
use locust.Base.{
  ℕ, suc, ◌+◌, ◌≡◌, refl, Bool, true, false, List, [], ◌∷◌, arith, length, map, ap, ◌∙◌, All, inl,
  inr, Bool-cases, All-map, sum_by,
}
use locust.Base.Dict.{Dict, insert}
use locust.Dispatch.Users.{WorkerNode}
use locust.Dispatch.Workers.{
  insert_by, sorted_by, le_id, le_index_id, number_within_hosts, sort_workers,
}

-- What a key order has to be.
pub record IsOrder {ℓ} {A : Type ℓ} (le : A → A → Bool) : Type ℓ where
  pub total : (x y : A) → le x y ≡ false → le y x ≡ true
  pub trans : (x y z : A) → le x y ≡ true → le y z ≡ true → le x z ≡ true

abbrev pub IsSorted {ℓ} : {A : Type ℓ} → (A → A → Bool) → List A → Type ℓ
IsSorted le [] = Unit
IsSorted le (x ∷ xs) = All (λ y. le x y ≡ true) xs × IsSorted le xs

module _ {ℓ} {A : Type ℓ} (le : A → A → Bool) where
  insert_by-perm : (x : A) (xs : List A) → Perm (insert_by le x xs) (x ∷ xs)
  unfolding insert_by
  insert_by-perm x [] = Perm.rfl
  insert_by-perm x (y ∷ ys) = elim (Bool-cases (le x y)) [
    | inl below ↦ rw below Perm.rfl
    | inr above ↦ rw above (Perm.trans (Perm.cons y (insert_by-perm x ys)) (Perm.swap x y ys))
  ]

  pub sorted_by-perm : (xs : List A) → Perm (sorted_by le xs) xs
  unfolding sorted_by
  sorted_by-perm [] = Perm.rfl
  sorted_by-perm (x ∷ xs) =
      Perm.trans (insert_by-perm x (sorted_by le xs)) (Perm.cons x (sorted_by-perm xs))

  length-insert_by : (x : A) (xs : List A) → length (insert_by le x xs) ≡ suc (length xs)
  unfolding insert_by
  length-insert_by x [] = refl
  length-insert_by x (y ∷ ys) = ground (arith, length-insert_by x ys)

  pub length-sorted_by : (xs : List A) → length (sorted_by le xs) ≡ length xs
  unfolding sorted_by
  length-sorted_by [] = refl
  length-sorted_by (x ∷ xs) = length-insert_by x (sorted_by le xs) ∙ ap suc (length-sorted_by xs)

  All-insert_by {κ} :
      (P : A → Type κ) (x : A) (ys : List A) → P x → All P ys → All P (insert_by le x ys)
  unfolding insert_by
  All-insert_by P x [] p h = (p, tt)
  All-insert_by P x (y ∷ ys) p h = elim (Bool-cases (le x y)) [
    | inl below ↦ rw below (p, h)
    | inr above ↦ rw above (h.0, All-insert_by P x ys p h.1)
  ]

  pub All-sorted_by {κ} : (P : A → Type κ) (xs : List A) → All P xs → All P (sorted_by le xs)
  unfolding sorted_by
  All-sorted_by P [] h = tt
  All-sorted_by P (x ∷ xs) h = All-insert_by P x (sorted_by le xs) h.0 (All-sorted_by P xs h.1)

  sum_by-insert_by :
      (f : A → ℕ) (x : A) (xs : List A) → sum_by f (insert_by le x xs) ≡ f x + sum_by f xs
  unfolding insert_by
  sum_by-insert_by f x [] = refl
  sum_by-insert_by f x (y ∷ ys) = ground (arith, sum_by-insert_by f x ys)

  pub sum_by-sorted_by : (f : A → ℕ) (xs : List A) → sum_by f (sorted_by le xs) ≡ sum_by f xs
  unfolding sorted_by
  sum_by-sorted_by f [] = refl
  sum_by-sorted_by f (x ∷ xs) =
      omega (arith, sum_by-insert_by f x (sorted_by le xs), sum_by-sorted_by f xs)

  insert_by-IsSorted :
      IsOrder le → (x : A) (xs : List A) → IsSorted le xs → IsSorted le (insert_by le x xs)
  unfolding insert_by
  insert_by-IsSorted o x [] h = (tt, tt)
  insert_by-IsSorted o x (y ∷ ys) h = elim (Bool-cases (le x y)) [
    | inl below ↦ rw below (
      (below, All-map (λ z. le y z ≡ true) (λ z. le x z ≡ true) ys (λ z. o.trans x y z below) h.0),
      h,
    )
    | inr above ↦ rw above (
      All-insert_by (λ z. le y z ≡ true) x ys (o.total x y above) h.0,
      insert_by-IsSorted o x ys h.1,
    )
  ]

  pub sorted_by-IsSorted : IsOrder le → (xs : List A) → IsSorted le (sorted_by le xs)
  unfolding sorted_by
  sorted_by-IsSorted o [] = tt
  sorted_by-IsSorted o (x ∷ xs) = insert_by-IsSorted o x (sorted_by le xs) (sorted_by-IsSorted o xs)

le_index_id-IsOrder : IsOrder le_index_id
unfolding le_index_id
le_index_id-IsOrder = record { total = λ v w h. ground arith; trans = λ u v w h k. ground arith }

-- What sorting does not change of a worker.
abbrev pub identity : WorkerNode → ℕ × ℕ
identity w = (w.id, w.host)

number_within_hosts-ids :
    (per_host : Dict ℕ) (ws : List WorkerNode)
    → map identity (number_within_hosts per_host ws) ≡ map identity ws
unfolding number_within_hosts
number_within_hosts-ids per_host [] = refl
number_within_hosts-ids per_host (w ∷ ws) =
    ap (λ l. identity w ∷ l) (number_within_hosts-ids (insert w.host _ per_host) ws)

length-number_within_hosts :
    (per_host : Dict ℕ) (ws : List WorkerNode)
    → length (number_within_hosts per_host ws) ≡ length ws
unfolding number_within_hosts
length-number_within_hosts per_host [] = refl
length-number_within_hosts per_host (w ∷ ws) =
    ap suc (length-number_within_hosts (insert w.host _ per_host) ws)

pub length-sort_workers : (ws : List WorkerNode) → length (sort_workers ws) ≡ length ws
unfolding sort_workers
length-sort_workers ws =
    length-sorted_by le_index_id (number_within_hosts [] (sorted_by le_id ws))
    ∙ length-number_within_hosts [] (sorted_by le_id ws)
    ∙ length-sorted_by le_id ws

All-number_within_hosts :
    (P : ℕ → Type 0) (per_host : Dict ℕ) (ws : List WorkerNode)
    → All (λ w. P (WorkerNode.id w)) ws
    → All (λ w. P (WorkerNode.id w)) (number_within_hosts per_host ws)
unfolding number_within_hosts
All-number_within_hosts P per_host [] h = tt
All-number_within_hosts P per_host (w ∷ ws) h =
    (h.0, All-number_within_hosts P (insert w.host _ per_host) ws h.1)

pub All-sort_workers :
    (P : ℕ → Type 0) (ws : List WorkerNode)
    → All (λ w. P (WorkerNode.id w)) ws
    → All (λ w. P (WorkerNode.id w)) (sort_workers ws)
unfolding sort_workers
All-sort_workers P ws h =
    All-sorted_by le_index_id (λ w. P (WorkerNode.id w)) _
      (All-number_within_hosts P [] (sorted_by le_id ws)
        (All-sorted_by le_id (λ w. P (WorkerNode.id w)) ws h))

-- `_sort_workers` keeps the workers, by id and host, and lists them by their index within the host
-- and then by id.
pub sort_workers-IsSorted :
    (ws : List WorkerNode)
    → Perm (map identity (sort_workers ws)) (map identity ws)
      × IsSorted le_index_id (sort_workers ws)
unfolding sort_workers
sort_workers-IsSorted ws =
    let named = number_within_hosts [] (sorted_by le_id ws) in
    (
      Perm.trans (Perm.map identity (sorted_by-perm le_index_id named)) (
          rw (number_within_hosts-ids [] (sorted_by le_id ws))
            (Perm.map identity (sorted_by-perm le_id ws))),
      sorted_by-IsSorted le_index_id le_index_id-IsOrder named,
    )
