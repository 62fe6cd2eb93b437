-- ===== src/Dispatch/Workers.antt =====
-- `_sort_workers` of locust/dispatch.py. Ids are numbered in their order as strings, and `host` is
-- the part of the id before the first "_".
pub mod Sorted
use locust.Base.{
  ℕ, zero, suc, ◌+◌, ◌≡◌, Bool, true, false, List, [], ◌∷◌, ◌==◌, ltb, leb, if◌then◌else◌,
}
use locust.Base.Dict.{Dict, get, insert}
use locust.Dispatch.Users.{WorkerNode}

-- Python's stable `sorted` with a key order.
unfoldable pub insert_by {ℓ} : {A : Type ℓ} → (A → A → Bool) → A → List A → List A
insert_by le x [] = x ∷ []
insert_by le x (y ∷ ys) = if le x y then x ∷ y ∷ ys else y ∷ insert_by le x ys

unfoldable pub sorted_by {ℓ} : {A : Type ℓ} → (A → A → Bool) → List A → List A
unfolding insert_by
sorted_by le [] = []
sorted_by le (x ∷ xs) = insert_by le x (sorted_by le xs)

-- The keys of the two sorts: the id, and the pair of the index within the host and the id.
unfoldable pub le_id : WorkerNode → WorkerNode → Bool
le_id v w = leb v.id w.id

unfoldable pub le_index_id : WorkerNode → WorkerNode → Bool
le_index_id v w =
    if ltb v.index_within_host w.index_within_host
    then true
    else if v.index_within_host == w.index_within_host
    then leb v.id w.id
    else false

-- The `for` loop: `per_host` is the `defaultdict` `workers_per_host`.
unfoldable pub number_within_hosts : Dict ℕ → List WorkerNode → List WorkerNode
number_within_hosts per_host [] = []
number_within_hosts per_host (w ∷ ws) =
    let index = get w.host 0 per_host in
    (record w { index_within_host = index })
    ∷ number_within_hosts (insert w.host (index + 1) per_host) ws

unfoldable pub sort_workers : List WorkerNode → List WorkerNode
unfolding sorted_by le_id le_index_id number_within_hosts
sort_workers ws = sorted_by le_index_id (number_within_hosts [] (sorted_by le_id ws))
