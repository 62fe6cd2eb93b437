-- ===== src/Dispatch/Kl.antt =====
-- `_kl_generator` of locust/dispatch.py: names drawn by their weights.
-- The heap is the list of its tuples, and `heap[0]` is the least of them.
pub mod Quota
pub mod Exact
use locust.Base.{
  ℕ, zero, suc, ◌+◌, ◌*◌, ◌≤◌, ◌<◌, ◌≡◌, Bool, true, false, Option, none, some, List, [], ◌∷◌, ltb,
  ◌==◌, if◌then◌else◌,
}

-- A tuple of the heap. Its first component, `weight * log2((x - 1) / x)`, is a function of the
-- other two, and is compared by `less`.
pub record Entry : Type 0 where
  pub x : ℕ
  pub weight : ℕ
  pub name : ℕ

-- The floating point comparison of `weight * log2((x - 1) / x)` for two pairs (weight, x). What
-- the generator needs of it: the divergence still falls faster for a name that has been drawn
-- less often than its weight says than for one that has been drawn as often or more.
pub record Divergence : Type 0 where
  pub less : (weight x weight' x' : ℕ) → Bool
  pub quota_less :
      (w x v y : ℕ) → 0 < w → 0 < v → w < x → x ≤ 2 * w → 2 * v < y → less w x v y ≡ true
  pub quota_not_less :
      (w x v y : ℕ) → 0 < w → 0 < v → w < x → x ≤ 2 * w → 2 * v < y → less v y w x ≡ false

-- `[(..., x + 1.0, x, name) for name, x in users if x > 0]`
unfoldable pub kl_heap : List (ℕ × ℕ) → List Entry
kl_heap [] = []
kl_heap ((name, w) ∷ users) =
    if ltb 0 w
    then (record { x = w + 1; weight = w; name = name }) ∷ kl_heap users
    else kl_heap users

abbrev pub push : Option ℕ → List ℕ → List ℕ
push none names = names
push (some name) names = name ∷ names

module _ (div : Divergence) where
  -- The order of the tuples (divergence, x, weight, name).
  unfoldable pub before : Entry → Entry → Bool
  before a b =
      if div.less a.weight a.x b.weight b.x
      then true
      else if div.less b.weight b.x a.weight a.x
      then false
      else if ltb a.x b.x
      then true
      else if ltb b.x a.x
      then false
      else if ltb a.weight b.weight
      then true
      else if ltb b.weight a.weight
      then false
      else ltb a.name b.name

  -- The least tuple of a heap, and the other tuples.
  unfoldable pub pop_least : Entry → List Entry → Entry × List Entry
  pop_least e [] = (e, [])
  pop_least e (f ∷ heap) =
      let (m, rest) = pop_least e heap in if before f m then (f, m ∷ rest) else (m, f ∷ rest)

  -- One `next` of the generator: it yields the least name and `heapreplace`s its tuple. An empty
  -- heap yields `None` for ever.
  unfoldable pub kl_next : List Entry → Option ℕ × List Entry
  kl_next [] = (none, [])
  kl_next (e ∷ heap) =
      let (m, rest) = pop_least e heap in (some m.name, (record m { x = m.x + 1 }) ∷ rest)

  -- The names of the first draws; a `None` is left out.
  unfoldable pub kl_take : ℕ → List Entry → List ℕ × List Entry
  unfolding kl_next
  kl_take zero heap = ([], heap)
  kl_take (suc n) heap =
      let (name, heap') = kl_next heap in
      let (names, last) = kl_take n heap' in (push name names, last)
