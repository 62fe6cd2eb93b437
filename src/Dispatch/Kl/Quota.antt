-- ===== src/Dispatch/Kl/Quota.antt =====
-- `_kl_generator` meets its weights: as many draws as the weights add up to yield each name
-- exactly as often as its weight says.
use locust.Base.{
  ℕ, zero, suc, ◌+◌, ◌-◌, ◌*◌, ◌≤◌, ◌<◌, ◌≡◌, refl, inl, inr, true, false, some, List, [], ◌∷◌,
  arith, ◌==◌, if◌then◌else◌, Bool-cases, sum_by, count_by, length, All,
}
use locust.Base.Dict.{IsDict, get, contains}
use locust.Dispatch.Kl.{Entry, Divergence, kl_heap, before, pop_least, kl_next, kl_take}

-- How many draws a name has left, and how many it has had.
abbrev pub left : Entry → ℕ
left e = 2 * e.weight + 1 - e.x

abbrev pub had : Entry → ℕ
had e = e.x - (e.weight + 1)

abbrev pub IsEntry : Entry → Type 0
IsEntry e = (0 < e.weight) × (e.weight < e.x)

abbrev of : ℕ → (Entry → ℕ) → Entry → ℕ
of k f e = if k == e.name then f e else 0

module _ (div : Divergence) where
  pub sum_by-pop_least :
      (f : Entry → ℕ) (e : Entry) (heap : List Entry)
      → f (pop_least div e heap).0 + sum_by f (pop_least div e heap).1 ≡ f e + sum_by f heap
  unfolding pop_least
  sum_by-pop_least f e [] = refl
  sum_by-pop_least f e (g ∷ heap) = ground (arith, sum_by-pop_least f e heap)

  pub All-pop_least {ℓ} :
      (P : Entry → Type ℓ) (e : Entry) (heap : List Entry)
      → P e
      → All P heap
      → P (pop_least div e heap).0 × All P (pop_least div e heap).1
  unfolding pop_least
  All-pop_least P e [] p h = (p, tt)
  All-pop_least P e (g ∷ heap) p h =
      let (m, rest) = All-pop_least P e heap p h.1 in
      elim (Bool-cases (before div g (pop_least div e heap).0)) [
        | inl t ↦ rw t (h.0, (m, rest))
        | inr t ↦ rw t (m, (h.0, rest))
      ]

  before-quota :
      (a b : Entry)
      → IsEntry a
      → IsEntry b
      → 0 < left a
      → left b ≡ 0
      → (before div a b ≡ true) × (before div b a ≡ false)
  unfolding before
  before-quota a b p q u v =
      let less = div.quota_less a.weight a.x b.weight b.x p.0 q.0 p.1 (omega arith) (omega arith) in
      let other =
        div.quota_not_less a.weight a.x b.weight b.x p.0 q.0 p.1 (omega arith) (omega arith) in
      (rw less, rw (other, less))

  -- While any name has a draw left, so has the one that is drawn.
  left-pop_least :
      (e : Entry) (heap : List Entry)
      → IsEntry e
      → All IsEntry heap
      → 0 < left e + sum_by left heap
      → 0 < left (pop_least div e heap).0
  unfolding pop_least
  left-pop_least e [] p h u = omega arith
  left-pop_least e (g ∷ heap) p h u =
      let m = (pop_least div e heap).0 in
      let entry = (All-pop_least IsEntry e heap p h.1).0 in
      ground
        (arith, left-pop_least e heap p h.1, before-quota m g entry h.0, before-quota g m h.0 entry)

  kl_next-IsEntry : (heap : List Entry) → All IsEntry heap → All IsEntry (kl_next div heap).1
  unfolding kl_next
  kl_next-IsEntry [] h = tt
  kl_next-IsEntry (e ∷ heap) h =
      let (m, rest) = All-pop_least IsEntry e heap h.0 h.1 in ((m.0, omega arith), rest)

  -- A draw takes one from what its name has left, and nothing from any other name.
  kl_next-left :
      (heap : List Entry)
      → All IsEntry heap
      → 0 < sum_by left heap
      → (name : ℕ) × ((kl_next div heap).0 ≡ some name)
        × (1 + sum_by left (kl_next div heap).1 ≡ sum_by left heap)
        × ((k : ℕ)
            → (if k == name then 1 else 0) + sum_by (of k left) (kl_next div heap).1
              ≡ sum_by (of k left) heap)
  unfolding kl_next
  kl_next-left [] h u = absurd (omega arith)
  kl_next-left (e ∷ heap) h u =
      let m = (pop_least div e heap).0 in
      let more = left-pop_least e heap h.0 h.1 u in
      (
        m.name,
        refl,
        omega (arith, sum_by-pop_least left e heap),
        λ k. ground (arith, sum_by-pop_least (of k left) e heap),
      )

  kl_take-left :
      (n : ℕ) (heap : List Entry)
      → All IsEntry heap
      → n ≤ sum_by left heap
      → (n + sum_by left (kl_take div n heap).1 ≡ sum_by left heap)
        × (length (kl_take div n heap).0 ≡ n)
        × ((k : ℕ)
            → count_by (λ j. k == j) (kl_take div n heap).0
                + sum_by (of k left) (kl_take div n heap).1
              ≡ sum_by (of k left) heap)
  unfolding kl_take
  kl_take-left zero heap h u = (omega arith, refl, λ k. omega arith)
  kl_take-left (suc n) heap h u =
      let (name, drawn, falls, each) = kl_next-left heap h (omega arith) in
      let (total, len, counts) =
        kl_take-left n (kl_next div heap).1 (kl_next-IsEntry heap h) (omega arith) in
      (ground arith, ground arith, λ k. ground (arith, counts k, each k))

  of-left-zero : (k : ℕ) (heap : List Entry) → sum_by (of k left) heap ≤ sum_by left heap
  of-left-zero k [] = omega arith
  of-left-zero k (e ∷ heap) = ground (arith, of-left-zero k heap)

kl_heap-IsEntry : (users : List (ℕ × ℕ)) → All IsEntry (kl_heap users)
unfolding kl_heap
kl_heap-IsEntry [] = tt
kl_heap-IsEntry ((name, w) ∷ users) = ground (arith, kl_heap-IsEntry users)

sum_by-kl_heap : (users : List (ℕ × ℕ)) → sum_by left (kl_heap users) ≡ sum_by (λ u. u.1) users
unfolding kl_heap
sum_by-kl_heap [] = refl
sum_by-kl_heap ((name, w) ∷ users) = ground (arith, sum_by-kl_heap users)

of-kl_heap_absent :
    (k : ℕ) (users : List (ℕ × ℕ))
    → contains k users ≡ false
    → sum_by (of k left) (kl_heap users) ≡ 0
unfolding kl_heap
of-kl_heap_absent k [] h = refl
of-kl_heap_absent k ((name, w) ∷ users) h = ground (arith, of-kl_heap_absent k users)

of-kl_heap :
    (k : ℕ) (users : List (ℕ × ℕ))
    → IsDict users
    → sum_by (of k left) (kl_heap users) ≡ get k 0 users
unfolding kl_heap
of-kl_heap k [] h = refl
of-kl_heap k ((name, w) ∷ users) h =
    ground (arith, of-kl_heap k users h.1, of-kl_heap_absent k users)

-- Of names that are listed once each, as many draws as their weights add up to yield every name
-- exactly as often as its weight says, a name that is not listed never, and nothing else.
pub kl_take-exact :
    (div : Divergence) (users : List (ℕ × ℕ))
    → IsDict users
    → let names = (kl_take div (sum_by (λ u. u.1) users) (kl_heap users)).0 in
      (length names ≡ sum_by (λ u. u.1) users)
      × ((k : ℕ) → count_by (λ j. k == j) names ≡ get k 0 users)
kl_take-exact div users h =
    let entries = kl_heap-IsEntry users in
    let (total, len, counts) =
      kl_take-left div (sum_by (λ u. u.1) users) (kl_heap users) entries
        (omega (arith, sum_by-kl_heap users)) in
    let rest = (kl_take div (sum_by (λ u. u.1) users) (kl_heap users)).1 in
    (
      len,
      λ k.
          omega
            (arith, counts k, of-left-zero div k rest, of-kl_heap k users h, sum_by-kl_heap users),
    )
