-- ===== src/Dispatch/Spawn/Draw.antt =====
-- What `_user_gen` yields: classes that it was given, and, where one of them has a weight, never
-- `None`.
use locust.Base.{
  ℕ, ◌<◌, ◌≡◌, ◌≢◌, refl, Bool, true, false, Option, none, some, List, [], ◌∷◌, arith, ◌==◌,
  if◌then◌else◌, length, member, sum_by, All, ltb,
}
use locust.Dispatch.Kl.{Divergence, Entry, kl_heap, kl_next, pop_least}
use locust.Dispatch.Kl.Quota.{All-pop_least}
use locust.Dispatch.Users.{UserClass, Users}
use locust.Dispatch.Spawn.{
  UserGen, user_gen, user_next, weighted_next, fixed_next, weighted_users, fixed_users_missing,
}
use locust.Dispatch.Spawn.Tracks.{Draws}

abbrev pub AreNamed : List ℕ → List UserClass → Type 0
AreNamed names = All (λ u. member (UserClass.name u) names ≡ true)

-- Some class without a fixed count has a positive weight.
abbrev pub has_weighted : List UserClass → Bool
has_weighted [] = false
has_weighted (u ∷ us) =
    if u.fixed_count == 0
    then (if ltb 0 u.weight then true else has_weighted us)
    else has_weighted us

abbrev NamesIn : List ℕ → List Entry → Type 0
NamesIn names = All (λ e. member (Entry.name e) names ≡ true)

abbrev pub Yields : List ℕ → Option ℕ → Type 0
Yields names none = Unit
Yields names (some k) = member k names ≡ true

module _ (names : List ℕ) where
  kl_heap-NamesIn :
      (users : List (ℕ × ℕ))
      → All (λ u. member u.0 names ≡ true) users
      → NamesIn names (kl_heap users)
  unfolding kl_heap
  kl_heap-NamesIn [] h = tt
  kl_heap-NamesIn ((k, w) ∷ users) h = ground (arith, kl_heap-NamesIn users h.1)

  weighted_users-named :
      (us : List UserClass)
      → AreNamed names us
      → All (λ u. member u.0 names ≡ true) (weighted_users us)
  unfolding weighted_users
  weighted_users-named [] h = tt
  weighted_users-named (u ∷ us) h = ground (arith, weighted_users-named us h.1)

  fixed_users_missing-named :
      (us : List UserClass) (users : Users)
      → AreNamed names us
      → All (λ u. member u.0 names ≡ true) (fixed_users_missing us users)
  unfolding fixed_users_missing
  fixed_users_missing-named [] users h = tt
  fixed_users_missing-named (u ∷ us) users h =
      ground (arith, fixed_users_missing-named us users h.1)

  pub user_gen-Draws : (us : List UserClass) → AreNamed names us → Draws names (user_gen us)
  unfolding user_gen
  user_gen-Draws us h = (kl_heap-NamesIn (weighted_users us) (weighted_users-named us h), tt)

  module _ (div : Divergence) where
    kl_next-NamesIn :
        (heap : List Entry)
        → NamesIn names heap
        → Yields names (kl_next div heap).0 × NamesIn names (kl_next div heap).1
    unfolding kl_next
    kl_next-NamesIn [] h = (tt, tt)
    kl_next-NamesIn (e ∷ heap) h =
        let (m, rest) =
          All-pop_least div (λ e. member (Entry.name e) names ≡ true) e heap h.0 h.1 in
        (m, (m, rest))

    -- Only names of the given classes are drawn.
    pub user_next-Draws :
        (us : List UserClass) (users : Users) (try_fixed : Bool) (g : UserGen)
        → AreNamed names us
        → Draws names g
        → Yields names (user_next div us users try_fixed g).0
          × Draws names (user_next div us users try_fixed g).2
    unfolding user_next weighted_next fixed_next
    user_next-Draws us users try_fixed g h d =
        let missing = fixed_users_missing us users in
        let named = fixed_users_missing-named us users h in
        ground (
          arith,
          kl_next-NamesIn g.weighted d.0,
          kl_next-NamesIn g.fixed d.1,
          kl_next-NamesIn (kl_heap missing) (kl_heap-NamesIn missing named),
        )

-- Each of the two generators has something to draw when it is asked.
pub record IsReady (g : UserGen) : Type 0 where
  pub weighted : 0 < length g.weighted
  pub fixed : 0 < g.fixed_left → 0 < length g.fixed

kl_heap-live : (users : List (ℕ × ℕ)) → 0 < sum_by (λ u. u.1) users → 0 < length (kl_heap users)
unfolding kl_heap
kl_heap-live [] h = absurd (omega arith)
kl_heap-live ((k, w) ∷ users) h = ground (arith, kl_heap-live users)

weighted_users-live :
    (us : List UserClass) → has_weighted us ≡ true → 0 < sum_by (λ u. u.1) (weighted_users us)
unfolding weighted_users
weighted_users-live [] h = absurd (cc)
weighted_users-live (u ∷ us) h = ground (arith, weighted_users-live us)

pub user_gen-IsReady : (us : List UserClass) → has_weighted us ≡ true → IsReady (user_gen us)
unfolding user_gen
user_gen-IsReady us h = record {
  weighted = kl_heap-live (weighted_users us) (weighted_users-live us h);
  fixed = λ pos. absurd (omega arith);
}

module _ (div : Divergence) where
  length-pop_least : (e : Entry) (heap : List Entry) → length (pop_least div e heap).1 ≡ length heap
  unfolding pop_least
  length-pop_least e [] = refl
  length-pop_least e (f ∷ heap) = ground (arith, length-pop_least e heap)

  length-kl_next : (heap : List Entry) → length (kl_next div heap).1 ≡ length heap
  unfolding kl_next
  length-kl_next [] = refl
  length-kl_next (e ∷ heap) = omega (arith, length-pop_least e heap)

  kl_next-ne-none : (heap : List Entry) → 0 < length heap → (kl_next div heap).0 ≢ none
  unfolding kl_next
  kl_next-ne-none [] h e = absurd (omega arith)
  kl_next-ne-none (f ∷ heap) h e = cc

  -- A generator with something to draw yields a class, and is left with something to draw.
  pub user_next-ne-none :
      (us : List UserClass) (users : Users) (try_fixed : Bool) (g : UserGen)
      → IsReady g
      → (user_next div us users try_fixed g).0 ≢ none
  unfolding user_next weighted_next fixed_next
  user_next-ne-none us users try_fixed g r e =
      let missing = fixed_users_missing us users in
      ground (
        arith,
        r.fixed,
        kl_next-ne-none g.weighted r.weighted,
        kl_next-ne-none g.fixed,
        kl_next-ne-none (kl_heap missing),
        kl_heap-live missing,
      )

  pub user_next-IsReady :
      (us : List UserClass) (users : Users) (try_fixed : Bool) (g : UserGen)
      → IsReady g
      → IsReady (user_next div us users try_fixed g).2
  unfolding user_next weighted_next fixed_next
  user_next-IsReady us users try_fixed g r =
      let missing = fixed_users_missing us users in
      ground (
        arith,
        r.fixed,
        length-kl_next g.weighted,
        length-kl_next g.fixed,
        length-kl_next (kl_heap missing),
        kl_heap-live missing,
      )
