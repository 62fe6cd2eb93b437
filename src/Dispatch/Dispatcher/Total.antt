-- ===== src/Dispatch/Dispatcher/Total.antt =====
-- Every dispatch ends: whether a rebalancing is pending or not, and wherever its target lies.
use mathlib.Core.Path.{subst, ap, ◌∙◌}
use native.Mathlib.Decide.{dec_lt, ℕ_discrete}
use locust.Base.{
  ℕ, suc, ◌+◌, ◌-◌, ◌/◌, ◌<◌, ◌≤◌, ◌≡◌, ◌≢◌, refl, max, true, false, Option, some, List, [], ◌∷◌,
  arith, length, Bool-cases, inl, inr, ◌>>=◌, bind_some, ◌==◌, if◌then◌else◌,
}
use locust.Dispatch.Kl.{Divergence}
use locust.Dispatch.Users.{UserClass, Users, get_current_user_count}
use locust.Dispatch.Dispatcher.{
  Dispatcher, start, rebalanced, unchanged, done, current, take_classes, begin_dispatch,
  new_dispatch,
}
use locust.Dispatch.Dispatcher.Invariant.{IsDispatcher}
use locust.Dispatch.Dispatcher.Generator.{
  Outcome, collect, next, run, resume, first, yield_rebalanced, return, finish, after, yielded,
}
use locust.Dispatch.Dispatcher.CycleRun.{
  Ends, IsQuiet, shrink-run, grow-run, next_start, next_unchanged, first-grow, grow-shrink,
  IsDispatcher-in_progress, IsDispatcher-at,
}
use locust.Dispatch.Dispatcher.Dispatches.{
  Usable, recounted-IsDispatcher, take_classes-IsDispatcher, take_classes-Retains, new_dispatch_lem,
}

-- What the end of a dispatch leaves, after the tables.
pub record Finished (target : ℕ) (tables : List Users) (last : Dispatcher) : Type 0 where
  pub valid : IsDispatcher last
  pub reached : current last ≡ target
  pub settled : last.rebalance ≡ false
  pub supplied : last.no_user_to_spawn ≡ false
  pub told : 0 < length tables

Ends-Finished :
    (d : Dispatcher) (diff : ℕ) (tables : List Users) (last : Dispatcher)
    → 0 < diff
    → Ends d diff tables last
    → Finished d.target_user_count tables last
Ends-Finished d diff [] last pos e = absurd (omega (arith, e.enough))
Ends-Finished d diff (t ∷ tables) last pos e = record {
  valid = e.valid;
  reached = e.reached;
  settled = e.settled;
  supplied = e.supplied;
  told = omega arith;
}

-- Of a dispatcher: how many users are to be moved.
abbrev distance : Dispatcher → ℕ
distance d = (current d - d.target_user_count) + (d.target_user_count - current d)

module _ (div : Divergence) where
  loops-Finished :
      (fuel : ℕ) (d : Dispatcher)
      → IsQuiet d
      → distance d ≤ fuel
      → current d ≢ d.target_user_count
      → (o : Outcome) × (tables : List Users) × (last : Dispatcher) × (first div d ≡ some o)
        × (collect (run div fuel) o ≡ some (tables, last))
        × Finished d.target_user_count tables last
  loops-Finished fuel d q enough moves = elim (dec_lt (current d) d.target_user_count) [
    | yes up ↦
        let (o, tables, last, g, c, e) = grow-run div fuel d q (omega arith) (omega arith) in
        (
          o,
          tables,
          last,
          first-grow div d moves ∙ g,
          c,
          Ends-Finished d _ tables last (omega arith) e,
        )
    | no down ↦
        let (o, tables, last, g, c, e) = shrink-run div fuel d q (omega arith) (omega arith) in
        (
          o,
          tables,
          last,
          first-grow div d moves ∙ (grow-shrink div d (omega arith) ∙ g),
          c,
          Ends-Finished d _ tables last (ground (arith, moves)) e,
        )
  ]

  still-Finished :
      (fuel : ℕ) (d : Dispatcher)
      → IsQuiet d
      → current d ≡ d.target_user_count
      → (o : Outcome) × (tables : List Users) × (last : Dispatcher) × (first div d ≡ some o)
        × (collect (run div (suc fuel)) o ≡ some (tables, last))
        × Finished d.target_user_count tables last
  unfolding first run
  still-Finished fuel d q at_target = (
    yielded d.initial_users_on_workers (record d { dispatcher_generator = unchanged }),
    d.initial_users_on_workers ∷ [],
    after (finish (record d { dispatcher_generator = unchanged })),
    ground arith,
    ground (arith, next_unchanged div d),
    record {
      valid = record {
        ids = q.valid.ids;
        pool = q.valid.pool;
        named = q.valid.named;
        weighted = q.valid.weighted;
        ready = q.valid.ready;
      };
      reached = at_target;
      settled = q.settled;
      supplied = q.supplied;
      told = omega arith;
    },
  )

  -- The first table of a dispatch and all that follow, from either end of `_dispatcher`'s preamble.
  first-Finished :
      (fuel : ℕ) (d : Dispatcher)
      → IsQuiet d
      → distance d ≤ fuel
      → (o : Outcome) × (tables : List Users) × (last : Dispatcher) × (first div d ≡ some o)
        × (collect (run div (suc fuel)) o ≡ some (tables, last))
        × Finished d.target_user_count tables last
  first-Finished fuel d q enough = elim (ℕ_discrete (current d) d.target_user_count) [
    | yes same ↦ still-Finished fuel d q same
    | no moves ↦ loops-Finished (suc fuel) d q (omega arith) moves
  ]

  pub run_by :
      (fuel : ℕ) (d : Dispatcher) (o : Outcome)
      → next div d ≡ some o
      → run div (suc fuel) d ≡ collect (run div fuel) o
  unfolding run
  run_by fuel d o e = rw (e, run)

  next_pending :
      (d : Dispatcher)
      → d.dispatcher_generator ≡ start
      → d.rebalance ≡ true
      → next div d ≡ some (yield_rebalanced rebalanced (record d { dispatch_in_progress = true }))
  unfolding next resume
  next_pending d p e = rw (p, e, resume) refl

  next_rebalanced :
      (d : Dispatcher)
      → d.dispatcher_generator ≡ rebalanced
      → next div d ≡ (if current d == d.target_user_count then some (return d) else first div d)
  unfolding next resume
  next_rebalanced d p = rw (p, resume) refl

  -- What follows a table that is yielded because of a rebalancing, as the first one.
  resumed-Finished :
      (fuel : ℕ) (d : Dispatcher)
      → IsQuiet d
      → d.dispatcher_generator ≡ rebalanced
      → distance d ≤ fuel
      → (tables : List Users) × (last : Dispatcher) × (run div (suc (suc fuel)) d
          ≡ some (tables, last))
        × IsDispatcher last
        × (current last ≡ d.target_user_count)
        × (last.rebalance ≡ false)
        × (last.no_user_to_spawn ≡ false)
  resumed-Finished fuel d q p enough = elim (ℕ_discrete (current d) d.target_user_count) [
    | yes same ↦ (
      [],
      after (return d),
      run_by (suc fuel) d (return d) (next_rebalanced d p ∙ ground arith),
      IsDispatcher-at d done q.valid,
      same,
      q.settled,
      q.supplied,
    )
    | no moves ↦
        let (o, tables, last, f, c, e) = first-Finished fuel d q enough in
        (
          tables,
          last,
          run_by (suc fuel) d o (next_rebalanced d p ∙ ground arith) ∙ c,
          e.valid,
          e.reached,
          e.settled,
          e.supplied,
        )
  ]

  begun-Finished :
      (fuel : ℕ) (d : Dispatcher)
      → IsDispatcher d
      → 0 < d.user_count_per_dispatch_iteration
      → d.no_user_to_spawn ≡ false
      → d.dispatcher_generator ≡ start
      → distance d ≤ fuel
      → (tables : List Users) × (last : Dispatcher) × (run div (suc (suc (suc fuel))) d
          ≡ some (tables, last))
        × Finished d.target_user_count tables last
  begun-Finished fuel d v step supplied at_start enough = elim (Bool-cases d.rebalance) [
    | inr settled ↦
        let d' = record d { dispatch_in_progress = true } in
        let q : IsQuiet d' = record {
          valid = IsDispatcher-in_progress d v;
          step = step;
          settled = settled;
          supplied = supplied;
        } in
        let (o, tables, last, f, c, e) = first-Finished (suc fuel) d' q (omega arith) in
        (tables, last, run_by (suc (suc fuel)) d o (next_start div d at_start settled ∙ f) ∙ c, e)
    | inl pending ↦
        let d' = record d {
          dispatch_in_progress = true;
          rebalance = false;
          dispatcher_generator = rebalanced;
        } in
        let v' : IsDispatcher d' = record {
          ids = v.ids;
          pool = v.pool;
          named = v.named;
          weighted = v.weighted;
          ready = v.ready;
        } in
        let q : IsQuiet d' = record {
          valid = v';
          step = step;
          settled = refl;
          supplied = supplied;
        } in
        let (tables, last, r, valid, reached, settled, supplied) =
          resumed-Finished fuel d' q refl enough in
        let begins =
          run_by (suc (suc fuel)) d (yielded d.pool.users_on_workers d')
            (next_pending d at_start pending) in
        (
          d.pool.users_on_workers ∷ tables,
          last,
          begins ∙ ground (arith, r),
          record {
            valid = valid;
            reached = reached;
            settled = settled;
            supplied = supplied;
            told = omega arith;
          },
        )
  ]

-- Every dispatch ends: from a valid dispatcher, whether a rebalancing is pending or not, to any
-- target and at any positive rate, over the classes in use or over others of the original ones with a
-- weighted one among them, the loop over the dispatcher raises no exception and ends after at most
-- as many rounds as users are moved and three more. It leaves a valid dispatcher that runs exactly
-- `target` users and has no rebalancing pending, and at least one table was sent.
pub dispatch_ends :
    (div : Divergence) (target rate : ℕ) (us : Option (List UserClass)) (d : Dispatcher)
    → 0 < rate
    → IsDispatcher d
    → Usable d us
    → d.no_user_to_spawn ≡ false
    → (tables : List Users) × (last : Dispatcher) × (new_dispatch target rate us d
          >>= run div (3 + ((current d - target) + (target - current d)))
        ≡ some (tables, last))
      × Finished target tables last
unfolding begin_dispatch
dispatch_ends div target rate us d positive v usable supplied =
    let d1 = take_classes us d in
    let v1 = take_classes-IsDispatcher us d v usable in
    let kept = take_classes-Retains us d in
    let same : get_current_user_count d1.pool.users_on_workers ≡ current d =
      ap get_current_user_count kept.2 ∙ v.pool.total in
    let d2 = begin_dispatch target rate us d in
    let (tables, last, e, ends) =
      begun-Finished div ((current d - target) + (target - current d)) d2
        (recounted-IsDispatcher d1 target (max 1 (rate / 1000)) v1) (omega arith)
        (kept.1 ∙ supplied) refl (omega (arith, same)) in
    (
      tables,
      last,
      bind_some (λ o. o ≡ some (tables, last))
          (run div (3 + ((current d - target) + (target - current d))))
          (new_dispatch_lem target rate us d positive)
          (subst (λ n. run div n d2 ≡ some (tables, last)) (omega arith) e),
      ends,
    )
