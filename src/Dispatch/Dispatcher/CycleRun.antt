-- ===== src/Dispatch/Dispatcher/CycleRun.antt =====
-- A dispatch cycle that no worker joins or leaves: it ends, at the target, after the rounds that
-- the spawn rate asks for.
use mathlib.Core.Path.{subst, sym, ap, ◌∙◌}
use native.Mathlib.Decide.{dec_lt}
use locust.Base.{
  ℕ, zero, suc, ◌+◌, ◌-◌, ◌*◌, ◌≤◌, ◌<◌, ◌≡◌, ◌≢◌, refl, true, false, some, List, [], ◌∷◌, arith,
  length,
}
use locust.Dispatch.Kl.{Divergence}
use locust.Dispatch.Users.{Users}
use locust.Dispatch.Dispatcher.{
  Dispatcher, Point, start, unchanged, adding, removing, current, add_users_on_workers,
  remove_users_from_workers,
}
use locust.Dispatch.Dispatcher.Invariant.{
  IsDispatcher, Keeps, add_users_on_workers-Added, remove_users_from_workers-Removed,
}
use locust.Dispatch.Dispatcher.Generator.{
  Outcome, collect, shrink, grow, resume, next, run, first, after_adding, yield_at, finish, after,
}

-- How a cycle of `diff` users ends that moves `step` users a round.
pub record Ends (d : Dispatcher) (diff : ℕ) (tables : List Users) (last : Dispatcher) : Type 0 where
  pub valid : IsDispatcher last
  pub reached : current last ≡ d.target_user_count
  pub idle : last.dispatch_in_progress ≡ false
  pub settled : last.rebalance ≡ false
  pub supplied : last.no_user_to_spawn ≡ false
  pub enough : diff ≤ length tables * d.user_count_per_dispatch_iteration
  pub no_more :
      length tables * d.user_count_per_dispatch_iteration
      < diff + d.user_count_per_dispatch_iteration

-- What the loops start from.
pub record IsQuiet (d : Dispatcher) : Type 0 where
  pub valid : IsDispatcher d
  pub step : 0 < d.user_count_per_dispatch_iteration
  pub settled : d.rebalance ≡ false
  pub supplied : d.no_user_to_spawn ≡ false

pub IsDispatcher-at :
    (d : Dispatcher) (p : Point)
    → IsDispatcher d
    → IsDispatcher (record d { dispatcher_generator = p })
IsDispatcher-at d p v = record {
  ids = v.ids;
  pool = v.pool;
  named = v.named;
  weighted = v.weighted;
  ready = v.ready;
}

pub IsDispatcher-in_progress :
    (d : Dispatcher) → IsDispatcher d → IsDispatcher (record d { dispatch_in_progress = true })
IsDispatcher-in_progress d v = record {
  ids = v.ids;
  pool = v.pool;
  named = v.named;
  weighted = v.weighted;
  ready = v.ready;
}

IsQuiet-at :
    (d d' : Dispatcher) (p : Point)
    → IsQuiet d
    → IsDispatcher d'
    → Keeps d d'
    → IsQuiet (record d' { dispatcher_generator = p })
IsQuiet-at d d' p q v k = record {
  valid = IsDispatcher-at d' p v;
  step =
      subst (λ s. 0 < s) (sym (ap (λ e. Dispatcher.user_count_per_dispatch_iteration e) k)) q.step;
  settled = ap (λ e. Dispatcher.rebalance e) k ∙ q.settled;
  supplied = ap (λ e. Dispatcher.no_user_to_spawn e) k ∙ q.supplied;
}

shrink_more :
    (d d' : Dispatcher)
    → d.target_user_count < current d
    → remove_users_from_workers d ≡ some d'
    → shrink d ≡ some (yield_at removing d')
unfolding shrink
shrink_more d d' above e = ground arith

shrink_end : (d : Dispatcher) → d.target_user_count ≡ current d → shrink d ≡ some (finish d)
unfolding shrink
shrink_end d e = ground arith

pub finish-Ends :
    (d : Dispatcher) (diff : ℕ)
    → IsQuiet d
    → d.target_user_count ≡ current d
    → diff ≡ 0
    → Ends d diff [] (after (finish d))
finish-Ends d diff q e z = record {
  valid = record {
    ids = q.valid.ids;
    pool = q.valid.pool;
    named = q.valid.named;
    weighted = q.valid.weighted;
    ready = q.valid.ready;
  };
  reached = sym e;
  idle = refl;
  settled = q.settled;
  supplied = q.supplied;
  enough = omega arith;
  no_more = omega (arith, q.step);
}

mul_small : (n s : ℕ) → n * s < s → n * s ≡ 0
mul_small zero s h = omega arith
mul_small (suc n) s h = absurd (omega arith)

one_more :
    (n s diff rest : ℕ) → rest ≡ diff - s → 0 < diff → n * s < rest + s → suc n * s < diff + s
one_more n s diff rest e pos h = elim (dec_lt (n * s) s) [
  | yes small ↦ omega (arith, mul_small n s small)
  | no large ↦ omega arith
]

-- One more round of at most `step` users before the rounds that are left.
more-Ends :
    (d d' : Dispatcher) (p : Point) (diff rest : ℕ) (users : Users) (tables : List Users)
    (last : Dispatcher)
    → Keeps d d'
    → rest ≡ diff - d.user_count_per_dispatch_iteration
    → 0 < diff
    → Ends (record d' { dispatcher_generator = p }) rest tables last
    → Ends d diff (users ∷ tables) last
more-Ends d d' p diff rest users tables last k e pos ends =
    let n = length tables in
    let step : d'.user_count_per_dispatch_iteration ≡ d.user_count_per_dispatch_iteration =
      ap (λ e. Dispatcher.user_count_per_dispatch_iteration e) k in
    let enough = subst (λ s. rest ≤ n * s) step ends.enough in
    let no_more = subst (λ s. n * s < rest + s) step ends.no_more in
    record {
      valid = ends.valid;
      reached = ends.reached ∙ ap (λ e. Dispatcher.target_user_count e) k;
      idle = ends.idle;
      settled = ends.settled;
      supplied = ends.supplied;
      enough = omega arith;
      no_more = one_more n _ diff rest e pos no_more;
    }

module _ (div : Divergence) where
  next_removing :
      (d : Dispatcher)
      → d.rebalance ≡ false
      → next div (record d { dispatcher_generator = removing })
        ≡ shrink (record d { dispatcher_generator = removing })
  unfolding next resume
  next_removing d e = rw e

  pub shrink-run :
      (fuel : ℕ) (d : Dispatcher)
      → IsQuiet d
      → d.target_user_count ≤ current d
      → current d - d.target_user_count ≤ fuel
      → (o : Outcome) × (tables : List Users) × (last : Dispatcher) × (shrink d ≡ some o)
        × (collect (run div fuel) o ≡ some (tables, last))
        × Ends d (current d - d.target_user_count) tables last
  unfolding run
  shrink-run zero d q above enough =
      let e : d.target_user_count ≡ current d = omega arith in
      (finish d, [], after (finish d), shrink_end d e, refl, finish-Ends d _ q e (omega arith))
  shrink-run (suc fuel) d q above enough = elim (dec_lt d.target_user_count (current d)) [
    | no at_target ↦
        let e : d.target_user_count ≡ current d = omega arith in
        (finish d, [], after (finish d), shrink_end d e, refl, finish-Ends d _ q e (omega arith))
    | yes more ↦
        let (d', removed, r) = remove_users_from_workers-Removed d q.valid more q.step in
        let d'' : Dispatcher = record d' { dispatcher_generator = removing } in
        let target : d''.target_user_count ≡ d.target_user_count =
          ap (λ e. Dispatcher.target_user_count e) r.keeps in
        let q' = IsQuiet-at d d' removing q r.valid r.keeps in
        let (o, tables, last, s, c, ends) =
          shrink-run fuel d'' q' (omega (arith, r.count, target))
            (omega (arith, r.count, target, q.step)) in
        (
          yield_at removing d',
          d'.pool.users_on_workers ∷ tables,
          last,
          shrink_more d d' more removed,
          ground (arith, next_removing d' q'.settled),
          more-Ends d d' removing _ _ d'.pool.users_on_workers tables last r.keeps
              (omega (arith, r.count, target)) (omega arith) ends,
        )
  ]

  next_adding :
      (d : Dispatcher)
      → d.rebalance ≡ false
      → d.no_user_to_spawn ≡ false
      → next div (record d { dispatcher_generator = adding })
        ≡ grow div (record d { dispatcher_generator = adding })
  unfolding next resume after_adding
  next_adding d e s = rw (e, s)

  grow_more :
      (d d' : Dispatcher)
      → current d < d.target_user_count
      → add_users_on_workers div d ≡ some d'
      → grow div d ≡ some (yield_at adding d')
  unfolding grow
  grow_more d d' above e = ground arith

  grow_end : (d : Dispatcher) → d.target_user_count ≡ current d → grow div d ≡ some (finish d)
  unfolding grow
  grow_end d e = ground (arith, shrink_end d e)

  pub grow-run :
      (fuel : ℕ) (d : Dispatcher)
      → IsQuiet d
      → current d ≤ d.target_user_count
      → d.target_user_count - current d ≤ fuel
      → (o : Outcome) × (tables : List Users) × (last : Dispatcher) × (grow div d ≡ some o)
        × (collect (run div fuel) o ≡ some (tables, last))
        × Ends d (d.target_user_count - current d) tables last
  unfolding run
  grow-run zero d q below enough =
      let e : d.target_user_count ≡ current d = omega arith in
      (finish d, [], after (finish d), grow_end d e, refl, finish-Ends d _ q e (omega arith))
  grow-run (suc fuel) d q below enough = elim (dec_lt (current d) d.target_user_count) [
    | no at_target ↦
        let e : d.target_user_count ≡ current d = omega arith in
        (finish d, [], after (finish d), grow_end d e, refl, finish-Ends d _ q e (omega arith))
    | yes more ↦
        let (d', added, r) = add_users_on_workers-Added div d q.valid more q.step in
        let d'' : Dispatcher = record d' { dispatcher_generator = adding } in
        let target : d''.target_user_count ≡ d.target_user_count =
          ap (λ e. Dispatcher.target_user_count e) r.keeps in
        let q' = IsQuiet-at d d' adding q r.valid r.keeps in
        let (o, tables, last, s, c, ends) =
          grow-run fuel d'' q' (omega (arith, r.count, target))
            (omega (arith, r.count, target, q.step)) in
        (
          yield_at adding d',
          d'.pool.users_on_workers ∷ tables,
          last,
          grow_more d d' more added,
          ground (arith, next_adding d' q'.settled q'.supplied),
          more-Ends d d' adding _ _ d'.pool.users_on_workers tables last r.keeps
              (omega (arith, r.count, target)) (omega arith) ends,
        )
  ]

  pub next_start :
      (d : Dispatcher)
      → d.dispatcher_generator ≡ start
      → d.rebalance ≡ false
      → next div d ≡ first div (record d { dispatch_in_progress = true })
  unfolding next resume
  next_start d p e = rw (p, e, resume)

  pub next_unchanged :
      (d : Dispatcher) → next div (record d { dispatcher_generator = unchanged }) ≡ some (finish d)
  unfolding next resume
  next_unchanged d = refl

  pub first-grow : (d : Dispatcher) → current d ≢ d.target_user_count → first div d ≡ grow div d
  unfolding first
  first-grow d h = ground arith

  pub grow-shrink : (d : Dispatcher) → d.target_user_count ≤ current d → grow div d ≡ shrink d
  unfolding grow
  grow-shrink d h = ground arith

  -- From its start the loop over the dispatcher ends, in a bounded number of rounds.
  pub cycle_run :
      (d : Dispatcher)
      → IsQuiet d
      → d.dispatcher_generator ≡ start
      → current d ≢ d.target_user_count
      → let diff = (current d - d.target_user_count) + (d.target_user_count - current d) in
        (tables : List Users) × (last : Dispatcher) × (run div (suc diff) d ≡ some (tables, last))
        × Ends d diff tables last
  unfolding run
  cycle_run d q at_start moves =
      let d' : Dispatcher = record d { dispatch_in_progress = true } in
      let q' : IsQuiet d' = record {
        valid = IsDispatcher-in_progress d q.valid;
        step = q.step;
        settled = q.settled;
        supplied = q.supplied;
      } in
      let begins = next_start d at_start q.settled in
      let loops = first-grow d' moves in
      elim (dec_lt (current d) d.target_user_count) [
        | yes up ↦
            let (o, tables, last, g, c, e) =
              grow-run ((current d - d.target_user_count) + (d.target_user_count - current d)) d' q'
                (omega arith) (omega arith) in
            (
              tables,
              last,
              ground (arith, begins, loops, g, c),
              record {
                valid = e.valid;
                reached = e.reached;
                idle = e.idle;
                settled = e.settled;
                supplied = e.supplied;
                enough = omega (arith, e.enough);
                no_more = omega (arith, e.no_more);
              },
            )
        | no down ↦
            let (o, tables, last, g, c, e) =
              shrink-run ((current d - d.target_user_count) + (d.target_user_count - current d)) d'
                q' (omega arith) (omega arith) in
            let falls = grow-shrink d' (omega arith) in
            (
              tables,
              last,
              ground (arith, begins, loops, falls, g, c),
              record {
                valid = e.valid;
                reached = e.reached;
                idle = e.idle;
                settled = e.settled;
                supplied = e.supplied;
                enough = omega (arith, e.enough);
                no_more = omega (arith, e.no_more);
              },
            )
      ]
