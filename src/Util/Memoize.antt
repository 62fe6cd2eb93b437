-- ===== src/Util/Memoize.antt =====
-- `memoize` of locust/util/cache.py. A time is a whole number of microseconds, and the clock does not
-- go back while the function runs. What a call of the function does is an argument: it returns a
-- value, or raises.
use locust.Base.{
  ℕ, ◌*◌, ◌-◌, ◌≤◌, ◌≡◌, refl, sym, ap, ◌∙◌, Bool, true, false, Option, none, some, List, [], ◌∷◌,
  ltb, ◌&&◌, ◌⊎◌, inl, inr, if◌then◌else◌, arith,
}

pub record Cache : Type 0 where
  pub timeout : ℕ
  pub cached : Option (ℕ × ℕ)

-- A call of `wrapper`: when it starts, and what the function returns, and when, if it is called.
pub record Call : Type 0 where
  pub start : ℕ
  pub returns : Option ℕ
  pub finish : ℕ

abbrev pub is_miss : (start : ℕ) → Cache → Bool
is_miss start c = elim c.cached [ none ↦ true | some (time, result) ↦ ltb c.timeout (start - time) ]

abbrev pub result_of : Option (ℕ × ℕ) → Option ℕ
result_of none = none
result_of (some (time, result)) = some result

-- A value that the function has just returned.
abbrev pub store : (dynamic_timeout : Bool) → Call → ℕ → Cache → Cache
store dynamic_timeout call result c = record {
  timeout =
      if dynamic_timeout && ltb c.timeout (call.finish - call.start)
      then c.timeout * 2
      else c.timeout;
  cached = some (call.finish, result);
}

-- The result, where the function does not raise, and the cache then.
unfoldable pub wrapper : (dynamic_timeout : Bool) → Call → Cache → Option ℕ × Cache
wrapper dynamic_timeout call c =
    if is_miss call.start c
    then elim call.returns [
      | none ↦ (none, c)
      | some result ↦ (some result, store dynamic_timeout call result c)
    ]
    else (result_of c.cached, c)

unfoldable pub clear_cache : Cache → Cache
clear_cache c = record c { cached = none }

-- The calls of the wrapper and of `clear_cache`.
pub data Step : Type 0 where
  called : Call → Step
  cleared : Step

unfoldable pub step : (dynamic_timeout : Bool) → Step → Cache → Cache
unfolding wrapper clear_cache
step dynamic_timeout (called call) c = (wrapper dynamic_timeout call c).1
step dynamic_timeout cleared c = clear_cache c

-- The cache after some steps, the last one first.
unfoldable pub after : (dynamic_timeout : Bool) (timeout : ℕ) → List Step → Cache
unfolding step
after dynamic_timeout timeout [] = record { timeout = timeout; cached = none }
after dynamic_timeout timeout (s ∷ steps) =
    step dynamic_timeout s (after dynamic_timeout timeout steps)

pub data Among (s : Step) : List Step → Type 0 where
  last : {steps : List Step} → Among s (s ∷ steps)
  earlier : {t : Step} {steps : List Step} → Among s steps → Among s (t ∷ steps)

-- A call among the steps whose value is the one that is cached.
record IsSource (steps : List Step) (time result : ℕ) : Type 0 where
  pub call : Call
  pub among : Among (called call) steps
  pub returned : call.returns ≡ some result
  pub finished : call.finish ≡ time

older :
    {t : Step} {steps : List Step} {time result : ℕ}
    → IsSource steps time result
    → IsSource (t ∷ steps) time result
older s = record {
  call = s.call;
  among = earlier s.among;
  returned = s.returned;
  finished = s.finished;
}

-- The two ends of a call of the wrapper, given whether it is a miss and what the function does.
abbrev ended : (dynamic_timeout miss : Bool) → Option ℕ → Call → Cache → Option ℕ × Cache
ended dynamic_timeout true none call c = (none, c)
ended dynamic_timeout true (some r) call c = (some r, store dynamic_timeout call r c)
ended dynamic_timeout false o call c = (result_of c.cached, c)

wrapper-ended :
    (dynamic_timeout : Bool) (call : Call) (c : Cache)
    → wrapper dynamic_timeout call c
      ≡ ended dynamic_timeout (is_miss call.start c) call.returns call c
unfolding wrapper
wrapper-ended dynamic_timeout call c = ground arith

stored :
    (dynamic_timeout miss : Bool) (o : Option ℕ) (call : Call) (c : Cache) (time result : ℕ)
    → Cache.cached ((ended dynamic_timeout miss o call c).1) ≡ some (time, result)
    → (c.cached ≡ some (time, result)) ⊎ ((o ≡ some result) × (call.finish ≡ time))
stored dynamic_timeout true none call c time result h = inl h
stored dynamic_timeout true (some r) call c time result h = inr (cc, cc)
stored dynamic_timeout false o call c time result h = inl h

answered :
    (dynamic_timeout miss : Bool) (o : Option ℕ) (call : Call) (c : Cache) (result : ℕ)
    → (ended dynamic_timeout miss o call c).0 ≡ some result
    → (o ≡ some result) ⊎ ((miss ≡ false) × (result_of c.cached ≡ some result))
answered dynamic_timeout true none call c result h = cc
answered dynamic_timeout true (some r) call c result h = inl h
answered dynamic_timeout false o call c result h = inr (refl, h)

-- The result of a call that is not a miss.
kept :
    (o : Option (ℕ × ℕ)) (call : Call) (timeout result : ℕ)
    → is_miss call.start (record { timeout = timeout; cached = o }) ≡ false
    → result_of o ≡ some result
    → (time : ℕ) × (o ≡ some (time, result)) × (call.start - time ≤ timeout)
kept none call timeout result m h = cc
kept (some (time, r)) call timeout result m h = (time, cc, ground (arith, m))

module _ (dynamic_timeout : Bool) (timeout : ℕ) where
  after-IsSource :
      (steps : List Step) (time result : ℕ)
      → Cache.cached (after dynamic_timeout timeout steps) ≡ some (time, result)
      → IsSource steps time result
  unfolding after clear_cache
  after-IsSource [] time result h = cc
  after-IsSource (cleared ∷ steps) time result h = cc
  after-IsSource (called call ∷ steps) time result h =
      let c = after dynamic_timeout timeout steps in
      elim (stored dynamic_timeout (is_miss call.start c) call.returns call c time result
        (ap (λ r. Cache.cached (r.1)) (sym (wrapper-ended dynamic_timeout call c)) ∙ h)) [
          | inl before ↦ older (after-IsSource steps time result before)
          | inr now ↦ record { call = call; among = last; returned = now.0; finished = now.1 }
        ]

  -- After any calls of the wrapper and of `clear_cache`, what a call of the wrapper gives is what the
  -- function has returned in this call, or in an earlier one that had ended, when this call starts,
  -- no longer ago than the timeout is then.
  pub wrapper_recent :
      (steps : List Step) (call : Call) (result : ℕ)
      → (wrapper dynamic_timeout call (after dynamic_timeout timeout steps)).0 ≡ some result
      → (call.returns ≡ some result)
        ⊎ ((source : Call) × Among (called source) steps
            × (source.returns ≡ some result)
            × (call.start - source.finish ≤ Cache.timeout (after dynamic_timeout timeout steps)))
  wrapper_recent steps call result h =
      let c = after dynamic_timeout timeout steps in
      elim (answered dynamic_timeout (is_miss call.start c) call.returns call c result
        (ap (λ r. r.0) (sym (wrapper-ended dynamic_timeout call c)) ∙ h)) [
          | inl now ↦ inl now
          | inr hit ↦
              let (time, found, soon) = kept c.cached call c.timeout result hit.0 hit.1 in
              let s = after-IsSource steps time result found in
              inr (s.call, s.among, s.returned, rw s.finished soon)
        ]
