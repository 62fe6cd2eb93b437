-- ===== src/Base/Dict.antt =====
-- A Python dict keyed by numbers, in insertion order.
use Prim.Native.Nat.{ℕ}
use mathlib.Core.Path.{◌≡◌, refl}
use mathlib.Core.Bool.{Bool, true, false}
use mathlib.Core.Option.{Option, none, some}
use mathlib.Core.List.{List, [], ◌∷◌}
use native.Mathlib.Omega.{arith}
use locust.Base.Tests.{◌==◌, if◌then◌else◌}

abbrev pub Dict {ℓ} : Type ℓ → Type ℓ
Dict V = List (ℕ × V)

module _ {ℓ} {V : Type ℓ} where
  -- `d.keys()` and `d.values()`
  abbrev pub keys : Dict V → List ℕ
  keys [] = []
  keys (e ∷ d) = e.0 ∷ keys d

  abbrev pub values : Dict V → List V
  values [] = []
  values (e ∷ d) = e.1 ∷ values d

  -- `del d[k]`
  abbrev pub erase : ℕ → Dict V → Dict V
  erase k [] = []
  erase k (e ∷ rest) = if k == e.0 then rest else e ∷ erase k rest

  abbrev pub lookup : ℕ → Dict V → Option V
  lookup k [] = none
  lookup k (e ∷ d) = if k == e.0 then some e.1 else lookup k d

  -- `d.get(k, v)`
  abbrev pub get : ℕ → V → Dict V → V
  get k v d = elim (lookup k d) [ none ↦ v | some w ↦ w ]

  -- `d[k] = v`
  abbrev pub insert : ℕ → V → Dict V → Dict V
  insert k new [] = (k, new) ∷ []
  insert k new (e ∷ rest) = if k == e.0 then (k, new) ∷ rest else e ∷ insert k new rest

  -- `k in d`
  abbrev pub contains : ℕ → Dict V → Bool
  contains k d = elim (lookup k d) [ none ↦ false | some found ↦ true ]

  -- No key is listed twice: what a dict is by itself.
  abbrev pub IsDict : Dict V → Type 0
  IsDict [] = Unit
  IsDict (e ∷ d) = (contains e.0 d ≡ false) × IsDict d

module _ {ℓ} {V : Type ℓ} where
  pub lookup-insert :
      (j k : ℕ) (v : V) (d : Dict V)
      → lookup j (insert k v d) ≡ (if j == k then some v else lookup j d)
  lookup-insert j k v [] = ground arith
  lookup-insert j k v (e ∷ d) = ground (arith, lookup-insert j k v d)

  pub contains-insert :
      (j k : ℕ) (v : V) (d : Dict V)
      → contains j (insert k v d) ≡ (if j == k then true else contains j d)
  contains-insert j k v d = ground (arith, lookup-insert j k v d)

  pub insert-IsDict : (k : ℕ) (v : V) (d : Dict V) → IsDict d → IsDict (insert k v d)
  insert-IsDict k v [] h = (refl, tt)
  insert-IsDict k v (e ∷ d) h = ground (arith, insert-IsDict k v d h.1, contains-insert e.0 k v d)

  pub lookup-erase_ne :
      (j k : ℕ) (d : Dict V) → (j == k) ≡ false → lookup j (erase k d) ≡ lookup j d
  lookup-erase_ne j k [] h = refl
  lookup-erase_ne j k (e ∷ d) h = ground (arith, lookup-erase_ne j k d h)

  pub lookup-erase_self : (k : ℕ) (d : Dict V) → IsDict d → lookup k (erase k d) ≡ none
  lookup-erase_self k [] h = refl
  lookup-erase_self k (e ∷ d) h = ground (arith, lookup-erase_self k d h.1)

  pub erase-IsDict : (k : ℕ) (d : Dict V) → IsDict d → IsDict (erase k d)
  erase-IsDict k [] h = tt
  erase-IsDict k (e ∷ d) h = ground (arith, erase-IsDict k d h.1, lookup-erase_ne e.0 k d)
