-- ===== src/Base/Options.antt =====
-- Steps that may raise an exception, in a row, and the two ways through a test.
use mathlib.Core.Path.{◌≡◌, refl, subst, sym}
use mathlib.Core.Bool.{Bool, true, false}
use mathlib.Core.Option.{Option, none, some}
use locust.Base.Tests.{if◌then◌else◌}

infixl 5 ◌>>=◌
abbrev pub ◌>>=◌ {ℓ κ} : {A : Type ℓ} {B : Type κ} → Option A → (A → Option B) → Option B
none >>= f = none
some a >>= f = f a

-- The two ways through a test.
pub if_lem {ℓ κ} :
    {A : Type ℓ} (P : A → Type κ) (b : Bool) {x y : A}
    → (b ≡ true → P x)
    → (b ≡ false → P y)
    → P (if b then x else y)
if_lem P true h k = h refl
if_lem P false h k = k refl

pub bind_some {ℓ κ} :
    {A : Type ℓ} {B : Type κ} (P : Option B → Type 0) {o : Option A} {a : A} (f : A → Option B)
    → o ≡ some a
    → P (f a)
    → P (o >>= f)
bind_some P f e h = subst (λ x. P (x >>= f)) (sym e) h
