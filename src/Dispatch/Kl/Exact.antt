-- ===== src/Dispatch/Kl/Exact.antt =====
-- The comparison of `weight * log2((x - 1) / x)` over exact arithmetic, for whole weights: powers
-- in place of logarithms, and cross-multiplied fractions. It has the law that `Divergence` asks.
use native.Mathlib.Nat.{
  pow-zero, pow-suc, pow-le-pow_left, pow-lt-pow_left, one-le-pow, mul-le-mul_left,
  mul-le-mul_right, mul-lt-mul_of_pos_right, le_of_mul-le-mul_right, lt_of_mul-lt-mul_right,
  mul-lt-mul_of_pos_right,
}
use native.Mathlib.Decide.{dec_le}
use locust.Base.{
  ℕ, zero, suc, ◌+◌, ◌-◌, ◌*◌, ◌^◌, ◌≤◌, ◌<◌, ◌≡◌, refl, ap, Bool, true, false, arith, ltb, lt→ltb,
}
use locust.Dispatch.Kl.{Divergence}

unfoldable pub exact_less : ℕ → ℕ → ℕ → ℕ → Bool
exact_less w x v y = ltb ((x - 1) ^ w * y ^ v) ((y - 1) ^ v * x ^ w)

mul-pow : (a b n : ℕ) → (a * b) ^ n ≡ a ^ n * b ^ n
mul-pow a b zero = rw (pow-zero (a * b), pow-zero a, pow-zero b) (omega arith)
mul-pow a b (suc n) = rw (pow-suc (a * b) n, pow-suc a n, pow-suc b n, mul-pow a b n) (omega arith)

-- Bernoulli's inequality for (1 + 2 / v) ^ a and (1 - 2 / v) ^ a, multiplied by v ^ (a + 1).
grow : (u v a : ℕ) → u ≡ v + 2 → v ^ a * (v + 2 * a) ≤ u ^ a * v
grow u v zero e = rw (pow-zero v, pow-zero u) (omega arith)
grow u v (suc a) e =
    rw (pow-suc v a, pow-suc u a)
      (omega (
        arith,
        mul-le-mul_right u (grow u v a e),
        ap (λ (t : ℕ). t * (v ^ a * v)) e,
        ap (λ (t : ℕ). t * (v ^ a * a)) e,
      ))

shrink : (u v a : ℕ) → v ≡ u + 2 → v ^ a * v ≤ u ^ a * v + 2 * a * v ^ a
shrink u v zero e = rw (pow-zero v, pow-zero u) (omega arith)
shrink u v (suc a) e =
    rw (pow-suc v a, pow-suc u a)
      (omega (
        arith,
        mul-le-mul_right v (shrink u v a e),
        mul-le-mul_right v (pow-le-pow_left {n = u} {m = v} (omega arith) a),
        ap (λ (t : ℕ). t * (u ^ a * v)) e,
      ))

abbrev low : ℕ → ℕ
low m = (2 * m + 1) ^ suc m

abbrev mid : ℕ → ℕ
mid m = (2 * m + 2) ^ suc m

abbrev high : ℕ → ℕ
high m = (2 * m + 3) ^ suc m

-- (p / (p + 1)) ^ n rises, and ((p + 1) / (p + 2)) ^ n falls, as n does, for p = 2 n - 1.
low-mid_pow :
    (u v m : ℕ)
    → 0 < v
    → u ≡ v + 2
    → u ≡ (2 * suc m + 1) * (2 * m + 2)
    → v ^ suc m * (2 * suc m + 2) ≤ u ^ suc m * (2 * suc m + 1)
low-mid_pow u v m pos e eu =
    le_of_mul-le-mul_right {k = v}
      (omega (
        arith,
        mul-le-mul_right (2 * suc m + 1) (grow u v (suc m) e),
        mul-le-mul_left {m = v} {n = u} (v ^ suc m) (omega arith),
        ap (λ (t : ℕ). v ^ suc m * t) eu,
      ))
      pos

low-mid : (m : ℕ) → low m * mid (suc m) ≤ low (suc m) * mid m
low-mid m =
    let core =
      low-mid_pow ((2 * suc m + 1) * (2 * m + 2)) ((2 * m + 1) * (2 * suc m + 2)) m (omega arith)
        (omega arith) refl in
    rw (pow-suc (2 * suc m + 2) (suc m), pow-suc (2 * suc m + 1) (suc m))
      (omega (
        arith,
        rw
            (
              mul-pow (2 * suc m + 1) (2 * m + 2) (suc m),
              mul-pow (2 * m + 1) (2 * suc m + 2) (suc m),
            )
            at core,
      ))

mid-high_pow :
    (u v m : ℕ)
    → 0 < v
    → v ≡ u + 2
    → u ≡ (2 * m + 2) * (2 * suc m + 3)
    → v ^ suc m * (2 * suc m + 2) ≤ u ^ suc m * (2 * suc m + 3)
mid-high_pow u v m pos e eu =
    le_of_mul-le-mul_right {k = v}
      (omega (
        arith,
        mul-le-mul_right (2 * suc m + 3) (shrink u v (suc m) e),
        mul-le-mul_left {m = u} {n = v} (v ^ suc m) (omega arith),
        ap (λ (t : ℕ). v ^ suc m * t) eu,
      ))
      pos

mid-high : (m : ℕ) → mid (suc m) * high m ≤ mid m * high (suc m)
mid-high m =
    let core =
      mid-high_pow ((2 * m + 2) * (2 * suc m + 3)) ((2 * suc m + 2) * (2 * m + 3)) m (omega arith)
        (omega arith) refl in
    rw (pow-suc (2 * suc m + 2) (suc m), pow-suc (2 * suc m + 3) (suc m))
      (omega (
        arith,
        rw
            (
              mul-pow (2 * m + 2) (2 * suc m + 3) (suc m),
              mul-pow (2 * suc m + 2) (2 * m + 3) (suc m),
            )
            at core,
      ))

-- a / b ≤ c / d and c / d ≤ e / f, cross-multiplied.
cross_trans : (a b c d e f : ℕ) → 0 < d → a * d ≤ c * b → c * f ≤ e * d → a * f ≤ e * b
cross_trans a b c d e f pos h k =
    le_of_mul-le-mul_right {k = d} (omega (arith, mul-le-mul_right f h, mul-le-mul_right b k)) pos

cross_trans_lt : (a b c d e f : ℕ) → 0 < b → a * d ≤ c * b → c * f < e * d → a * f < e * b
cross_trans_lt a b c d e f pos h k = lt_of_mul-lt-mul_right d {m = a * f} {n = e * b} (
    omega
      (arith, mul-le-mul_right f h, mul-lt-mul_of_pos_right {m = c * f} {n = e * d} {k = b} k pos))

cross_lt_trans : (a b c d e f : ℕ) → 0 < f → a * d < c * b → c * f ≤ e * d → a * f < e * b
cross_lt_trans a b c d e f pos h k = lt_of_mul-lt-mul_right d {m = a * f} {n = e * b} (
    omega
      (arith, mul-lt-mul_of_pos_right {m = a * d} {n = c * b} {k = f} h pos, mul-le-mul_right b k))

pow-pos : (a n : ℕ) → 0 < a → 0 < a ^ n
pow-pos a n h = one-le-pow n a h

low-mid_le : (m n : ℕ) → m ≤ n → low m * mid n ≤ low n * mid m
low-mid_le m zero h = let e : m ≡ 0 = omega arith in rw e (omega arith)
low-mid_le m (suc n) h = elim (dec_le m n) [
  | yes below ↦
      cross_trans (low m) (mid m) (low n) (mid n) (low (suc n)) (mid (suc n))
        (pow-pos (2 * n + 2) (suc n) (omega arith)) (low-mid_le m n below) (low-mid n)
  | no above ↦ let e : m ≡ suc n = omega arith in rw e (omega arith)
]

mid-high_le : (m n : ℕ) → m ≤ n → mid n * high m ≤ mid m * high n
mid-high_le m zero h = let e : m ≡ 0 = omega arith in rw e (omega arith)
mid-high_le m (suc n) h = elim (dec_le m n) [
  | yes below ↦
      cross_trans (mid (suc n)) (high (suc n)) (mid n) (high n) (mid m) (high m)
        (pow-pos (2 * n + 3) (suc n) (omega arith)) (mid-high n) (mid-high_le m n below)
  | no above ↦ let e : m ≡ suc n = omega arith in rw e (omega arith)
]

low-mid-high : (n : ℕ) → low n * high n < mid n * mid n
low-mid-high n =
    let core : ((2 * n + 1) * (2 * n + 3)) ^ suc n < ((2 * n + 2) * (2 * n + 2)) ^ suc n =
      pow-lt-pow_left {n = suc n} (omega arith) (omega arith) in
    rw (mul-pow (2 * n + 1) (2 * n + 3) (suc n), mul-pow (2 * n + 2) (2 * n + 2) (suc n)) at core

low-lt-high : (w v : ℕ) → low w * high v < mid v * mid w
low-lt-high w v =
    let n = w + v in
    cross_lt_trans (low w) (mid w) (mid n) (high n) (mid v) (high v)
      (pow-pos (2 * v + 3) (suc v) (omega arith))
      (cross_trans_lt (low w) (mid w) (low n) (mid n) (mid n) (high n)
        (pow-pos (2 * w + 2) (suc w) (omega arith)) (low-mid_le w n (omega arith)) (low-mid-high n))
      (mid-high_le v n (omega arith))

suc_sub : (x : ℕ) → suc x - 1 ≡ x
suc_sub x = omega arith

pred_below : (w x : ℕ) → suc w < x → x ≤ 2 * suc w → (x - 1) * (2 * w + 2) ≤ (2 * w + 1) * x
pred_below w zero wx xw = absurd (omega arith)
pred_below w (suc x) wx xw = rw (suc_sub x) (omega arith)

pred_above : (v y : ℕ) → 2 * suc v < y → (2 * v + 2) * y ≤ (y - 1) * (2 * v + 3)
pred_above v zero vy = absurd (omega arith)
pred_above v (suc y) vy = rw (suc_sub y) (omega arith)

exact_quota :
    (w x v y : ℕ)
    → 0 < w
    → 0 < v
    → w < x
    → x ≤ 2 * w
    → 2 * v < y
    → (x - 1) ^ w * y ^ v < (y - 1) ^ v * x ^ w
exact_quota zero x v y pw pv wx xw vy = absurd (omega arith)
exact_quota (suc w) x zero y pw pv wx xw vy = absurd (omega arith)
exact_quota (suc w) x (suc v) y pw pv wx xw vy =
    let below : ((x - 1) * (2 * w + 2)) ^ suc w ≤ ((2 * w + 1) * x) ^ suc w =
      pow-le-pow_left (pred_below w x wx xw) (suc w) in
    let above : ((2 * v + 2) * y) ^ suc v ≤ ((y - 1) * (2 * v + 3)) ^ suc v =
      pow-le-pow_left (pred_above v y vy) (suc v) in
    cross_lt_trans ((x - 1) ^ suc w) (x ^ suc w) (mid v) (high v) ((y - 1) ^ suc v) (y ^ suc v)
      (pow-pos y (suc v) (omega arith))
      (cross_trans_lt ((x - 1) ^ suc w) (x ^ suc w) (low w) (mid w) (mid v) (high v)
        (pow-pos x (suc w) (omega arith))
        (rw (mul-pow (x - 1) (2 * w + 2) (suc w), mul-pow (2 * w + 1) x (suc w)) at below)
        (low-lt-high w v))
      (rw (mul-pow (2 * v + 2) y (suc v), mul-pow (y - 1) (2 * v + 3) (suc v)) at above)

pub exact_quota_less :
    (w x v y : ℕ) → 0 < w → 0 < v → w < x → x ≤ 2 * w → 2 * v < y → exact_less w x v y ≡ true
unfolding exact_less
exact_quota_less w x v y pw pv wx xw vy = lt→ltb _ _ (exact_quota w x v y pw pv wx xw vy)

pub exact_quota_not_less :
    (w x v y : ℕ) → 0 < w → 0 < v → w < x → x ≤ 2 * w → 2 * v < y → exact_less v y w x ≡ false
unfolding exact_less
exact_quota_not_less w x v y pw pv wx xw vy =
    let less = exact_quota w x v y pw pv wx xw vy in ground arith

abbrev pub exact : Divergence
exact = record {
  less = exact_less;
  quota_less = exact_quota_less;
  quota_not_less = exact_quota_not_less;
}
