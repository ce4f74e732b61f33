-- ===== src/Base/Decimal/Order.antt =====
-- The order of decimals: it is transitive and total, and division by a positive decimal keeps it.
use Prim.Native.Nat.{ℕ, ◌+◌, ◌*◌, ◌≤◌, ◌<◌, zero, suc, ◌-◌}
use mathlib.Core.Path.{◌≡◌, ap}
use mathlib.Core.Bool.{true, false}
use mathlib.Core.Logic.{inl, inr}
use sarkfxbot.Base.Tests.{Bool-cases}
use native.Mathlib.Nat.{mul-le-mul_right, le_of_mul-le-mul_right, lt_of_mul-lt-mul_right}
use native.Mathlib.Omega.{arith}
use sarkfxbot.Base.Int.{ℤ, pos, negsuc, pos_part, neg_part, sub_ℕ, sub_ℕ_parts}
use sarkfxbot.Base.Decimal.{
  Decimal, den, ratio, ◌⊘◌, divide, zero_dec, side, ◌≼◌, ◌≺◌, dec_ltb, dec_leb,
}

-- The arithmetic under transitivity: the middle denominator `q` is positive and cancels.
chain_le :
    (x x' y y' z z' p q r : ℕ)
    → 0 < q
    → x * q + y' * p ≤ y * p + x' * q
    → y * r + z' * q ≤ z * q + y' * r
    → x * r + z' * p ≤ z * p + x' * r
chain_le x x' y y' z z' p q r hq h k =
    le_of_mul-le-mul_right {k = q} (omega (arith, mul-le-mul_right r h, mul-le-mul_right p k)) hq

chain_lt :
    (x x' y y' z z' p q r : ℕ)
    → 0 < p
    → 0 < r
    → x * q + y' * p < y * p + x' * q
    → y * r + z' * q ≤ z * q + y' * r
    → x * r + z' * p < z * p + x' * r
chain_lt x x' y y' z z' p q r hp hr h k =
    lt_of_mul-lt-mul_right q (omega (arith, mul-le-mul_right r h, mul-le-mul_right p k))

pub ≼_trans : (a b c : Decimal) → a ≼ b → b ≼ c → a ≼ c
unfolding side
≼_trans a b c h k =
    chain_le (pos_part a.num) (neg_part a.num) (pos_part b.num) (neg_part b.num) (pos_part c.num)
      (neg_part c.num) (den a) (den b) (den c) (omega arith) h k

pub ≺-≼_trans : (a b c : Decimal) → a ≺ b → b ≼ c → a ≺ c
unfolding side
≺-≼_trans a b c h k =
    chain_lt (pos_part a.num) (neg_part a.num) (pos_part b.num) (neg_part b.num) (pos_part c.num)
      (neg_part c.num) (den a) (den b) (den c) (omega arith) (omega arith) h k

pub ≺_trans : (a b c : Decimal) → a ≺ b → b ≺ c → a ≺ c
≺_trans a b c h k = ≺-≼_trans a b c h (omega arith)

pub ≼-≺_trans : (a b c : Decimal) → a ≼ b → b ≺ c → a ≺ c
≼-≺_trans a b c h k = elim (Bool-cases (dec_ltb a c)) [
  | inl less ↦ ground arith
  | inr not_less ↦ let back : b ≺ a = ≺-≼_trans b c a k (ground arith) in absurd (omega arith)
]

-- The arithmetic of a quotient: the two parts of a numerator are a difference.
parts_le :
    (x y x' y' d d' : ℕ)
    → x * d' + y' * d ≤ x' * d + y * d'
    → pos_part (sub_ℕ x y) * d' + neg_part (sub_ℕ x' y') * d
      ≤ pos_part (sub_ℕ x' y') * d + neg_part (sub_ℕ x y) * d'
parts_le x y x' y' d d' h =
    omega (arith, ap (λ t. t * d') (sub_ℕ_parts x y), ap (λ t. t * d) (sub_ℕ_parts x' y'), h)

pub suc-pred : (k m : ℕ) → suc (suc k * suc m - 1) ≡ suc k * suc m
suc-pred k m = omega arith

cross_le :
    (x y x' y' p q e m : ℕ)
    → x * q + y' * p ≤ x' * p + y * q
    → x * e * (q * m) + y' * e * (p * m) ≤ x' * e * (p * m) + y * e * (q * m)
cross_le x y x' y' p q e m h = omega (arith, mul-le-mul_right (e * m) h)

-- Division by `(n + 1) / (e + 1)`.
quotient_le :
    (a b : Decimal) (n e : ℕ) → a ≼ b → a ⊘ ratio (pos (suc n)) e ≼ b ⊘ ratio (pos (suc n)) e
unfolding side ◌⊘◌ divide
quotient_le a b n e h =
    rw (suc-pred a.den_pred n, suc-pred b.den_pred n)
      (parts_le (pos_part a.num * suc e) (neg_part a.num * suc e) (pos_part b.num * suc e)
        (neg_part b.num * suc e) (den a * suc n) (den b * suc n)
        (cross_le (pos_part a.num) (neg_part a.num) (pos_part b.num) (neg_part b.num) (den a)
          (den b) (suc e) (suc n) h))

quotient_mono :
    (a b : Decimal) (n : ℤ) (e : ℕ) → zero_dec ≺ ratio n e → a ≼ b → a ⊘ ratio n e ≼ b ⊘ ratio n e
unfolding side
quotient_mono a b (pos zero) e h k = absurd (omega arith)
quotient_mono a b (pos (suc n)) e h k = quotient_le a b n e k
quotient_mono a b (negsuc n) e h k = absurd (omega arith)

pub ⊘-mono : (a b d : Decimal) → zero_dec ≺ d → a ≼ b → a ⊘ d ≼ b ⊘ d
⊘-mono a b d h k = quotient_mono a b d.num d.den_pred h k

-- What each Boolean comparison says.
pub ≺_of_ltb : (a b : Decimal) → dec_ltb a b ≡ true → a ≺ b
≺_of_ltb a b h = ground arith

pub ≼_of_ltb : (a b : Decimal) → dec_ltb a b ≡ false → b ≼ a
≼_of_ltb a b h = ground arith

pub ≼_of_leb : (a b : Decimal) → dec_leb a b ≡ true → a ≼ b
≼_of_leb a b h = ground arith

pub ≺_of_leb : (a b : Decimal) → dec_leb a b ≡ false → b ≺ a
≺_of_leb a b h = ground arith

pub ruleset comparisons = (≺_of_ltb, ≼_of_ltb, ≼_of_leb, ≺_of_leb)
