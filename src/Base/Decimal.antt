-- ===== src/Base/Decimal.antt =====
-- Exact decimals. Python's `Decimal` and `datetime.timedelta` quotients are read as exact
-- rationals: a numerator and a positive denominator. Comparison, sum, difference and product of
-- Python decimals are exact while the result has at most 28 digits; a quotient is rounded there
-- to 28 digits and is exact here.
pub mod Order
pub mod Floor
use Prim.Native.Nat.{ℕ, suc, ◌+◌, ◌-◌, ◌*◌, ◌/◌, ◌≤◌, ◌<◌}
use mathlib.Core.Bool.{Bool, not}
use sarkfxbot.Base.Tests.{ltb, leb, ◌==◌, if◌then◌else◌}
use sarkfxbot.Base.Int.{ℤ, pos, negsuc, pos_part, neg_part, sub_ℕ}

-- The value is `num / (den_pred + 1)`.
pub record Decimal : Type 0 where
  pub num : ℤ
  pub den_pred : ℕ

abbrev pub den : Decimal → ℕ
den a = suc a.den_pred

-- `Decimal(n) / (d + 1)`
abbrev pub ratio : ℤ → ℕ → Decimal
ratio n d = record { num = n; den_pred = d }

abbrev pub of_ℕ : ℕ → Decimal
of_ℕ n = ratio (pos n) 0

-- One side of the cross-multiplied comparison of `a` with `b`.
unfoldable pub side : Decimal → Decimal → ℕ
side a b = pos_part a.num * den b + neg_part b.num * den a

infix 50 ◌≼◌ ◌≺◌
abbrev pub ◌≼◌ : Decimal → Decimal → Type 0
a ≼ b = side a b ≤ side b a

abbrev pub ◌≺◌ : Decimal → Decimal → Type 0
a ≺ b = side a b < side b a

-- a < b, a <= b, a == b
abbrev pub dec_ltb : Decimal → Decimal → Bool
dec_ltb a b = ltb (side a b) (side b a)

abbrev pub dec_leb : Decimal → Decimal → Bool
dec_leb a b = leb (side a b) (side b a)

abbrev pub dec_eqb : Decimal → Decimal → Bool
dec_eqb a b = side a b == side b a

infixl 65 ◌⊕◌ ◌⊖◌
infixl 70 ◌⊗◌ ◌⊘◌
-- a + b
unfoldable pub ◌⊕◌ : Decimal → Decimal → Decimal
a ⊕ b = record {
  num =
      sub_ℕ (pos_part a.num * den b + pos_part b.num * den a)
        (neg_part a.num * den b + neg_part b.num * den a);
  den_pred = den a * den b - 1;
}

-- a - b
unfoldable pub ◌⊖◌ : Decimal → Decimal → Decimal
unfolding side
a ⊖ b = record { num = sub_ℕ (side a b) (side b a); den_pred = den a * den b - 1 }

-- a * b
unfoldable pub ◌⊗◌ : Decimal → Decimal → Decimal
a ⊗ b = record {
  num =
      sub_ℕ (pos_part a.num * pos_part b.num + neg_part a.num * neg_part b.num)
        (pos_part a.num * neg_part b.num + neg_part a.num * pos_part b.num);
  den_pred = den a * den b - 1;
}

-- The quotient of `a` by an integer `n` over the denominator `d`.
divide : Decimal → ℤ → ℕ → Decimal
divide a (pos (suc n)) d =
    ratio (sub_ℕ (pos_part a.num * d) (neg_part a.num * d)) (den a * suc n - 1)
divide a (negsuc n) d = ratio (sub_ℕ (neg_part a.num * d) (pos_part a.num * d)) (den a * suc n - 1)
divide a _ d = of_ℕ 0

-- a / b. Python raises at a zero divisor; here the quotient is zero, and the callers test first.
unfoldable pub ◌⊘◌ : Decimal → Decimal → Decimal
unfolding divide
a ⊘ b = divide a b.num (den b)

-- a.to_integral_value(rounding=ROUND_FLOOR)
unfoldable pub floor : Decimal → ℤ
floor a = floor_of a.num
  where
    floor_of : ℤ → ℤ
    floor_of (pos n) = pos (n / den a)
    floor_of (negsuc n) = negsuc (n / den a)

unfoldable pub of_ℤ : ℤ → Decimal
of_ℤ n = ratio n 0

unfoldable pub abs : Decimal → Decimal
abs a = ratio (pos (pos_part a.num + neg_part a.num)) a.den_pred

-- min(a, b) and max(a, b): the first of the two where they are equal
unfoldable pub min : Decimal → Decimal → Decimal
min a b = if dec_ltb b a then b else a

unfoldable pub max : Decimal → Decimal → Decimal
max a b = if dec_ltb a b then b else a

abbrev pub zero_dec : Decimal
zero_dec = of_ℕ 0
