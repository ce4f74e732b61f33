-- ===== src/Base/Decimal/Floor.antt =====
-- Rounding down to steps: the largest whole number of steps that does not exceed a decimal.
use Prim.Native.Nat.{ℕ, zero, suc, ◌+◌, ◌-◌, ◌*◌, ◌/◌, ◌%◌, ◌≤◌, ◌<◌}
use mathlib.Core.Path.{◌≡◌, ap, subst}
use native.Mathlib.Nat.{mul-le-mul_right, div-add-mod', mod-lt}
use native.Mathlib.Omega.{arith}
use sarkfxbot.Base.Int.{ℤ, pos, negsuc, pos_part, neg_part, sub_ℕ, sub_ℕ_parts}
use sarkfxbot.Base.Decimal.{
  Decimal, den, ratio, side, ◌≼◌, ◌≺◌, ◌⊕◌, ◌⊗◌, ◌⊘◌, divide, floor, of_ℤ, zero_dec,
}
use sarkfxbot.Base.Decimal.Order.{suc-pred}

-- What the floor `k` of the fraction with numerator `n` and denominator `d` is.
record IsFloor (k n : ℤ) (d : ℕ) : Type 0 where
  below : pos_part k * d + neg_part n ≤ pos_part n + neg_part k * d
  above : pos_part n + neg_part k * d < neg_part n + (pos_part k + 1) * d

div_bounds : (n d : ℕ) → (n / suc d * suc d ≤ n) × (n < (n / suc d + 1) * suc d)
div_bounds n d =
    let whole = div-add-mod' n (suc d) in
    let small : n % suc d < suc d = mod-lt n (omega arith) in
    (omega (arith, whole, small), omega (arith, whole, small))

floor-IsFloor : (n : ℤ) (d : ℕ) → IsFloor (floor (ratio n d)) n (suc d)
unfolding floor
floor-IsFloor (pos n) d =
    let (low, high) = div_bounds n d in record { below = omega arith; above = omega arith }
floor-IsFloor (negsuc n) d =
    let (low, high) = div_bounds n d in record { below = omega arith; above = omega arith }

-- The volume of `k` steps of size `m / e` lies below the decimal `(p - n) / d`, and less than a step
-- below: the arithmetic of it, over the two parts of each numerator.
step_le :
    (k k' p n a a' v v' d e m : ℕ)
    → a + n * e ≡ a' + p * e
    → k * (d * m) + a' ≤ a + k' * (d * m)
    → v + k' * m ≡ v' + k * m
    → v * d + n * e ≤ p * e + v' * d
step_le k k' p n a a' v v' d e m fraction below volume = omega (arith, ap (λ t. t * d) volume)

step_lt :
    (k k' p n a a' v v' w w' d e m : ℕ)
    → 0 < e
    → a + n * e ≡ a' + p * e
    → a + k' * (d * m) < a' + (k + 1) * (d * m)
    → v + k' * m ≡ v' + k * m
    → w + v' * e ≡ w' + (v * e + m * e)
    → p * (e * e) + w' * d < w * d + n * (e * e)
step_lt k k' p n a a' v v' w w' d e m positive fraction above volume next = omega (
  arith,
  ap (λ t. t * e) fraction,
  mul-le-mul_right e above,
  ap (λ t. t * (d * e)) volume,
  ap (λ t. t * d) next,
)

whole-pred : (e : ℕ) → suc (1 * suc e - 1) ≡ suc e
whole-pred e = omega arith

-- The step `(m + 1) / (e + 1)`, taken `k` times.
steps_of :
    (x : Decimal) (k : ℤ) (m e : ℕ)
    → IsFloor k (sub_ℕ (pos_part x.num * suc e) (neg_part x.num * suc e)) (den x * suc m)
    → (of_ℤ k ⊗ ratio (pos (suc m)) e ≼ x)
      × (x ≺ of_ℤ k ⊗ ratio (pos (suc m)) e ⊕ ratio (pos (suc m)) e)
unfolding side ◌⊕◌ ◌⊗◌ of_ℤ
steps_of x k m e f =
    let a = sub_ℕ (pos_part x.num * suc e) (neg_part x.num * suc e) in
    let v = sub_ℕ (pos_part k * suc m + neg_part k * 0) (pos_part k * 0 + neg_part k * suc m) in
    let w = sub_ℕ (pos_part v * suc e + suc m * suc e) (neg_part v * suc e + 0 * suc e) in
    let fraction = sub_ℕ_parts (pos_part x.num * suc e) (neg_part x.num * suc e) in
    let volume =
      sub_ℕ_parts (pos_part k * suc m + neg_part k * 0) (pos_part k * 0 + neg_part k * suc m) in
    let next = sub_ℕ_parts (pos_part v * suc e + suc m * suc e) (neg_part v * suc e + 0 * suc e) in
    (
      rw (whole-pred e) (
          step_le (pos_part k) (neg_part k) (pos_part x.num) (neg_part x.num) (pos_part a)
            (neg_part a) (pos_part v) (neg_part v) (den x) (suc e) (suc m) (omega arith) f.below
            (omega arith)),
      rw (whole-pred e, suc-pred e e)
          (step_lt (pos_part k) (neg_part k) (pos_part x.num) (neg_part x.num) (pos_part a)
            (neg_part a) (pos_part v) (neg_part v) (pos_part w) (neg_part w) (den x) (suc e) (suc m)
            (omega arith) (omega arith) f.above (omega arith) (omega arith)),
    )

by_step :
    (x : Decimal) (m e : ℕ)
    → (of_ℤ (floor (x ⊘ ratio (pos (suc m)) e)) ⊗ ratio (pos (suc m)) e ≼ x)
      × (x
          ≺ of_ℤ (floor (x ⊘ ratio (pos (suc m)) e)) ⊗ ratio (pos (suc m)) e
            ⊕ ratio (pos (suc m)) e)
unfolding ◌⊘◌ divide
by_step x m e =
    let n = sub_ℕ (pos_part x.num * suc e) (neg_part x.num * suc e) in
    steps_of x (floor (ratio n (den x * suc m - 1))) m e (
      subst (IsFloor (floor (ratio n (den x * suc m - 1))) n) (suc-pred x.den_pred m)
        (floor-IsFloor n (den x * suc m - 1)))

by_number :
    (x : Decimal) (n : ℤ) (e : ℕ)
    → zero_dec ≺ ratio n e
    → (of_ℤ (floor (x ⊘ ratio n e)) ⊗ ratio n e ≼ x)
      × (x ≺ of_ℤ (floor (x ⊘ ratio n e)) ⊗ ratio n e ⊕ ratio n e)
unfolding side
by_number x (pos zero) e h = absurd (omega arith)
by_number x (pos (suc m)) e h = by_step x m e
by_number x (negsuc m) e h = absurd (omega arith)

-- The whole number of positive steps that the floor of the quotient gives does not exceed the
-- decimal, and one step more does.
pub floor_step :
    (x s : Decimal)
    → zero_dec ≺ s
    → (of_ℤ (floor (x ⊘ s)) ⊗ s ≼ x) × (x ≺ of_ℤ (floor (x ⊘ s)) ⊗ s ⊕ s)
floor_step x s h = by_number x s.num s.den_pred h
