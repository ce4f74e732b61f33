-- ===== src/Brokers/Mock/Digits.antt =====
-- The ticket numbers of app/brokers/mock.py are written with enough rounds.
use sarkfxbot.Base.{ℕ, zero, suc, ◌/◌, ◌<◌, ◌≡◌, refl, String, ltb, arith, Bool-cases, inl, inr}
use sarkfxbot.Brokers.Mock.Trading.{digits}

-- More rounds than the number itself write the same digits.
pub digits_enough : (r s n : ℕ) (rest : String) → n < r → n < s → digits r n rest ≡ digits s n rest
unfolding digits
digits_enough zero s n rest h k = absurd (omega arith)
digits_enough (suc r) zero n rest h k = absurd (omega arith)
digits_enough (suc r) (suc s) n rest h k = elim (Bool-cases (ltb n 10)) [
  | inl small ↦ rw small refl
  | inr large ↦
      let big : 9 < n = ground arith in
      rw large (digits_enough r s (n / 10) _ (omega (arith, big)) (omega (arith, big)))
]
