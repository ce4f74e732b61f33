-- ===== src/Signals/Confidence/Scores.antt =====
-- The range of the scores of app/signals/confidence.py.
use sarkfxbot.Base.{
  ℕ, ◌*◌, ◌/◌, ◌%◌, ◌≤◌, ◌<◌, ◌≡◌, refl, true, false, ltb, arith, Bool-cases, inl, inr,
}
use native.Mathlib.Nat.{mul-le-mul_right, le_of_mul-le-mul_right, div-add-mod'}
use sarkfxbot.Base.Int.{pos_part}
use sarkfxbot.Base.Decimal.{Decimal, den, side}
use sarkfxbot.Base.Exec.{ok}
use sarkfxbot.Signals.Confidence.{
  ConfidenceWeights, sum_of, make_weights, ConfidenceFactors, out_of_range, make_factors, nearest,
  component, score_confidence,
}

nearest-low : (a w d : ℕ) → a / d < w → nearest a d ≤ w
unfolding nearest
nearest-low a w d h = ground arith

nearest_exact : (a d : ℕ) → 0 < d → a % d ≡ 0 → nearest a d ≡ a / d
unfolding nearest
nearest_exact a d positive e =
    let half : ltb (2 * (a % d)) d ≡ true = rw e (ground arith) in rw half refl

nearest-le : (a w d : ℕ) → 0 < d → a ≤ w * d → nearest a d ≤ w
nearest-le a w d positive small = elim (Bool-cases (ltb (a / d) w)) [
  | inl h ↦ nearest-low a w d (ground arith)
  | inr h ↦
      let whole = div-add-mod' a d in
      let reached : w * d ≤ a / d * d = mul-le-mul_right d (ground arith) in
      let fits : a / d * d ≤ w * d = omega (arith, whole, small, reached) in
      let exact : a % d ≡ 0 = omega (arith, whole, small, reached) in
      rw (nearest_exact a d positive exact) (le_of_mul-le-mul_right fits positive)
]

component-le : (f : Decimal) (w : ℕ) → out_of_range f ≡ false → component f w ≤ w
unfolding component side
component-le f w h =
    let small : pos_part f.num ≤ den f = ground arith in
    let fits = mul-le-mul_right w small in
    nearest-le (pos_part f.num * w) w (den f) (omega arith) (omega (arith, fits))

-- Valid factors give each component at most its weight, and with valid weights the score, their
-- sum, is at most 100.
pub score_confidence-bounded :
    (f : ConfidenceFactors) (w : ConfidenceWeights)
    → make_factors f ≡ ok f
    → make_weights w ≡ ok w
    → ((score_confidence f w).components.h1_trend ≤ w.h1_trend)
      × ((score_confidence f w).components.m15_pullback ≤ w.m15_pullback)
      × ((score_confidence f w).components.m5_confirmation ≤ w.m5_confirmation)
      × ((score_confidence f w).components.structure_alignment ≤ w.structure_alignment)
      × ((score_confidence f w).components.spread_quality ≤ w.spread_quality)
      × ((score_confidence f w).components.volatility_quality ≤ w.volatility_quality)
      × ((score_confidence f w).score ≡ sum_of (score_confidence f w).components)
      × ((score_confidence f w).score ≤ 100)
unfolding score_confidence make_factors make_weights
score_confidence-bounded f w valid total =
    let a = component-le f.h1_trend w.h1_trend (ground arith) in
    let b = component-le f.m15_pullback w.m15_pullback (ground arith) in
    let c = component-le f.m5_confirmation w.m5_confirmation (ground arith) in
    let d = component-le f.structure_alignment w.structure_alignment (ground arith) in
    let e = component-le f.spread_quality w.spread_quality (ground arith) in
    let g = component-le f.volatility_quality w.volatility_quality (ground arith) in
    let all : sum_of w ≡ 100 = ground arith in
    (a, b, c, d, e, g, refl, omega (arith, a, b, c, d, e, g, all))
