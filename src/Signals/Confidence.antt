-- ===== src/Signals/Confidence.antt =====
-- app/signals/confidence.py: the score of a setup. The factors, floats in the source, are exact
-- decimals here, and `round` is the rounding of the exact product, to the even number from the
-- middle. Negative weights, which the source refuses, are not in the type.
pub mod Scores
use sarkfxbot.Base.{
  ℕ, ◌+◌, ◌*◌, ◌/◌, ◌%◌, Bool, true, false, not, ◌||◌, List, [], ◌∷◌, any, ltb, ◌==◌, if◌then◌else◌,
}
use sarkfxbot.Base.Int.{pos_part}
use sarkfxbot.Base.Decimal.{Decimal, den, dec_ltb, zero_dec, of_ℕ}
use sarkfxbot.Base.Exec.{Result, ok, err, value_error}

pub record ConfidenceWeights : Type 0 where
  pub h1_trend : ℕ
  pub m15_pullback : ℕ
  pub m5_confirmation : ℕ
  pub structure_alignment : ℕ
  pub spread_quality : ℕ
  pub volatility_quality : ℕ

abbrev pub default_weights : ConfidenceWeights
default_weights = record {
  h1_trend = 30;
  m15_pullback = 25;
  m5_confirmation = 25;
  structure_alignment = 10;
  spread_quality = 5;
  volatility_quality = 5;
}

abbrev pub sum_of : ConfidenceWeights → ℕ
sum_of w =
    w.h1_trend + w.m15_pullback + w.m5_confirmation + w.structure_alignment + w.spread_quality
    + w.volatility_quality

-- ConfidenceWeights.__post_init__
unfoldable pub make_weights : ConfidenceWeights → Result ConfidenceWeights
make_weights w =
    if not (sum_of w == 100)
    then err (value_error "confidence weights must be non-negative and total 100")
    else ok w

pub record ConfidenceFactors : Type 0 where
  pub h1_trend : Decimal
  pub m15_pullback : Decimal
  pub m5_confirmation : Decimal
  pub structure_alignment : Decimal
  pub spread_quality : Decimal
  pub volatility_quality : Decimal

abbrev pub out_of_range : Decimal → Bool
out_of_range v = dec_ltb v zero_dec || dec_ltb (of_ℕ 1) v

-- ConfidenceFactors.__post_init__
unfoldable pub make_factors : ConfidenceFactors → Result ConfidenceFactors
make_factors f =
    if out_of_range f.h1_trend
      || out_of_range f.m15_pullback
      || out_of_range f.m5_confirmation
      || out_of_range f.structure_alignment
      || out_of_range f.spread_quality
      || out_of_range f.volatility_quality
    then err (value_error "confidence factors must be finite values from 0 to 1")
    else ok f

-- round(a / d)
unfoldable pub nearest : ℕ → ℕ → ℕ
nearest a d =
    let q = a / d in
    let r = a % d in
    if ltb (2 * r) d then q else if ltb d (2 * r) then q + 1 else if q % 2 == 0 then q else q + 1

-- round(factor * weight)
unfoldable pub component : Decimal → ℕ → ℕ
component factor weight = nearest (pos_part factor.num * weight) (den factor)

pub record ConfidenceBreakdown : Type 0 where
  pub score : ℕ
  pub components : ConfidenceWeights

abbrev pub components_of : ConfidenceFactors → ConfidenceWeights → ConfidenceWeights
components_of f w = record {
  h1_trend = component f.h1_trend w.h1_trend;
  m15_pullback = component f.m15_pullback w.m15_pullback;
  m5_confirmation = component f.m5_confirmation w.m5_confirmation;
  structure_alignment = component f.structure_alignment w.structure_alignment;
  spread_quality = component f.spread_quality w.spread_quality;
  volatility_quality = component f.volatility_quality w.volatility_quality;
}

-- score_confidence
unfoldable pub score_confidence : ConfidenceFactors → ConfidenceWeights → ConfidenceBreakdown
score_confidence f w = record { score = sum_of (components_of f w); components = components_of f w }
