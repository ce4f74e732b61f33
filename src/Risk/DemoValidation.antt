-- ===== src/Risk/DemoValidation.antt =====
-- app/risk/demo_validation.py: the evidence from demo trading that live AUTO mode needs. Trade
-- counts are integers in the source and may be any of them before the check.
use sarkfxbot.Base.{
  ℕ, ◌≡◌, ◌↔◌, ap, arith, eq_iff, ◌==◌, String, str_eq, Bool, true, false, not, ◌||◌, Option, none,
  some, List, [], ◌∷◌, is_empty, if◌then◌else◌,
}
use sarkfxbot.Base.Int.{ℤ, pos, ltb_ℤ, ◌≤ℤ◌}
use sarkfxbot.Base.Decimal.{Decimal, dec_ltb, dec_leb, of_ℕ, zero_dec, ◌≼◌}
use sarkfxbot.Base.Exec.{value_error, Result, ok, err}
use sarkfxbot.Base.Reasons.{Check, AllClear, failing, clear_of_failing, failing_of_clear}
use sarkfxbot.Base.Text.{is_blank}

pub record DemoPerformance : Type 0 where
  pub strategy_version : String
  pub total_trades : ℤ
  pub maximum_drawdown : Decimal
  pub profit_factor : Decimal

-- DemoPerformance.__post_init__
pub make_performance : DemoPerformance → Result DemoPerformance
make_performance p =
    if is_blank p.strategy_version
    then err (value_error "demo performance requires a strategy version")
    else if ltb_ℤ p.total_trades (pos 0)
    then err (value_error "demo trade count cannot be negative")
    else if dec_ltb p.maximum_drawdown zero_dec || dec_ltb (of_ℕ 1) p.maximum_drawdown
    then err (value_error "demo maximum drawdown must be a fraction in [0, 1]")
    else if dec_ltb p.profit_factor zero_dec
    then err (value_error "demo profit factor cannot be negative")
    else ok p

pub record DemoValidationDecision : Type 0 where
  pub allowed : Bool
  pub reasons : List String

-- The thresholds, keyword arguments of `evaluate_demo_performance`.
pub record DemoThresholds : Type 0 where
  pub minimum_trades : ℕ
  pub maximum_drawdown : Decimal
  pub minimum_profit_factor : Decimal

demo_checks : DemoThresholds → String → DemoPerformance → List Check
demo_checks t version p =
    (not (str_eq p.strategy_version version), "DEMO_STRATEGY_VERSION_MISMATCH")
    ∷ (ltb_ℤ p.total_trades (pos t.minimum_trades), "DEMO_TRADE_COUNT_BELOW_MINIMUM")
    ∷ (dec_ltb t.maximum_drawdown p.maximum_drawdown, "DEMO_DRAWDOWN_ABOVE_MAXIMUM")
    ∷ (dec_ltb p.profit_factor t.minimum_profit_factor, "DEMO_PROFIT_FACTOR_BELOW_MINIMUM")
    ∷ []

decide_evidence : DemoThresholds → String → Option DemoPerformance → DemoValidationDecision
decide_evidence t version none = record {
  allowed = false;
  reasons = "DEMO_VALIDATION_EVIDENCE_MISSING" ∷ [];
}
decide_evidence t version (some p) =
    let reasons = failing (demo_checks t version p) in
    record { allowed = is_empty reasons; reasons = reasons }

-- evaluate_demo_performance
unfoldable pub evaluate_demo_performance :
    DemoThresholds → String → Option DemoPerformance → Result DemoValidationDecision
unfolding decide_evidence demo_checks
evaluate_demo_performance t version p =
    if t.minimum_trades == 0
    then err (value_error "minimum demo trades must be positive")
    else if dec_leb t.maximum_drawdown zero_dec || dec_ltb (of_ℕ 1) t.maximum_drawdown
    then err (value_error "maximum demo drawdown must be in (0, 1]")
    else if dec_leb t.minimum_profit_factor zero_dec
    then err (value_error "minimum demo profit factor must be positive")
    else ok (decide_evidence t version p)

-- The evidence is there, for this version of the strategy, and meets every threshold.
abbrev pub IsEvidence : DemoThresholds → String → Option DemoPerformance → Type 0
IsEvidence t version none = ⊥
IsEvidence t version (some p) =
    (p.strategy_version ≡ version)
    × (pos t.minimum_trades ≤ℤ p.total_trades)
    × (p.maximum_drawdown ≼ t.maximum_drawdown)
    × (t.minimum_profit_factor ≼ p.profit_factor)

decide_evidence_iff :
    (t : DemoThresholds) (version : String) (p : Option DemoPerformance)
    → ((decide_evidence t version p).allowed ≡ true) ↔ IsEvidence t version p
unfolding decide_evidence demo_checks
decide_evidence_iff t version none = (λ h. ground arith, λ h. absurd h)
decide_evidence_iff t version (some p) = (
  λ h.
      let c : AllClear (demo_checks t version p) = clear_of_failing (demo_checks t version p) h in
      ground (arith, eq_iff p.strategy_version version),
  λ h. ap is_empty (
      failing_of_clear (demo_checks t version p)
        (ground (arith, eq_iff p.strategy_version version))),
)

decide_evidence_of_ok :
    (t : DemoThresholds) (version : String) (p : Option DemoPerformance)
    (d : DemoValidationDecision)
    → evaluate_demo_performance t version p ≡ ok d
    → decide_evidence t version p ≡ d
unfolding evaluate_demo_performance
decide_evidence_of_ok t version p d h = ground arith

-- A decision allows production AUTO trading exactly when there is evidence for this version of the
-- strategy whose trade count, drawdown and profit factor all meet the thresholds.
pub demo_iff :
    (t : DemoThresholds) (version : String) (p : Option DemoPerformance)
    (d : DemoValidationDecision)
    → evaluate_demo_performance t version p ≡ ok d
    → (d.allowed ≡ true) ↔ IsEvidence t version p
demo_iff t version p d h =
    rw (← decide_evidence_of_ok t version p d h) (decide_evidence_iff t version p)
