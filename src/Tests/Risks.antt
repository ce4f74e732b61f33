-- ===== src/Tests/Risks.antt =====
-- Tests of app/risk.
use sarkfxbot.Base.{
  String, str_eq, ◌≡◌, ◌↔◌, ◌≢◌, inl, inr, refl, eq_iff, true, false, not, ◌&&◌, ◌==◌, some, none,
  List, [], ◌∷◌, All, arith,
}
use sarkfxbot.Base.Int.{pos}
use sarkfxbot.Base.Decimal.{of_ℕ, ratio, side, ◌⊕◌, ◌⊗◌, ◌⊖◌, ◌⊘◌, floor, of_ℤ, abs, min, max}
use sarkfxbot.Base.Dict.{lookup}
use sarkfxbot.Base.Reasons.{failing}
use sarkfxbot.Base.Exec.{type_error, ok, err, is_ok}
use sarkfxbot.Domain.Enums.{AccountType, TradingMode, TradingEnvironment, Direction}
use sarkfxbot.Risk.Models.{RiskUsage, PositionSizingResult}
use sarkfxbot.Risk.Mode.{ExecutionPermission, PermissionRequest, evaluate_execution_permission}
use sarkfxbot.Risk.Mode.Permits.{IsIncomparable, IsPermitted, permission_iff}
use sarkfxbot.Risk.DemoValidation.{
  DemoPerformance, DemoValidationDecision, evaluate_demo_performance, IsEvidence, demo_iff,
}
use sarkfxbot.Risk.Calculator.{SizingRequest, calculate, size_by_loss, check_volume}
use sarkfxbot.Risk.Calculator.Sized.{IsSized, calculate-IsSized}
use sarkfxbot.Risk.Gates.{validate}
use sarkfxbot.Risk.Gates.Rules.{IsDrawnDown, IsTradable}
use sarkfxbot.Risk.Gates.Tradable.{validate_iff}
use sarkfxbot.Risk.CircuitBreaker
use sarkfxbot.Risk.CircuitBreaker.{CircuitState, CircuitStore, blocks_new_trades, evaluate}
use sarkfxbot.Risk.CircuitBreaker.Locks.{Keyed}
use sarkfxbot.Risk.CircuitBreaker.Commands.{evaluate_blocks}
use sarkfxbot.Risk.CircuitBreaker.Following.{IsHalted}
use sarkfxbot.Risk.CircuitBreaker.Halts.{
  Operation, fetch, kill, assess, reset, apply, run, KeepsHalt, run-IsHalted,
}
use sarkfxbot.Risk.CircuitBreaker.Outcomes.{
  outcome, is_refused, outcome_lem, get_periods, drawdown_lasts,
}
use sarkfxbot.Tests.Fixtures.{now, account, gold, mock, request}
use sarkfxbot.Tests.Services.{sizing, quiet_market, limits, usage, schedule, thresholds}

abbrev demo_permission : PermissionRequest
demo_permission = record {
  mode = TradingMode.semi_auto;
  environment = TradingEnvironment.demo;
  account_type = AccountType.demo;
  approved = true;
  live_trading_enabled = false;
  configured_confirmation = none;
  required_confirmation = none;
}

permission_iff_example :
    (((p : ExecutionPermission) × (evaluate_execution_permission demo_permission ≡ ok p)
        × (p.allowed ≡ true))
      ↔ IsPermitted demo_permission)
    × ((evaluate_execution_permission demo_permission
          ≡ err (type_error "comparing strings with non-ASCII characters is not supported"))
        ↔ ((demo_permission.environment ≡ TradingEnvironment.production)
            × IsIncomparable demo_permission.configured_confirmation
                demo_permission.required_confirmation))
permission_iff_example = permission_iff demo_permission

abbrev performance : DemoPerformance
performance = record {
  strategy_version = "1";
  total_trades = pos 150;
  maximum_drawdown = ratio (pos 5) 99;
  profit_factor = of_ℕ 2;
}

abbrev allowing : DemoValidationDecision
allowing = record { allowed = true; reasons = [] }

demo_iff_example : (allowing.allowed ≡ true) ↔ IsEvidence thresholds "1" (some performance)
unfolding evaluate_demo_performance side failing
demo_iff_example = demo_iff thresholds "1" (some performance) allowing refl

abbrev sizing_request : SizingRequest
sizing_request = record {
  account = account;
  symbol = gold;
  direction = Direction.long;
  entry_price = of_ℕ 2000;
  stop_loss = of_ℕ 1990;
  risk_fraction = ratio (pos 1) 99;
}

-- A tenth of a lot, at a loss of a hundred.
abbrev sized : PositionSizingResult
sized = record {
  volume = ratio (pos 1000) 9999;
  cash_risk = ratio (pos 1000000) 9999;
  risk_fraction = ratio (pos 1000000) 99999999;
  allowed_cash_risk = ratio (pos 10000) 99;
  loss_at_one_lot = of_ℕ 1000;
}

calculate-IsSized_example : IsSized mock sizing_request [] sized
unfolding calculate size_by_loss check_volume side ◌⊗◌ ◌⊕◌ ◌⊖◌ ◌⊘◌ floor of_ℤ abs min
calculate-IsSized_example = calculate-IsSized mock sizing_request [] sized refl

validate_iff_example :
    ((validate limits request sizing quiet_market).accepted ≡ true)
    ↔ IsTradable limits request sizing quiet_market
validate_iff_example = validate_iff limits request sizing quiet_market

abbrev halted : CircuitState
halted = record {
  account_id = "7";
  day = 999;
  week_start = 994;
  daily_locked = true;
  weekly_locked = true;
  account_locked = true;
  kill_switch = false;
  manual_reenable_required = true;
  reason = "";
  version = 1;
  updated_at = now;
}

abbrev store : CircuitStore
store = ("7", halted) ∷ []

store-Keyed : Keyed store
unfolding lookup
store-Keyed j c e = ground (arith, eq_iff "7" j)

-- Everything but an authorized reset of account 7.
abbrev operations : List Operation
operations =
    fetch "7" now
    ∷ kill "8" now
    ∷ assess account usage now
    ∷ reset "7" now false true
    ∷ reset "8" now true true
    ∷ []

other_account : ◌≢◌ {A = String} "8" "7"
other_account e = let same : str_eq "8" "7" ≡ true = (eq_iff "8" "7").1 e in ground arith

operations-KeepsHalt : All (KeepsHalt "7") operations
operations-KeepsHalt = (tt, (tt, (tt, (inl refl, (inr other_account, tt)))))

run-IsHalted_example : IsHalted (lookup "7" (run schedule limits operations store))
unfolding lookup
run-IsHalted_example =
    run-IsHalted schedule limits operations store "7" store-Keyed operations-KeepsHalt (inl refl)

outcome_lem_example :
    is_ok (outcome schedule limits (reset "7" now false true) store)
    ≡ not (is_refused (reset "7" now false true))
outcome_lem_example = outcome_lem schedule limits (reset "7" now false true) store store-Keyed

-- The instant is on day 1000, in the week of day 994.
get_periods_example :
    (r : CircuitState) × ((CircuitBreaker.get schedule "7" now store).0 ≡ ok r)
    × ((r.day ≡ 1000) × (r.week_start ≡ 994))
    × (r.daily_locked ≡ (halted.daily_locked && halted.day == 1000))
    × (r.weekly_locked ≡ (halted.weekly_locked && halted.week_start == 994))
    × (r.account_locked ≡ halted.account_locked)
    × (r.kill_switch ≡ halted.kill_switch)
    × (r.manual_reenable_required ≡ halted.manual_reenable_required)
unfolding lookup
get_periods_example =
    get_periods schedule "7" now store halted 1000 994
      (record { begun = omega arith; not_over = omega arith })
      (record { on_weekday = refl; begun = omega arith; not_over = omega arith }) store-Keyed refl

abbrev losing : RiskUsage
losing = record usage { daily_realized_loss = of_ℕ 1000; peak_equity = some (of_ℕ 20000) }

evaluate_blocks_example :
    (c : CircuitState) × ((evaluate schedule limits account losing now store).0 ≡ ok c)
    × (blocks_new_trades c ≡ true)
    × (IsDrawnDown limits.maximum_account_drawdown account.equity losing.peak_equity
        → c.manual_reenable_required ≡ true)
    × (lookup "7" (evaluate schedule limits account losing now store).1 ≡ some c)
unfolding side ◌⊗◌ ◌⊕◌
evaluate_blocks_example =
    evaluate_blocks schedule limits account losing now store store-Keyed (inr (inl (omega arith)))

drawdown_lasts_example :
    (c : CircuitState) × (lookup "7"
        (run schedule limits operations (apply schedule limits (assess account losing now) store))
      ≡ some c)
    × (blocks_new_trades c ≡ true)
unfolding side ◌⊖◌ ◌⊘◌ max
drawdown_lasts_example =
    drawdown_lasts schedule limits account losing now operations store store-Keyed
      (inr (omega arith)) operations-KeepsHalt
