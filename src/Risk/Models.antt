-- ===== src/Risk/Models.antt =====
-- app/risk/models.py: the limits, the usage and the snapshot that the risk rules read. Durations
-- are whole microseconds.
use sarkfxbot.Base.{
  ℕ, String, Bool, false, ◌||◌, Option, none, some, List, [], ◌∷◌, any, ◌==◌, if◌then◌else◌,
}
use sarkfxbot.Base.Decimal.{Decimal, dec_ltb, dec_leb, of_ℕ, zero_dec}
use sarkfxbot.Base.Exec.{value_error, Result, ok, err}
use sarkfxbot.Domain.Models.{Timestamp, AccountSnapshot, SymbolSpecification, Tick}
use sarkfxbot.Domain.Orders.{BrokerOrder, BrokerPosition}
use sarkfxbot.Brokers.Port.{BrokerHealth}

pub record RiskLimits : Type 0 where
  pub risk_per_trade : Decimal
  pub maximum_daily_loss : Decimal
  pub maximum_weekly_loss : Decimal
  pub maximum_account_drawdown : Decimal
  pub maximum_open_positions : ℕ
  pub maximum_gold_positions : ℕ
  pub minimum_risk_reward : Decimal
  pub maximum_spread : Decimal
  pub maximum_tick_age : ℕ

-- RiskLimits.__post_init__
pub make_limits : RiskLimits → Result RiskLimits
make_limits l =
    if any (λ v. dec_leb v zero_dec || dec_ltb (of_ℕ 1) v)
      (l.risk_per_trade ∷ l.maximum_daily_loss ∷ l.maximum_weekly_loss ∷ l.maximum_account_drawdown
        ∷ [])
    then err (value_error "risk and drawdown fractions must be in (0, 1]")
    else if l.maximum_open_positions == 0 || l.maximum_gold_positions == 0
    then err (value_error "position limits must be positive")
    else if dec_leb l.minimum_risk_reward zero_dec || dec_ltb l.maximum_spread zero_dec
    then err (value_error "risk/reward and spread limits are invalid")
    else if l.maximum_tick_age == 0
    then err (value_error "maximum tick age must be positive")
    else ok l

pub record RiskUsage : Type 0 where
  pub daily_realized_loss : Decimal
  pub weekly_realized_loss : Decimal
  pub open_risk : Decimal
  pub peak_equity : Option Decimal

abbrev not_positive : Option Decimal → Bool
not_positive none = false
not_positive (some v) = dec_leb v zero_dec

-- RiskUsage.__post_init__
pub make_usage : RiskUsage → Result RiskUsage
make_usage u =
    if any (λ v. dec_ltb v zero_dec)
      (u.daily_realized_loss ∷ u.weekly_realized_loss ∷ u.open_risk ∷ [])
    then err (value_error "risk usage amounts cannot be negative")
    else if not_positive u.peak_equity
    then err (value_error "peak equity must be positive")
    else ok u

pub record PositionSizingResult : Type 0 where
  pub volume : Decimal
  pub cash_risk : Decimal
  pub risk_fraction : Decimal
  pub allowed_cash_risk : Decimal
  pub loss_at_one_lot : Decimal

pub record PreTradeSnapshot : Type 0 where
  pub now : Timestamp
  pub account : AccountSnapshot
  pub symbol : SymbolSpecification
  pub tick : Tick
  pub health : BrokerHealth
  pub market_open : Bool
  pub session_allowed : Bool
  pub equivalent_symbols : List String
  pub positions : List BrokerPosition
  pub orders : List BrokerOrder
  pub usage : RiskUsage
  pub required_margin : Decimal
  pub kill_switch : Bool
  pub circuit_locked : Bool

pub record RiskDecision : Type 0 where
  pub accepted : Bool
  pub reasons : List String
  pub risk_amount : Decimal
  pub risk_fraction : Decimal
  pub risk_reward : Option Decimal
  pub required_margin : Decimal
