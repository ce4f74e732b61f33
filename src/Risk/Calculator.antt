-- ===== src/Risk/Calculator.antt =====
-- app/risk/calculator.py: the volume of an order from the account, the stop and the loss that the
-- broker computes for one lot.
pub mod Sized
use sarkfxbot.Base.{String, Bool, ◌&&◌, ◌||◌, not, if◌then◌else◌}
use sarkfxbot.Base.Decimal.{
  Decimal, dec_ltb, dec_leb, dec_eqb, ◌⊕◌, ◌⊖◌, ◌⊗◌, ◌⊘◌, floor, of_ℤ, of_ℕ, abs, min, zero_dec,
}
use sarkfxbot.Base.Exec.{risk_rejected, Exec, pure, raise, ◌>>=◌}
use sarkfxbot.Domain.Enums.{Direction, is_long}
use sarkfxbot.Domain.Models.{AccountSnapshot, SymbolSpecification}
use sarkfxbot.Brokers.Port.{Broker, Call, Trace, ask}
use sarkfxbot.Risk.Models.{PositionSizingResult}

-- The arguments of `PositionSizer.calculate`.
pub record SizingRequest : Type 0 where
  pub account : AccountSnapshot
  pub symbol : SymbolSpecification
  pub direction : Direction
  pub entry_price : Decimal
  pub stop_loss : Decimal
  pub risk_fraction : Decimal

-- The loss at the stop for a volume: broker.calculate_profit
abbrev pub profit_call : SizingRequest → Decimal → Call
profit_call a volume =
    Call.calculate_profit a.symbol.name a.direction volume a.entry_price a.stop_loss

abbrev pub loss_at_stop : Broker → SizingRequest → Decimal → Exec Trace Decimal
loss_at_stop b a volume = do
  profit ←
      ask (profit_call a volume)
        (b.calculate_profit a.symbol.name a.direction volume a.entry_price a.stop_loss)
  pure (abs profit)

-- The volume at the largest whole number of steps above the minimum.
abbrev pub stepped_volume : SymbolSpecification → Decimal → Decimal
stepped_volume s capped =
    s.volume_min ⊕ of_ℤ (floor ((capped ⊖ s.volume_min) ⊘ s.volume_step)) ⊗ s.volume_step

-- From the rounded volume on.
unfoldable pub check_volume :
    Broker → SizingRequest → Decimal → Decimal → Decimal → Exec Trace PositionSizingResult
check_volume b a allowed loss_at_one_lot volume =
    if dec_ltb volume a.symbol.volume_min || dec_ltb a.symbol.volume_max volume
    then raise (risk_rejected "ROUNDED_VOLUME_OUTSIDE_BROKER_LIMITS")
    else do
      actual ← loss_at_stop b a volume
      if dec_leb actual zero_dec || dec_ltb allowed actual
          then raise (risk_rejected "ROUNDED_VOLUME_EXCEEDS_RISK_LIMIT")
          else pure (record {
            volume = volume;
            cash_risk = actual;
            risk_fraction = actual ⊘ a.account.equity;
            allowed_cash_risk = allowed;
            loss_at_one_lot = loss_at_one_lot;
          })

-- From the loss at one lot on.
unfoldable pub size_by_loss :
    Broker → SizingRequest → Decimal → Decimal → Exec Trace PositionSizingResult
size_by_loss b a allowed loss_at_one_lot =
    if dec_leb loss_at_one_lot zero_dec
    then raise (risk_rejected "BROKER_LOSS_CALCULATION_INVALID")
    else let capped = min (allowed ⊘ loss_at_one_lot) a.symbol.volume_max in
      if dec_ltb capped a.symbol.volume_min
      then raise (risk_rejected "BROKER_MINIMUM_VOLUME_EXCEEDS_RISK_LIMIT")
      else check_volume b a allowed loss_at_one_lot (stepped_volume a.symbol capped)

-- PositionSizer.calculate
unfoldable pub calculate : Broker → SizingRequest → Exec Trace PositionSizingResult
calculate b a =
    if dec_leb a.account.equity zero_dec || dec_leb a.account.free_margin zero_dec
    then raise (risk_rejected "ACCOUNT_EQUITY_OR_FREE_MARGIN_INVALID")
    else if dec_leb a.risk_fraction zero_dec || dec_ltb (of_ℕ 1) a.risk_fraction
    then raise (risk_rejected "RISK_FRACTION_INVALID")
    else if dec_leb a.entry_price zero_dec
        || dec_leb a.stop_loss zero_dec
        || dec_eqb a.entry_price a.stop_loss
    then raise (risk_rejected "STOP_DISTANCE_INVALID")
    else if is_long a.direction && dec_leb a.entry_price a.stop_loss
    then raise (risk_rejected "LONG_STOP_NOT_BELOW_ENTRY")
    else if not (is_long a.direction) && dec_leb a.stop_loss a.entry_price
    then raise (risk_rejected "SHORT_STOP_NOT_ABOVE_ENTRY")
    else do
      loss_at_one_lot ← loss_at_stop b a (of_ℕ 1)
      size_by_loss b a (a.account.equity ⊗ a.risk_fraction) loss_at_one_lot
