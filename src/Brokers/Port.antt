-- ===== src/Brokers/Port.antt =====
-- app/brokers/base.py: the broker adapter as its client sees it. An adapter answers each call by
-- what was called before it, so every sequence of answers and errors that a real broker can give
-- is one value of `Broker`. The trace of calls, the latest first, is the state of an action.
use Prim.Native.String
use sarkfxbot.Base.{String, Bool, Option, List, ◌∷◌}
use sarkfxbot.Base.Int.{ℤ}
use sarkfxbot.Base.Decimal.{Decimal}
use sarkfxbot.Base.Dict.{Dict}
use sarkfxbot.Base.Exec.{Result, Exec}
use sarkfxbot.Base.Text.{take}
use sarkfxbot.Domain.Enums.{Direction, Timeframe}
use sarkfxbot.Domain.Models.{Timestamp, AccountSnapshot, Candle, SymbolSpecification, Tick}
use sarkfxbot.Domain.Orders.{
  BrokerOrder, BrokerPosition, ExecutionReport, OrderCheckResult, OrderRequest,
}

pub record BrokerHealth : Type 0 where
  pub healthy : Bool
  pub connected : Bool
  pub trading_allowed : Bool
  pub message : String

-- One call of an adapter's method.
pub data Call : Type 0 where
  connect disconnect health_check get_account get_symbols : Call
  resolve_symbol get_tick is_market_open : String → Call
  get_candles : String → Timeframe → ℤ → Bool → Call
  get_positions get_orders : Option String → Call
  calculate_margin : OrderRequest → Decimal → Call
  calculate_profit : String → Direction → Decimal → Decimal → Decimal → Call
  validate_order place_market_order place_pending_order : OrderRequest → Call
  modify_position : String → Decimal → Option Decimal → Call
  close_position : String → Option Decimal → Call
  cancel_order : String → Call
  history_deals history_orders : Timestamp → Timestamp → Call

abbrev pub Trace : Type 0
Trace = List Call

-- `BrokerAdapter`: the answer to each call, after the calls of the trace. A history is a list of
-- dicts, whose values stand as texts. `sha256_hex` is the hexadecimal digest of hashlib, and
-- `clock` the time source that the services are given.
pub record Broker : Type 0 where
  pub connect : Trace → Result (Unit {0})
  pub disconnect : Trace → Result (Unit {0})
  pub health_check : Trace → Result BrokerHealth
  pub get_account : Trace → Result AccountSnapshot
  pub get_symbols : Trace → Result (List SymbolSpecification)
  pub resolve_symbol : String → Trace → Result SymbolSpecification
  pub get_tick : String → Trace → Result Tick
  pub get_candles : String → Timeframe → ℤ → Bool → Trace → Result (List Candle)
  pub get_positions : Option String → Trace → Result (List BrokerPosition)
  pub get_orders : Option String → Trace → Result (List BrokerOrder)
  pub is_market_open : String → Trace → Result Bool
  pub calculate_margin : OrderRequest → Decimal → Trace → Result Decimal
  pub calculate_profit : String → Direction → Decimal → Decimal → Decimal → Trace → Result Decimal
  pub validate_order : OrderRequest → Trace → Result OrderCheckResult
  pub place_market_order : OrderRequest → Trace → Result ExecutionReport
  pub place_pending_order : OrderRequest → Trace → Result ExecutionReport
  pub modify_position : String → Decimal → Option Decimal → Trace → Result Bool
  pub close_position : String → Option Decimal → Trace → Result ExecutionReport
  pub cancel_order : String → Trace → Result Bool
  pub history_deals : Timestamp → Timestamp → Trace → Result (List (Dict String))
  pub history_orders : Timestamp → Timestamp → Trace → Result (List (Dict String))
  pub sha256_hex : String → String
  pub clock : Trace → Timestamp

-- Make a call: it joins the trace, also when it raises.
abbrev pub ask : {A : Type 0} → Call → (Trace → Result A) → Exec Trace A
ask call answer calls = (answer calls, call ∷ calls)

-- broker_correlation_key
unfoldable pub broker_correlation_key : Broker → String → String
broker_correlation_key b key = String.◌++◌ "gf:" (take 24 (b.sha256_hex key))
