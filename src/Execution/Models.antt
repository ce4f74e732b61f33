-- ===== src/Execution/Models.antt =====
-- app/execution/models.py: the command and the outcome of an execution.
use sarkfxbot.Base.{String, Bool, Option, List}
use sarkfxbot.Base.Decimal.{Decimal}
use sarkfxbot.Domain.Enums.{OrderType, TradingEnvironment, TradingMode}
use sarkfxbot.Domain.Models.{TradeSignal}
use sarkfxbot.Domain.Orders.{ExecutionReport, OrderRequest}
use sarkfxbot.Domain.StateMachine.{StateTransition}
use sarkfxbot.Risk.DemoValidation.{DemoPerformance}
use sarkfxbot.Risk.Models.{RiskDecision, RiskUsage}

pub data ExecutionStatus : Type 0 where
  signal_only blocked check_rejected unknown filled pending rejected protection_failed :
      ExecutionStatus

pub record ExecutionCommand : Type 0 where
  pub trade_signal : TradeSignal
  pub mode : TradingMode
  pub environment : TradingEnvironment
  pub order_type : OrderType
  pub requested_price : Option Decimal
  pub maximum_slippage : Decimal
  pub approved : Bool
  pub live_trading_enabled : Bool
  pub configured_live_confirmation : Option String
  pub required_live_confirmation : Option String
  pub demo_performance : Option DemoPerformance
  pub session_allowed : Bool
  pub risk_usage : RiskUsage

pub record ExecutionOutcome : Type 0 where
  pub status : ExecutionStatus
  pub reasons : List String
  pub request : Option OrderRequest
  pub report : Option ExecutionReport
  pub risk : Option RiskDecision
  pub transitions : List StateTransition
  pub requires_reconciliation : Bool
