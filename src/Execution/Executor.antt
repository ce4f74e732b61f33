-- ===== src/Execution/Executor.antt =====
-- `TradeExecutor.execute` of app/execution/executor.py up to the sized request: the screening of a
-- signal, the health of the broker, the permissions and the size of the order.
pub mod Reads
pub mod Laws
pub mod Stages
pub mod Leaves
pub mod Acted
pub mod Outcomes
use sarkfxbot.Base.{◌&&◌, ◌||◌, not, Option, none, some, [], ◌∷◌, is_empty, if◌then◌else◌}
use sarkfxbot.Base.Decimal.{Decimal}
use sarkfxbot.Base.Exec.{
  Error, broker, risk_rejected, duplicate_order, value_error, kind_name, Exec, pure, raise, lift,
  attempt, ◌>>=◌,
}
use sarkfxbot.Domain.Enums.{Direction, is_long, is_signal_mode, is_auto, is_production}
use sarkfxbot.Domain.Models.{
  Timestamp, AccountSnapshot, SymbolSpecification, Tick, direction_of, is_entry, is_expired,
}
use sarkfxbot.Domain.Orders.{OrderRequest, make_request}
use sarkfxbot.Brokers.Port.{BrokerHealth, Call, Trace, ask}
use sarkfxbot.Risk.Models.{PositionSizingResult}
use sarkfxbot.Risk.Mode.{ExecutionPermission, evaluate_execution_permission}
use sarkfxbot.Risk.DemoValidation.{DemoValidationDecision, evaluate_demo_performance}
use sarkfxbot.Risk.Calculator.{SizingRequest, calculate}
use sarkfxbot.Risk.Gates.{price_or}
use sarkfxbot.Execution.Idempotency.{get}
use sarkfxbot.Execution.Models.{ExecutionStatus, ExecutionCommand, ExecutionOutcome}
use sarkfxbot.Execution.World.{World, Executor, on_broker, on_records, read_clock}
use sarkfxbot.Execution.Decision.{stopped, blocked, Entry, key_of, on_existing}

module _ (x : Executor) (c : ExecutionCommand) where
  -- `OrderRequest(...)` of the sized signal.
  abbrev pub request_of :
      Entry → AccountSnapshot → SymbolSpecification → Decimal → PositionSizingResult → OrderRequest
  request_of n account spec price sizing = record {
    signal_id = c.trade_signal.signal_id;
    strategy_id = c.trade_signal.strategy_id;
    symbol = spec.name;
    direction = n.direction;
    order_type = c.order_type;
    volume = sizing.volume;
    stop_loss = n.stop_loss;
    take_profits = c.trade_signal.take_profits;
    idempotency_key = key_of account c.trade_signal;
    requested_price = some price;
    entry_min = c.trade_signal.entry_min;
    entry_max = c.trade_signal.entry_max;
    expires_at = c.trade_signal.expires_at;
    maximum_slippage = c.maximum_slippage;
    comment = "goldflow";
  }

  -- What the sizing read: symbol, tick, price and volume.
  abbrev pub Sizing : Type 0
  Sizing = SymbolSpecification × (Tick × (Decimal × PositionSizingResult))

  abbrev pub sizing_request :
      Entry → AccountSnapshot → SymbolSpecification → Decimal → SizingRequest
  sizing_request n account spec price = record {
    account = account;
    symbol = spec;
    direction = n.direction;
    entry_price = price;
    stop_loss = n.stop_loss;
    risk_fraction = x.limits.risk_per_trade;
  }

  -- command.requested_price or (tick.ask if signal.direction.sign > 0 else tick.bid)
  abbrev pub entry_price_of : Entry → Tick → Decimal
  entry_price_of n tick =
      price_or c.requested_price (if is_long n.direction then tick.ask else tick.bid)

  abbrev pub size_at :
      Entry → AccountSnapshot → SymbolSpecification → Tick → Decimal → Exec Trace Sizing
  size_at n account spec tick price = do
    sizing ← calculate x.adapter (sizing_request n account spec price)
    pure (spec, (tick, (price, sizing)))

  unfoldable pub sizing_reads : Entry → AccountSnapshot → Exec Trace Sizing
  sizing_reads n account = do
    spec ←
        ask (Call.resolve_symbol c.trade_signal.canonical_symbol)
          (x.adapter.resolve_symbol c.trade_signal.canonical_symbol)
    tick ← ask (Call.get_tick spec.name) (x.adapter.get_tick spec.name)
    size_at n account spec tick (entry_price_of n tick)

  -- From the idempotency key on.
  abbrev pub sized : Entry → BrokerHealth → AccountSnapshot → Sizing → Exec World ExecutionOutcome
  sized n health account (spec, (tick, (price, sizing))) = do
    q ← lift (make_request (request_of n account spec price sizing))
    existing ← on_records (get q.idempotency_key)
    on_existing x c
        (record {
          now = n.now;
          health = health;
          account = account;
          symbol = spec;
          tick = tick;
          price = price;
          sizing = sizing;
          request = q;
        })
        existing

  -- The errors that the sizing turns into a reason.
  abbrev pub not_sized : Error → Exec World ExecutionOutcome
  not_sized (broker kind message) = blocked (message ∷ [])
  not_sized (risk_rejected message) = blocked (message ∷ [])
  not_sized (duplicate_order message) = blocked (message ∷ [])
  not_sized (value_error message) = blocked (message ∷ [])
  not_sized other = raise other

  -- From the symbol on.
  unfoldable pub size : Entry → BrokerHealth → AccountSnapshot → Exec World ExecutionOutcome
  size n health account =
      attempt (on_broker (sizing_reads n account)) (sized n health account) not_sized

  abbrev pub demo_checked :
      Entry → BrokerHealth → AccountSnapshot → DemoValidationDecision → Exec World ExecutionOutcome
  demo_checked n health account demo =
      if not demo.allowed then blocked demo.reasons else size n health account

  -- The gate on live AUTO trading.
  unfoldable pub check_demo : Entry → BrokerHealth → AccountSnapshot → Exec World ExecutionOutcome
  check_demo n health account =
      if is_production c.environment && is_auto c.mode && x.require_demo_validation_for_live
      then lift
          (evaluate_demo_performance x.demo c.trade_signal.strategy_version c.demo_performance)
        >>= demo_checked n health account
      else size n health account

  abbrev pub permitted :
      Entry → BrokerHealth → AccountSnapshot → ExecutionPermission → Exec World ExecutionOutcome
  permitted n health account permission =
      if not permission.allowed then blocked permission.reasons else check_demo n health account

  -- From the account on.
  unfoldable pub authorize : Entry → BrokerHealth × AccountSnapshot → Exec World ExecutionOutcome
  authorize n (health, account) =
      lift (
        evaluate_execution_permission (record {
          mode = c.mode;
          environment = c.environment;
          account_type = account.account_type;
          approved = c.approved;
          live_trading_enabled = c.live_trading_enabled;
          configured_confirmation = c.configured_live_confirmation;
          required_confirmation = c.required_live_confirmation;
        }))
      >>= permitted n health account

  -- The health and the account; `none` where the broker is not healthy.
  unfoldable pub connect : Exec Trace (Option (BrokerHealth × AccountSnapshot))
  connect = do
    health ← ask Call.health_check x.adapter.health_check
    if not health.healthy || not health.connected
        then pure none
        else do account ← ask Call.get_account x.adapter.get_account; pure (some (health, account))

  abbrev pub connected :
      Entry → Option (BrokerHealth × AccountSnapshot) → Exec World ExecutionOutcome
  connected n none = blocked ("BROKER_UNHEALTHY" ∷ [])
  connected n (some answers) = authorize n answers

  -- except BrokerError
  abbrev pub not_connected : Error → Exec World ExecutionOutcome
  not_connected (broker kind _) = blocked (kind_name kind ∷ [])
  not_connected other = raise other

  unfoldable pub enter : Entry → Exec World ExecutionOutcome
  enter n = attempt (on_broker connect) (connected n) not_connected

  -- signal.direction is None or signal.stop_loss is None or not signal.take_profits
  abbrev pub screen : Timestamp → Option Direction → Option Decimal → Exec World ExecutionOutcome
  screen now (some d) (some stop) =
      if is_empty c.trade_signal.take_profits
      then blocked ("SIGNAL_PROTECTION_INCOMPLETE" ∷ [])
      else if is_expired c.trade_signal now
      then blocked ("SIGNAL_EXPIRED" ∷ [])
      else enter (record { direction = d; stop_loss = stop; now = now })
  screen now _ _ = blocked ("SIGNAL_PROTECTION_INCOMPLETE" ∷ [])

  -- TradeExecutor._execute_serialized
  unfoldable pub execute_serialized : Exec World ExecutionOutcome
  execute_serialized = do
    now ← read_clock x
    if not (is_entry c.trade_signal.action)
        then blocked ("SIGNAL_HAS_NO_ENTRY_DIRECTION" ∷ [])
        else screen now (direction_of c.trade_signal.action) c.trade_signal.stop_loss

  -- TradeExecutor.execute
  unfoldable pub execute : Exec World ExecutionOutcome
  execute =
      if is_signal_mode c.mode
      then pure (stopped ExecutionStatus.signal_only ("SIGNAL_MODE_NEVER_EXECUTES" ∷ []) none none)
      else execute_serialized
