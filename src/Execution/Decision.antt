-- ===== src/Execution/Decision.antt =====
-- `TradeExecutor._execute_serialized` of app/execution/executor.py from the sized request on: the
-- record of its key, the broker's positions and orders, the circuit breaker, the risk gates and the
-- claim. Each stage is a function that ends in a call of the next one, as the method's early
-- returns do.
use sarkfxbot.Base.{
  String, str_eq, Bool, true, false, ◌&&◌, ◌||◌, not, Option, none, some, List, [], ◌∷◌, map,
  filter, if◌then◌else◌,
}
use sarkfxbot.Base.Decimal.{Decimal}
use sarkfxbot.Base.Exec.{Error, broker, runtime_error, kind_name, Exec, pure, raise, attempt, ◌>>=◌}
use sarkfxbot.Base.Text.{upper, take, drop}
use sarkfxbot.Domain.Enums.{Direction}
use sarkfxbot.Domain.Models.{Timestamp, AccountSnapshot, SymbolSpecification, Tick, TradeSignal}
use sarkfxbot.Domain.Orders.{OrderRequest, BrokerPosition, BrokerOrder}
use sarkfxbot.Brokers.Port.{BrokerHealth, Call, Trace, ask}
use sarkfxbot.Risk.Models.{RiskDecision, PositionSizingResult, PreTradeSnapshot}
use sarkfxbot.Risk.CircuitBreaker.{Schedule, evaluate, blocks_new_trades}
use sarkfxbot.Risk.Gates.{validate}
use sarkfxbot.Execution.Idempotency.{ExecutionRecord, claim}
use sarkfxbot.Execution.Models.{ExecutionStatus, ExecutionCommand, ExecutionOutcome}
use sarkfxbot.Execution.Records.{outcome_from_record}
use sarkfxbot.Execution.Submission.{submit}
use sarkfxbot.Execution.World.{World, Executor, on_broker, on_records, on_circuits}

abbrev pub stopped :
    ExecutionStatus → List String → Option OrderRequest → Option RiskDecision → ExecutionOutcome
stopped status reasons request risk = record {
  status = status;
  reasons = reasons;
  request = request;
  report = none;
  risk = risk;
  transitions = [];
  requires_reconciliation = false;
}

abbrev pub blocked : List String → Exec World ExecutionOutcome
blocked reasons = pure (stopped ExecutionStatus.blocked reasons none none)

-- The signal's direction and stop, and the time, after the screening.
pub record Entry : Type 0 where
  pub direction : Direction
  pub stop_loss : Decimal
  pub now : Timestamp

-- What the stages between the sizing and the claim share.
pub record Prepared : Type 0 where
  pub now : Timestamp
  pub health : BrokerHealth
  pub account : AccountSnapshot
  pub symbol : SymbolSpecification
  pub tick : Tick
  pub price : Decimal
  pub sizing : PositionSizingResult
  pub request : OrderRequest

-- The reads before the gates.
pub record MarketView : Type 0 where
  pub positions : List BrokerPosition
  pub orders : List BrokerOrder
  pub available_symbols : List SymbolSpecification
  pub market_open : Bool
  pub required_margin : Decimal

-- circuit_locked and kill_switch
pub record CircuitView : Type 0 where
  pub circuit_locked : Bool
  pub kill_switch : Bool

-- f"{account.account_id}:{signal.signal_id}"
abbrev pub key_of : AccountSnapshot → TradeSignal → String
key_of a s = Prim.Native.String.◌++◌ a.account_id (Prim.Native.String.◌++◌ ":" s.signal_id)

-- The symbols of the same metal.
unfoldable pub is_equivalent : String → SymbolSpecification → Bool
is_equivalent canonical s =
    str_eq (upper s.canonical_symbol) canonical
    || (str_eq (upper s.base_currency) (take 3 canonical)
        && str_eq (upper s.quote_currency) (drop 3 canonical))

abbrev pub equivalent_symbols : TradeSignal → List SymbolSpecification → List String
equivalent_symbols s available =
    map (λ i. i.name) (filter (is_equivalent (upper s.canonical_symbol)) available)

-- except RuntimeError
abbrev pub circuit_failed : Error → Exec World (Option CircuitView)
circuit_failed (runtime_error _) = pure none
circuit_failed other = raise other

-- except BrokerError, with the request in the outcome
abbrev pub market_failed : OrderRequest → Error → Exec World ExecutionOutcome
market_failed q (broker kind _) =
    pure (stopped ExecutionStatus.blocked (kind_name kind ∷ []) (some q) none)
market_failed q other = raise other

module _ (x : Executor) (c : ExecutionCommand) where
  unfoldable pub market_reads : OrderRequest → SymbolSpecification → Decimal → Exec Trace MarketView
  market_reads q spec price = do
    positions ← ask (Call.get_positions none) (x.adapter.get_positions none)
    orders ← ask (Call.get_orders none) (x.adapter.get_orders none)
    symbols ← ask Call.get_symbols x.adapter.get_symbols
    market_open ← ask (Call.is_market_open spec.name) (x.adapter.is_market_open spec.name)
    margin ← ask (Call.calculate_margin q price) (x.adapter.calculate_margin q price)
    pure (record {
      positions = positions;
      orders = orders;
      available_symbols = symbols;
      market_open = market_open;
      required_margin = margin;
    })

  -- The circuit breaker's answer; `none` where its state could not be saved.
  unfoldable pub read_circuit :
      Option Schedule → AccountSnapshot → Timestamp → Exec World (Option CircuitView)
  read_circuit none account now =
      pure (some (record { circuit_locked = false; kill_switch = false }))
  read_circuit (some k) account now =
      attempt (on_circuits (evaluate k x.limits account c.risk_usage now))
        (λ s.
          pure
            (some (record { circuit_locked = blocks_new_trades s; kill_switch = s.kill_switch })))
        circuit_failed

  abbrev pub snapshot : Prepared → MarketView → CircuitView → PreTradeSnapshot
  snapshot p m v = record {
    now = p.now;
    account = p.account;
    symbol = p.symbol;
    tick = p.tick;
    health = p.health;
    market_open = m.market_open;
    session_allowed = c.session_allowed;
    equivalent_symbols = equivalent_symbols c.trade_signal m.available_symbols;
    positions = m.positions;
    orders = m.orders;
    usage = c.risk_usage;
    required_margin = m.required_margin;
    kill_switch = v.kill_switch;
    circuit_locked = v.circuit_locked;
  }

  abbrev pub claimed :
      Prepared → RiskDecision → ExecutionRecord × Bool → Exec World ExecutionOutcome
  claimed p decision (existing, true) = submit x p.request decision p.now
  claimed p decision (existing, false) = pure (outcome_from_record existing (some decision))

  -- From the risk gates on.
  unfoldable pub decide : Prepared → MarketView → CircuitView → Exec World ExecutionOutcome
  decide p m v =
      let decision = validate x.limits p.request p.sizing (snapshot p m v) in
      if not decision.accepted
      then pure (stopped ExecutionStatus.blocked decision.reasons (some p.request) (some decision))
      else (do answer ← on_records (claim p.request p.now); claimed p decision answer)

  abbrev pub with_circuit : Prepared → MarketView → Option CircuitView → Exec World ExecutionOutcome
  with_circuit p m none =
      pure
        (stopped ExecutionStatus.blocked ("CIRCUIT_STATE_UNAVAILABLE" ∷ []) (some p.request) none)
  with_circuit p m (some v) = decide p m v

  -- From the reads of positions and orders on.
  unfoldable pub read_market : Prepared → Exec World ExecutionOutcome
  read_market p =
      attempt (on_broker (market_reads p.request p.symbol p.price))
        (λ m. do view ← read_circuit x.circuit p.account p.now; with_circuit p m view)
        (market_failed p.request)

  abbrev pub on_existing : Prepared → Option ExecutionRecord → Exec World ExecutionOutcome
  on_existing p (some existing) = pure (outcome_from_record existing none)
  on_existing p none = read_market p
