-- ===== src/Execution/Recovery.antt =====
-- `reconcile_unknown` and `cancel_pending_entries` of app/execution/executor.py: what an unresolved
-- submission became, read from the broker and never sent again; and the cancelling of pending orders.
pub mod Cancels
use sarkfxbot.Base.{
  ℕ, String, str_eq, Bool, true, false, ◌||◌, not, Option, none, some, List, [], ◌∷◌, find,
  if◌then◌else◌,
}
use sarkfxbot.Base.Decimal.{Decimal}
use sarkfxbot.Base.Exec.{Error, broker, Exec, pure, raise, attempt, ◌>>=◌}
use sarkfxbot.Domain.Orders.{OrderRequest, ExecutionReport, BrokerPosition, BrokerOrder}
use sarkfxbot.Brokers.Port.{Broker, Call, Trace, ask, broker_correlation_key}
use sarkfxbot.Execution.Idempotency
use sarkfxbot.Execution.Idempotency.{
  IdempotencyStatus, submitted, unknown, ExecutionRecord, get, update,
}
use sarkfxbot.Execution.Models.{ExecutionStatus, ExecutionOutcome}
use sarkfxbot.Execution.Protection.{ProtectionResult, same_text, verify_or_repair_protection}
use sarkfxbot.Execution.Records.{outcome_from_record}
use sarkfxbot.Execution.World.{World, Executor, on_broker, on_records, read_clock}

-- record.status in {SUBMITTED, UNKNOWN}
abbrev pub is_open : IdempotencyStatus → Bool
is_open submitted = true
is_open unknown = true
is_open _ = false

abbrev pub deferred : String → OrderRequest → ExecutionOutcome
deferred reason q = record {
  status = ExecutionStatus.unknown;
  reasons = reason ∷ [];
  request = some q;
  report = none;
  risk = none;
  transitions = [];
  requires_reconciliation = true;
}

abbrev pub not_found : ExecutionOutcome
not_found = record {
  status = ExecutionStatus.blocked;
  reasons = "EXECUTION_RECORD_NOT_FOUND" ∷ [];
  request = none;
  report = none;
  risk = none;
  transitions = [];
  requires_reconciliation = false;
}

module _ (x : Executor) (key : String) where
  unfoldable pub matches_position : OrderRequest → BrokerPosition → Bool
  matches_position q p =
      same_text p.signal_id q.signal_id
      || str_eq p.strategy_id (broker_correlation_key x.adapter key)

  unfoldable pub matches_order : BrokerOrder → Bool
  matches_order o =
      str_eq o.idempotency_key key
      || str_eq o.idempotency_key (broker_correlation_key x.adapter key)

  -- What the broker shows of the request.
  abbrev pub View : Type 0
  View = List BrokerPosition × List BrokerOrder

  unfoldable pub look_up : OrderRequest → Exec Trace View
  look_up q = do
    positions ← ask (Call.get_positions (some q.symbol)) (x.adapter.get_positions (some q.symbol))
    orders ← ask (Call.get_orders (some q.symbol)) (x.adapter.get_orders (some q.symbol))
    pure (positions, orders)

  abbrev pub reconciled_report :
      OrderRequest → String → Option Decimal → String → ℕ → ExecutionReport
  reconciled_report q ticket executed message now = record {
    success = true;
    idempotency_key = key;
    broker_ticket = some ticket;
    requested_price = q.requested_price;
    executed_price = executed;
    volume = q.volume;
    broker_code = some "RECONCILED";
    message = message;
    submitted_at = now;
  }

  abbrev pub position_report : OrderRequest → BrokerPosition → ℕ → ExecutionReport
  position_report q p now =
      reconciled_report q p.ticket (some p.open_price) "matched broker position" now

  abbrev pub order_report : OrderRequest → BrokerOrder → ℕ → ExecutionReport
  order_report q o now = reconciled_report q o.ticket none "matched broker order" now

  -- The update with its time, and the outcome of the record that it leaves.
  unfoldable pub resolve :
      IdempotencyStatus → ExecutionReport → String → Exec World ExecutionOutcome
  resolve status report reason = do
    now ← read_clock x
    resolved ←
        on_records (
          update key (record { status = status; now = now; report = some report; reason = reason }))
    pure (outcome_from_record resolved none)

  unfoldable pub confirm : ExecutionReport → ProtectionResult → Exec World ExecutionOutcome
  confirm report protection =
      if not protection.is_protected
      then resolve Idempotency.protection_failed report protection.reason
      else resolve Idempotency.succeeded report "reconciled with broker state"

  -- By the position and the order that match.
  unfoldable pub settle_match :
      OrderRequest → Option BrokerPosition → Option BrokerOrder → Exec World ExecutionOutcome
  settle_match q none none = pure (deferred "NO_BROKER_MATCH_YET_RECONCILIATION_REQUIRED" q)
  settle_match q (some p) order = do
    now ← read_clock x
    protection ← on_broker (
        verify_or_repair_protection x.adapter q x.protection_visibility_attempts
          (position_report q p now))
    confirm (position_report q p now) protection
  settle_match q none (some o) = do
    now ← read_clock x
    resolve Idempotency.succeeded (order_report q o now) "reconciled with broker state"

  -- except BrokerError
  abbrev pub look_up_failed : OrderRequest → Error → Exec World ExecutionOutcome
  look_up_failed q (broker _ _) = pure (deferred "BROKER_UNAVAILABLE_RECONCILIATION_DEFERRED" q)
  look_up_failed q other = raise other

  unfoldable pub reconcile_record : ExecutionRecord → Exec World ExecutionOutcome
  reconcile_record r =
      if not (is_open r.status)
      then pure (outcome_from_record r none)
      else attempt (on_broker (look_up r.request))
          (λ v.
            settle_match r.request (find (matches_position r.request) v.0) (find matches_order v.1))
          (look_up_failed r.request)

  abbrev pub reconcile_found : Option ExecutionRecord → Exec World ExecutionOutcome
  reconcile_found none = pure not_found
  reconcile_found (some r) = reconcile_record r

  -- TradeExecutor.reconcile_unknown
  unfoldable pub reconcile_unknown : Exec World ExecutionOutcome
  reconcile_unknown = do found ← on_records (get key); reconcile_found found

module _ (b : Broker) where
  unfoldable pub cancel_all : List BrokerOrder → Exec Trace (List String)
  cancel_all [] = pure []
  cancel_all (o ∷ os) = do
    done ← ask (Call.cancel_order o.ticket) (b.cancel_order o.ticket)
    rest ← cancel_all os
    pure (if done then o.ticket ∷ rest else rest)

  -- TradeExecutor.cancel_pending_entries
  unfoldable pub cancel_pending_entries : Exec Trace (List String)
  cancel_pending_entries = do
    orders ← ask (Call.get_orders none) (b.get_orders none)
    cancel_all orders
