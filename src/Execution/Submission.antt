-- ===== src/Execution/Submission.antt =====
-- `TradeExecutor` of app/execution/executor.py from the claim of the idempotency key on: the broker's
-- order check, the one submission, and what follows from each answer.
use sarkfxbot.Base.{
  String, Bool, true, false, Option, none, some, List, [], ◌∷◌, ◌++◌, if◌then◌else◌, not,
}
use sarkfxbot.Base.Decimal.{Decimal, dec_ltb}
use sarkfxbot.Base.Exec.{
  Error, broker, risk_rejected, duplicate_order, configuration, invalid_transition, timeout,
  value_error, type_error, runtime_error, permission_error, key_error, index_error, indeterminate,
  kind_name, Result, ok, err, Exec, pure, raise, attempt, ◌>>=◌, ◌>>◌,
}
use sarkfxbot.Base.Reasons.{join}
use sarkfxbot.Base.Text.{is_missing}
use sarkfxbot.Domain.Enums.{TradeState, is_market}
use sarkfxbot.Domain.Models.{Timestamp}
use sarkfxbot.Domain.Orders.{OrderRequest, OrderCheckResult, ExecutionReport, slippage}
use sarkfxbot.Domain.StateMachine.{TradeStateMachine, StateTransition, transition}
use sarkfxbot.Brokers.Port.{Broker, Call, Trace, ask}
use sarkfxbot.Risk.Models.{RiskDecision}
use sarkfxbot.Execution.Idempotency
use sarkfxbot.Execution.Idempotency.{Change, update, IdempotencyStatus}
use sarkfxbot.Execution.Models.{ExecutionStatus, ExecutionOutcome}
use sarkfxbot.Execution.Protection.{ProtectionResult, verify_or_repair_protection}
use sarkfxbot.Execution.World.{World, Executor, on_broker, on_records, read_clock}

-- str(exc)
abbrev pub message_of : Error → String
message_of (broker kind message) = message
message_of (risk_rejected message) = message
message_of (duplicate_order message) = message
message_of (configuration message) = message
message_of (invalid_transition message) = message
message_of (timeout message) = message
message_of (value_error message) = message
message_of (runtime_error message) = message
message_of (type_error message) = message
message_of (permission_error message) = message
message_of (key_error message) = message
message_of (index_error message) = message

-- `text or other`
abbrev pub text_or : String → String → String
text_or s other = if is_missing s then other else s

-- The local variables `machine` and `transitions`.
pub record Progress : Type 0 where
  pub machine : TradeStateMachine
  pub transitions : List StateTransition

abbrev pub started : Progress
started = record { machine = record { state = TradeState.signal_found }; transitions = [] }

abbrev pub advanced : Progress → Result StateTransition × TradeStateMachine → Exec World Progress
advanced p (ok t, m) = pure (record { machine = m; transitions = p.transitions ++ (t ∷ []) })
advanced p (err e, m) = raise e

-- transitions.append(machine.transition(target, reason))
unfoldable pub advance : Executor → Progress → TradeState → String → Exec World Progress
advance x p target reason = do
  now ← read_clock x
  advanced p (transition p.machine target reason now)

-- The handler of `_safe_order_check`.
abbrev pub check_failed : Error → Exec Trace OrderCheckResult
check_failed (broker kind _) = pure (record {
  accepted = false;
  reasons = Prim.Native.String.◌++◌ "BROKER_ORDER_CHECK_ERROR:" (kind_name kind) ∷ [];
  margin_required = none;
  broker_code = none;
})
check_failed other = raise other

-- TradeExecutor._safe_order_check
unfoldable pub safe_order_check : Broker → OrderRequest → Exec Trace OrderCheckResult
safe_order_check b q = attempt (ask (Call.validate_order q) (b.validate_order q)) pure check_failed

-- The one call that creates exposure.
unfoldable pub place : Broker → OrderRequest → Exec Trace ExecutionReport
place b q =
    if is_market q.order_type
    then ask (Call.place_market_order q) (b.place_market_order q)
    else ask (Call.place_pending_order q) (b.place_pending_order q)

-- report.slippage is not None and report.slippage > maximum
abbrev pub exceeds : Option Decimal → Decimal → Bool
exceeds none maximum = false
exceeds (some s) maximum = dec_ltb maximum s

abbrev pub slippage_reasons : OrderRequest → ExecutionReport → List String
slippage_reasons q report =
    if exceeds (slippage report) q.maximum_slippage
    then "EXECUTED_SLIPPAGE_EXCEEDED_TOLERANCE" ∷ []
    else []

module _ (x : Executor) (q : OrderRequest) (risk : RiskDecision) where
  abbrev pub outcome :
      ExecutionStatus → List String → Option ExecutionReport → Progress → Bool → ExecutionOutcome
  outcome status reasons report p unresolved = record {
    status = status;
    reasons = reasons;
    request = some q;
    report = report;
    risk = some risk;
    transitions = p.transitions;
    requires_reconciliation = unresolved;
  }

  -- await self._idempotency.update(idempotency_key, ...), whose result is not used
  unfoldable pub write : Change → Exec World Unit
  write c = on_records (update q.idempotency_key c) >> pure tt

  -- self._idempotency.update(idempotency_key, status, self._clock(), report=report, reason=reason)
  unfoldable pub note_status : IdempotencyStatus → Option ExecutionReport → String → Exec World Unit
  note_status status report reason = do
    now ← read_clock x
    write (record { status = status; now = now; report = report; reason = reason })

  unfoldable pub send_failed : Progress → String → String → String → Exec World ExecutionOutcome
  send_failed p message event reason = do
    note_status Idempotency.unknown none message
    p' ← advance x p TradeState.error event
    pure (outcome ExecutionStatus.unknown (reason ∷ []) none p' true)

  unfoldable pub order_rejected : Progress → ExecutionReport → Exec World ExecutionOutcome
  order_rejected p report = do
    note_status Idempotency.rejected (some report) report.message
    p' ← advance x p TradeState.error "broker rejected order_send"
    pure (
        outcome ExecutionStatus.rejected (text_or report.message "ORDER_REJECTED" ∷ [])
          (some report) p' false)

  unfoldable pub filled :
      Progress → ExecutionReport → ProtectionResult → Exec World ExecutionOutcome
  filled p report protection =
      if not protection.is_protected
      then (do
        note_status Idempotency.protection_failed (some report) protection.reason
        p' ← advance x p TradeState.error "position protection could not be verified"
        pure (
            outcome ExecutionStatus.protection_failed (protection.reason ∷ []) (some report) p'
              true))
      else (do
        note_status Idempotency.succeeded (some report) protection.reason
        p' ← advance x p TradeState.position_open protection.reason
        pure (outcome ExecutionStatus.filled (slippage_reasons q report) (some report) p' false))

  unfoldable pub accepted : Progress → ExecutionReport → Exec World ExecutionOutcome
  accepted p report =
      if is_market q.order_type
      then (do
        p' ← advance x p TradeState.order_filled "broker confirmed fill"
        protection ←
            on_broker
              (verify_or_repair_protection x.adapter q x.protection_visibility_attempts report)
        filled p' report protection)
      else (do
        note_status Idempotency.succeeded (some report) "broker confirmed pending order"
        pure (outcome ExecutionStatus.pending (slippage_reasons q report) (some report) p false))

  unfoldable pub placed : Progress → ExecutionReport → Exec World ExecutionOutcome
  placed p report = if not report.success then order_rejected p report else accepted p report

  -- The handlers of the submission: indeterminate and timed out, any other broker error.
  unfoldable pub not_placed : Progress → Error → Exec World ExecutionOutcome
  not_placed p (broker indeterminate message) =
      send_failed p message "order result is indeterminate"
        "ORDER_RESULT_UNKNOWN_RECONCILIATION_REQUIRED"
  not_placed p (timeout message) =
      send_failed p message "order result is indeterminate"
        "ORDER_RESULT_UNKNOWN_RECONCILIATION_REQUIRED"
  not_placed p (broker kind message) =
      send_failed p message "broker mutation failed" "BROKER_MUTATION_ERROR_RECONCILIATION_REQUIRED"
  not_placed p other = raise other

  unfoldable pub record_status : Timestamp → IdempotencyStatus → String → Exec World Unit
  record_status now status reason =
      write (record { status = status; now = now; report = none; reason = reason })

  unfoldable pub check_rejected :
      Timestamp → Progress → OrderCheckResult → Exec World ExecutionOutcome
  check_rejected now p check = do
    record_status now Idempotency.rejected (join ", " check.reasons)
    p' ← advance x p TradeState.error "broker order_check rejected"
    pure (outcome ExecutionStatus.check_rejected check.reasons none p' false)

  unfoldable pub send : Timestamp → Progress → Exec World ExecutionOutcome
  send now p = do
    p' ← advance x p TradeState.order_pending "order submission started"
    record_status now Idempotency.submitted "order_send started"
    attempt (on_broker (place x.adapter q)) (placed p') (not_placed p')

  -- `_execute_serialized` after a claim that was won.
  unfoldable pub submit : Timestamp → Exec World ExecutionOutcome
  submit now = do
    p ← advance x started TradeState.entry_ready "pre-trade gates accepted"
    check ← on_broker (safe_order_check x.adapter q)
    if not check.accepted then check_rejected now p check else send now p
