-- ===== src/Tests/Executions.antt =====
-- Tests of app/execution: a fill, a replay and a protected position.
use sarkfxbot.Base.{◌⊎◌, String, none, false}
use sarkfxbot.Base.Int.{pos}
use sarkfxbot.Base.Decimal.{of_ℕ, ratio, ◌⊗◌, ◌⊕◌, ◌⊖◌, ◌⊘◌, floor, of_ℤ, abs, min, max}
use sarkfxbot.Base.Exec.{ok}
use sarkfxbot.Base.Reasons.{failing, unique}
use sarkfxbot.Base.Text.{is_blank, is_missing, upper}
use sarkfxbot.Domain.Enums.{TradeState}
use sarkfxbot.Domain.Models.{spread, is_expired}
use sarkfxbot.Domain.Orders.{OrderRequest, slippage, make_request}
use sarkfxbot.Domain.StateMachine.{StateTransition, allowed, can_transition, transition}
use sarkfxbot.Brokers.Port.{broker_correlation_key}
use sarkfxbot.Risk.Mode.{evaluate_execution_permission, permission_checks}
use sarkfxbot.Risk.Calculator.{calculate, size_by_loss, check_volume}
use sarkfxbot.Risk.Gates.{
  reference_price, health_checks, price_checks, stop_checks, money_checks, exposure_checks,
  loss_checks, gate_checks, validate,
}
use sarkfxbot.Risk.CircuitBreaker
use sarkfxbot.Risk.CircuitBreaker.{evaluate, evaluated, unchanged, day_of, week_of}
use sarkfxbot.Execution.Idempotency
use sarkfxbot.Execution.Idempotency.{claim, update}
use sarkfxbot.Execution.Models.{ExecutionStatus, ExecutionOutcome}
use sarkfxbot.Execution.Submission.{
  advance, safe_order_check, place, write, note_status, filled, accepted, placed, record_status,
  send, submit,
}
use sarkfxbot.Execution.Decision.{
  stopped, is_equivalent, market_reads, read_circuit, decide, read_market,
}
use sarkfxbot.Execution.Executor.{
  sizing_reads, size, check_demo, authorize, connect, enter, execute_serialized, execute,
}
use sarkfxbot.Execution.Executor.Outcomes.{
  IsUntouched, IsReplay, IsSecuredFill, execute-IsUntouched, execute_filled,
}
use sarkfxbot.Execution.World.{Executor}
use sarkfxbot.Base.{◌≤◌, refl, true, some, [], ◌∷◌, arith}
use sarkfxbot.Base.Dict.{lookup, insert}
use sarkfxbot.Base.Decimal.{side}
use sarkfxbot.Brokers.Port.{Call}
use sarkfxbot.Execution.Protection.{belongs, carries, watch, settle, verify_or_repair_protection}
use sarkfxbot.Execution.Protection.Shown.{IsSecured}
use sarkfxbot.Execution.Protection.Secured.{verify_or_repair-IsSecured}
use sarkfxbot.Execution.SingleSend.{sends, IsSingle}
use sarkfxbot.Execution.SingleSend.Histories
use sarkfxbot.Execution.SingleSend.Histories.{executes, reconciles, cancels, run-IsSingle}
use sarkfxbot.Tests.Fixtures.{now, health, mock, request, report}
use sarkfxbot.Tests.Services.{executor, command, fresh}

-- The same command twice, a reconciliation and a cancellation: one submission at most.
run-IsSingle_example :
    IsSingle "7:s" (
      Histories.run
        ((executor, executes command)
          ∷ (executor, executes command)
          ∷ (executor, reconciles "7:s")
          ∷ (executor, cancels)
          ∷ [])
        fresh)
    × (sends "7:s"
          (Histories.run
            ((executor, executes command)
              ∷ (executor, executes command)
              ∷ (executor, reconciles "7:s")
              ∷ (executor, cancels)
              ∷ [])
            fresh).calls
        ≤ 1)
run-IsSingle_example =
    run-IsSingle
      ((executor, executes command)
        ∷ (executor, executes command)
        ∷ (executor, reconciles "7:s")
        ∷ (executor, cancels)
        ∷ [])
      fresh "7:s" (omega arith)

-- The fill is seen with its protection.
verify_or_repair-IsSecured_example :
    IsSecured mock request report
      (Call.place_market_order request ∷ [])
      (verify_or_repair_protection mock request 3 report (Call.place_market_order request ∷ [])).1
unfolding verify_or_repair_protection watch belongs carries settle side
verify_or_repair-IsSecured_example =
    verify_or_repair-IsSecured mock request 3 report (Call.place_market_order request ∷ [])
      (record { is_protected = true; reason = "broker position protection verified" }) refl refl

abbrev event : TradeState → TradeState → String → StateTransition
event before after why = record {
  previous = before;
  current = after;
  occurred_at = now;
  reason = why;
}

-- The size of the order, as it is computed.
abbrev sized_request : OrderRequest
sized_request = record request { volume = ratio (pos 1000) 9999 }

abbrev filled_outcome : ExecutionOutcome
filled_outcome = record {
  status = ExecutionStatus.filled;
  reasons = [];
  request = some sized_request;
  report = some report;
  risk = some (record {
    accepted = true;
    reasons = [];
    risk_amount = ratio (pos 1000000) 9999;
    risk_fraction = ratio (pos 1000000) 99999999;
    risk_reward = some (ratio (pos 20) 9);
    required_margin = of_ℕ 200;
  });
  transitions =
      event TradeState.signal_found TradeState.entry_ready "pre-trade gates accepted"
      ∷ event TradeState.entry_ready TradeState.order_pending "order submission started"
      ∷ event TradeState.order_pending TradeState.order_filled "broker confirmed fill"
      ∷ event TradeState.order_filled TradeState.position_open "broker position protection verified"
      ∷ [];
  requires_reconciliation = false;
}

-- A broker that has lost its terminal.
abbrev lost : Executor
lost = record executor {
  adapter = record mock { health_check = λ calls. ok (record health { connected = false }) };
}

execute-IsUntouched_example : IsUntouched fresh (execute lost command fresh).1
unfolding execute execute_serialized is_expired enter connect
execute-IsUntouched_example =
    execute-IsUntouched lost command fresh
      (stopped ExecutionStatus.blocked ("BROKER_UNHEALTHY" ∷ []) none none) refl refl

execute_filled_example :
    IsReplay command fresh filled_outcome
    ⊎ IsSecuredFill executor fresh filled_outcome (execute executor command fresh).1
unfolding execute execute_serialized is_expired enter connect authorize
    evaluate_execution_permission permission_checks failing unique check_demo size sizing_reads
    calculate size_by_loss check_volume side ◌⊗◌ ◌⊕◌ ◌⊖◌ ◌⊘◌ floor of_ℤ abs min max make_request
    is_blank is_missing lookup read_market market_reads read_circuit evaluate Idempotency.get
    CircuitBreaker.get CircuitBreaker.current evaluated unchanged day_of week_of decide validate
    gate_checks health_checks price_checks stop_checks money_checks exposure_checks loss_checks
    reference_price spread is_equivalent upper claim insert submit advance transition can_transition
    allowed safe_order_check send place placed accepted verify_or_repair_protection watch belongs
    carries settle broker_correlation_key filled note_status record_status write update slippage
execute_filled_example = execute_filled executor command fresh filled_outcome refl refl
