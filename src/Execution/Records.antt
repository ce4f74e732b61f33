-- ===== src/Execution/Records.antt =====
-- `TradeExecutor._outcome_from_record` of app/execution/executor.py: the outcome of a key that has a
-- record already.
use sarkfxbot.Base.{Bool, true, false, Option, some, [], ◌∷◌, if◌then◌else◌}
use sarkfxbot.Domain.Enums.{OrderType, is_market}
use sarkfxbot.Risk.Models.{RiskDecision}
use sarkfxbot.Execution.Idempotency.{
  IdempotencyStatus, claimed, submitted, succeeded, protection_failed, rejected, unknown,
  ExecutionRecord,
}
use sarkfxbot.Execution.Models.{ExecutionStatus, ExecutionOutcome}

-- status_map
abbrev pub mapped_status : OrderType → IdempotencyStatus → ExecutionStatus
mapped_status t claimed = ExecutionStatus.unknown
mapped_status t submitted = ExecutionStatus.unknown
mapped_status t unknown = ExecutionStatus.unknown
mapped_status t succeeded = if is_market t then ExecutionStatus.filled else ExecutionStatus.pending
mapped_status t protection_failed = ExecutionStatus.protection_failed
mapped_status t rejected = ExecutionStatus.rejected

abbrev pub is_unresolved : IdempotencyStatus → Bool
is_unresolved succeeded = false
is_unresolved rejected = false
is_unresolved _ = true

-- TradeExecutor._outcome_from_record
unfoldable pub outcome_from_record : ExecutionRecord → Option RiskDecision → ExecutionOutcome
outcome_from_record r risk = record {
  status = mapped_status r.request.order_type r.status;
  reasons = "DUPLICATE_EXECUTION_SUPPRESSED" ∷ [];
  request = some r.request;
  report = r.report;
  risk = risk;
  transitions = [];
  requires_reconciliation = is_unresolved r.status;
}
