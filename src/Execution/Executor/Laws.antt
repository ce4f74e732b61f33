-- ===== src/Execution/Executor/Laws.antt =====
-- What a property of `TradeExecutor.execute` (app/execution/executor.py) has to say of its reads, its
-- early returns and its submission.
use sarkfxbot.Base.{String, ◌≡◌, Bool, true, false, Option, some, List}
use sarkfxbot.Base.Dict.{lookup}
use sarkfxbot.Base.Exec.{Exec, ◌>>=◌}
use sarkfxbot.Domain.Models.{AccountSnapshot}
use sarkfxbot.Domain.Orders.{OrderRequest}
use sarkfxbot.Brokers.Port.{Call, Trace}
use sarkfxbot.Brokers.Avoids.{is_mutation, IsKind, Avoids}
use sarkfxbot.Risk.Models.{RiskDecision}
use sarkfxbot.Risk.Gates.{validate}
use sarkfxbot.Risk.CircuitBreaker.{CircuitStore}
use sarkfxbot.Execution.Idempotency.{ExecutionRecord, claim}
use sarkfxbot.Execution.Models.{ExecutionStatus, ExecutionCommand, ExecutionOutcome}
use sarkfxbot.Execution.Records.{outcome_from_record}
use sarkfxbot.Execution.World.{World, Executor, on_broker, on_records, on_circuits}
use sarkfxbot.Base.Ensures.{Ensures, Keeps}
use sarkfxbot.Execution.Decision.{
  stopped, Prepared, MarketView, CircuitView, claimed, snapshot, key_of,
}

-- The statuses of an early return.
abbrev pub is_stop : ExecutionStatus → Bool
is_stop ExecutionStatus.signal_only = true
is_stop ExecutionStatus.blocked = true
is_stop _ = false

-- An action without a call that changes the account.
abbrev pub IsRead : {A : Type 0} → Exec Trace A → Type 0
IsRead m = (p : Call → Bool) → IsKind is_mutation p → Avoids p m

-- The request has the key of the command's signal, for an account.
abbrev pub IsKeyed : ExecutionCommand → OrderRequest → Type 0
IsKeyed c q = (a : AccountSnapshot) × (q.idempotency_key ≡ key_of a c.trade_signal)

-- What a property of `execute` needs: `I` holds until the claim, `Q` of the outcome, and `E` where an
-- exception leaves the method.
pub record StageLaws (x : Executor) (c : ExecutionCommand) (E I : World → Type 0)
    (Q : ExecutionOutcome → World → Type 0) : Type 1 where
  pub raises : (w : World) → I w → E w
  pub reads : {A : Type 0} (m : Exec Trace A) → IsRead m → Keeps I (on_broker m)
  pub circuits : {A : Type 0} (m : Exec CircuitStore A) → Keeps I (on_circuits m)
  pub stops :
      (s : ExecutionStatus) (reasons : List String) (q : Option OrderRequest)
      (risk : Option RiskDecision) (w : World)
      → is_stop s ≡ true
      → I w
      → Q (stopped s reasons q risk) w
  pub replays :
      (q : OrderRequest) (r : ExecutionRecord) (risk : Option RiskDecision) (w : World)
      → IsKeyed c q
      → I w
      → lookup q.idempotency_key w.records ≡ some r
      → Q (outcome_from_record r risk) w
  pub submits :
      (p : Prepared) (m : MarketView) (v : CircuitView)
      → IsKeyed c p.request
      → (validate x.limits p.request p.sizing (snapshot x c p m v)).accepted ≡ true
      → Ensures E I
          (on_records (claim p.request p.now)
            >>= claimed x c p (validate x.limits p.request p.sizing (snapshot x c p m v)))
          Q
