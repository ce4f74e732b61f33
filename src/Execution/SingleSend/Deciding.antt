-- ===== src/Execution/SingleSend/Deciding.antt =====
-- `TradeExecutor.execute` of app/execution/executor.py and the submissions of a key.
use sarkfxbot.Base.{String, Bool, true, false, if◌then◌else◌}
use sarkfxbot.Brokers.Avoids.{IsKind-send}
use sarkfxbot.Risk.Models.{RiskDecision}
use sarkfxbot.Execution.Idempotency.{ExecutionRecord}
use sarkfxbot.Execution.Models.{ExecutionCommand}
use sarkfxbot.Execution.World.{Executor}
use sarkfxbot.Base.Ensures.{Ensures, Keeps, Ensures-pure, Ensures-bind}
use sarkfxbot.Execution.Decision.{Prepared, claimed}
use sarkfxbot.Execution.Executor.{execute}
use sarkfxbot.Execution.Executor.Laws.{StageLaws}
use sarkfxbot.Execution.Executor.Stages.{execute-Ensures}
use sarkfxbot.Execution.SingleSend.{sends_key, IsSingle}
use sarkfxbot.Execution.SingleSend.Steps.{
  IsKind-sends, on_broker-Keeps, on_circuits-Keeps, Unsent, mine, claim-Ensures,
}
use sarkfxbot.Execution.SingleSend.Submitting.{IsSingle-Reads, submit-Ensures}

module _ (j : String) (x : Executor) (c : ExecutionCommand) where
  claimed-Ensures :
      (p : Prepared) (d : RiskDecision) (answer : ExecutionRecord × Bool)
      → Ensures
          (IsSingle j)
          (if answer.1 then Unsent j (mine j p.request) else IsSingle j)
          (claimed x c p d answer)
          (λ _. IsSingle j)
  claimed-Ensures p d (r, true) = submit-Ensures j x p.request d p.now
  claimed-Ensures p d (r, false) = Ensures-pure _ (λ w h. h)

  laws : StageLaws x c (IsSingle j) (IsSingle j) (λ _. IsSingle j)
  laws = record {
    raises = λ w h. h;
    reads = λ m a.
        on_broker-Keeps j (IsSingle j) m (IsSingle-Reads j)
          (a (sends_key j) (IsKind-send (sends_key j) (IsKind-sends j)));
    circuits = λ m. on_circuits-Keeps j m;
    stops = λ s r q d w e h. h;
    replays = λ q r d w keyed h e. h;
    submits = λ p m v keyed e.
        Ensures-bind _ _ (claim-Ensures j p.request p.now) (λ answer. claimed-Ensures p _ answer);
  }

  pub execute-Keeps : Keeps (IsSingle j) (execute x c)
  execute-Keeps = execute-Ensures laws
