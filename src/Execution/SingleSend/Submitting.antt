-- ===== src/Execution/SingleSend/Submitting.antt =====
-- The submission of app/execution/executor.py, from the claim that was won on, and the submissions of
-- a key.
use sarkfxbot.Base.{String, refl, ◌∙◌, Bool, Option, arith}
use sarkfxbot.Base.Exec.{Error, broker, timeout, Result, ok, err, Exec, pure, ◌>>=◌, indeterminate}
use sarkfxbot.Domain.Enums.{TradeState}
use sarkfxbot.Domain.StateMachine.{TradeStateMachine, StateTransition, transition}
use sarkfxbot.Domain.Models.{Timestamp}
use sarkfxbot.Domain.Orders.{OrderRequest, OrderCheckResult, ExecutionReport}
use sarkfxbot.Brokers.Port.{Broker, Call}
use sarkfxbot.Brokers.Avoids.{
  is_mutation, IsKind, IsKind-send, Avoids, Avoids-pure, Avoids-raise, Avoids-ask, Avoids-attempt,
}
use sarkfxbot.Risk.Models.{RiskDecision}
use sarkfxbot.Execution.Idempotency.{IdempotencyStatus, submitted, Change}
use sarkfxbot.Execution.Models.{ExecutionOutcome}
use sarkfxbot.Execution.World.{World, Executor, read_clock}
use sarkfxbot.Base.Ensures.{
  Ensures, Keeps, Ensures-from, Ensures-error, Ensures-pure, Ensures-raise, Ensures-if,
  Ensures-bind, Ensures-attempt,
}
use sarkfxbot.Execution.Protection.{ProtectionResult}
use sarkfxbot.Execution.Protection.Mutations.{verify_or_repair-Avoids}
use sarkfxbot.Execution.Submission.{
  Progress, advanced, advance, safe_order_check, check_failed, write, note_status, send_failed,
  order_rejected, filled, accepted, placed, not_placed, record_status, check_rejected, send, submit,
}
use sarkfxbot.Execution.SingleSend.{sends_key, IsSingle}
use sarkfxbot.Execution.SingleSend.Steps.{
  Reads, IsKind-sends, update-Keeps, on_broker-Keeps, Unsent, IsReady, mine, submitted-Ensures,
  place-Ensures,
}

module _ (x : Executor) (I : World → Type 0) where
  pub read_clock-Keeps : Keeps I (read_clock x)
  read_clock-Keeps = record { post = λ w h. h }

  pub advance-Keeps :
      (p : Progress) (target : TradeState) (reason : String) → Keeps I (advance x p target reason)
  unfolding advance
  advance-Keeps p target reason =
      Ensures-bind _ _ read_clock-Keeps
        (λ now. advanced-Keeps (transition p.machine target reason now))
    where
      advanced-Keeps : (r : Result StateTransition × TradeStateMachine) → Keeps I (advanced p r)
      advanced-Keeps (ok t, m) = Ensures-pure _ (λ s h. h)
      advanced-Keeps (err e, m) = Ensures-raise _ (λ s h. h)

pub safe_order_check-Avoids :
    (b : Broker) (q : OrderRequest) (p : Call → Bool)
    → IsKind is_mutation p
    → Avoids p (safe_order_check b q)
unfolding safe_order_check
safe_order_check-Avoids b q p h =
    Avoids-attempt p _ _ _ (Avoids-ask p _ _ (h (Call.validate_order q) refl))
      (λ r. Avoids-pure p _) handled
  where
    handled : (e : Error) → Avoids p (check_failed e)
    handled (broker k m) = Avoids-pure p _
    handled other = Avoids-raise p _

pub IsSingle-Reads : (j : String) → Reads j (IsSingle j)
IsSingle-Reads j w calls e h = ground arith

Unsent-Reads : (j : String) (b : Bool) → Reads j (Unsent j b)
Unsent-Reads j b w calls e (h, k) = (ground arith, λ b. e ∙ k b)

-- What raises under a stronger invariant raises under the weaker one.
Unsent-error :
    {A : Type 0} (j : String) (b : Bool) {m : Exec World A}
    → Keeps (Unsent j b) m
    → Ensures (IsSingle j) (Unsent j b) m (λ _. Unsent j b)
Unsent-error j b k = Ensures-error (λ s h. h.0) k

module _ (j : String) (x : Executor) (q : OrderRequest) (risk : RiskDecision) where
  write-Keeps : (c : Change) → Keeps (IsSingle j) (write x q risk c)
  unfolding write
  write-Keeps c =
      Ensures-bind _ _ (update-Keeps j q.idempotency_key c) (λ _. Ensures-pure _ (λ s h. h))

  note_status-Keeps :
      (status : IdempotencyStatus) (report : Option ExecutionReport) (reason : String)
      → Keeps (IsSingle j) (note_status x q risk status report reason)
  unfolding note_status
  note_status-Keeps status report reason =
      Ensures-bind _ _ (read_clock-Keeps x _) (λ now.
        write-Keeps (record { status = status; now = now; report = report; reason = reason }))

  record_status-Keeps :
      (now : Timestamp) (status : IdempotencyStatus) (reason : String)
      → Keeps (IsSingle j) (record_status x q risk now status reason)
  unfolding record_status
  record_status-Keeps now status reason = write-Keeps _

  submitted_written :
      (now : Timestamp) (reason : String)
      → Ensures
          (IsSingle j)
          (Unsent j (mine j q))
          (record_status x q risk now submitted reason)
          (λ _. IsReady j (mine j q))
  unfolding record_status write
  submitted_written now reason =
      Ensures-bind _ _ (submitted-Ensures j q _ refl) (λ _. Ensures-pure _ (λ s h. h))

  -- A transition and an outcome.
  moved-Keeps :
      (p : Progress) (target : TradeState) (reason : String) (f : Progress → ExecutionOutcome)
      → Keeps (IsSingle j) (advance x p target reason >>= λ p'. pure (f p'))
  moved-Keeps p target reason f =
      Ensures-bind _ _ (advance-Keeps x _ p target reason) (λ p'. Ensures-pure _ (λ s h. h))

  send_failed-Keeps :
      (p : Progress) (message event reason : String)
      → Keeps (IsSingle j) (send_failed x q risk p message event reason)
  unfolding send_failed
  send_failed-Keeps p message event reason =
      Ensures-bind _ _ (note_status-Keeps _ _ _) (λ _. moved-Keeps p _ _ _)

  order_rejected-Keeps :
      (p : Progress) (report : ExecutionReport)
      → Keeps (IsSingle j) (order_rejected x q risk p report)
  unfolding order_rejected
  order_rejected-Keeps p report =
      Ensures-bind _ _ (note_status-Keeps _ _ _) (λ _. moved-Keeps p _ _ _)

  filled-Keeps :
      (p : Progress) (report : ExecutionReport) (protection : ProtectionResult)
      → Keeps (IsSingle j) (filled x q risk p report protection)
  unfolding filled
  filled-Keeps p report protection =
      Ensures-if _ (Ensures-bind _ _ (note_status-Keeps _ _ _) (λ _. moved-Keeps p _ _ _))
        (Ensures-bind _ _ (note_status-Keeps _ _ _) (λ _. moved-Keeps p _ _ _))

  accepted-Keeps :
      (p : Progress) (report : ExecutionReport) → Keeps (IsSingle j) (accepted x q risk p report)
  unfolding accepted
  accepted-Keeps p report =
      Ensures-if _
        (Ensures-bind _ _ (advance-Keeps x _ p _ _) (λ p'.
          Ensures-bind _ _
            (on_broker-Keeps j (IsSingle j) _ (IsSingle-Reads j)
              (verify_or_repair-Avoids x.adapter q (sends_key j) (IsKind-sends j) _ report))
            (filled-Keeps p' report)))
        (Ensures-bind _ _ (note_status-Keeps _ _ _) (λ _. Ensures-pure _ (λ s h. h)))

  placed-Keeps :
      (p : Progress) (report : ExecutionReport) → Keeps (IsSingle j) (placed x q risk p report)
  unfolding placed
  placed-Keeps p report = Ensures-if _ (order_rejected-Keeps p report) (accepted-Keeps p report)

  not_placed-Keeps : (p : Progress) (e : Error) → Keeps (IsSingle j) (not_placed x q risk p e)
  unfolding not_placed
  not_placed-Keeps p (broker indeterminate m) = send_failed-Keeps p _ _ _
  not_placed-Keeps p (timeout m) = send_failed-Keeps p _ _ _
  not_placed-Keeps p (broker k m) = send_failed-Keeps p _ _ _
  not_placed-Keeps p other = Ensures-raise _ (λ s h. h)

  check_rejected-Keeps :
      (now : Timestamp) (p : Progress) (check : OrderCheckResult)
      → Keeps (IsSingle j) (check_rejected x q risk now p check)
  unfolding check_rejected
  check_rejected-Keeps now p check =
      Ensures-bind _ _ (record_status-Keeps now _ _) (λ _. moved-Keeps p _ _ _)

  send-Ensures :
      (now : Timestamp) (p : Progress)
      → Ensures (IsSingle j) (Unsent j (mine j q)) (send x q risk now p) (λ _. IsSingle j)
  unfolding send
  send-Ensures now p = Ensures-bind _ _ (Unsent-error j _ (advance-Keeps x _ p _ _)) (λ p'.
      Ensures-bind _ _ (submitted_written now _) (λ _.
        Ensures-attempt _ _ _ (place-Ensures j q x.adapter) (placed-Keeps p')
          (not_placed-Keeps p')))

  pub submit-Ensures :
      (now : Timestamp)
      → Ensures (IsSingle j) (Unsent j (mine j q)) (submit x q risk now) (λ _. IsSingle j)
  unfolding submit
  submit-Ensures now = Ensures-bind _ _ (Unsent-error j _ (advance-Keeps x _ _ _ _)) (λ p.
      Ensures-bind _ _
        (Unsent-error j _ (
          on_broker-Keeps j (Unsent j (mine j q)) _ (Unsent-Reads j _) (
            safe_order_check-Avoids x.adapter q (sends_key j)
              (IsKind-send (sends_key j) (IsKind-sends j)))))
        (λ check.
          Ensures-if _ (Ensures-from (λ s h. h.0) (check_rejected-Keeps now p check))
            (send-Ensures now p)))
