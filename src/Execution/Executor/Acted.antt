-- ===== src/Execution/Executor/Acted.antt =====
-- The outcome of a submission in app/execution/executor.py: it is no early return, and FILLED only
-- for a market order that the broker took and whose position is protected.
use sarkfxbot.Base.{
  ℕ, String, ◌≡◌, ◌∙◌, refl, Bool, true, false, Option, some, List, ◌∷◌, count, arith, not,
}
use sarkfxbot.Base.Exec.{ok, Error, broker, timeout, indeterminate, Exec, pure, ◌>>=◌}
use sarkfxbot.Domain.Enums.{TradeState, is_market}
use sarkfxbot.Domain.Models.{Timestamp}
use sarkfxbot.Domain.Orders.{OrderRequest, OrderCheckResult, ExecutionReport}
use sarkfxbot.Risk.Models.{RiskDecision}
use sarkfxbot.Execution.Idempotency.{submitted}
use sarkfxbot.Execution.Models.{ExecutionStatus, ExecutionOutcome}
use sarkfxbot.Execution.World.{World, Executor, on_broker}
use sarkfxbot.Base.Ensures.{
  Ensures, Ensures-from, Ensures-to, Ensures-pure, Ensures-raise, Ensures-if, Ensures-if_tested,
  Ensures-bind, Ensures-attempt, Post-of,
}
use sarkfxbot.Execution.Protection.{ProtectionResult, verify_or_repair_protection}
use sarkfxbot.Execution.Protection.Shown.{IsSecured}
use sarkfxbot.Execution.Protection.Secured.{verify_or_repair-Ensures}
use sarkfxbot.Execution.SingleSend.Submitting.{safe_order_check-Avoids}
use sarkfxbot.Brokers.Port.{Call, Trace}
use sarkfxbot.Brokers.Avoids.{is_mutation}
use sarkfxbot.Execution.Submission.{
  Progress, started, safe_order_check, place, advance, outcome, send_failed, order_rejected, filled,
  accepted, placed, not_placed, record_status, check_rejected, send, submit,
}
use sarkfxbot.Execution.Executor.Laws.{is_stop}
use sarkfxbot.Execution.Executor.Leaves.{
  Any, Anyhow, Leaves, on_broker-Ensures, advance-Leaves, note_status-Leaves, record_status-Leaves,
}

abbrev pub is_filled : ExecutionStatus → Bool
is_filled ExecutionStatus.filled = true
is_filled _ = false

-- A market order was placed, as the first change at the broker since `n` changes, the broker reported
-- success, and its position was secured by the calls that followed, up to the last one.
pub record IsProtectedFill (x : Executor) (q : OrderRequest) (n : ℕ) (o : ExecutionOutcome)
    (w : World) : Type 0 where
  pub report : ExecutionReport
  pub calls : Trace
  pub own_report : o.report ≡ some report
  pub market : is_market q.order_type ≡ true
  pub first_change : count is_mutation calls ≡ n
  pub placed : x.adapter.place_market_order q calls ≡ ok report
  pub success : report.success ≡ true
  pub secured : IsSecured x.adapter q report (Call.place_market_order q ∷ calls) w.calls

module _ (x : Executor) (q : OrderRequest) (risk : RiskDecision) (n : ℕ) where
  -- An outcome after the claim.
  pub record IsActed (o : ExecutionOutcome) (w : World) : Type 0 where
    pub no_stop : is_stop o.status ≡ false
    pub own_request : o.request ≡ some q
    pub secured : is_filled o.status ≡ true → IsProtectedFill x q n o w

  -- From a trace with `P`, an action ends with an outcome of the claim.
  abbrev pub Acts : (Trace → Type 0) → Exec World ExecutionOutcome → Type 0
  Acts P m = Ensures Any (λ w. P w.calls) m IsActed

  -- No change at the broker yet.
  abbrev pub Quiet : Trace → Type 0
  Quiet calls = count is_mutation calls ≡ n

  module _ {A : Type 0} where
    then_Acts :
        (P : Trace → Type 0) (m : Exec World A) (f : A → Exec World ExecutionOutcome)
        → Leaves P m
        → ((a : A) → Acts P (f a))
        → Acts P (m >>= f)
    then_Acts P m f h k = Ensures-bind m f h k

  moved-Acts :
      (P : Trace → Type 0) (p : Progress) (target : TradeState) (reason : String)
      (f : Progress → ExecutionOutcome)
      → ((p : Progress) (w : World) → P w.calls → IsActed (f p) w)
      → Acts P (advance x p target reason >>= λ p'. pure (f p'))
  moved-Acts P p target reason f h =
      then_Acts P _ _ (advance-Leaves x q risk P p target reason) (λ p'. Ensures-pure _ (h p'))

  not_filled :
      (s : ExecutionStatus) (reasons : List String) (r : Option ExecutionReport) (p : Progress)
      (again : Bool) (w : World)
      → is_stop s ≡ false
      → is_filled s ≡ false
      → IsActed (outcome x q risk s reasons r p again) w
  not_filled s reasons r p again w e f = record {
    no_stop = e;
    own_request = refl;
    secured = λ h. absurd (ground arith);
  }

  send_failed-Acts :
      (p : Progress) (message event reason : String)
      → Acts Anyhow (send_failed x q risk p message event reason)
  unfolding send_failed
  send_failed-Acts p message event reason =
      then_Acts Anyhow _ _ (note_status-Leaves x q risk Anyhow _ _ _)
        (λ _. moved-Acts Anyhow p _ _ _ (λ p' w _. not_filled _ _ _ p' _ w refl refl))

  order_rejected-Acts :
      (p : Progress) (report : ExecutionReport) → Acts Anyhow (order_rejected x q risk p report)
  unfolding order_rejected
  order_rejected-Acts p report =
      then_Acts Anyhow _ _ (note_status-Leaves x q risk Anyhow _ _ _)
        (λ _. moved-Acts Anyhow p _ _ _ (λ p' w _. not_filled _ _ _ p' _ w refl refl))

  -- The broker reported on the placement, and what that means where it was a market order.
  abbrev Placed : ExecutionReport → (Trace → Trace → Type 0) → Trace → Type 0
  Placed report Then after =
      (calls : Trace) × Quiet calls
      × (x.adapter.place_market_order q calls ≡ ok report)
      × Then (Call.place_market_order q ∷ calls) after

  abbrev Follows : ExecutionReport → Trace → Type 0
  Follows report = Placed report (λ placed after. after ≡ placed)

  abbrev Protects : ExecutionReport → ProtectionResult → Trace → Type 0
  Protects report protection =
      Placed report
        (λ placed after. protection.is_protected ≡ true → IsSecured x.adapter q report placed after)

  filled-Acts :
      (p : Progress) (report : ExecutionReport) (protection : ProtectionResult)
      → is_market q.order_type ≡ true
      → report.success ≡ true
      → Acts (Protects report protection) (filled x q risk p report protection)
  unfolding filled
  filled-Acts p report protection market success =
      Ensures-if_tested (not protection.is_protected)
        (λ _. then_Acts (Protects report protection) _ _ (note_status-Leaves x q risk _ _ _ _) (λ _.
          moved-Acts (Protects report protection) p _ _ _
            (λ p' w _. not_filled _ _ _ p' _ w refl refl)))
        (λ e. then_Acts (Protects report protection) _ _ (note_status-Leaves x q risk _ _ _ _) (λ _.
          moved-Acts (Protects report protection) p _ _ _ (λ p' w (calls, quiet, answer, secured).
            record {
              no_stop = refl;
              own_request = refl;
              secured = λ _. record {
                report = report;
                calls = calls;
                own_report = refl;
                market = market;
                first_change = quiet;
                placed = answer;
                success = success;
                secured = secured (ground arith);
              };
            })))

  protection-Ensures :
      (attempts : ℕ) (report : ExecutionReport)
      → Ensures Any
          (λ w. Follows report w.calls)
          (on_broker (verify_or_repair_protection x.adapter q attempts report))
          (λ protection w. Protects report protection w.calls)
  protection-Ensures attempts report =
      on_broker-Ensures (verify_or_repair_protection x.adapter q attempts report) (record {
        post = λ after (calls, quiet, answer, at).
            (Ensures-to (λ protection end h. (calls, quiet, answer, h))
                (verify_or_repair-Ensures x.adapter q report (Call.place_market_order q ∷ calls)
                  attempts)).post
              after at;
      })

  accepted-Acts :
      (p : Progress) (report : ExecutionReport)
      → report.success ≡ true
      → Acts
          (λ calls. is_market q.order_type ≡ true → Follows report calls)
          (accepted x q risk p report)
  unfolding accepted
  accepted-Acts p report success =
      Ensures-if_tested (is_market q.order_type)
        (λ market.
          Ensures-from (λ w h. h market)
            (then_Acts (Follows report) _ _ (advance-Leaves x q risk (Follows report) p _ _) (λ p'.
              Ensures-bind _ _ (protection-Ensures x.protection_visibility_attempts report)
                (λ protection. filled-Acts p' report protection market success))))
        (λ _.
          Ensures-from (λ _ _. tt)
            (then_Acts Anyhow _ _ (note_status-Leaves x q risk Anyhow _ _ _)
              (λ _. Ensures-pure _ (λ w _. not_filled _ _ _ p _ w refl refl))))

  placed-Acts :
      (p : Progress) (report : ExecutionReport)
      → Acts
          (λ calls. is_market q.order_type ≡ true → Follows report calls)
          (placed x q risk p report)
  unfolding placed
  placed-Acts p report =
      Ensures-if_tested (not report.success)
        (λ _. Ensures-from (λ _ _. tt) (order_rejected-Acts p report))
        (λ e. accepted-Acts p report (ground arith))

  not_placed-Acts : (p : Progress) (e : Error) → Acts Anyhow (not_placed x q risk p e)
  unfolding not_placed
  not_placed-Acts p (broker indeterminate m) = send_failed-Acts p _ _ _
  not_placed-Acts p (timeout m) = send_failed-Acts p _ _ _
  not_placed-Acts p (broker k m) = send_failed-Acts p _ _ _
  not_placed-Acts p other = Ensures-raise _ (λ w _. tt)

  check_rejected-Acts :
      (now : Timestamp) (p : Progress) (check : OrderCheckResult)
      → Acts Quiet (check_rejected x q risk now p check)
  unfolding check_rejected
  check_rejected-Acts now p check =
      then_Acts Quiet _ _ (record_status-Leaves x q risk Quiet _ _ _)
        (λ _. moved-Acts Quiet p _ _ _ (λ p' w _. not_filled _ _ _ p' _ w refl refl))

  place-Ensures :
      Ensures Anyhow Quiet
        (place x.adapter q)
        (λ report calls. is_market q.order_type ≡ true → Follows report calls)
  unfolding place
  place-Ensures =
      Ensures-if_tested (is_market q.order_type)
        (λ market. record {
          post = λ calls quiet.
              Post-of Anyhow (λ report after. is_market q.order_type ≡ true → Follows report after)
                (x.adapter.place_market_order q calls) (Call.place_market_order q ∷ calls)
                (λ report e _. (calls, quiet, e, refl)) (λ _ _. tt);
        })
        (λ pending. record {
          post = λ calls quiet.
              Post-of Anyhow (λ report after. is_market q.order_type ≡ true → Follows report after)
                (x.adapter.place_pending_order q calls) (Call.place_pending_order q ∷ calls)
                (λ report e market. absurd (ground arith)) (λ _ _. tt);
        })

  send-Acts : (now : Timestamp) (p : Progress) → Acts Quiet (send x q risk now p)
  unfolding send
  send-Acts now p =
      then_Acts Quiet (advance x p TradeState.order_pending "order submission started") _
        (advance-Leaves x q risk Quiet p _ _)
        (λ p'.
          then_Acts Quiet (record_status x q risk now submitted "order_send started") _
            (record_status-Leaves x q risk Quiet _ _ _)
            (λ _.
              Ensures-attempt (on_broker (place x.adapter q)) _ _
                (on_broker-Ensures (place x.adapter q) place-Ensures) (placed-Acts p')
                (not_placed-Acts p')))

  check-Ensures : Leaves Quiet (on_broker (safe_order_check x.adapter q))
  check-Ensures = on_broker-Ensures (safe_order_check x.adapter q) (record {
    post = λ calls quiet.
        let kept =
          (safe_order_check-Avoids x.adapter q is_mutation (λ _ e. e)).same_count calls ∙ quiet in
        Post-of Anyhow (λ _. Quiet) (safe_order_check x.adapter q calls).0
          (safe_order_check x.adapter q calls).1 (λ _ _. kept) (λ _ _. tt);
  })

  pub submit-Acts : (now : Timestamp) → Acts Quiet (submit x q risk now)
  unfolding submit
  submit-Acts now =
      then_Acts Quiet (advance x started TradeState.entry_ready "pre-trade gates accepted") _
        (advance-Leaves x q risk Quiet started _ _)
        (λ p. then_Acts Quiet (on_broker (safe_order_check x.adapter q)) _ check-Ensures (λ check.
          Ensures-if (not check.accepted) (check_rejected-Acts now p check) (send-Acts now p)))
