-- ===== src/Execution/SingleSend/Recovering.antt =====
-- `reconcile_unknown` and `cancel_pending_entries` of app/execution/executor.py and the submissions
-- of a key: neither sends an order.
use sarkfxbot.Base.{String, Bool, Option, none, some, List, [], ◌∷◌, refl}
use sarkfxbot.Base.Exec.{Error, broker}
use sarkfxbot.Domain.Orders.{OrderRequest, ExecutionReport, BrokerPosition, BrokerOrder}
use sarkfxbot.Brokers.Port.{Broker, Call}
use sarkfxbot.Brokers.Avoids.{
  is_mutation, is_send, IsKind, IsKind-send, Avoids, Avoids-pure, Avoids-ask, Avoids-bind,
}
use sarkfxbot.Execution.Idempotency.{IdempotencyStatus, succeeded, ExecutionRecord, get}
use sarkfxbot.Execution.Records.{outcome_from_record}
use sarkfxbot.Execution.World.{Executor, on_records}
use sarkfxbot.Base.Ensures.{
  Keeps, Ensures-pure, Ensures-raise, Ensures-if, Ensures-bind, Ensures-attempt,
}
use sarkfxbot.Execution.Protection.{ProtectionResult}
use sarkfxbot.Execution.Protection.Mutations.{verify_or_repair-Avoids}
use sarkfxbot.Execution.Recovery.{
  look_up, look_up_failed, resolve, confirm, position_report, order_report, settle_match,
  reconcile_record, reconcile_found, reconcile_unknown, cancel_all, cancel_pending_entries,
}
use sarkfxbot.Execution.SingleSend.{sends_key, IsSingle}
use sarkfxbot.Execution.SingleSend.Steps.{IsKind-sends, update-Keeps, on_broker-Keeps}
use sarkfxbot.Execution.SingleSend.Submitting.{IsSingle-Reads, read_clock-Keeps}

module _ (p : Call → Bool) where
  pub look_up-Avoids :
      (x : Executor) (key : String) (q : OrderRequest)
      → IsKind is_mutation p
      → Avoids p (look_up x key q)
  unfolding look_up
  look_up-Avoids x key q h =
      let b = x.adapter in
      Avoids-bind p _ _
        (Avoids-ask p _ (b.get_positions (some q.symbol))
          (h (Call.get_positions (some q.symbol)) refl))
        (λ ps.
          Avoids-bind p _ _
            (Avoids-ask p _ (b.get_orders (some q.symbol))
              (h (Call.get_orders (some q.symbol)) refl))
            (λ os. Avoids-pure p (ps, os)))

  cancel_all-Avoids :
      (b : Broker) (os : List BrokerOrder) → IsKind is_send p → Avoids p (cancel_all b os)
  unfolding cancel_all
  cancel_all-Avoids b [] h = Avoids-pure p _
  cancel_all-Avoids b (o ∷ os) h =
      let rest = cancel_all-Avoids b os h in
      Avoids-bind p _ _
        (Avoids-ask p _ (b.cancel_order o.ticket) (h (Call.cancel_order o.ticket) refl))
        (λ done. Avoids-bind p _ _ rest (λ tickets. Avoids-pure p _))

  pub cancel_pending-Avoids : (b : Broker) → IsKind is_send p → Avoids p (cancel_pending_entries b)
  unfolding cancel_pending_entries
  cancel_pending-Avoids b h =
      Avoids-bind p _ _ (Avoids-ask p _ (b.get_orders none) (h (Call.get_orders none) refl))
        (λ os. cancel_all-Avoids b os h)

module _ (j : String) (x : Executor) (key : String) where
  resolve-Keeps :
      (status : IdempotencyStatus) (report : ExecutionReport) (reason : String)
      → Keeps (IsSingle j) (resolve x key status report reason)
  unfolding resolve
  resolve-Keeps status report reason = Ensures-bind _ _ (read_clock-Keeps x _) (λ now.
      Ensures-bind _ _
        (update-Keeps j key
          (record { status = status; now = now; report = some report; reason = reason }))
        (λ r. Ensures-pure (outcome_from_record r none) (λ w h. h)))

  confirm-Keeps :
      (report : ExecutionReport) (protection : ProtectionResult)
      → Keeps (IsSingle j) (confirm x key report protection)
  unfolding confirm
  confirm-Keeps report protection =
      Ensures-if _ (resolve-Keeps _ report _) (resolve-Keeps _ report _)

  settle_match-Keeps :
      (q : OrderRequest) (p : Option BrokerPosition) (o : Option BrokerOrder)
      → Keeps (IsSingle j) (settle_match x key q p o)
  unfolding settle_match
  settle_match-Keeps q none none = Ensures-pure _ (λ w h. h)
  settle_match-Keeps q (some p) o = Ensures-bind _ _ (read_clock-Keeps x _) (λ now.
      Ensures-bind _ _
        (on_broker-Keeps j (IsSingle j) _ (IsSingle-Reads j) (
          verify_or_repair-Avoids x.adapter q (sends_key j) (IsKind-sends j)
            x.protection_visibility_attempts (position_report x key q p now)))
        (confirm-Keeps (position_report x key q p now)))
  settle_match-Keeps q none (some o) =
      Ensures-bind _ _ (read_clock-Keeps x _)
        (λ now. resolve-Keeps succeeded (order_report x key q o now) "reconciled with broker state")

  reconcile_record-Keeps : (r : ExecutionRecord) → Keeps (IsSingle j) (reconcile_record x key r)
  unfolding reconcile_record
  reconcile_record-Keeps r = Ensures-if _ (Ensures-pure _ (λ w h. h)) (
      Ensures-attempt _ _ _
        (on_broker-Keeps j (IsSingle j) _ (IsSingle-Reads j) (
          look_up-Avoids (sends_key j) x key r.request
            (IsKind-send (sends_key j) (IsKind-sends j))))
        (λ v. settle_match-Keeps r.request _ _) failed)
    where
      failed : (e : Error) → Keeps (IsSingle j) (look_up_failed x key r.request e)
      failed (broker k m) = Ensures-pure _ (λ w h. h)
      failed e = Ensures-raise e (λ w h. h)

  reconcile_found-Keeps :
      (r : Option ExecutionRecord) → Keeps (IsSingle j) (reconcile_found x key r)
  reconcile_found-Keeps none = Ensures-pure _ (λ w h. h)
  reconcile_found-Keeps (some r) = reconcile_record-Keeps r

  pub reconcile_unknown-Keeps : Keeps (IsSingle j) (reconcile_unknown x key)
  unfolding reconcile_unknown get
  reconcile_unknown-Keeps =
      Ensures-bind (on_records (get key)) _ (record { post = λ w h. h }) reconcile_found-Keeps
