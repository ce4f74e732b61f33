-- ===== src/Brokers/Mock/Once.antt =====
-- app/brokers/mock.py: one idempotency key is filled once.
use sarkfxbot.Base.{
  suc, String, ◌≡◌, refl, ap, subst, Bool, true, not, ◌||◌, Option, none, some, List,
}
use sarkfxbot.Base.Decimal.{Decimal}
use sarkfxbot.Base.Dict.{Dict, lookup, lookup-insert_self}
use sarkfxbot.Base.Exec.{Result, ok, err}
use sarkfxbot.Base.Ensures.{
  Post, Ensures, Ensures-pure, Ensures-raise, Ensures-if, Ensures-bind, Ensures-error,
}
use sarkfxbot.Domain.Orders.{ExecutionReport, OrderRequest}
use sarkfxbot.Brokers.Mock.{
  Mock, MockSendBehavior, normal, reject, timeout_before_accept, timeout_after_accept, read_clock,
}
use sarkfxbot.Brokers.Mock.Reads.{get_tick}
use sarkfxbot.Brokers.Mock.Checks.{price_of, validate_order}
use sarkfxbot.Brokers.Mock.Trading.{
  next_ticket, next_behavior, store, put_report, put_history, add_trade, record_trade,
  ticket_prefix, placed_report, accept, send_checked, send_new, place_by, place, lost,
  rejected_report, is_reject,
}
use sarkfxbot.Brokers.Mock.Reports.{
  clock-Keeps, store-Keeps, get_tick-Keeps, next_ticket-Keeps, validate_order-Keeps,
  next_behavior-Keeps, add_order-Keeps, add_position-Keeps,
}
use sarkfxbot.Brokers.Mock.Replays.{Holds, Operation, run}
use sarkfxbot.Brokers.Mock.Histories.{run-Kept}

-- An action may raise in any state.
abbrev Any : Mock → Type 0
Any m = Unit

module _ (q : OrderRequest) where
  -- A returned report of success is stored under the request's key.
  abbrev Stored : ExecutionReport → Mock → Type 0
  Stored a m = a.success ≡ true → Holds q.idempotency_key a m

  lost-Stored :
      (behavior : MockSendBehavior) (report : ExecutionReport)
      → Ensures Any (Holds q.idempotency_key report) (lost behavior report) Stored
  lost-Stored timeout_after_accept report = Ensures-raise _ (λ m h. tt)
  lost-Stored behavior report = Ensures-pure report (λ m h s. h)

  record_trade-Stored :
      (pending : Bool) (behavior : MockSendBehavior) (ticket : String) (price : Decimal)
      (report : ExecutionReport)
      → Ensures Any
          (Holds q.idempotency_key report)
          (record_trade q pending behavior ticket price report)
          Stored
  unfolding record_trade
  record_trade-Stored pending behavior ticket price report =
      let T = λ (d : Dict ExecutionReport). lookup q.idempotency_key d ≡ some report in
      Ensures-bind (add_trade pending q ticket price) _
        (Ensures-error (λ m h. tt)
          (Ensures-if pending (add_order-Keeps T q ticket price)
            (add_position-Keeps T q ticket price)))
        (λ _. Ensures-bind read_clock _ (Ensures-error (λ m h. tt) (clock-Keeps T)) (λ later.
          Ensures-bind (store (put_history ticket later q.idempotency_key)) _
            (Ensures-error (λ m h. tt)
              (store-Keeps T (put_history ticket later q.idempotency_key) (λ m h. h)))
            (λ _. lost-Stored behavior report)))

  accept-Stored :
      (pending : Bool) (behavior : MockSendBehavior)
      → Ensures Any Any (accept q pending behavior) Stored
  unfolding accept
  accept-Stored pending behavior =
      let U = λ (d : Dict ExecutionReport). Unit {0} in
      Ensures-bind (get_tick q.symbol) _ (get_tick-Keeps U q.symbol) (λ t.
        Ensures-bind (next_ticket (ticket_prefix pending)) _
          (next_ticket-Keeps U (ticket_prefix pending))
          (λ ticket. Ensures-bind read_clock _ (clock-Keeps U) (λ now.
            let report = placed_report q pending ticket (price_of q t) now in
            Ensures-bind (store (put_report q.idempotency_key report)) _
              (record { post = λ m h. lookup-insert_self q.idempotency_key report m.reports })
              (λ _. record_trade-Stored pending behavior ticket (price_of q t) report))))

  send_checked-Stored :
      (pending : Bool) (behavior : MockSendBehavior)
      → Ensures Any Any (send_checked q pending behavior) Stored
  unfolding send_checked
  send_checked-Stored pending behavior =
      let U = λ (d : Dict ExecutionReport). Unit {0} in
      Ensures-bind (validate_order q) _ (validate_order-Keeps U q) (λ check.
        Ensures-if (not check.accepted || is_reject behavior)
          (Ensures-bind read_clock _ (clock-Keeps U)
            (λ now. Ensures-pure (rejected_report q check now) (λ m h s. absurd (cc))))
          (accept-Stored pending behavior))

  send_new-Stored :
      (pending : Bool) (behavior : MockSendBehavior)
      → Ensures Any Any (send_new q pending behavior) Stored
  unfolding send_new
  send_new-Stored pending timeout_before_accept = Ensures-raise _ (λ m h. tt)
  send_new-Stored pending normal = send_checked-Stored pending normal
  send_new-Stored pending reject = send_checked-Stored pending reject
  send_new-Stored pending timeout_after_accept = send_checked-Stored pending timeout_after_accept

  place_by-Stored :
      (pending : Bool) (o : Option ExecutionReport) (m : Mock)
      → lookup q.idempotency_key m.reports ≡ o
      → Post Any Stored (place_by q pending o m)
  place_by-Stored pending (some old) m e = λ s. e
  place_by-Stored pending none m e =
      (Ensures-bind next_behavior (send_new q pending) (next_behavior-Keeps (λ d. Unit {0}))
          (send_new-Stored pending)).post
        m tt

  place-Stored : (pending : Bool) → Ensures Any Any (place q pending) Stored
  unfolding place
  place-Stored pending = record {
    post = λ m h.
        place_by-Stored pending (lookup q.idempotency_key m.reports)
          (record m { send_calls = suc m.send_calls }) refl;
  }

of_post :
    (P : ExecutionReport → Mock → Type 0) (r : Result ExecutionReport) (m : Mock)
    (a : ExecutionReport)
    → Post Any P (r, m)
    → r ≡ ok a
    → P a m
of_post P (ok b) m a h e = let same : b ≡ a = cc in subst (λ x. P x m) same h
of_post P (err x) m a h e = absurd (cc)

replayed :
    (q : OrderRequest) (pending : Bool) (o : Option ExecutionReport) (a : ExecutionReport)
    (m : Mock)
    → o ≡ some a
    → place_by q pending o m ≡ (ok a, m)
replayed q pending none a m e = absurd (cc)
replayed q pending (some b) a m e = let same : b ≡ a = cc in ap (λ x. (ok x, m)) same

-- Once a placement has returned a report of success, every later placement with the same idempotency
-- key returns that very report, whatever was called in between and whatever the later request asks
-- for, and changes nothing but the count of the calls: the key is filled once.
pub place_once :
    (q : OrderRequest) (pending : Bool) (m : Mock) (report : ExecutionReport)
    → (place q pending m).0 ≡ ok report
    → report.success ≡ true
    → (os : List Operation) (q' : OrderRequest) (pending' : Bool)
    → q'.idempotency_key ≡ q.idempotency_key
    → place q' pending' (run os (place q pending m).1) ≡ (
      ok report,
      record (run os (place q pending m).1) {
        send_calls = suc (run os (place q pending m).1).send_calls;
      },
    )
unfolding place
place_once q pending m report e s os q' pending' same =
    replayed q' pending' (lookup q'.idempotency_key later.reports) report
      (record later { send_calls = suc later.send_calls })
      (rw same (run-Kept q.idempotency_key report os (place q pending m).1 stored))
  where
    later : Mock
    later = run os (place q pending m).1

    stored : Holds q.idempotency_key report (place q pending m).1
    stored =
        of_post (Stored q) (place q pending m).0 (place q pending m).1 report
          ((place-Stored q pending).post m tt) e s
