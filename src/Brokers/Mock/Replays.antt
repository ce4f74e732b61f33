-- ===== src/Brokers/Mock/Replays.antt =====
-- app/brokers/mock.py: a report that is stored under an idempotency key stays, and answers every
-- later placement with that key.
use sarkfxbot.Base.{
  suc, String, eq_iff, ◌≡◌, refl, Bool, not, ◌||◌, Option, none, some, List, [], ◌∷◌, arith,
}
use sarkfxbot.Base.Decimal.{Decimal}
use sarkfxbot.Base.Dict.{Dict, lookup, lookup-insert}
use sarkfxbot.Base.Exec.{Exec}
use sarkfxbot.Base.Ensures.{
  Post, Ensures, Keeps, Ensures-pure, Ensures-raise, Ensures-if, Ensures-bind, Ensures-error,
}
use sarkfxbot.Domain.Models.{AccountSnapshot, Tick}
use sarkfxbot.Domain.Orders.{BrokerOrder, BrokerPosition, ExecutionReport, OrderRequest}
use sarkfxbot.Brokers.Mock.{
  Mock, MockSendBehavior, normal, reject, timeout_before_accept, timeout_after_accept, read_clock,
  set_health, set_market_open, set_position_modification_allowed, set_tick, set_account,
  seed_position, seed_order, queue_send_behavior, connect, disconnect,
}
use sarkfxbot.Brokers.Mock.Reads.{get_tick}
use sarkfxbot.Brokers.Mock.Checks.{price_of, validate_order}
use sarkfxbot.Brokers.Mock.Trading.{
  next_ticket, next_behavior, store, put_report, ticket_prefix, placed_report, accept, send_checked,
  send_new, place_by, place, place_market_order, place_pending_order, rejected_report, is_reject,
}
use sarkfxbot.Brokers.Mock.Closing.{
  modify_position, corrupt_position_protection, close_position, cancel_order,
}
use sarkfxbot.Brokers.Mock.Reports.{
  clock-Keeps, get_tick-Keeps, validate_order-Keeps, next_ticket-Keeps, record_trade-Keeps,
  next_behavior-Keeps,
}

-- The report that is stored under a key.
abbrev pub Holds : String → ExecutionReport → Mock → Type 0
Holds key r m = lookup key m.reports ≡ some r

module _ (key : String) (r : ExecutionReport) (q : OrderRequest) where
  -- The report is stored, and the request's key is free.
  abbrev Before : Dict ExecutionReport → Type 0
  Before d = (lookup key d ≡ some r) × (lookup q.idempotency_key d ≡ none)

  put_report-Holds :
      (report : ExecutionReport) (m : Mock)
      → Before m.reports
      → Holds key r (put_report q.idempotency_key report m)
  put_report-Holds report m h =
      ground
        (arith, lookup-insert q.idempotency_key key report m.reports, eq_iff q.idempotency_key key)

  abbrev Kept : Mock → Type 0
  Kept = Holds key r

  weaken :
      {A : Type 0} {m : Exec Mock A} {R : A → Mock → Type 0}
      → Ensures (λ (s : Mock). Before s.reports) (λ (s : Mock). Before s.reports) m R
      → Ensures Kept (λ (s : Mock). Before s.reports) m R
  weaken h = Ensures-error (λ s b. b.0) h

  accept-Ensures :
      (pending : Bool) (behavior : MockSendBehavior)
      → Ensures Kept (λ (s : Mock). Before s.reports) (accept q pending behavior) (λ _. Kept)
  unfolding accept
  accept-Ensures pending behavior =
      Ensures-bind (get_tick q.symbol) _ (weaken (get_tick-Keeps Before q.symbol)) (λ t.
        Ensures-bind (next_ticket (ticket_prefix pending)) _
          (weaken (next_ticket-Keeps Before (ticket_prefix pending)))
          (λ ticket. Ensures-bind read_clock _ (weaken (clock-Keeps Before)) (λ now.
            let report = placed_report q pending ticket (price_of q t) now in
            Ensures-bind (store (put_report q.idempotency_key report)) _
              (record { post = λ m h. put_report-Holds report m h })
              (λ _.
                record_trade-Keeps (λ d. lookup key d ≡ some r) q pending behavior ticket
                  (price_of q t) report))))

  plain-Ensures :
      (pending : Bool) (behavior : MockSendBehavior)
      → Ensures Kept (λ (s : Mock). Before s.reports) (send_checked q pending behavior) (λ _. Kept)
  unfolding send_checked
  plain-Ensures pending behavior =
      Ensures-bind (validate_order q) _ (weaken (validate_order-Keeps Before q)) (λ check.
        Ensures-if (not check.accepted || is_reject behavior)
          (Ensures-bind read_clock _ (weaken (clock-Keeps Before))
            (λ now. Ensures-pure (rejected_report q check now) (λ m h. h.0)))
          (accept-Ensures pending behavior))

  send_new-Ensures :
      (pending : Bool) (behavior : MockSendBehavior)
      → Ensures Kept (λ (s : Mock). Before s.reports) (send_new q pending behavior) (λ _. Kept)
  unfolding send_new
  send_new-Ensures pending timeout_before_accept = Ensures-raise _ (λ m h. h.0)
  send_new-Ensures pending normal = plain-Ensures pending normal
  send_new-Ensures pending reject = plain-Ensures pending reject
  send_new-Ensures pending timeout_after_accept = plain-Ensures pending timeout_after_accept

  place_by-Post :
      (pending : Bool) (o : Option ExecutionReport) (m : Mock)
      → Holds key r m
      → lookup q.idempotency_key m.reports ≡ o
      → Post Kept (λ _. Kept) (place_by q pending o m)
  place_by-Post pending (some old) m h e = h
  place_by-Post pending none m h e =
      (Ensures-bind next_behavior (send_new q pending) (weaken (next_behavior-Keeps Before))
          (send_new-Ensures pending)).post
        m (h, e)

  pub place-Keeps : (pending : Bool) → Keeps Kept (place q pending)
  unfolding place
  place-Keeps pending = record {
    post = λ m h.
        place_by-Post pending (lookup q.idempotency_key m.reports)
          (record m { send_calls = suc m.send_calls }) h refl;
  }

-- What can happen to the broker.
pub data Operation : Type 0 where
  market pending_entry : OrderRequest → Operation
  modify corrupt : String → Decimal → Option Decimal → Operation
  close : String → Option Decimal → Operation
  cancel : String → Operation
  health : Option Bool → Option Bool → Option Bool → Operation
  hours modification : Bool → Operation
  price : Tick → Operation
  money : AccountSnapshot → Operation
  seeded_position : BrokerPosition → Operation
  seeded_order : BrokerOrder → Operation
  script : MockSendBehavior → Operation
  connected disconnected : Operation

unfoldable pub apply : Operation → Mock → Mock
apply (market q) m = (place_market_order q m).1
apply (pending_entry q) m = (place_pending_order q m).1
apply (modify ticket stop target) m = (modify_position ticket stop target m).1
apply (corrupt ticket stop target) m = (corrupt_position_protection ticket stop target m).1
apply (close ticket volume) m = (close_position ticket volume m).1
apply (cancel ticket) m = (cancel_order ticket m).1
apply (health c h t) m = set_health c h t m
apply (hours b) m = set_market_open b m
apply (modification b) m = set_position_modification_allowed b m
apply (price t) m = set_tick t m
apply (money a) m = set_account a m
apply (seeded_position p) m = seed_position p m
apply (seeded_order o) m = seed_order o m
apply (script b) m = queue_send_behavior b m
apply connected m = connect m
apply disconnected m = disconnect m

unfoldable pub run : List Operation → Mock → Mock
run [] m = m
run (o ∷ os) m = run os (apply o m)
