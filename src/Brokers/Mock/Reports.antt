-- ===== src/Brokers/Mock/Reports.antt =====
-- The methods of app/brokers/mock.py that leave the stored reports alone, whatever is asked of them.
use sarkfxbot.Base.{String, Bool, true, false, not, ◌||◌, arith, get_last?, if◌then◌else◌}
use sarkfxbot.Base.Decimal.{Decimal}
use sarkfxbot.Base.Dict.{Dict}
use sarkfxbot.Base.Exec.{Error, broker, unavailable, Result, ok, err, pure, raise, lift}
use sarkfxbot.Base.Ensures.{
  Post, Keeps, Ensures-pure, Ensures-raise, Ensures-if, Ensures-bind, Ensures-attempt,
}
use sarkfxbot.Domain.Models.{SymbolSpecification, Tick}
use sarkfxbot.Domain.Orders.{make_position, ExecutionReport, OrderRequest}
use sarkfxbot.Brokers.Mock.{
  Mock, MockSendBehavior, timeout_after_accept, read_clock, reads, require_connection, entry_in,
}
use sarkfxbot.Brokers.Mock.Reads.{get_tick, is_market_open, specification, calculate_margin}
use sarkfxbot.Brokers.Mock.Checks.{
  validate_order, check_order, find_symbol, count_check, symbol_unavailable,
}
use sarkfxbot.Brokers.Mock.Trading.{
  next_ticket, next_behavior, store, add_order, add_position, new_order, new_position, put_order,
  put_position, put_deal, put_history, add_trade, record_trade, last_target, lost,
}

-- Actions that leave the stored reports alone.
module _ (T : Dict ExecutionReport → Type 0) where
  abbrev pub Stays : Mock → Type 0
  Stays m = T m.reports

  pub reads-Keeps : {A : Type 0} (f : Mock → Result A) → Keeps Stays (reads f)
  reads-Keeps {A} f = record { post = λ m h. by_result (f m) m h }
    where
      by_result : (r : Result A) (m : Mock) → T m.reports → Post Stays (λ _. Stays) (r, m)
      by_result (ok a) m h = h
      by_result (err e) m h = h

  pub lift-Keeps : {A : Type 0} (r : Result A) → Keeps Stays (lift r)
  lift-Keeps (ok a) = record { post = λ m h. h }
  lift-Keeps (err e) = record { post = λ m h. h }

  pub clock-Keeps : Keeps Stays read_clock
  clock-Keeps = record { post = λ m h. h }

  pub guard-Keeps :
      (b : Bool) (e : Error) (m : Mock)
      → T m.reports
      → Post Stays (λ _. Stays) ((if b then raise e else pure tt) m)
  guard-Keeps true e m h = h
  guard-Keeps false e m h = h

  pub require_connection-Keeps : Keeps Stays require_connection
  unfolding require_connection
  require_connection-Keeps = record {
    post = λ m h. ground (
      arith,
      guard-Keeps (not m.connected || not m.healthy)
          (broker unavailable "mock broker is disconnected or unhealthy") m h,
    );
  }

  pub store-Keeps :
      (f : Mock → Mock) → ((m : Mock) → T m.reports → T (f m).reports) → Keeps Stays (store f)
  store-Keeps f h = record { post = h }

  pub specification-Keeps : (symbol : String) → Keeps Stays (specification symbol)
  unfolding specification
  specification-Keeps symbol = reads-Keeps _

  pub get_tick-Keeps : (symbol : String) → Keeps Stays (get_tick symbol)
  unfolding get_tick
  get_tick-Keeps symbol =
      Ensures-bind require_connection _ require_connection-Keeps (λ _. reads-Keeps _)

  pub is_market_open-Keeps : (symbol : String) → Keeps Stays (is_market_open symbol)
  unfolding is_market_open
  is_market_open-Keeps symbol =
      Ensures-bind require_connection _ require_connection-Keeps (λ _. reads-Keeps _)

  pub calculate_margin-Keeps :
      (q : OrderRequest) (price : Decimal) → Keeps Stays (calculate_margin q price)
  unfolding calculate_margin
  calculate_margin-Keeps q price = Ensures-bind require_connection _ require_connection-Keeps (λ _.
      Ensures-bind (specification q.symbol) _ (specification-Keeps q.symbol) (λ s. reads-Keeps _))

  pub check_order-Keeps :
      (q : OrderRequest) (v : SymbolSpecification × Tick) → Keeps Stays (check_order q v)
  unfolding check_order
  check_order-Keeps q (s, t) =
      Ensures-bind (is_market_open q.symbol) _ (is_market_open-Keeps q.symbol) (λ o.
        Ensures-bind (calculate_margin q _) _ (calculate_margin-Keeps q _)
          (λ margin. reads-Keeps _))

  pub symbol_unavailable-Keeps : (e : Error) → Keeps Stays (symbol_unavailable e)
  symbol_unavailable-Keeps (broker kind message) = Ensures-pure _ (λ m h. h)
  symbol_unavailable-Keeps e = Ensures-raise e (λ m h. h)

  pub validate_order-Keeps : (q : OrderRequest) → Keeps Stays (validate_order q)
  unfolding validate_order
  validate_order-Keeps q =
      Ensures-bind count_check _ (record { post = λ m h. h })
        (λ _.
          Ensures-attempt (find_symbol q) (check_order q) symbol_unavailable
            (Ensures-bind (specification q.symbol) _ (specification-Keeps q.symbol) (λ s.
              Ensures-bind (get_tick q.symbol) _ (get_tick-Keeps q.symbol)
                (λ t. Ensures-pure (s, t) (λ m h. h))))
            (check_order-Keeps q) symbol_unavailable-Keeps)

  pub next_ticket-Keeps : (prefix : String) → Keeps Stays (next_ticket prefix)
  unfolding next_ticket
  next_ticket-Keeps prefix = record { post = λ m h. h }

  pub add_order-Keeps :
      (q : OrderRequest) (ticket : String) (price : Decimal)
      → Keeps Stays (add_order q ticket price)
  unfolding add_order
  add_order-Keeps q ticket price =
      Ensures-bind (lift (last_target (get_last? q.take_profits))) _ (lift-Keeps _) (λ target.
        Ensures-bind read_clock _ clock-Keeps
          (λ now. store-Keeps (put_order (new_order q ticket price target now)) (λ m h. h)))

  pub add_position-Keeps :
      (q : OrderRequest) (ticket : String) (price : Decimal)
      → Keeps Stays (add_position q ticket price)
  unfolding add_position
  add_position-Keeps q ticket price =
      Ensures-bind (lift (last_target (get_last? q.take_profits))) _ (lift-Keeps _) (λ target.
        Ensures-bind read_clock _ clock-Keeps (λ opened.
          Ensures-bind (lift (make_position (new_position q ticket price target opened))) _
            (lift-Keeps _)
            (λ p.
              Ensures-bind (store (put_position ticket p)) _
                (store-Keeps (put_position ticket p) (λ m h. h))
                (λ _.
                  Ensures-bind read_clock _ clock-Keeps
                    (λ now. store-Keeps (put_deal (entry_in ticket now price)) (λ m h. h))))))

  pub lost-Keeps :
      (behavior : MockSendBehavior) (report : ExecutionReport) → Keeps Stays (lost behavior report)
  lost-Keeps timeout_after_accept report = Ensures-raise _ (λ m h. h)
  lost-Keeps behavior report = Ensures-pure report (λ m h. h)

  pub record_trade-Keeps :
      (q : OrderRequest) (pending : Bool) (behavior : MockSendBehavior) (ticket : String)
      (price : Decimal) (report : ExecutionReport)
      → Keeps Stays (record_trade q pending behavior ticket price report)
  unfolding record_trade
  record_trade-Keeps q pending behavior ticket price report =
      Ensures-bind (add_trade pending q ticket price) _
        (Ensures-if pending (add_order-Keeps q ticket price) (add_position-Keeps q ticket price))
        (λ _. Ensures-bind read_clock _ clock-Keeps (λ later.
          Ensures-bind (store (put_history ticket later q.idempotency_key)) _
            (store-Keeps (put_history ticket later q.idempotency_key) (λ m h. h))
            (λ _. lost-Keeps behavior report)))

  pub next_behavior-Keeps : Keeps Stays next_behavior
  next_behavior-Keeps = record { post = λ m h. h }
