-- ===== src/Tests/Cancels.antt =====
-- Tests of cancel_pending_entries (app/execution/executor.py) at concrete inputs.
use sarkfxbot.Base.{none, [], ◌∷◌, List, String, refl, true}
use sarkfxbot.Base.Decimal.{ratio}
use sarkfxbot.Base.Int.{pos}
use sarkfxbot.Base.Exec.{ok}
use sarkfxbot.Domain.Enums.{Direction, OrderType, OrderStatus}
use sarkfxbot.Domain.Orders.{BrokerOrder}
use sarkfxbot.Brokers.Port.{Broker, Call}
use sarkfxbot.Execution.Recovery.{cancel_pending_entries}
use sarkfxbot.Execution.Recovery.Cancels.{IsCancelled, cancel_pending_entries-IsCancelled}
use sarkfxbot.Tests.Fixtures.{mock, now}

abbrev waiting : String → BrokerOrder
waiting ticket = record {
  ticket = ticket;
  symbol = "XAUUSD";
  direction = Direction.long;
  order_type = OrderType.limit;
  volume = ratio (pos 1) 10;
  price = ratio (pos 2000) 1;
  stop_loss = ratio (pos 1990) 1;
  take_profit = none;
  status = OrderStatus.pending;
  created_at = now;
  idempotency_key = ticket;
}

abbrev two_waiting : List BrokerOrder
two_waiting = waiting "7" ∷ waiting "8" ∷ []

abbrev waiting_broker : Broker
waiting_broker = record mock { get_orders = λ name calls. ok two_waiting }

cancel_pending_entries-IsCancelled_example :
    IsCancelled waiting_broker two_waiting
      (Call.get_orders none ∷ [])
      (cancel_pending_entries waiting_broker [])
cancel_pending_entries-IsCancelled_example =
    cancel_pending_entries-IsCancelled waiting_broker two_waiting [] (λ ticket calls. (true, refl))
      refl
