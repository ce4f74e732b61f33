-- ===== src/Brokers/Mock/Trading.antt =====
-- app/brokers/mock.py: placing an order, once for each idempotency key.
use sarkfxbot.Base.{
  ℕ, zero, suc, ◌/◌, ◌%◌, String, Bool, true, false, not, ◌||◌, Option, none, some, List, [], ◌∷◌,
  ◌++◌, get_last?, ltb, if◌then◌else◌,
}
use Prim.Native.String
use sarkfxbot.Base.Decimal.{Decimal, zero_dec}
use sarkfxbot.Base.Dict.{lookup, insert}
use sarkfxbot.Base.Exec.{
  broker, broker_error, indeterminate, index_error, Result, ok, err, Exec, pure, raise, lift, ◌>>=◌,
  ◌>>◌,
}
use sarkfxbot.Base.Reasons.{join}
use sarkfxbot.Base.Text.{take, drop}
use sarkfxbot.Domain.Enums.{is_market, OrderStatus}
use sarkfxbot.Domain.Models.{Timestamp}
use sarkfxbot.Domain.Orders.{
  BrokerOrder, BrokerPosition, make_position, ExecutionReport, OrderCheckResult, OrderRequest,
}
use sarkfxbot.Brokers.Mock.{
  MockSendBehavior, normal, reject, timeout_before_accept, timeout_after_accept, Deal, entry_in,
  Mock, read_clock,
}
use sarkfxbot.Brokers.Mock.Reads.{get_tick}
use sarkfxbot.Brokers.Mock.Checks.{price_of, validate_order}

-- The decimal digits of a number, by enough rounds.
unfoldable pub digits : ℕ → ℕ → String → String
digits zero n rest = rest
digits (suc rounds) n rest =
    let text = String.◌++◌ (take 1 (drop (n % 10) "0123456789")) rest in
    let more = digits rounds (n / 10) text in if ltb n 10 then text else more

-- _next_ticket
unfoldable pub next_ticket : String → Exec Mock String
next_ticket prefix m =
    let n = suc m.ticket_sequence in
    (ok (String.◌++◌ prefix (digits (suc n) n "")), record m { ticket_sequence = n })

abbrev pub is_reject : MockSendBehavior → Bool
is_reject reject = true
is_reject _ = false

abbrev pub first_behavior : List MockSendBehavior → MockSendBehavior × List MockSendBehavior
first_behavior [] = (normal, [])
first_behavior (b ∷ bs) = (b, bs)

-- popleft, or NORMAL where none is left
abbrev pub next_behavior : Exec Mock MockSendBehavior
next_behavior m =
    let (b, bs) = first_behavior m.send_behaviors in (ok b, record m { send_behaviors = bs })

abbrev pub joined : List String → String
joined [] = "scripted rejection"
joined (r ∷ rs) = join ", " (r ∷ rs)

abbrev pub rejected_report : OrderRequest → OrderCheckResult → Timestamp → ExecutionReport
rejected_report q check now = record {
  success = false;
  idempotency_key = q.idempotency_key;
  broker_ticket = none;
  requested_price = q.requested_price;
  executed_price = none;
  volume = q.volume;
  broker_code = some "MOCK_REJECT";
  message = joined check.reasons;
  submitted_at = now;
}

abbrev pub placed_report : OrderRequest → Bool → String → Decimal → Timestamp → ExecutionReport
placed_report q pending ticket price now = record {
  success = true;
  idempotency_key = q.idempotency_key;
  broker_ticket = some ticket;
  requested_price = q.requested_price;
  executed_price = if pending then none else some price;
  volume = q.volume;
  broker_code = some (if pending then "MOCK_PLACED" else "MOCK_FILLED");
  message = if pending then "pending order placed" else "market order filled";
  submitted_at = now;
}

-- request.take_profits[-1]
abbrev pub last_target : Option Decimal → Result Decimal
last_target none = err (index_error "tuple index out of range")
last_target (some t) = ok t

abbrev pub store : (Mock → Mock) → Exec Mock (Unit {0})
store f m = (ok tt, f m)

abbrev pub new_order : OrderRequest → String → Decimal → Decimal → Timestamp → BrokerOrder
new_order q ticket price target now = record {
  ticket = ticket;
  symbol = q.symbol;
  direction = q.direction;
  order_type = q.order_type;
  volume = q.volume;
  price = price;
  stop_loss = q.stop_loss;
  take_profit = some target;
  status = OrderStatus.pending;
  created_at = now;
  idempotency_key = q.idempotency_key;
}

abbrev pub put_order : BrokerOrder → Mock → Mock
put_order o m = record m { orders = insert o.ticket o m.orders }

abbrev pub put_position : String → BrokerPosition → Mock → Mock
put_position ticket p m = record m { positions = insert ticket p m.positions }

abbrev pub put_deal : Deal → Mock → Mock
put_deal d m = record m { deals = m.deals ++ (d ∷ []) }

abbrev pub put_report : String → ExecutionReport → Mock → Mock
put_report key report m = record m { reports = insert key report m.reports }

abbrev pub put_history : String → Timestamp → String → Mock → Mock
put_history ticket time key m = record m {
  order_history =
      m.order_history ++ (record { ticket = ticket; time = time; idempotency_key = key } ∷ []);
}

unfoldable pub add_order : OrderRequest → String → Decimal → Exec Mock (Unit {0})
add_order q ticket price = do
  target ← lift (last_target (get_last? q.take_profits))
  now ← read_clock
  store (put_order (new_order q ticket price target now))

abbrev pub new_position : OrderRequest → String → Decimal → Decimal → Timestamp → BrokerPosition
new_position q ticket price target now = record {
  ticket = ticket;
  symbol = q.symbol;
  direction = q.direction;
  volume = q.volume;
  open_price = price;
  current_price = price;
  stop_loss = q.stop_loss;
  take_profit = some target;
  profit = zero_dec;
  opened_at = now;
  strategy_id = q.strategy_id;
  signal_id = some q.signal_id;
}

unfoldable pub add_position : OrderRequest → String → Decimal → Exec Mock (Unit {0})
add_position q ticket price = do
  target ← lift (last_target (get_last? q.take_profits))
  opened ← read_clock
  p ← lift (make_position (new_position q ticket price target opened))
  store (put_position ticket p)
  now ← read_clock
  store (put_deal (entry_in ticket now price))

abbrev pub lost : MockSendBehavior → ExecutionReport → Exec Mock ExecutionReport
lost timeout_after_accept report =
    raise (broker indeterminate "mock order accepted but response was lost")
lost _ report = pure report

-- What _place does with an order that passed the check.
abbrev pub ticket_prefix : Bool → String
ticket_prefix pending = if pending then "O" else "P"

-- The order or the position of an accepted request.
abbrev pub add_trade : Bool → OrderRequest → String → Decimal → Exec Mock (Unit {0})
add_trade pending q ticket price =
    if pending then add_order q ticket price else add_position q ticket price

-- What follows the stored report.
unfoldable pub record_trade :
    OrderRequest
    → Bool
    → MockSendBehavior
    → String
    → Decimal
    → ExecutionReport
    → Exec Mock ExecutionReport
record_trade q pending behavior ticket price report = do
  add_trade pending q ticket price
  later ← read_clock
  store (put_history ticket later q.idempotency_key)
  lost behavior report

-- What _place does with an order that passed the check.
unfoldable pub accept : OrderRequest → Bool → MockSendBehavior → Exec Mock ExecutionReport
accept q pending behavior = do
  t ← get_tick q.symbol
  ticket ← next_ticket (ticket_prefix pending)
  now ← read_clock
  let price = price_of q t
  let report = placed_report q pending ticket price now
  store (put_report q.idempotency_key report)
  record_trade q pending behavior ticket price report

unfoldable pub send_checked : OrderRequest → Bool → MockSendBehavior → Exec Mock ExecutionReport
send_checked q pending behavior = do
  check ← validate_order q
  if not check.accepted || is_reject behavior
      then (do now ← read_clock; pure (rejected_report q check now))
      else accept q pending behavior

unfoldable pub send_new : OrderRequest → Bool → MockSendBehavior → Exec Mock ExecutionReport
send_new q pending timeout_before_accept =
    raise (broker indeterminate "mock response timed out before acceptance was known")
send_new q pending behavior = send_checked q pending behavior

-- By the report that an earlier call left under the key.
abbrev pub place_by : OrderRequest → Bool → Option ExecutionReport → Exec Mock ExecutionReport
place_by q pending (some report) = pure report
place_by q pending none = do behavior ← next_behavior; send_new q pending behavior

-- _place
unfoldable pub place : OrderRequest → Bool → Exec Mock ExecutionReport
place q pending m =
    place_by q pending (lookup q.idempotency_key m.reports)
      (record m { send_calls = suc m.send_calls })

unfoldable pub place_market_order : OrderRequest → Exec Mock ExecutionReport
place_market_order q =
    if not (is_market q.order_type)
    then raise (broker broker_error "market placement requires a MARKET request")
    else place q false

abbrev pub is_absent : {A : Type 0} → Option A → Bool
is_absent none = true
is_absent (some a) = false

unfoldable pub place_pending_order : OrderRequest → Exec Mock ExecutionReport
place_pending_order q =
    if is_market q.order_type
    then raise (broker broker_error "pending placement requires LIMIT or STOP")
    else if is_absent q.requested_price
    then raise (broker broker_error "pending orders require a requested price")
    else place q true
