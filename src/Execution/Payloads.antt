-- ===== src/Execution/Payloads.antt =====
-- The payloads of app/execution/sqlalchemy_idempotency.py: requests and reports as the JSON that is
-- stored, written and read.
pub mod RoundTrips
use sarkfxbot.Base.{
  ℕ, String, str_eq, Bool, true, false, Option, none, some, List, [], ◌∷◌, map, if◌then◌else◌,
}
use sarkfxbot.Base.Decimal.{Decimal, dec_eqb, zero_dec, of_ℕ}
use sarkfxbot.Base.Dict.{Dict, lookup}
use sarkfxbot.Base.Exec.{Result, ok, err, value_error, key_error}
use sarkfxbot.Domain.Enums.{Direction, OrderType}
use sarkfxbot.Domain.Models.{Timestamp}
use sarkfxbot.Domain.Orders.{OrderRequest, ExecutionReport, make_request}
use sarkfxbot.Execution.Json.{
  wrong_type, Payload, Value, decimal, decimal_of, decimal_or_none, decimals_of, flag, flag_of,
  get_or, instant, instant_of, instant_or_none, item, null, number, object, required, several,
  single, single_item, text, text_of, text_or_none, value, values, ◌>>=◌,
}

-- str(price) if price else None: a price of zero is written as None
abbrev pub price_value : Option Decimal → Value
price_value none = null
price_value (some d) = if dec_eqb d zero_dec then null else decimal d

abbrev pub instant_value : Option Timestamp → Value
instant_value none = null
instant_value (some t) = instant t

abbrev pub text_value : Option String → Value
text_value none = null
text_value (some s) = text s

-- The values of the enumerations.
abbrev pub direction_text : Direction → String
direction_text Direction.long = "LONG"
direction_text Direction.short = "SHORT"

abbrev pub direction_of_text : String → Result Direction
direction_of_text s =
    if str_eq s "LONG"
    then ok Direction.long
    else if str_eq s "SHORT"
    then ok Direction.short
    else err (value_error "not a valid Direction")

abbrev pub order_type_text : OrderType → String
order_type_text OrderType.market = "MARKET"
order_type_text OrderType.limit = "LIMIT"
order_type_text OrderType.stop = "STOP"

abbrev pub order_type_of_text : String → Result OrderType
order_type_of_text s =
    if str_eq s "MARKET"
    then ok OrderType.market
    else if str_eq s "LIMIT"
    then ok OrderType.limit
    else if str_eq s "STOP"
    then ok OrderType.stop
    else err (value_error "not a valid OrderType")

-- _request_payload
unfoldable pub request_payload : OrderRequest → Dict Payload
request_payload r =
    ("signal_id", value (text r.signal_id))
    ∷ ("strategy_id", value (text r.strategy_id))
    ∷ ("symbol", value (text r.symbol))
    ∷ ("direction", value (text (direction_text r.direction)))
    ∷ ("order_type", value (text (order_type_text r.order_type)))
    ∷ ("volume", value (decimal r.volume))
    ∷ ("stop_loss", value (decimal r.stop_loss))
    ∷ ("take_profits", values (map decimal r.take_profits))
    ∷ ("idempotency_key", value (text r.idempotency_key))
    ∷ ("requested_price", value (price_value r.requested_price))
    ∷ ("entry_min", value (price_value r.entry_min))
    ∷ ("entry_max", value (price_value r.entry_max))
    ∷ ("expires_at", value (instant_value r.expires_at))
    ∷ ("maximum_slippage", value (decimal r.maximum_slippage))
    ∷ ("comment", value (text r.comment))
    ∷ []

abbrev text_item : String → Dict Payload → Result String
text_item key payload = do v ← single_item key payload; text_of v

abbrev decimal_item : String → Dict Payload → Result Decimal
decimal_item key payload = do v ← single_item key payload; decimal_of v

abbrev price_item : String → Dict Payload → Result (Option Decimal)
price_item key payload = do v ← get_or null (lookup key payload); decimal_or_none v

-- _request_from_payload
unfoldable pub request_from_payload : Dict Payload → Result OrderRequest
request_from_payload payload = do
  signal_id ← text_item "signal_id" payload
  strategy_id ← text_item "strategy_id" payload
  symbol ← text_item "symbol" payload
  direction_name ← text_item "direction" payload
  direction ← direction_of_text direction_name
  type_name ← text_item "order_type" payload
  order_type ← order_type_of_text type_name
  volume ← decimal_item "volume" payload
  stop_loss ← decimal_item "stop_loss" payload
  targets ← item "take_profits" payload
  target_values ← several targets
  take_profits ← decimals_of target_values
  idempotency_key ← text_item "idempotency_key" payload
  requested_price ← price_item "requested_price" payload
  entry_min ← price_item "entry_min" payload
  entry_max ← price_item "entry_max" payload
  expiry ← get_or null (lookup "expires_at" payload)
  expires_at ← instant_or_none expiry
  maximum_slippage ← decimal_item "maximum_slippage" payload
  comment_value ← get_or (text "goldflow") (lookup "comment" payload)
  comment ← text_of comment_value
  make_request (record {
    signal_id = signal_id;
    strategy_id = strategy_id;
    symbol = symbol;
    direction = direction;
    order_type = order_type;
    volume = volume;
    stop_loss = stop_loss;
    take_profits = take_profits;
    idempotency_key = idempotency_key;
    requested_price = requested_price;
    entry_min = entry_min;
    entry_max = entry_max;
    expires_at = expires_at;
    maximum_slippage = maximum_slippage;
    comment = comment;
  })

-- _report_payload
unfoldable pub report_payload : ExecutionReport → Dict Value
report_payload r =
    ("success", flag r.success)
    ∷ ("idempotency_key", text r.idempotency_key)
    ∷ ("broker_ticket", text_value r.broker_ticket)
    ∷ ("requested_price", price_value r.requested_price)
    ∷ ("executed_price", price_value r.executed_price)
    ∷ ("volume", decimal r.volume)
    ∷ ("broker_code", text_value r.broker_code)
    ∷ ("message", text r.message)
    ∷ ("submitted_at", instant r.submitted_at)
    ∷ []

-- The report of _report_from_payload, when there is one.
unfoldable pub report_of : Dict Value → Result ExecutionReport
report_of report = do
  success_value ← item "success" report
  success ← flag_of success_value
  key_value ← item "idempotency_key" report
  idempotency_key ← text_of key_value
  ticket_value ← item "broker_ticket" report
  broker_ticket ← text_or_none ticket_value
  requested_value ← item "requested_price" report
  requested_price ← decimal_or_none requested_value
  executed_value ← item "executed_price" report
  executed_price ← decimal_or_none executed_value
  volume_value ← item "volume" report
  volume ← decimal_of volume_value
  code_value ← item "broker_code" report
  broker_code ← text_or_none code_value
  message_value ← item "message" report
  message ← text_of message_value
  time_value ← item "submitted_at" report
  submitted_at ← instant_of time_value
  ok (record {
    success = success;
    idempotency_key = idempotency_key;
    broker_ticket = broker_ticket;
    requested_price = requested_price;
    executed_price = executed_price;
    volume = volume;
    broker_code = broker_code;
    message = message;
    submitted_at = submitted_at;
  })

abbrev pub report_at : Option Payload → Result (Option ExecutionReport)
report_at none = ok none
report_at (some (object report)) = do r ← report_of report; ok (some r)
report_at (some _) = wrong_type

-- _report_from_payload
unfoldable pub report_from_payload : Dict Payload → Result (Option ExecutionReport)
report_from_payload payload = report_at (lookup "report" payload)
