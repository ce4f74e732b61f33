-- ===== src/Tests/Fixtures.antt =====
-- The concrete account, symbol, signal, broker and executor of the tests.
use sarkfxbot.Base.{true, none, some, List, [], ◌∷◌}
use sarkfxbot.Base.Int.{pos}
use sarkfxbot.Base.Decimal.{of_ℕ, ratio, ◌⊗◌}
use sarkfxbot.Base.Exec.{ok}
use sarkfxbot.Domain.Enums.{AccountType, Direction, OrderType, SignalAction, SignalStatus}
use sarkfxbot.Domain.Models.{Timestamp, AccountSnapshot, SymbolSpecification, Tick, TradeSignal}
use sarkfxbot.Domain.Orders.{OrderRequest, ExecutionReport, BrokerPosition}
use sarkfxbot.Brokers.Port.{BrokerHealth, Broker, Trace}

-- 1000 days after the start of the calendar
abbrev pub now : Timestamp
now = 86400000000000

abbrev pub account : AccountSnapshot
account = record {
  broker = "mock";
  platform = "mt5";
  account_id = "7";
  server = "demo";
  currency = "USD";
  balance = of_ℕ 10000;
  equity = of_ℕ 10000;
  margin = of_ℕ 0;
  free_margin = of_ℕ 10000;
  leverage = pos 100;
  account_type = AccountType.demo;
  timestamp = now;
}

abbrev pub gold : SymbolSpecification
gold = record {
  name = "XAUUSD";
  canonical_symbol = "XAUUSD";
  base_currency = "XAU";
  quote_currency = "USD";
  digits = 2;
  point = ratio (pos 1) 99;
  tick_size = ratio (pos 1) 99;
  tick_value = of_ℕ 1;
  contract_size = of_ℕ 100;
  volume_min = ratio (pos 1) 99;
  volume_max = of_ℕ 10;
  volume_step = ratio (pos 1) 99;
  stops_level_points = pos 10;
  visible = true;
  trade_enabled = true;
  description = "gold";
}

abbrev pub tick : Tick
tick = record { symbol = "XAUUSD"; bid = of_ℕ 2000; ask = of_ℕ 2000; timestamp = now }

abbrev pub long_signal : TradeSignal
long_signal = record {
  symbol = "XAUUSD";
  canonical_symbol = "XAUUSD";
  action = SignalAction.long;
  strategy_id = "trend";
  strategy_version = "1";
  confidence_score = pos 80;
  entry_min = some (of_ℕ 1990);
  entry_max = some (of_ℕ 2010);
  stop_loss = some (of_ℕ 1990);
  take_profits = of_ℕ 2020 ∷ of_ℕ 2030 ∷ [];
  risk_reward = some (of_ℕ 2);
  rationale = [];
  status = SignalStatus.active;
  created_at = now;
  expires_at = none;
  signal_id = "s";
}

abbrev pub request : OrderRequest
request = record {
  signal_id = "s";
  strategy_id = "trend";
  symbol = "XAUUSD";
  direction = Direction.long;
  order_type = OrderType.market;
  volume = ratio (pos 10) 99;
  stop_loss = of_ℕ 1990;
  take_profits = of_ℕ 2020 ∷ of_ℕ 2030 ∷ [];
  idempotency_key = "7:s";
  requested_price = some (of_ℕ 2000);
  entry_min = some (of_ℕ 1990);
  entry_max = some (of_ℕ 2010);
  expires_at = none;
  maximum_slippage = of_ℕ 1;
  comment = "goldflow";
}

abbrev pub report : ExecutionReport
report = record {
  success = true;
  idempotency_key = "7:s";
  broker_ticket = some "11";
  requested_price = some (of_ℕ 2000);
  executed_price = some (of_ℕ 2000);
  volume = ratio (pos 10) 99;
  broker_code = none;
  message = "filled";
  submitted_at = now;
}

abbrev pub position : BrokerPosition
position = record {
  ticket = "11";
  symbol = "XAUUSD";
  direction = Direction.long;
  volume = ratio (pos 10) 99;
  open_price = of_ℕ 2000;
  current_price = of_ℕ 2000;
  stop_loss = of_ℕ 1990;
  take_profit = some (of_ℕ 2030);
  profit = of_ℕ 0;
  opened_at = now;
  strategy_id = "trend";
  signal_id = some "s";
}

abbrev pub health : BrokerHealth
health = record { healthy = true; connected = true; trading_allowed = true; message = "" }

-- The positions after the calls of a trace: the fill, once an order was placed.
abbrev pub positions_after : Trace → List BrokerPosition
positions_after [] = []
positions_after (sarkfxbot.Brokers.Port.Call.place_market_order q ∷ calls) = position ∷ []
positions_after (c ∷ calls) = positions_after calls

-- A broker that fills every order and sees a loss of a thousand for a lot at the stop.
abbrev pub mock : Broker
mock = record {
  connect = λ calls. ok tt;
  disconnect = λ calls. ok tt;
  health_check = λ calls. ok health;
  get_account = λ calls. ok account;
  get_symbols = λ calls. ok (gold ∷ []);
  resolve_symbol = λ name calls. ok gold;
  get_tick = λ name calls. ok tick;
  get_candles = λ name frame count closed_only calls. ok [];
  get_positions = λ name calls. ok (positions_after calls);
  get_orders = λ name calls. ok [];
  is_market_open = λ name calls. ok true;
  calculate_margin = λ q price calls. ok (of_ℕ 200);
  calculate_profit = λ name d volume entry stop calls. ok (volume ⊗ of_ℕ 1000);
  validate_order = λ q calls.
      ok (record { accepted = true; reasons = []; margin_required = none; broker_code = none });
  place_market_order = λ q calls. ok report;
  place_pending_order = λ q calls. ok report;
  modify_position = λ ticket stop target calls. ok true;
  close_position = λ ticket volume calls. ok report;
  cancel_order = λ ticket calls. ok true;
  history_deals = λ start end calls. ok [];
  history_orders = λ start end calls. ok [];
  sha256_hex = λ s. "00";
  clock = λ calls. now;
}
