-- ===== src/Tests/Mocks.antt =====
-- Tests of app/brokers/mock.py at concrete inputs.
use sarkfxbot.Base.{true, false, none, some, List, [], ◌∷◌, ◌≡◌, refl, suc}
use sarkfxbot.Base.Int.{pos}
use sarkfxbot.Base.Decimal.{ratio, of_ℕ, ◌⊗◌, ◌⊖◌, ◌⊘◌, floor, of_ℤ, side}
use sarkfxbot.Base.Exec.{ok}
use sarkfxbot.Domain.Orders.{ExecutionReport, make_position}
use sarkfxbot.Brokers.Mock.{Mock, require_connection, health_check}
use sarkfxbot.Brokers.Mock.Reads.{specification, get_tick, is_market_open, calculate_margin}
use sarkfxbot.Base.Dict.{lookup, insert}
use sarkfxbot.Base.Reasons.{failing}
use sarkfxbot.Brokers.Mock.Checks.{validate_order, check_order, price_of}
use sarkfxbot.Brokers.Mock.Trading.{
  place, send_new, send_checked, accept, next_ticket, digits, record_trade, add_position,
}
use sarkfxbot.Brokers.Mock.Replays.{Operation, run}
use sarkfxbot.Brokers.Mock.Once.{place_once}
use sarkfxbot.Tests.Fixtures.{now, account, gold, tick, request}

abbrev demo : Mock
demo = record {
  account = account;
  symbols = ("XAUUSD", gold) ∷ [];
  ticks = ("XAUUSD", tick) ∷ [];
  candles = [];
  time = λ n. now;
  clock_calls = 0;
  connected = true;
  healthy = true;
  trading_allowed = true;
  market_open = true;
  position_modification_allowed = true;
  positions = [];
  orders = [];
  reports = [];
  send_behaviors = [];
  ticket_sequence = 0;
  deals = [];
  order_history = [];
  send_calls = 0;
  order_check_calls = 0;
  modify_calls = 0;
  close_calls = 0;
}

abbrev filled : ExecutionReport
filled = record {
  success = true;
  idempotency_key = "7:s";
  broker_ticket = some "P1";
  requested_price = some (of_ℕ 2000);
  executed_price = some (of_ℕ 2000);
  volume = ratio (pos 10) 99;
  broker_code = some "MOCK_FILLED";
  message = "market order filled";
  submitted_at = now;
}

fills : (place request false demo).0 ≡ ok filled
unfolding place send_new send_checked validate_order check_order specification get_tick
    is_market_open require_connection health_check calculate_margin price_of accept next_ticket
    digits record_trade add_position make_position lookup insert failing ◌⊗◌ ◌⊖◌ ◌⊘◌ floor of_ℤ side
fills = refl

-- Closing the position and losing the connection in between.
abbrev between : List Operation
between = Operation.close "P1" none ∷ Operation.disconnected ∷ []

place_once_example : place request false (run between (place request false demo).1) ≡ (
  ok filled,
  record (run between (place request false demo).1) {
    send_calls = suc (run between (place request false demo).1).send_calls;
  },
)
place_once_example = place_once request false demo filled fills refl between request false refl
