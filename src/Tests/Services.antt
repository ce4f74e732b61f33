-- ===== src/Tests/Services.antt =====
-- The concrete settings, executor and command of the tests.
use sarkfxbot.Tests.Fixtures.{now, account, gold, tick, long_signal, health, mock}
use sarkfxbot.Base.{true, false, none, some, [], ◌∷◌}
use sarkfxbot.Base.Int.{pos}
use sarkfxbot.Base.Decimal.{of_ℕ, ratio}
use sarkfxbot.Domain.Enums.{OrderType, TradingMode, TradingEnvironment}
use sarkfxbot.Risk.Models.{RiskLimits, RiskUsage, PositionSizingResult, PreTradeSnapshot}
use sarkfxbot.Risk.DemoValidation.{DemoThresholds}
use sarkfxbot.Risk.CircuitBreaker.{Schedule}
use sarkfxbot.Execution.Models.{ExecutionCommand}
use sarkfxbot.Execution.World.{World, Executor}

abbrev pub limits : RiskLimits
limits = record {
  risk_per_trade = ratio (pos 1) 99;
  maximum_daily_loss = ratio (pos 3) 99;
  maximum_weekly_loss = ratio (pos 6) 99;
  maximum_account_drawdown = ratio (pos 10) 99;
  maximum_open_positions = 3;
  maximum_gold_positions = 1;
  minimum_risk_reward = ratio (pos 3) 1;
  maximum_spread = of_ℕ 1;
  maximum_tick_age = 5000000;
}

abbrev pub usage : RiskUsage
usage = record {
  daily_realized_loss = of_ℕ 0;
  weekly_realized_loss = of_ℕ 0;
  open_risk = of_ℕ 0;
  peak_equity = some (of_ℕ 10000);
}

abbrev pub sizing : PositionSizingResult
sizing = record {
  volume = ratio (pos 10) 99;
  cash_risk = of_ℕ 100;
  risk_fraction = ratio (pos 1) 99;
  allowed_cash_risk = of_ℕ 100;
  loss_at_one_lot = of_ℕ 1000;
}

abbrev pub quiet_market : PreTradeSnapshot
quiet_market = record {
  now = now;
  account = account;
  symbol = gold;
  tick = tick;
  health = health;
  market_open = true;
  session_allowed = true;
  equivalent_symbols = "XAUUSD" ∷ [];
  positions = [];
  orders = [];
  usage = usage;
  required_margin = of_ℕ 200;
  kill_switch = false;
  circuit_locked = false;
}

abbrev pub schedule : Schedule
schedule = record { daily_reset_hour_utc = 0; weekly_reset_weekday = 0 }

abbrev pub thresholds : DemoThresholds
thresholds = record {
  minimum_trades = 100;
  maximum_drawdown = ratio (pos 1) 9;
  minimum_profit_factor = ratio (pos 12) 9;
}

abbrev pub executor : Executor
executor = record {
  adapter = mock;
  limits = limits;
  circuit = some schedule;
  require_demo_validation_for_live = true;
  demo = thresholds;
  protection_visibility_attempts = 3;
}

abbrev pub command : ExecutionCommand
command = record {
  trade_signal = long_signal;
  mode = TradingMode.auto;
  environment = TradingEnvironment.demo;
  order_type = OrderType.market;
  requested_price = none;
  maximum_slippage = of_ℕ 1;
  approved = true;
  live_trading_enabled = false;
  configured_live_confirmation = none;
  required_live_confirmation = none;
  demo_performance = none;
  session_allowed = true;
  risk_usage = usage;
}

abbrev pub fresh : World
fresh = record { calls = []; records = []; circuits = [] }
