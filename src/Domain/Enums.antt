-- ===== src/Domain/Enums.antt =====
-- app/domain/enums.py: the canonical enumerations, with the tests that the code makes on them.
use sarkfxbot.Base.{ℕ, Bool, true, false}
use sarkfxbot.Base.Int.{ℤ, pos, negsuc}

pub data TradingMode : Type 0 where
  signal semi_auto auto : TradingMode

pub data TradingEnvironment : Type 0 where
  development test backtest demo production : TradingEnvironment

pub data AccountType : Type 0 where
  demo real unknown : AccountType

pub data SignalAction : Type 0 where
  long short wait exit : SignalAction

pub data Direction : Type 0 where
  long short : Direction

-- Direction.sign
abbrev pub sign : Direction → ℤ
sign Direction.long = pos 1
sign Direction.short = negsuc 0

pub data SignalStatus : Type 0 where
  active approval_required approved executed rejected expired cancelled error : SignalStatus

pub data OrderType : Type 0 where
  market limit stop : OrderType

pub data OrderStatus : Type 0 where
  pending filled partially_filled cancelled rejected : OrderStatus

pub data TradeState : Type 0 where
  scanning signal_found waiting_for_entry entry_ready order_pending order_filled : TradeState
  position_open tp1_hit break_even closing closed stopped_out expired cancelled error : TradeState

pub data Timeframe : Type 0 where
  m1 m5 m15 m30 h1 h4 d1 : Timeframe

-- Timeframe.seconds
abbrev pub seconds : Timeframe → ℕ
seconds Timeframe.m1 = 60
seconds Timeframe.m5 = 300
seconds Timeframe.m15 = 900
seconds Timeframe.m30 = 1800
seconds Timeframe.h1 = 3600
seconds Timeframe.h4 = 14400
seconds Timeframe.d1 = 86400

-- The tests `x is C` on enumerations.
abbrev pub is_long : Direction → Bool
is_long Direction.long = true
is_long Direction.short = false

abbrev pub is_market : OrderType → Bool
is_market OrderType.market = true
is_market _ = false

abbrev pub is_signal_mode : TradingMode → Bool
is_signal_mode TradingMode.signal = true
is_signal_mode _ = false

abbrev pub is_semi_auto : TradingMode → Bool
is_semi_auto TradingMode.semi_auto = true
is_semi_auto _ = false

abbrev pub is_auto : TradingMode → Bool
is_auto TradingMode.auto = true
is_auto _ = false

abbrev pub is_demo_environment : TradingEnvironment → Bool
is_demo_environment TradingEnvironment.demo = true
is_demo_environment _ = false

abbrev pub is_production : TradingEnvironment → Bool
is_production TradingEnvironment.production = true
is_production _ = false

abbrev pub is_demo_account : AccountType → Bool
is_demo_account AccountType.demo = true
is_demo_account _ = false

abbrev pub is_real_account : AccountType → Bool
is_real_account AccountType.real = true
is_real_account _ = false

abbrev pub is_unknown_account : AccountType → Bool
is_unknown_account AccountType.unknown = true
is_unknown_account _ = false
