-- ===== src/Brokers/Mock.antt =====
-- app/brokers/mock.py, the in-memory broker: its state and its settings. A method is an action on
-- the state, so what it wrote before a raise stays written. The clock that the constructor is given
-- is the list of its readings: `time n` is what its call number n returns.
pub mod Reads
pub mod Checks
pub mod Trading
pub mod Digits
pub mod Closing
pub mod Reports
pub mod Replays
pub mod Histories
pub mod Once
use sarkfxbot.Base.{
  last_items, ℕ, suc, ◌+◌, ◌-◌, ◌≤◌, String, str_eq, Bool, true, false, not, ◌&&◌, ◌||◌, Option,
  none, some, List, [], ◌∷◌, ◌++◌, any, filter, length, is_empty, leb, ltb, ◌==◌, if◌then◌else◌,
}
use sarkfxbot.Base.Int.{ℤ, pos, negsuc}
use sarkfxbot.Base.Decimal.{
  Decimal, of_ℕ, of_ℤ, dec_ltb, dec_leb, dec_eqb, ◌⊖◌, ◌⊗◌, ◌⊘◌, floor, zero_dec,
}
use sarkfxbot.Base.Dict.{Dict, lookup, insert, values}
use sarkfxbot.Base.Exec.{
  Error, broker, broker_error, unavailable, value_error, Result, ok, err, Exec, pure, raise, lift,
  ◌>>=◌, ◌>>◌,
}
use sarkfxbot.Base.Reasons.{Check, failing}
use sarkfxbot.Domain.Enums.{Direction, sign, is_long, Timeframe, seconds}
use sarkfxbot.Domain.Models.{
  Timestamp, AccountSnapshot, make_account, Candle, SymbolSpecification, Tick,
}
use sarkfxbot.Domain.Orders.{
  BrokerOrder, BrokerPosition, ExecutionReport, OrderCheckResult, OrderRequest,
}
use sarkfxbot.Brokers.Port.{BrokerHealth}
use sarkfxbot.Brokers.Symbols

pub data MockSendBehavior : Type 0 where
  normal reject timeout_before_accept timeout_after_accept : MockSendBehavior

-- An entry of `_deals`: the price of an IN deal, the volume of an OUT deal.
pub data Deal : Type 0 where
  entry_in : String → Timestamp → Decimal → Deal
  entry_out : String → Timestamp → Decimal → Deal

abbrev pub deal_time : Deal → Timestamp
deal_time (entry_in ticket time price) = time
deal_time (entry_out ticket time volume) = time

-- An entry of `_order_history`.
pub record HistoryOrder : Type 0 where
  pub ticket : String
  pub time : Timestamp
  pub idempotency_key : String

pub record Mock : Type 0 where
  pub account : AccountSnapshot
  pub symbols : Dict SymbolSpecification
  pub ticks : Dict Tick
  pub candles : List ((String × Timeframe) × List Candle)
  pub time : ℕ → Timestamp
  pub clock_calls : ℕ
  pub connected : Bool
  pub healthy : Bool
  pub trading_allowed : Bool
  pub market_open : Bool
  pub position_modification_allowed : Bool
  pub positions : Dict BrokerPosition
  pub orders : Dict BrokerOrder
  pub reports : Dict ExecutionReport
  pub send_behaviors : List MockSendBehavior
  pub ticket_sequence : ℕ
  pub deals : List Deal
  pub order_history : List HistoryOrder
  pub send_calls : ℕ
  pub order_check_calls : ℕ
  pub modify_calls : ℕ
  pub close_calls : ℕ

-- self._clock()
abbrev pub read_clock : Exec Mock Timestamp
read_clock m = (ok (m.time m.clock_calls), record m { clock_calls = suc m.clock_calls })

-- A read that does not change the state.
abbrev pub reads : {A : Type 0} → (Mock → Result A) → Exec Mock A
reads f m = (f m, m)

abbrev pub set_or : Option Bool → Bool → Bool
set_or none old = old
set_or (some b) old = b

abbrev pub set_health : Option Bool → Option Bool → Option Bool → Mock → Mock
set_health connected healthy trading_allowed m = record m {
  connected = set_or connected m.connected;
  healthy = set_or healthy m.healthy;
  trading_allowed = set_or trading_allowed m.trading_allowed;
}

abbrev pub set_market_open : Bool → Mock → Mock
set_market_open value m = record m { market_open = value }

abbrev pub set_position_modification_allowed : Bool → Mock → Mock
set_position_modification_allowed value m = record m { position_modification_allowed = value }

abbrev pub set_tick : Tick → Mock → Mock
set_tick t m = record m { ticks = insert t.symbol t m.ticks }

abbrev pub set_account : AccountSnapshot → Mock → Mock
set_account a m = record m { account = a }

abbrev pub seed_position : BrokerPosition → Mock → Mock
seed_position p m = record m { positions = insert p.ticket p m.positions }

abbrev pub seed_order : BrokerOrder → Mock → Mock
seed_order o m = record m { orders = insert o.ticket o m.orders }

abbrev pub queue_send_behavior : MockSendBehavior → Mock → Mock
queue_send_behavior b m = record m { send_behaviors = m.send_behaviors ++ (b ∷ []) }

abbrev pub connect : Mock → Mock
connect m = record m { connected = true }

abbrev pub disconnect : Mock → Mock
disconnect m = record m { connected = false }

unfoldable pub health_check : Mock → BrokerHealth
health_check m = record {
  healthy = m.connected && m.healthy;
  connected = m.connected;
  trading_allowed = m.connected && m.healthy && m.trading_allowed;
  message = if m.connected && m.healthy then "ok" else "mock broker unavailable";
}

-- _require_connection
unfoldable pub require_connection : Exec Mock (Unit {0})
require_connection m =
    if not m.connected || not m.healthy
    then raise (broker unavailable "mock broker is disconnected or unhealthy") m
    else pure tt m
