-- ===== src/Domain/Models.antt =====
-- app/domain/models.py: the immutable values, each with the checks of its `__post_init__`.
-- Timestamps are whole microseconds since 0001-01-01 UTC (`datetime.min`); an aware datetime is its
-- instant, so `_utc` is the identity. UUIDs and tickets are their texts. Prices of `Candle`, which
-- are floats in the source, are exact decimals here: they are only compared and copied.
use sarkfxbot.Base.{
  ℕ, String, Bool, true, false, ◌&&◌, ◌||◌, Option, none, some, List, [], ◌∷◌, any, leb,
  if◌then◌else◌,
}
use sarkfxbot.Base.Int.{ℤ, ltb_ℤ, pos}
use sarkfxbot.Base.Decimal.{Decimal, dec_ltb, dec_leb, ◌⊖◌, max, min, zero_dec}
use sarkfxbot.Base.Exec.{value_error, Result, ok, err}
use sarkfxbot.Domain.Enums.{AccountType, Direction, SignalAction, SignalStatus, Timeframe}

abbrev pub Timestamp : Type 0
Timestamp = ℕ

-- One second, in the unit of the timestamps.
abbrev pub second : ℕ
second = 1000000

pub record Candle : Type 0 where
  pub symbol : String
  pub timeframe : Timeframe
  pub timestamp : Timestamp
  pub open_price : Decimal
  pub high : Decimal
  pub low : Decimal
  pub close : Decimal
  pub volume : Decimal
  pub spread : Decimal
  pub complete : Bool

-- Candle.__post_init__
pub make_candle : Candle → Result Candle
make_candle c =
    if dec_ltb c.high (max (max c.open_price c.close) c.low)
    then err (value_error "candle high is below an OHLC value")
    else if dec_ltb (min (min c.open_price c.close) c.high) c.low
    then err (value_error "candle low is above an OHLC value")
    else if dec_ltb c.volume zero_dec || dec_ltb c.spread zero_dec
    then err (value_error "candle volume and spread cannot be negative")
    else ok c

pub record Tick : Type 0 where
  pub symbol : String
  pub bid : Decimal
  pub ask : Decimal
  pub timestamp : Timestamp

-- Tick.__post_init__
pub make_tick : Tick → Result Tick
make_tick t =
    if dec_leb t.bid zero_dec || dec_leb t.ask zero_dec || dec_ltb t.ask t.bid
    then err (value_error "tick must have positive ask >= bid")
    else ok t

-- Tick.spread
unfoldable pub spread : Tick → Decimal
spread t = t.ask ⊖ t.bid

pub record SymbolSpecification : Type 0 where
  pub name : String
  pub canonical_symbol : String
  pub base_currency : String
  pub quote_currency : String
  pub digits : ℕ
  pub point : Decimal
  pub tick_size : Decimal
  pub tick_value : Decimal
  pub contract_size : Decimal
  pub volume_min : Decimal
  pub volume_max : Decimal
  pub volume_step : Decimal
  pub stops_level_points : ℤ
  pub visible : Bool
  pub trade_enabled : Bool
  pub description : String

-- SymbolSpecification.__post_init__
pub make_symbol : SymbolSpecification → Result SymbolSpecification
make_symbol s =
    if any (λ v. dec_leb v zero_dec)
      (s.point ∷ s.tick_size ∷ s.contract_size ∷ s.volume_min ∷ s.volume_max ∷ s.volume_step ∷ [])
    then err (value_error "symbol price and volume specifications must be positive")
    else if dec_ltb s.tick_value zero_dec || dec_ltb s.volume_max s.volume_min
    then err (value_error "invalid tick value or volume bounds")
    else ok s

pub record AccountSnapshot : Type 0 where
  pub broker : String
  pub platform : String
  pub account_id : String
  pub server : String
  pub currency : String
  pub balance : Decimal
  pub equity : Decimal
  pub margin : Decimal
  pub free_margin : Decimal
  pub leverage : ℤ
  pub account_type : AccountType
  pub timestamp : Timestamp

-- AccountSnapshot.__post_init__
pub make_account : AccountSnapshot → Result AccountSnapshot
make_account a =
    if ltb_ℤ a.leverage (pos 0) then err (value_error "leverage cannot be negative") else ok a

-- `rationale` keeps the texts under its keys.
pub record TradeSignal : Type 0 where
  pub symbol : String
  pub canonical_symbol : String
  pub action : SignalAction
  pub strategy_id : String
  pub strategy_version : String
  pub confidence_score : ℤ
  pub entry_min : Option Decimal
  pub entry_max : Option Decimal
  pub stop_loss : Option Decimal
  pub take_profits : List Decimal
  pub risk_reward : Option Decimal
  pub rationale : List (String × String)
  pub status : SignalStatus
  pub created_at : Timestamp
  pub expires_at : Option Timestamp
  pub signal_id : String

-- TradeSignal.direction
abbrev pub direction_of : SignalAction → Option Direction
direction_of SignalAction.long = some Direction.long
direction_of SignalAction.short = some Direction.short
direction_of _ = none

-- action in (LONG, SHORT)
abbrev pub is_entry : SignalAction → Bool
is_entry SignalAction.long = true
is_entry SignalAction.short = true
is_entry _ = false

abbrev pub is_none {ℓ} : {A : Type ℓ} → Option A → Bool
is_none none = true
is_none (some a) = false

-- `a > b` on two values that may be None, where both tests for None come first
abbrev pub both_above : Option Decimal → Option Decimal → Bool
both_above (some a) (some b) = dec_ltb b a
both_above _ _ = false

-- expires_at is not None and expires_at <= time
abbrev pub expired_at : Option Timestamp → Timestamp → Bool
expired_at none time = false
expired_at (some limit) time = leb limit time

-- TradeSignal.__post_init__
pub make_signal : TradeSignal → Result TradeSignal
make_signal s =
    if expired_at s.expires_at s.created_at
    then err (value_error "signal expiry must be after creation")
    else if ltb_ℤ s.confidence_score (pos 0) || ltb_ℤ (pos 100) s.confidence_score
    then err (value_error "confidence score must be between 0 and 100")
    else if is_entry s.action && (is_none s.entry_min || is_none s.entry_max || is_none s.stop_loss)
    then err (value_error "trade signals require entry bounds and stop loss")
    else if is_entry s.action && both_above s.entry_min s.entry_max
    then err (value_error "entry_min cannot exceed entry_max")
    else ok s

-- TradeSignal.is_expired, at a given time
unfoldable pub is_expired : TradeSignal → Timestamp → Bool
is_expired s now = expired_at s.expires_at now
