-- ===== src/Signals/Engine.antt =====
-- app/signals/engine.py: the entry zone of a signal and its expiration. A scan passes its arguments
-- to the given strategy.
use sarkfxbot.Base.{
  String, Bool, true, false, not, ◌&&◌, ◌||◌, Option, none, some, List, if◌then◌else◌,
}
use sarkfxbot.Base.Decimal.{Decimal, dec_leb}
use sarkfxbot.Base.Dict.{insert}
use sarkfxbot.Base.Exec.{Result}
use sarkfxbot.Domain.Enums.{Direction, SignalStatus, Timeframe}
use sarkfxbot.Domain.Models.{Timestamp, Candle, TradeSignal, is_entry, is_expired}

abbrev pub inside : Option Decimal → Option Decimal → Decimal → Bool
inside (some low) (some high) price = dec_leb low price && dec_leb price high
inside _ _ price = false

-- entry_zone_contains
unfoldable pub entry_zone_contains : TradeSignal → Decimal → Bool
entry_zone_contains s price =
    if is_entry s.action then inside s.entry_min s.entry_max price else false

abbrev pub is_active : SignalStatus → Bool
is_active SignalStatus.active = true
is_active _ = false

-- current_price is not None and not entry_zone_contains(signal, current_price)
abbrev pub left_zone : TradeSignal → Option Decimal → Bool
left_zone s none = false
left_zone s (some price) = not (entry_zone_contains s price)

abbrev pub expiration_reason : Bool → String
expiration_reason timed_out = if timed_out then "SIGNAL_TIME_EXPIRED" else "PRICE_LEFT_ENTRY_ZONE"

abbrev pub expired_signal : TradeSignal → String → TradeSignal
expired_signal s reason = record s {
  status = SignalStatus.expired;
  rationale = insert "expiration_reason" reason s.rationale;
}

-- refresh_signal_status
unfoldable pub refresh_signal_status : TradeSignal → Timestamp → Option Decimal → TradeSignal
refresh_signal_status s now current_price =
    if not (is_active s.status)
    then s
    else if is_expired s now || left_zone s current_price
    then expired_signal s (expiration_reason (is_expired s now))
    else s

-- Strategy.evaluate
abbrev pub Strategy : Type 0
Strategy = (Timeframe → List Candle) → Option Timestamp → Option Direction → Result TradeSignal

-- SignalEngine.scan
pub scan :
    Strategy → (Timeframe → List Candle) → Option Timestamp → Option Direction → Result TradeSignal
scan evaluate candles as_of open_direction = evaluate candles as_of open_direction
