-- ===== src/Market/Candles.antt =====
-- app/market/candles.py: valid sequences of candles, and the candles that were known at an instant.
pub mod Known
use sarkfxbot.Base.{
  last_items, ℕ, suc, ◌+◌, ◌*◌, String, str_eq, Bool, true, false, not, ◌&&◌, ◌||◌, Option, none,
  some, List, [], ◌∷◌, filter, leb, ltb, ◌==◌, if◌then◌else◌, length,
}
use sarkfxbot.Base.Int.{ℤ, pos, negsuc}
use sarkfxbot.Base.Exec.{Result, ok, err, value_error}
use sarkfxbot.Domain.Enums.{Timeframe, seconds}
use sarkfxbot.Domain.Models.{Timestamp, second, Candle}
use sarkfxbot.Market.Sort.{sort_by}

-- candle_close_time
abbrev pub candle_close_time : Candle → Timestamp
candle_close_time c = c.timestamp + seconds c.timeframe * second

-- The timeframes differ by their seconds.
abbrev pub same_timeframe : Timeframe → Timeframe → Bool
same_timeframe a b = seconds a == seconds b

abbrev pub not_after : Option Timestamp → Timestamp → Bool
not_after none t = false
not_after (some previous) t = leb t previous

-- The loop of validate_candle_sequence, with the first candle's symbol and timeframe.
unfoldable pub check_sequence : String → Timeframe → Option Timestamp → List Candle → Option String
check_sequence symbol frame previous [] = none
check_sequence symbol frame previous (c ∷ cs) =
    let rest = check_sequence symbol frame (some c.timestamp) cs in
    if not (str_eq c.symbol symbol) || not (same_timeframe c.timeframe frame)
    then some "a candle sequence must use one symbol and timeframe"
    else if not_after previous c.timestamp
    then some "candle timestamps must be strictly increasing"
    else rest

abbrev pub or_error : Option String → List Candle → Result (List Candle)
or_error none cs = ok cs
or_error (some message) cs = err (value_error message)

-- validate_candle_sequence
unfoldable pub validate_candle_sequence : List Candle → Result (List Candle)
validate_candle_sequence [] = ok []
validate_candle_sequence (c ∷ cs) =
    or_error (check_sequence c.symbol c.timeframe none (c ∷ cs)) (c ∷ cs)

abbrev pub is_late : Option Timestamp → Timestamp → Bool
is_late none availability = false
is_late (some reference) availability = ltb reference availability

-- The tests by which the loop of closed_candles passes over a candle.
unfoldable pub is_selected : Option Timestamp → Bool → Candle → Bool
is_selected as_of closed_only c =
    not (is_late as_of (if closed_only then candle_close_time c else c.timestamp))
    && not (closed_only && not c.complete)

abbrev pub selected_of : Option Timestamp → Bool → Result (List Candle) → Result (List Candle)
selected_of as_of closed_only (ok cs) = ok (filter (is_selected as_of closed_only) cs)
selected_of as_of closed_only (err e) = err e

-- closed_candles
unfoldable pub closed_candles : List Candle → Option Timestamp → Bool → Result (List Candle)
closed_candles candles as_of closed_only =
    selected_of as_of closed_only (validate_candle_sequence (sort_by (λ c. c.timestamp) candles))

abbrev pub last_of : ℕ → Result (List Candle) → Result (List Candle)
last_of n (ok cs) = ok (last_items n cs)
last_of n (err e) = err e

-- latest_available_candles
unfoldable pub latest_available_candles : List Candle → Timestamp → ℤ → Result (List Candle)
latest_available_candles candles as_of (pos (suc n)) =
    last_of (suc n) (closed_candles candles (some as_of) true)
latest_available_candles candles as_of count = err (value_error "count must be positive")
