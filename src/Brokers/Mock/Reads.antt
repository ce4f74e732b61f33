-- ===== src/Brokers/Mock/Reads.antt =====
-- The reads of app/brokers/mock.py.
use sarkfxbot.Brokers.Mock.{
  Mock, Deal, deal_time, HistoryOrder, read_clock, reads, require_connection,
}
use sarkfxbot.Base.{
  last_items, suc, String, str_eq, Bool, true, false, ◌&&◌, Option, none, some, List, [], ◌∷◌,
  filter, leb, ◌==◌, if◌then◌else◌,
}
use sarkfxbot.Base.Int.{ℤ, pos}
use sarkfxbot.Base.Decimal.{Decimal, of_ℕ, of_ℤ, dec_leb, ◌⊖◌, ◌⊗◌, ◌⊘◌, zero_dec}
use sarkfxbot.Base.Dict.{lookup, values}
use sarkfxbot.Base.Exec.{
  broker, broker_error, value_error, Result, ok, err, Exec, pure, raise, lift, ◌>>=◌, ◌>>◌,
}
use sarkfxbot.Domain.Enums.{Direction, sign, Timeframe, seconds}
use sarkfxbot.Domain.Models.{
  Timestamp, AccountSnapshot, make_account, Candle, SymbolSpecification, Tick,
}
use sarkfxbot.Domain.Orders.{BrokerOrder, BrokerPosition, OrderRequest}
use sarkfxbot.Brokers.Symbols

pub get_account : Exec Mock AccountSnapshot
get_account = do
  require_connection
  now ← read_clock
  reads (λ m. make_account (record m.account { timestamp = now }))

unfoldable pub get_symbols : Exec Mock (List SymbolSpecification)
get_symbols = do require_connection; reads (λ m. ok (values m.symbols))

pub resolve_symbol : String → Exec Mock SymbolSpecification
resolve_symbol canonical_symbol = do
  symbols ← get_symbols
  lift (Symbols.resolve_symbol canonical_symbol symbols [])

abbrev pub found : {A : Type 0} → String → Option A → Result A
found message none = err (broker broker_error message)
found message (some a) = ok a

unfoldable pub get_tick : String → Exec Mock Tick
get_tick symbol = do
  require_connection
  reads (λ m. found "no tick is available" (lookup symbol m.ticks))

abbrev same_timeframe : Timeframe → Timeframe → Bool
same_timeframe a b = seconds a == seconds b

-- self._candles.get((symbol, timeframe), ())
pub candles_of : String → Timeframe → List ((String × Timeframe) × List Candle) → List Candle
candles_of symbol frame [] = []
candles_of symbol frame (((s, f), cs) ∷ rest) =
    if str_eq s symbol && same_timeframe f frame then cs else candles_of symbol frame rest

abbrev pub last_candles : ℤ → List Candle → Result (List Candle)
last_candles (pos (suc n)) cs = ok (last_items (suc n) cs)
last_candles _ cs = err (value_error "candle count must be positive")

pub get_candles : String → Timeframe → ℤ → Bool → Exec Mock (List Candle)
get_candles symbol frame count closed_only = do
  require_connection
  reads (λ m.
      let all = candles_of symbol frame m.candles in
      last_candles count (if closed_only then filter (λ c. c.complete) all else all))

-- symbol is None or item.symbol == symbol
abbrev pub wanted : Option String → String → Bool
wanted none s = true
wanted (some symbol) s = str_eq s symbol

unfoldable pub get_positions : Option String → Exec Mock (List BrokerPosition)
get_positions symbol = do
  require_connection
  reads (λ m. ok (filter (λ p. wanted symbol p.symbol) (values m.positions)))

unfoldable pub get_orders : Option String → Exec Mock (List BrokerOrder)
get_orders symbol = do
  require_connection
  reads (λ m. ok (filter (λ o. wanted symbol o.symbol) (values m.orders)))

abbrev pub is_known : {A : Type 0} → Option A → Bool
is_known none = false
is_known (some a) = true

unfoldable pub is_market_open : String → Exec Mock Bool
is_market_open symbol = do
  require_connection
  reads (λ m. ok (m.market_open && is_known (lookup symbol m.symbols)))

-- _spec
unfoldable pub specification : String → Exec Mock SymbolSpecification
specification symbol = reads (λ m. found "unknown broker symbol" (lookup symbol m.symbols))

abbrev pub margin_of : ℤ → Decimal → SymbolSpecification → Decimal → Result Decimal
margin_of (pos (suc n)) price s volume = ok (price ⊗ s.contract_size ⊗ volume ⊘ of_ℕ (suc n))
margin_of _ price s volume = err (broker broker_error "account leverage is unavailable")

unfoldable pub calculate_margin : OrderRequest → Decimal → Exec Mock Decimal
calculate_margin q price = do
  require_connection
  s ← specification q.symbol
  reads (λ m. margin_of m.account.leverage price s q.volume)

unfoldable pub calculate_profit :
    String → Direction → Decimal → Decimal → Decimal → Exec Mock Decimal
calculate_profit symbol direction volume open_price close_price = do
  require_connection
  s ← specification symbol
  if dec_leb s.tick_value zero_dec
      then raise (broker broker_error "tick value is unavailable")
      else pure
          ((close_price ⊖ open_price) ⊘ s.tick_size ⊗ s.tick_value ⊗ volume ⊗ of_ℤ (sign direction))

-- history_deals and history_orders
pub history_deals : Timestamp → Timestamp → Exec Mock (List Deal)
history_deals start end = do
  require_connection
  reads (λ m. ok (filter (λ d. leb start (deal_time d) && leb (deal_time d) end) m.deals))

pub history_orders : Timestamp → Timestamp → Exec Mock (List HistoryOrder)
history_orders start end = do
  require_connection
  reads (λ m. ok (filter (λ o. leb start o.time && leb o.time end) m.order_history))
