-- ===== src/Market/Swings.antt =====
-- The swing points of app/market/structure.py, and when each was known. The prices, floats in the
-- source, are only compared and copied, and are exact decimals here.
use sarkfxbot.Base.{
  ℕ, zero, suc, ◌+◌, ◌-◌, Bool, true, false, ◌&&◌, ◌||◌, Option, none, some, List, [], ◌∷◌, ◌++◌,
  any, all, take, drop, get_elem?, length, ◌==◌, if◌then◌else◌,
}
use sarkfxbot.Base.Decimal.{Decimal, dec_ltb, dec_leb}
use sarkfxbot.Base.Exec.{Result, ok, err, value_error}
use sarkfxbot.Domain.Models.{Candle}
use sarkfxbot.Market.Sort.{sort_by}
use sarkfxbot.Market.Candles.{validate_candle_sequence}

pub data SwingKind : Type 0 where
  high low : SwingKind

pub data MarketBias : Type 0 where
  bullish bearish range : MarketBias

pub data StructureBreakKind : Type 0 where
  bos choch : StructureBreakKind

pub record SwingPoint : Type 0 where
  pub kind : SwingKind
  pub index : ℕ
  pub confirmed_index : ℕ
  pub price : Decimal

pub record StructureBreak : Type 0 where
  pub kind : StructureBreakKind
  pub direction : MarketBias
  pub index : ℕ
  pub level : Decimal
  pub swing_index : ℕ

abbrev pub is_high : SwingKind → Bool
is_high high = true
is_high low = false

abbrev pub is_bullish : MarketBias → Bool
is_bullish bullish = true
is_bullish _ = false

abbrev pub is_bearish : MarketBias → Bool
is_bearish bearish = true
is_bearish _ = false

module _ (left right : List Candle) (c : Candle) where
  abbrev pub high_is_swing : Bool
  high_is_swing =
      all (λ d. dec_ltb d.high c.high) left
      && all (λ d. dec_leb d.high c.high) right
      && any (λ d. dec_ltb d.high c.high) right

  abbrev pub low_is_swing : Bool
  low_is_swing =
      all (λ d. dec_ltb c.low d.low) left
      && all (λ d. dec_leb c.low d.low) right
      && any (λ d. dec_ltb c.low d.low) right

abbrev pub point : SwingKind → ℕ → ℕ → Decimal → SwingPoint
point kind index confirmed price = record {
  kind = kind;
  index = index;
  confirmed_index = confirmed;
  price = price;
}

-- The swings at a candidate with the candles on its left and right.
abbrev pub swings_of : ℕ → ℕ → List Candle → List Candle → Option Candle → List SwingPoint
swings_of index right_span left right none = []
swings_of index right_span left right (some c) =
    (if high_is_swing left right c then point high index (index + right_span) c.high ∷ [] else [])
    ++ (if low_is_swing left right c then point low index (index + right_span) c.low ∷ [] else [])

module _ (left_span right_span : ℕ) (candles : List Candle) where
  -- One round of the loop of confirmed_swings.
  unfoldable pub swings_at : ℕ → List SwingPoint
  swings_at index =
      swings_of index right_span (take left_span (drop (index - left_span) candles))
        (take right_span (drop (index + 1) candles)) (get_elem? candles index)

  -- The rounds from an index on.
  unfoldable pub swings_from : ℕ → ℕ → List SwingPoint
  swings_from zero index = []
  swings_from (suc rounds) index = swings_at index ++ swings_from rounds (index + 1)

  -- for index in range(left_span, len(candles) - right_span)
  abbrev pub all_swings : List SwingPoint
  all_swings = swings_from (length candles - right_span - left_span) left_span

-- "HIGH" < "LOW"
abbrev pub kind_order : SwingKind → ℕ
kind_order high = 0
kind_order low = 1

-- The sort by (confirmed_index, index, kind): by the last part first, and then stably by the others.
unfoldable pub sort_swings : List SwingPoint → List SwingPoint
sort_swings swings =
    sort_by (λ (s : SwingPoint). s.confirmed_index)
      (sort_by (λ (s : SwingPoint). s.index)
        (sort_by (λ (s : SwingPoint). kind_order s.kind) swings))

abbrev pub sorted_of : List SwingPoint → Result (List Candle) → Result (List SwingPoint)
sorted_of swings (ok cs) = ok (sort_swings swings)
sorted_of swings (err e) = err e

-- confirmed_swings
unfoldable pub confirmed_swings : List Candle → ℕ → ℕ → Result (List SwingPoint)
confirmed_swings candles left_span right_span =
    if left_span == 0 || right_span == 0
    then err (value_error "swing spans must be positive")
    else sorted_of (all_swings left_span right_span candles) (validate_candle_sequence candles)
