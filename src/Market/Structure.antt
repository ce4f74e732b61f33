-- ===== src/Market/Structure.antt =====
-- app/market/structure.py: the bias of swing points, the breaks of structure and the whole analysis.
pub mod Ahead
pub mod Stable
use sarkfxbot.Base.{
  ℕ, zero, suc, ◌+◌, ◌-◌, Bool, true, false, not, ◌&&◌, ◌||◌, Option, none, some, List, [], ◌∷◌,
  ◌++◌, map, any, all, filter, take, drop, get_elem?, get_last?, length, leb, ltb, ◌==◌,
  if◌then◌else◌,
}
use sarkfxbot.Base.Decimal.{Decimal, dec_ltb, dec_leb}
use sarkfxbot.Base.Exec.{Result, ok, err, value_error}
use sarkfxbot.Domain.Models.{Candle}
use sarkfxbot.Market.Sort.{sort_by}
use sarkfxbot.Market.Candles.{validate_candle_sequence}
use sarkfxbot.Market.Swings.{
  MarketBias, StructureBreak, StructureBreakKind, SwingKind, SwingPoint, all_swings, bearish, bos,
  bullish, choch, confirmed_swings, high, high_is_swing, is_bearish, is_bullish, is_high,
  kind_order, low, low_is_swing, point, range, sort_swings, sorted_of, swings_at, swings_from,
  swings_of,
}

-- Of the last two of a list, the last above or below the one before.
abbrev pub last_two : (Decimal → Decimal → Bool) → List Decimal → Bool
last_two test [] = false
last_two test (a ∷ []) = false
last_two test (a ∷ b ∷ []) = test a b
last_two test (a ∷ b ∷ c ∷ rest) = last_two test (b ∷ c ∷ rest)

abbrev pub rises : List SwingPoint → Bool
rises swings = last_two (λ a b. dec_ltb a b) (map (λ s. s.price) swings)

abbrev pub falls : List SwingPoint → Bool
falls swings = last_two (λ a b. dec_ltb b a) (map (λ s. s.price) swings)

abbrev pub highs_of : List SwingPoint → List SwingPoint
highs_of = filter (λ s. is_high s.kind)

abbrev pub lows_of : List SwingPoint → List SwingPoint
lows_of = filter (λ s. not (is_high s.kind))

-- The bias by the last two highs and the last two lows.
unfoldable pub bias_of : List SwingPoint → List SwingPoint → MarketBias
bias_of highs lows =
    if rises highs && rises lows
    then bullish
    else if falls highs && falls lows
    then bearish
    else range

-- The variables of the loop of _structure_breaks.
pub record Breaks : Type 0 where
  pub known_highs : List SwingPoint
  pub known_lows : List SwingPoint
  pub broken : List (SwingKind × ℕ)
  pub events : List StructureBreak
  pub bias : MarketBias

abbrev pub same_key : SwingKind × ℕ → SwingKind × ℕ → Bool
same_key (k, i) (l, j) = kind_order k == kind_order l && i == j

abbrev pub learn : Breaks → List SwingPoint → Breaks
learn b swings = record b {
  known_highs = b.known_highs ++ highs_of swings;
  known_lows = b.known_lows ++ lows_of swings;
}

-- A close beyond the last known level, which is older than the candle and not yet broken.
abbrev pub break_level :
    MarketBias → Bool → (Decimal → Bool) → ℕ → Option SwingPoint → Breaks → Breaks
break_level direction reverses beyond index none b = b
break_level direction reverses beyond index (some s) b =
    if ltb s.index index && beyond s.price && not (any (same_key (s.kind, s.index)) b.broken)
    then record b {
      events =
          b.events
          ++ (record {
            kind = if reverses then choch else bos;
            direction = direction;
            index = index;
            level = s.price;
            swing_index = s.index;
          }
              ∷ []);
      broken = (s.kind, s.index) ∷ b.broken;
    }
    else b

-- One round: what is newly confirmed, the bias, and the two levels; `prior` is the bias before it.
abbrev pub watch : MarketBias → ℕ → Candle → Breaks → Breaks
watch prior index c b =
    let b1 = record b { bias = bias_of b.known_highs b.known_lows } in
    let b2 =
      break_level bullish (is_bearish prior) (λ p. dec_ltb p c.close) index
        (get_last? b1.known_highs) b1 in
    break_level bearish (is_bullish prior) (λ p. dec_ltb c.close p) index (get_last? b2.known_lows)
      b2

module _ (swings : List SwingPoint) where
  -- newly_confirmed.get(index, ())
  abbrev pub confirmed_at : ℕ → List SwingPoint
  confirmed_at index = filter (λ s. s.confirmed_index == index) swings

  unfoldable pub break_step : ℕ → Candle → Breaks → Breaks
  break_step index c b = watch b.bias index c (learn b (confirmed_at index))

  unfoldable pub breaks_from : ℕ → List Candle → Breaks → Breaks
  breaks_from index [] b = b
  breaks_from index (c ∷ cs) b = breaks_from (index + 1) cs (break_step index c b)

abbrev pub no_breaks : Breaks
no_breaks = record { known_highs = []; known_lows = []; broken = []; events = []; bias = range }

-- _structure_breaks
unfoldable pub structure_breaks : List Candle → List SwingPoint → List StructureBreak
structure_breaks candles swings = (breaks_from swings 0 candles no_breaks).events

pub record StructureAnalysis : Type 0 where
  pub bias : MarketBias
  pub swings : List SwingPoint
  pub breaks : List StructureBreak
  pub higher_high : Bool
  pub higher_low : Bool
  pub lower_high : Bool
  pub lower_low : Bool
  pub support : Option Decimal
  pub resistance : Option Decimal

-- StructureAnalysis.bullish_structure and bearish_structure
abbrev pub bullish_structure : StructureAnalysis → Bool
bullish_structure a = is_bullish a.bias && a.higher_high && a.higher_low

abbrev pub bearish_structure : StructureAnalysis → Bool
bearish_structure a = is_bearish a.bias && a.lower_high && a.lower_low

abbrev pub last_price : List SwingPoint → Option Decimal
last_price swings = get_last? (map (λ s. s.price) swings)

abbrev pub analysis_of : List Candle → List SwingPoint → StructureAnalysis
analysis_of candles swings = record {
  bias = bias_of (highs_of swings) (lows_of swings);
  swings = swings;
  breaks = structure_breaks candles swings;
  higher_high = rises (highs_of swings);
  higher_low = rises (lows_of swings);
  lower_high = falls (highs_of swings);
  lower_low = falls (lows_of swings);
  support = last_price (lows_of swings);
  resistance = last_price (highs_of swings);
}

abbrev pub analysis_by : List Candle → Result (List SwingPoint) → Result StructureAnalysis
analysis_by candles (ok swings) = ok (analysis_of candles swings)
analysis_by candles (err e) = err e

-- analyze_structure
unfoldable pub analyze_structure : List Candle → ℕ → ℕ → Result StructureAnalysis
analyze_structure candles left_span right_span =
    analysis_by candles (confirmed_swings candles left_span right_span)
