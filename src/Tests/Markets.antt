-- ===== src/Tests/Markets.antt =====
-- Tests of app/market/ at concrete inputs.
use sarkfxbot.Base.{ℕ, ◌+◌, ◌*◌, true, some, List, [], ◌∷◌, ◌++◌, ◌≡◌, refl, All, filter, arith}
use sarkfxbot.Base.Decimal.{of_ℕ, side}
use sarkfxbot.Base.Exec.{ok}
use sarkfxbot.Domain.Enums.{Timeframe}
use sarkfxbot.Domain.Models.{Candle, second}
use sarkfxbot.Market.Sort.{sort_by, sort_onto, put_in}
use sarkfxbot.Market.Candles.{closed_candles, check_sequence, validate_candle_sequence, is_selected}
use sarkfxbot.Market.Candles.Known.{
  IsKnown, IsIncreasing, closed_candles_no_future, closed_candles-IsKnown,
}
use sarkfxbot.Market.Structure.{
  analysis_of, analyze_structure, structure_breaks, breaks_from, break_step, bias_of,
}
use sarkfxbot.Market.Swings.{
  StructureBreakKind, MarketBias, SwingKind, SwingPoint, point, StructureBreak, confirmed_swings,
  sort_swings, swings_from, swings_at,
}
use sarkfxbot.Market.Structure.Ahead.{known_by}
use sarkfxbot.Market.Structure.Stable.{analyze_structure_stable}
use sarkfxbot.Tests.Fixtures.{now}

-- The candle of a minute, with its close and a range of one around it.
abbrev candle : ℕ → ℕ → Candle
candle minute close = record {
  symbol = "XAUUSD";
  timeframe = Timeframe.m1;
  timestamp = now + minute * 60 * second;
  open_price = of_ℕ close;
  high = of_ℕ (close + 1);
  low = of_ℕ close;
  close = of_ℕ close;
  volume = of_ℕ 1;
  spread = of_ℕ 0;
  complete = true;
}

abbrev past : List Candle
past = candle 1 11 ∷ candle 0 10 ∷ []

abbrev future : List Candle
future = candle 2 12 ∷ []

abbrev sorted : List Candle
sorted = candle 0 10 ∷ candle 1 11 ∷ []

selects : closed_candles past (some (now + 120 * second)) true ≡ ok sorted
unfolding closed_candles validate_candle_sequence check_sequence sort_by sort_onto put_in
    is_selected
selects = refl

still : closed_candles (past ++ future) (some (now + 120 * second)) true ≡ ok sorted
unfolding closed_candles validate_candle_sequence check_sequence sort_by sort_onto put_in
    is_selected
still = refl

closed_candles_no_future_example : sorted ≡ sorted
closed_candles_no_future_example =
    closed_candles_no_future true past future (now + 120 * second) sorted sorted (omega arith, tt)
      selects still

closed_candles-IsKnown_example :
    All (IsKnown true (now + 120 * second)) sorted × IsIncreasing sorted
closed_candles-IsKnown_example =
    closed_candles-IsKnown true past (now + 120 * second) sorted selects

-- A rise and a fall, and then a close above the high between them.
abbrev wave : List Candle
wave = candle 0 10 ∷ candle 1 12 ∷ candle 2 11 ∷ []

abbrev close_above : List Candle
close_above = candle 3 14 ∷ []

abbrev swings_before : List SwingPoint
swings_before = point SwingKind.high 1 2 (of_ℕ 13) ∷ []

abbrev swings_after : List SwingPoint
swings_after = point SwingKind.high 1 2 (of_ℕ 13) ∷ point SwingKind.low 2 3 (of_ℕ 11) ∷ []

before_close : analyze_structure wave 1 1 ≡ ok (analysis_of wave swings_before)
unfolding analyze_structure confirmed_swings swings_from swings_at sort_swings sort_by sort_onto
    put_in validate_candle_sequence check_sequence side
before_close = refl

after_close :
    analyze_structure (wave ++ close_above) 1 1
    ≡ ok (analysis_of (wave ++ close_above) swings_after)
unfolding analyze_structure confirmed_swings swings_from swings_at sort_swings sort_by sort_onto
    put_in validate_candle_sequence check_sequence side
after_close = refl

-- The close above the high is a break of structure.
breaks : structure_breaks (wave ++ close_above) swings_after ≡ (
    record {
      kind = StructureBreakKind.bos;
      direction = MarketBias.bullish;
      index = 3;
      level = of_ℕ 13;
      swing_index = 1;
    }
    ∷ [])
unfolding structure_breaks breaks_from break_step bias_of side
breaks = refl

analyze_structure_stable_example :
    (filter (known_by 3) swings_after ≡ swings_before)
    × ((extra : List StructureBreak) × (structure_breaks (wave ++ close_above) swings_after
          ≡ structure_breaks wave swings_before ++ extra))
analyze_structure_stable_example =
    analyze_structure_stable wave close_above 1 1 (analysis_of wave swings_before)
      (analysis_of (wave ++ close_above) swings_after) before_close after_close
