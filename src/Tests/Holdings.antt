-- ===== src/Tests/Holdings.antt =====
-- Tests of app/execution/positions.py: a position that the broker shows.
use sarkfxbot.Base.{true, some, none, [], ◌∷◌}
use sarkfxbot.Base.Decimal.{ratio}
use sarkfxbot.Base.Int.{pos}
use sarkfxbot.Brokers.Port.{Call, Trace}
use sarkfxbot.Execution.Positions.{
  TrailRequest, TrailingStopMode, move_to_break_even, trail, partial_close,
}
use sarkfxbot.Execution.Positions.Stops.{OnlyTightens}
use sarkfxbot.Execution.Positions.Moves.{move_to_break_even-OnlyTightens, trail-OnlyTightens}
use sarkfxbot.Execution.Positions.Closes.{OnlyCloses, partial_close-OnlyCloses}
use sarkfxbot.Tests.Fixtures.{mock, request}

abbrev after_fill : Trace
after_fill = Call.place_market_order request ∷ []

move_to_break_even-OnlyTightens_example :
    OnlyTightens mock "11" after_fill
      (move_to_break_even mock "11"
        (ratio (pos 1) 10)
        (ratio (pos 0) 1)
        (ratio (pos 1) 10)
        after_fill).1
move_to_break_even-OnlyTightens_example =
    move_to_break_even-OnlyTightens mock "11" (ratio (pos 1) 10) (ratio (pos 0) 1)
      (ratio (pos 1) 10) after_fill

abbrev by_three : TrailRequest
by_three = record {
  mode = TrailingStopMode.fixed;
  fixed_distance = some (ratio (pos 3) 1);
  atr = none;
  atr_multiple = ratio (pos 3) 2;
  structure_stop = none;
}

trail-OnlyTightens_example :
    OnlyTightens mock "11" after_fill (trail mock true "11" by_three after_fill).1
trail-OnlyTightens_example = trail-OnlyTightens mock true "11" by_three after_fill

-- Half of the position.
partial_close-OnlyCloses_example :
    OnlyCloses mock "11" after_fill
      (ratio (pos 1) 1)
      (partial_close mock "11" (ratio (pos 1) 1) after_fill).1
partial_close-OnlyCloses_example = partial_close-OnlyCloses mock "11" (ratio (pos 1) 1) after_fill
