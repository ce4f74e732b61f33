-- ===== src/Execution/Positions.antt =====
-- `PositionManager` of app/execution/positions.py: protection, partial closes, break-even and
-- trailing stops of a position that the broker shows.
pub mod Looks
pub mod Stops
pub mod Moves
pub mod Closes
use sarkfxbot.Base.{
  String, str_eq, Bool, true, false, not, ◌&&◌, ◌||◌, Option, none, some, List, [], ◌∷◌, any, find,
  if◌then◌else◌,
}
use sarkfxbot.Base.Decimal.{
  Decimal, dec_ltb, dec_leb, dec_eqb, ◌⊕◌, ◌⊖◌, ◌⊗◌, ◌⊘◌, floor, of_ℤ, of_ℕ, zero_dec,
}
use sarkfxbot.Base.Exec.{broker, broker_error, value_error, Exec, pure, raise, ◌>>=◌}
use sarkfxbot.Domain.Enums.{is_long}
use sarkfxbot.Domain.Models.{SymbolSpecification}
use sarkfxbot.Domain.Orders.{BrokerPosition, ExecutionReport}
use sarkfxbot.Brokers.Port.{Broker, Call, Trace, ask}
use sarkfxbot.Execution.Protection.{same_price}

pub data TrailingStopMode : Type 0 where
  atr fixed structure : TrailingStopMode

pub record PositionAction : Type 0 where
  pub applied : Bool
  pub reason : String
  pub position : Option BrokerPosition
  pub report : Option ExecutionReport

abbrev pub has_ticket : String → BrokerPosition → Bool
has_ticket ticket p = str_eq p.ticket ticket

abbrev pub found : Option BrokerPosition → Exec Trace BrokerPosition
found none = raise (broker broker_error "position was not found")
found (some p) = pure p

-- The stop is nearer to the profit, for the direction of the position.
unfoldable pub improves : BrokerPosition → Decimal → Bool
improves p target =
    if is_long p.direction then dec_ltb p.stop_loss target else dec_ltb target p.stop_loss

-- The stop is still behind the current price.
unfoldable pub is_behind : BrokerPosition → Decimal → Bool
is_behind p target =
    if is_long p.direction then dec_ltb target p.current_price else dec_ltb p.current_price target

-- `distance` behind a price, and in front of it
abbrev pub behind : BrokerPosition → Decimal → Decimal → Decimal
behind p price distance = if is_long p.direction then price ⊖ distance else price ⊕ distance

abbrev pub ahead : BrokerPosition → Decimal → Decimal → Decimal
ahead p price distance = if is_long p.direction then price ⊕ distance else price ⊖ distance

abbrev pub refused : String → BrokerPosition → PositionAction
refused reason p = record { applied = false; reason = reason; position = some p; report = none }

abbrev pub closed : Bool → String → ExecutionReport → PositionAction
closed applied reason report = record {
  applied = applied;
  reason = reason;
  position = none;
  report = some report;
}

-- value is None or value <= 0
abbrev pub not_positive : Option Decimal → Bool
not_positive none = true
not_positive (some d) = dec_leb d zero_dec

-- The keyword arguments of `trail`.
pub record TrailRequest : Type 0 where
  pub mode : TrailingStopMode
  pub fixed_distance : Option Decimal
  pub atr : Option Decimal
  pub atr_multiple : Decimal
  pub structure_stop : Option Decimal

module _ (b : Broker) where
  -- PositionManager._position
  unfoldable pub position_of : String → Exec Trace BrokerPosition
  position_of ticket = do
    positions ← ask (Call.get_positions none) (b.get_positions none)
    found (find (has_ticket ticket) positions)

  abbrev pub after_modify :
      String → BrokerPosition → String → String → Bool → Exec Trace PositionAction
  after_modify ticket p applied rejected true = do
    after ← position_of ticket
    pure (record { applied = true; reason = applied; position = some after; report = none })
  after_modify ticket p applied rejected false = pure (refused rejected p)

  -- The end of `move_to_break_even` and of `trail`: one modification that keeps the take profit.
  unfoldable pub set_stop :
      String → BrokerPosition → Decimal → String → String → Exec Trace PositionAction
  set_stop ticket p target applied rejected = do
    modified ←
        ask (Call.modify_position ticket target p.take_profit)
          (b.modify_position ticket target p.take_profit)
    after_modify ticket p applied rejected modified

  unfoldable pub break_even_at : String → BrokerPosition → Decimal → Exec Trace PositionAction
  break_even_at ticket p target =
      if not (improves p target)
      then pure (refused "BREAK_EVEN_WOULD_NOT_IMPROVE_STOP" p)
      else if not (is_behind p target)
      then pure (refused "PRICE_HAS_NOT_CLEARED_BREAK_EVEN_BUFFER" p)
      else set_stop ticket p target "BREAK_EVEN_APPLIED" "BREAK_EVEN_BROKER_REJECTED"

  abbrev pub costs_negative : Decimal → Decimal → Decimal → Bool
  costs_negative spread commission slip =
      any (λ v. dec_ltb v zero_dec) (spread ∷ commission ∷ slip ∷ [])

  -- PositionManager.move_to_break_even
  unfoldable pub move_to_break_even :
      String → Decimal → Decimal → Decimal → Exec Trace PositionAction
  move_to_break_even ticket spread commission slip =
      if costs_negative spread commission slip
      then raise (value_error "break-even cost components cannot be negative")
      else (do
        p ← position_of ticket
        break_even_at ticket p (ahead p p.open_price (spread ⊕ commission ⊕ slip)))

  unfoldable pub trail_to : String → BrokerPosition → Decimal → Exec Trace PositionAction
  trail_to ticket p candidate =
      if not (improves p candidate) || not (is_behind p candidate)
      then pure (refused "TRAILING_STOP_NOT_AN_IMPROVEMENT" p)
      else set_stop ticket p candidate "TRAILING_STOP_APPLIED" "TRAILING_STOP_BROKER_REJECTED"

  -- The candidate of each mode.
  abbrev pub fixed_candidate : BrokerPosition → Option Decimal → Exec Trace Decimal
  fixed_candidate p none = raise (value_error "fixed trailing requires a positive distance")
  fixed_candidate p (some d) =
      if dec_leb d zero_dec
      then raise (value_error "fixed trailing requires a positive distance")
      else pure (behind p p.current_price d)

  abbrev pub atr_candidate : BrokerPosition → Option Decimal → Decimal → Exec Trace Decimal
  atr_candidate p none multiple =
      raise (value_error "ATR trailing requires positive ATR and multiple")
  atr_candidate p (some a) multiple =
      if dec_leb a zero_dec || dec_leb multiple zero_dec
      then raise (value_error "ATR trailing requires positive ATR and multiple")
      else pure (behind p p.current_price (a ⊗ multiple))

  abbrev pub structure_candidate : Option Decimal → Exec Trace Decimal
  structure_candidate none =
      raise (value_error "structure trailing requires a positive structure stop")
  structure_candidate (some s) =
      if dec_leb s zero_dec
      then raise (value_error "structure trailing requires a positive structure stop")
      else pure s

  abbrev pub candidate_in : BrokerPosition → TrailRequest → TrailingStopMode → Exec Trace Decimal
  candidate_in p t TrailingStopMode.fixed = fixed_candidate p t.fixed_distance
  candidate_in p t TrailingStopMode.atr = atr_candidate p t.atr t.atr_multiple
  candidate_in p t TrailingStopMode.structure = structure_candidate t.structure_stop

  unfoldable pub candidate_of : BrokerPosition → TrailRequest → Exec Trace Decimal
  candidate_of p t = candidate_in p t t.mode

  -- PositionManager.trail; `enabled` is the manager's setting
  unfoldable pub trail : Bool → String → TrailRequest → Exec Trace PositionAction
  trail enabled ticket t =
      if not enabled
      then pure
          (record { applied = false; reason = "TRAILING_DISABLED"; position = none; report = none })
      else (do p ← position_of ticket; candidate ← candidate_of p t; trail_to ticket p candidate)

  -- The volume of a partial close, rounded down to the step.
  abbrev pub close_volume_of : BrokerPosition → SymbolSpecification → Decimal → Decimal
  close_volume_of p s fraction =
      of_ℤ (floor ((p.volume ⊗ fraction) ⊘ s.volume_step)) ⊗ s.volume_step

  unfoldable pub close_part :
      String → BrokerPosition → SymbolSpecification → Decimal → Exec Trace PositionAction
  close_part ticket p s volume =
      if dec_ltb volume s.volume_min
      then pure (refused "PARTIAL_VOLUME_BELOW_BROKER_MINIMUM" p)
      else if not (dec_eqb (p.volume ⊖ volume) zero_dec) && dec_ltb (p.volume ⊖ volume) s.volume_min
      then pure (refused "PARTIAL_CLOSE_LEAVES_INVALID_REMAINDER" p)
      else (do
        report ←
            ask (Call.close_position ticket (some volume)) (b.close_position ticket (some volume))
        pure (closed report.success "PARTIAL_CLOSE_EXECUTED" report))

  unfoldable pub close_whole : String → Exec Trace PositionAction
  close_whole ticket = do
    report ← ask (Call.close_position ticket none) (b.close_position ticket none)
    pure (closed report.success "POSITION_CLOSED" report)

  -- PositionManager.partial_close
  unfoldable pub partial_close : String → Decimal → Exec Trace PositionAction
  partial_close ticket fraction =
      if dec_leb fraction zero_dec || dec_ltb (of_ℕ 1) fraction
      then raise (value_error "partial-close fraction must be in (0, 1]")
      else (do
        p ← position_of ticket
        if dec_eqb fraction (of_ℕ 1) then close_whole ticket else (do
          s ← ask (Call.resolve_symbol p.symbol) (b.resolve_symbol p.symbol)
          close_part ticket p s (close_volume_of p s fraction)))

  abbrev pub after_repair : String → Bool → Exec Trace PositionAction
  after_repair ticket true = do
    p ← position_of ticket
    pure (record {
      applied = true;
      reason = "PROTECTION_REPAIRED";
      position = some p;
      report = none;
    })
  after_repair ticket false = do
    report ← ask (Call.close_position ticket none) (b.close_position ticket none)
    pure (
        closed report.success
          (if report.success then "UNPROTECTED_POSITION_CLOSED" else "PROTECTION_AND_CLOSE_FAILED")
          report)

  -- PositionManager.ensure_protection
  unfoldable pub ensure_protection : String → Decimal → Decimal → Exec Trace PositionAction
  ensure_protection ticket stop target = do
    p ← position_of ticket
    if dec_eqb p.stop_loss stop && same_price p.take_profit target
        then pure (record {
          applied = true;
          reason = "PROTECTION_CONFIRMED";
          position = some p;
          report = none;
        })
        else (do
          modified ←
              ask (Call.modify_position ticket stop (some target))
                (b.modify_position ticket stop (some target))
          after_repair ticket modified)
