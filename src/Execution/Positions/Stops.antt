-- ===== src/Execution/Positions/Stops.antt =====
-- What a break-even or trailing stop of app/execution/positions.py does to the position: at most one
-- change, and only for the better.
use sarkfxbot.Base.{
  String, ◌≡◌, ap, ◌⊎◌, inl, inr, Bool, true, false, Option, none, some, ◌∷◌, find, arith,
  if◌then◌else◌,
}
use sarkfxbot.Base.Decimal.{Decimal, ◌≺◌, dec_ltb}
use sarkfxbot.Base.Exec.{pure}
use sarkfxbot.Domain.Enums.{Direction, is_long}
use sarkfxbot.Domain.Orders.{BrokerPosition}
use sarkfxbot.Brokers.Port.{Broker, Call, Trace, ask}
use sarkfxbot.Base.Ensures.{Ensures, Keeps, Ensures-pure, Ensures-raise, Ensures-bind, Post-of}
use sarkfxbot.Execution.Positions.{
  PositionAction, has_ticket, found, improves, is_behind, position_of, after_modify, set_stop,
}
use sarkfxbot.Execution.Positions.Looks.{mutations, IsQuiet, Shown}

-- Nearer to the profit than the old stop, and still behind the current price.
abbrev pub Tighter : Direction → Decimal → Decimal → Decimal → Type 0
Tighter Direction.long old stop current = (old ≺ stop) × (stop ≺ current)
Tighter Direction.short old stop current = (stop ≺ old) × (current ≺ stop)

Tighter-in :
    (d : Direction) (old stop current : Decimal)
    → (if is_long d then dec_ltb old stop else dec_ltb stop old) ≡ true
    → (if is_long d then dec_ltb stop current else dec_ltb current stop) ≡ true
    → Tighter d old stop current
Tighter-in Direction.long old stop current i s = (ground arith, ground arith)
Tighter-in Direction.short old stop current i s = (ground arith, ground arith)

module _ (b : Broker) (ticket : String) (before : Trace) where
  -- One change of the stop, of the shown position, that tightens it and keeps its take profit.
  pub record IsTightened (calls : Trace) : Type 0 where
    pub position : BrokerPosition
    pub shown : Shown b ticket before position
    pub stop : Decimal
    pub change :
        mutations calls ≡ Call.modify_position ticket stop position.take_profit ∷ mutations before
    pub tighter : Tighter position.direction position.stop_loss stop position.current_price

  abbrev pub OnlyTightens : Trace → Type 0
  OnlyTightens calls = IsQuiet b ticket before calls ⊎ IsTightened calls

  quiet_read : (calls : Trace) → OnlyTightens calls → OnlyTightens (Call.get_positions none ∷ calls)
  quiet_read calls (inl q) = inl q
  quiet_read calls (inr t) = inr (record {
    position = t.position;
    shown = t.shown;
    stop = t.stop;
    change = t.change;
    tighter = t.tighter;
  })

  -- A later look.
  reread-Keeps : Keeps OnlyTightens (position_of b ticket)
  unfolding position_of
  reread-Keeps =
      Ensures-bind (ask (Call.get_positions none) (b.get_positions none)) _ again
        (λ ps. chosen (find (has_ticket ticket) ps))
    where
      again : Keeps OnlyTightens (ask (Call.get_positions none) (b.get_positions none))
      again = record {
        post = λ calls h.
            Post-of OnlyTightens (λ _. OnlyTightens) (b.get_positions none calls)
              (Call.get_positions none ∷ calls) (λ _ _. quiet_read calls h)
              (λ _ _. quiet_read calls h);
      }

      chosen : (o : Option BrokerPosition) → Keeps OnlyTightens (found o)
      chosen none = Ensures-raise _ (λ calls h. h)
      chosen (some p) = Ensures-pure _ (λ calls h. h)

  after_modify-Keeps :
      (p : BrokerPosition) (applied rejected : String) (modified : Bool)
      → Keeps OnlyTightens (after_modify b ticket p applied rejected modified)
  after_modify-Keeps p applied rejected true =
      Ensures-bind (position_of b ticket) _ reread-Keeps (λ q. Ensures-pure _ (λ calls h. h))
  after_modify-Keeps p applied rejected false = Ensures-pure _ (λ calls h. h)

  pub set_stop-Ensures :
      (p : BrokerPosition) (target : Decimal) (applied rejected : String)
      → improves p target ≡ true
      → is_behind p target ≡ true
      → Ensures OnlyTightens
          (λ calls. IsQuiet b ticket before calls × Shown b ticket before p)
          (set_stop b ticket p target applied rejected)
          (λ _. OnlyTightens)
  unfolding set_stop improves is_behind
  set_stop-Ensures p target applied rejected i s =
      Ensures-bind
        (ask (Call.modify_position ticket target p.take_profit)
          (b.modify_position ticket target p.take_profit))
        _ changed (after_modify-Keeps p applied rejected)
    where
      tightened :
          (calls : Trace)
          → IsQuiet b ticket before calls × Shown b ticket before p
          → OnlyTightens (Call.modify_position ticket target p.take_profit ∷ calls)
      tightened calls h = inr (record {
        position = p;
        shown = h.1;
        stop = target;
        change = ap (λ m. Call.modify_position ticket target p.take_profit ∷ m) h.0;
        tighter = Tighter-in p.direction p.stop_loss target p.current_price i s;
      })

      changed :
          Ensures OnlyTightens
            (λ calls. IsQuiet b ticket before calls × Shown b ticket before p)
            (ask
              (Call.modify_position ticket target p.take_profit)
              (b.modify_position ticket target p.take_profit))
            (λ _. OnlyTightens)
      changed = record {
        post = λ calls h.
            Post-of OnlyTightens (λ _. OnlyTightens)
              (b.modify_position ticket target p.take_profit calls)
              (Call.modify_position ticket target p.take_profit ∷ calls) (λ _ _. tightened calls h)
              (λ _ _. tightened calls h);
      }

  pub IsQuiet-pure :
      (p : BrokerPosition) (a : PositionAction)
      → Ensures OnlyTightens
          (λ calls. IsQuiet b ticket before calls × Shown b ticket before p)
          (pure a)
          (λ _. OnlyTightens)
  IsQuiet-pure p a = Ensures-pure a (λ calls h. inl h.0)
