-- ===== src/Execution/Positions/Moves.antt =====
-- Break-even and trailing stops of app/execution/positions.py as a whole: at most one change of the
-- position, and only for the better.
use sarkfxbot.Base.{
  String, ◌≡◌, refl, ap, inl, Bool, not, ◌||◌, true, false, List, ◌∷◌, find, Option, none, some,
  arith,
}
use sarkfxbot.Base.Decimal.{Decimal, ◌⊕◌}
use sarkfxbot.Base.Exec.{Error, Result, ok, err, raise}
use sarkfxbot.Domain.Orders.{BrokerPosition}
use sarkfxbot.Brokers.Port.{Broker, Call, Trace}
use sarkfxbot.Base.Ensures.{
  Post, Ensures, Ensures-pure, Ensures-raise, Ensures-if, Ensures-if_tested, Ensures-bind,
}
use sarkfxbot.Execution.Positions.{
  TrailRequest, TrailingStopMode, improves, is_behind, ahead, position_of, break_even_at,
  costs_negative, set_stop, has_ticket, move_to_break_even, trail_to, fixed_candidate,
  atr_candidate, structure_candidate, candidate_in, candidate_of, trail,
}
use sarkfxbot.Execution.Positions.Looks.{mutations, IsQuiet, Shown, Shown-Ensures}
use sarkfxbot.Execution.Positions.Stops.{OnlyTightens, set_stop-Ensures, IsQuiet-pure}

abbrev target_at : BrokerPosition → Decimal → Decimal → Decimal → Decimal
target_at p spread commission slip = ahead p p.open_price (spread ⊕ commission ⊕ slip)

module _ (b : Broker) (ticket : String) (before : Trace) where
  break_even_at-Ensures :
      (p : BrokerPosition) (target : Decimal)
      → Ensures
          (OnlyTightens b ticket before)
          (λ calls. IsQuiet b ticket before calls × Shown b ticket before p)
          (break_even_at b ticket p target)
          (λ _. OnlyTightens b ticket before)
  unfolding break_even_at
  break_even_at-Ensures p target =
      Ensures-if_tested (not (improves p target)) (λ _. IsQuiet-pure b ticket before p _)
        (λ i.
          Ensures-if_tested (not (is_behind p target)) (λ _. IsQuiet-pure b ticket before p _)
            (λ s. set_stop-Ensures b ticket before p target _ _ (ground arith) (ground arith)))

  trail_to-Ensures :
      (p : BrokerPosition) (candidate : Decimal)
      → Ensures
          (OnlyTightens b ticket before)
          (λ calls. IsQuiet b ticket before calls × Shown b ticket before p)
          (trail_to b ticket p candidate)
          (λ _. OnlyTightens b ticket before)
  unfolding trail_to
  trail_to-Ensures p candidate =
      Ensures-if_tested (not (improves p candidate) || not (is_behind p candidate))
        (λ _. IsQuiet-pure b ticket before p _)
        (λ i. set_stop-Ensures b ticket before p candidate _ _ (ground arith) (ground arith))

  move_to_break_even-Ensures :
      (spread commission slip : Decimal)
      → Ensures
          (OnlyTightens b ticket before)
          (λ calls. calls ≡ before)
          (move_to_break_even b ticket spread commission slip)
          (λ _. OnlyTightens b ticket before)
  unfolding move_to_break_even
  move_to_break_even-Ensures spread commission slip =
      Ensures-if (costs_negative b spread commission slip)
        (Ensures-raise _ (λ calls e. inl (ap mutations e)))
        (Ensures-bind (position_of b ticket) _ (Shown-Ensures b ticket before (λ calls. inl))
          (λ p. break_even_at-Ensures p (ahead p p.open_price (spread ⊕ commission ⊕ slip))))

  -- The candidate is computed without a call.
  candidate-Ensures :
      (p : BrokerPosition) (t : TrailRequest)
      → Ensures
          (OnlyTightens b ticket before)
          (λ calls. IsQuiet b ticket before calls × Shown b ticket before p)
          (candidate_of b p t)
          (λ _ calls. IsQuiet b ticket before calls × Shown b ticket before p)
  unfolding candidate_of
  candidate-Ensures p t = in_mode t.mode
    where
      failed :
          (e : Error)
          → Ensures
              (OnlyTightens b ticket before)
              (λ calls. IsQuiet b ticket before calls × Shown b ticket before p)
              (raise {A = Decimal} e)
              (λ _ calls. IsQuiet b ticket before calls × Shown b ticket before p)
      failed e = Ensures-raise e (λ calls h. inl h.0)

      fixed_case :
          (o : Option Decimal)
          → Ensures
              (OnlyTightens b ticket before)
              (λ calls. IsQuiet b ticket before calls × Shown b ticket before p)
              (fixed_candidate b p o)
              (λ _ calls. IsQuiet b ticket before calls × Shown b ticket before p)
      fixed_case none = failed _
      fixed_case (some d) = Ensures-if _ (failed _) (Ensures-pure _ (λ calls h. h))

      atr_case :
          (o : Option Decimal)
          → Ensures
              (OnlyTightens b ticket before)
              (λ calls. IsQuiet b ticket before calls × Shown b ticket before p)
              (atr_candidate b p o t.atr_multiple)
              (λ _ calls. IsQuiet b ticket before calls × Shown b ticket before p)
      atr_case none = failed _
      atr_case (some d) = Ensures-if _ (failed _) (Ensures-pure _ (λ calls h. h))

      structure_case :
          (o : Option Decimal)
          → Ensures
              (OnlyTightens b ticket before)
              (λ calls. IsQuiet b ticket before calls × Shown b ticket before p)
              (structure_candidate b o)
              (λ _ calls. IsQuiet b ticket before calls × Shown b ticket before p)
      structure_case none = failed _
      structure_case (some d) = Ensures-if _ (failed _) (Ensures-pure _ (λ calls h. h))

      in_mode :
          (m : TrailingStopMode)
          → Ensures
              (OnlyTightens b ticket before)
              (λ calls. IsQuiet b ticket before calls × Shown b ticket before p)
              (candidate_in b p t m)
              (λ _ calls. IsQuiet b ticket before calls × Shown b ticket before p)
      in_mode TrailingStopMode.fixed = fixed_case t.fixed_distance
      in_mode TrailingStopMode.atr = atr_case t.atr
      in_mode TrailingStopMode.structure = structure_case t.structure_stop

  trail-Ensures :
      (enabled : Bool) (t : TrailRequest)
      → Ensures
          (OnlyTightens b ticket before)
          (λ calls. calls ≡ before)
          (trail b enabled ticket t)
          (λ _. OnlyTightens b ticket before)
  unfolding trail
  trail-Ensures enabled t =
      Ensures-if (not enabled) (Ensures-pure _ (λ calls e. inl (ap mutations e))) (
        Ensures-bind (position_of b ticket) _ (Shown-Ensures b ticket before (λ calls. inl))
          (λ p. Ensures-bind (candidate_of b p t) _ (candidate-Ensures p t) (trail_to-Ensures p)))

  ends :
      {A : Type 0} (r : Result A × Trace)
      → Post (OnlyTightens b ticket before) (λ _. OnlyTightens b ticket before) r
      → OnlyTightens b ticket before r.1
  ends (ok a, calls) h = h
  ends (err e, calls) h = h

-- Moving a stop to break-even, whether it returns or raises, leaves the account as it was, or changes
-- the stop of the shown position once: the new stop is nearer to the profit than the old one and
-- still behind the current price, and the take profit is kept.
pub move_to_break_even-OnlyTightens :
    (b : Broker) (ticket : String) (spread commission slip : Decimal) (calls : Trace)
    → OnlyTightens b ticket calls (move_to_break_even b ticket spread commission slip calls).1
move_to_break_even-OnlyTightens b ticket spread commission slip calls =
    ends b ticket calls (move_to_break_even b ticket spread commission slip calls)
      ((move_to_break_even-Ensures b ticket calls spread commission slip).post calls refl)

-- Trailing a stop, in each mode and whether it returns or raises, leaves the account as it was, or
-- changes the stop of the shown position once: the new stop is nearer to the profit than the old one
-- and still behind the current price, and the take profit is kept.
pub trail-OnlyTightens :
    (b : Broker) (enabled : Bool) (ticket : String) (t : TrailRequest) (calls : Trace)
    → OnlyTightens b ticket calls (trail b enabled ticket t calls).1
trail-OnlyTightens b enabled ticket t calls =
    ends b ticket calls (trail b enabled ticket t calls)
      ((trail-Ensures b ticket calls enabled t).post calls refl)

-- A break-even move whose costs are not negative, whose target improves the stop and lies behind the
-- current price, and which the broker accepts, reports that it was applied, with the position that
-- the broker shows afterwards.
move_to_break_even_applied :
    (b : Broker) (ticket : String) (spread commission slip : Decimal) (calls : Trace)
    (p p' : BrokerPosition) (ps ps' : List BrokerPosition)
    → costs_negative b spread commission slip ≡ false
    → b.get_positions none calls ≡ ok ps
    → find (has_ticket ticket) ps ≡ some p
    → improves p (target_at p spread commission slip) ≡ true
    → is_behind p (target_at p spread commission slip) ≡ true
    → b.modify_position ticket
        (target_at p spread commission slip)
        p.take_profit
        (Call.get_positions none ∷ calls)
      ≡ ok true
    → b.get_positions none (
        Call.modify_position ticket (target_at p spread commission slip) p.take_profit
        ∷ Call.get_positions none
        ∷ calls)
      ≡ ok ps'
    → find (has_ticket ticket) ps' ≡ some p'
    → (move_to_break_even b ticket spread commission slip calls).0
      ≡ ok (record {
        applied = true;
        reason = "BREAK_EVEN_APPLIED";
        position = some p';
        report = none;
      })
unfolding move_to_break_even position_of break_even_at set_stop
move_to_break_even_applied b ticket spread commission slip calls p p' ps ps' c g f i s m g' f' =
    simp (c, g, f, i, s, m, g', f')
