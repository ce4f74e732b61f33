-- ===== src/Execution/Positions/Closes.antt =====
-- What a partial close of app/execution/positions.py sends: a volume that the broker takes, and
-- leaves nothing or a volume that it takes.
use sarkfxbot.Base.{
  String, ◌≡◌, refl, sym, ap, ◌∙◌, ◌⊎◌, inl, inr, true, false, not, ◌&&◌, ◌||◌, Option, none, some,
  ◌∷◌, arith, Bool-cases,
}
use sarkfxbot.Base.Decimal.Floor.{floor_step}
use sarkfxbot.Base.Int.{ℤ}
use sarkfxbot.Base.Decimal.{
  Decimal, floor, of_ℤ, ◌⊗◌, ◌⊘◌, ◌⊕◌, ◌≺◌, ◌≼◌, ◌⊖◌, dec_eqb, dec_ltb, dec_leb, of_ℕ, zero_dec,
}
use sarkfxbot.Base.Exec.{Result, ok, err, Exec, pure, ◌>>=◌}
use sarkfxbot.Domain.Models.{SymbolSpecification}
use sarkfxbot.Domain.Orders.{BrokerPosition, ExecutionReport}
use sarkfxbot.Brokers.Port.{Broker, Call, Trace, ask}
use sarkfxbot.Base.Ensures.{
  Post, Ensures, Ensures-from, Ensures-pure, Ensures-raise, Ensures-if, Ensures-if_tested,
  Ensures-bind, Post-of,
}
use sarkfxbot.Execution.Positions.{
  PositionAction, position_of, close_volume_of, close_part, close_whole, partial_close,
}
use sarkfxbot.Execution.Positions.Looks.{mutations, IsQuiet, Shown, look-Ensures}

rounded_of :
    (x step : Decimal)
    → (step ≼ zero_dec)
      ⊎ ((of_ℤ (floor (x ⊘ step)) ⊗ step ≼ x) × (x ≺ of_ℤ (floor (x ⊘ step)) ⊗ step ⊕ step))
rounded_of x step = elim (Bool-cases (dec_ltb zero_dec step)) [
  | inl positive ↦ inr (floor_step x step (ground arith))
  | inr none_positive ↦ inl (ground arith)
]

module _ (b : Broker) (ticket : String) (before : Trace) where
  -- The volume is a whole number of steps, the largest that is not above the fraction of the position
  -- (steps are positive, as SymbolSpecification asks). It is not below the minimum, and neither is
  -- what is left, unless nothing is.
  pub record IsPart (fraction volume : Decimal) : Type 0 where
    pub position : BrokerPosition
    pub shown : Shown b ticket before position
    pub symbol : SymbolSpecification
    pub resolved : b.resolve_symbol position.symbol (Call.get_positions none ∷ before) ≡ ok symbol
    pub steps : (n : ℤ) × (volume ≡ of_ℤ n ⊗ symbol.volume_step)
    pub rounded :
        (symbol.volume_step ≼ zero_dec)
        ⊎ ((volume ≼ position.volume ⊗ fraction)
            × (position.volume ⊗ fraction ≺ volume ⊕ symbol.volume_step))
    pub enough : symbol.volume_min ≼ volume
    pub left :
        (dec_eqb (position.volume ⊖ volume) zero_dec ≡ true)
        ⊎ (symbol.volume_min ≼ position.volume ⊖ volume)

  -- At most one close of this ticket: of the whole for the fraction 1, or of a valid part.
  pub data OnlyCloses (fraction : Decimal) (calls : Trace) : Type 0 where
    nothing : IsQuiet b ticket before calls → OnlyCloses fraction calls
    whole :
        dec_eqb fraction (of_ℕ 1) ≡ true
        → mutations calls ≡ Call.close_position ticket none ∷ mutations before
        → OnlyCloses fraction calls
    part :
        (volume : Decimal)
        → IsPart fraction volume
        → mutations calls ≡ Call.close_position ticket (some volume) ∷ mutations before
        → OnlyCloses fraction calls

  module _ (fraction : Decimal) where
    abbrev Before : BrokerPosition → Trace → Type 0
    Before p calls = IsQuiet b ticket before calls × Shown b ticket before p

    -- The position was just shown.
    abbrev Looked : BrokerPosition → Trace → Type 0
    Looked p calls = (calls ≡ Call.get_positions none ∷ before) × Shown b ticket before p

    abbrev Resolved : BrokerPosition → SymbolSpecification → Type 0
    Resolved p s = b.resolve_symbol p.symbol (Call.get_positions none ∷ before) ≡ ok s

    abbrev Closes : (Trace → Type 0) → Exec Trace PositionAction → Type 0
    Closes P m = Ensures (OnlyCloses fraction) P m (λ _. OnlyCloses fraction)

    -- One close, and the report of it.
    close-Ensures :
        (p : BrokerPosition) (volume : Option Decimal) (f : ExecutionReport → PositionAction)
        → ((calls : Trace)
            → IsQuiet b ticket before calls
            → OnlyCloses fraction (Call.close_position ticket volume ∷ calls))
        → Closes (Before p) (
            ask (Call.close_position ticket volume) (b.close_position ticket volume) >>= λ report.
            pure (f report))
    close-Ensures p volume f h =
        Ensures-bind (ask (Call.close_position ticket volume) (b.close_position ticket volume)) _
          (record {
            post = λ calls k.
                Post-of (OnlyCloses fraction) (λ _. OnlyCloses fraction)
                  (b.close_position ticket volume calls) (Call.close_position ticket volume ∷ calls)
                  (λ _ _. h calls k.0) (λ _ _. h calls k.0);
          })
          (λ report. Ensures-pure _ (λ calls k. k))

    close_whole-Ensures :
        (p : BrokerPosition)
        → dec_eqb fraction (of_ℕ 1) ≡ true
        → Closes (Before p) (close_whole b ticket)
    unfolding close_whole
    close_whole-Ensures p e =
        close-Ensures p none _
          (λ calls k. whole e (ap (λ m. Call.close_position ticket none ∷ m) k))

    IsQuiet-pure : (p : BrokerPosition) (a : PositionAction) → Closes (Before p) (pure a)
    IsQuiet-pure p a = Ensures-pure a (λ calls h. nothing h.0)

    left_of :
        (left low : Decimal)
        → (not (dec_eqb left zero_dec) && dec_ltb left low) ≡ false
        → (dec_eqb left zero_dec ≡ true) ⊎ (low ≼ left)
    left_of left low e = elim (Bool-cases (dec_eqb left zero_dec)) [
      | inl none_left ↦ inl none_left
      | inr some_left ↦ inr (ground arith)
    ]

    close_part-Ensures :
        (p : BrokerPosition) (s : SymbolSpecification)
        → Shown b ticket before p
        → Resolved p s
        → Closes (Before p) (close_part b ticket p s (close_volume_of b p s fraction))
    unfolding close_part
    close_part-Ensures p s shown resolved =
        let volume = close_volume_of b p s fraction in
        Ensures-if_tested (dec_ltb volume s.volume_min) (λ _. IsQuiet-pure p _)
          (λ enough.
            Ensures-if_tested
              (not (dec_eqb (p.volume ⊖ volume) zero_dec)
                && dec_ltb (p.volume ⊖ volume) s.volume_min)
              (λ _. IsQuiet-pure p _)
              (λ rest. close-Ensures p (some volume) _ (λ calls k.
                part volume
                  (record {
                    position = p;
                    shown = shown;
                    symbol = s;
                    resolved = resolved;
                    steps = (floor ((p.volume ⊗ fraction) ⊘ s.volume_step), refl);
                    rounded = rounded_of (p.volume ⊗ fraction) s.volume_step;
                    enough = ground arith;
                    left = left_of (p.volume ⊖ volume) s.volume_min rest;
                  })
                  (ap (λ m. Call.close_position ticket (some volume) ∷ m) k))))

    resolve-Ensures :
        (p : BrokerPosition)
        → Ensures
            (OnlyCloses fraction)
            (Looked p)
            (ask (Call.resolve_symbol p.symbol) (b.resolve_symbol p.symbol))
            (λ s calls. Before p calls × Resolved p s)
    resolve-Ensures p = record {
      post = λ calls h.
          Post-of (OnlyCloses fraction) (λ s calls. Before p calls × Resolved p s)
            (b.resolve_symbol p.symbol calls) (Call.resolve_symbol p.symbol ∷ calls)
            (λ s e. ((ap mutations h.0, h.1), ap (λ t. b.resolve_symbol p.symbol t) (sym h.0) ∙ e))
            (λ _ _. nothing (ap mutations h.0));
    }

    close_known :
        (p : BrokerPosition) (s : SymbolSpecification)
        → Closes
            (λ calls. Before p calls × Resolved p s)
            (close_part b ticket p s (close_volume_of b p s fraction))
    close_known p s = record { post = λ calls h. (close_part-Ensures p s h.0.1 h.1).post calls h.0 }

    partial_close-Ensures : Closes (λ calls. calls ≡ before) (partial_close b ticket fraction)
    unfolding partial_close
    partial_close-Ensures =
        Ensures-if (dec_leb fraction zero_dec || dec_ltb (of_ℕ 1) fraction)
          (Ensures-raise _ (λ calls e. nothing (ap mutations e)))
          (Ensures-bind (position_of b ticket) _
            (look-Ensures b ticket before (λ calls q. nothing q))
            (λ p.
              Ensures-if_tested (dec_eqb fraction (of_ℕ 1))
                (λ e. Ensures-from (λ calls h. (ap mutations h.0, h.1)) (close_whole-Ensures p e))
                (λ _.
                  Ensures-bind (ask (Call.resolve_symbol p.symbol) (b.resolve_symbol p.symbol)) _
                    (resolve-Ensures p) (close_known p))))

ends : (I : Trace → Type 0) (r : Result PositionAction × Trace) → Post I (λ _. I) r → I r.1
ends I (ok a, calls) h = h
ends I (err e, calls) h = h

-- A partial close, whether it returns or raises, closes the whole position only for the fraction 1,
-- and a part of it only in a whole number of the symbol's steps: where the step is positive, at most
-- the fraction of the shown position's volume, and less than a step below it; at least the symbol's
-- minimum, and leaving nothing or at least that minimum, for the symbol that the broker resolved
-- right after it showed the position. It closes once at most and changes nothing else.
pub partial_close-OnlyCloses :
    (b : Broker) (ticket : String) (fraction : Decimal) (calls : Trace)
    → OnlyCloses b ticket calls fraction (partial_close b ticket fraction calls).1
partial_close-OnlyCloses b ticket fraction calls =
    ends (OnlyCloses b ticket calls fraction) (partial_close b ticket fraction calls)
      ((partial_close-Ensures b ticket calls fraction).post calls refl)
