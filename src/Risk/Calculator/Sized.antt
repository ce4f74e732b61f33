-- ===== src/Risk/Calculator/Sized.antt =====
-- What a position size of app/risk/calculator.py guarantees.
use sarkfxbot.Base.{◌≡◌, refl, sym, ap, ◌∙◌, ◌∷◌, arith}
use sarkfxbot.Base.Int.{ℤ}
use sarkfxbot.Base.Decimal.{
  Decimal, abs, ◌⊕◌, ◌⊖◌, floor, ◌⊗◌, ◌⊘◌, min, of_ℤ, of_ℕ, zero_dec, ◌≼◌, ◌≺◌,
}
use sarkfxbot.Base.Exec.{Result, ok, err, ◌>>=◌, bind-eq-ok}
use sarkfxbot.Domain.Enums.{Direction}
use sarkfxbot.Brokers.Port.{Broker, Call, Trace}
use sarkfxbot.Risk.Models.{PositionSizingResult}
use sarkfxbot.Risk.Calculator.{
  SizingRequest, loss_at_stop, calculate, size_by_loss, check_volume, stepped_volume,
}

-- The stop lies on the losing side of the entry.
abbrev pub StopBehind : Direction → Decimal → Decimal → Type 0
StopBehind Direction.long entry stop = stop ≺ entry
StopBehind Direction.short entry stop = entry ≺ stop

-- The broker was asked, after the question on one lot, for the profit at the stop of the volume
-- itself, and the cash at risk is the size of its answer.
pub record IsAsked (b : Broker) (a : SizingRequest) (calls : Trace) (r : PositionSizingResult)
    : Type 0 where
  pub profit : Decimal
  pub answered :
      b.calculate_profit a.symbol.name a.direction r.volume a.entry_price a.stop_loss
        (Call.calculate_profit a.symbol.name a.direction (of_ℕ 1) a.entry_price a.stop_loss ∷ calls)
      ≡ ok profit
  pub at_risk : r.cash_risk ≡ abs profit
  pub as_fraction : r.risk_fraction ≡ r.cash_risk ⊘ a.account.equity

-- What a size guarantees that is returned after the calls `calls`.
pub record IsSized (b : Broker) (a : SizingRequest) (calls : Trace) (r : PositionSizingResult)
    : Type 0 where
  pub asked : IsAsked b a calls r
  pub at_least_minimum : a.symbol.volume_min ≼ r.volume
  pub at_most_maximum : r.volume ≼ a.symbol.volume_max
  pub on_step : (n : ℤ) × (r.volume ≡ a.symbol.volume_min ⊕ of_ℤ n ⊗ a.symbol.volume_step)
  pub allowed : r.allowed_cash_risk ≡ a.account.equity ⊗ a.risk_fraction
  pub risk_positive : zero_dec ≺ r.cash_risk
  pub risk_bounded : r.cash_risk ≼ r.allowed_cash_risk
  pub stop_behind : StopBehind a.direction a.entry_price a.stop_loss

check_volume_risk :
    (b : Broker) (a : SizingRequest) (allowed loss volume : Decimal) (calls : Trace)
    (r : PositionSizingResult)
    → (check_volume b a allowed loss volume calls).0 ≡ ok r
    → (a.symbol.volume_min ≼ volume)
      × (volume ≼ a.symbol.volume_max)
      × (r.volume ≡ volume)
      × (r.allowed_cash_risk ≡ allowed)
      × (zero_dec ≺ r.cash_risk)
      × (r.cash_risk ≼ allowed)
unfolding check_volume
check_volume_risk b a allowed loss volume calls r h = ground arith

-- The rest of `check_volume`, on the broker's answer.
answer_of :
    (b : Broker) (a : SizingRequest) (volume : Decimal) (calls : Trace) (actual : Decimal)
    → (loss_at_stop b a volume calls).0 ≡ ok actual
    → (profit : Decimal) × (b.calculate_profit a.symbol.name a.direction volume a.entry_price
          a.stop_loss calls
        ≡ ok profit)
      × (actual ≡ abs profit)
answer_of b a volume calls actual h =
    of_result (b.calculate_profit a.symbol.name a.direction volume a.entry_price a.stop_loss calls)
      refl h
  where
    of_result :
        (q : Result Decimal)
        → b.calculate_profit a.symbol.name a.direction volume a.entry_price a.stop_loss calls ≡ q
        → (loss_at_stop b a volume calls).0 ≡ ok actual
        → (profit : Decimal) × (b.calculate_profit a.symbol.name a.direction volume a.entry_price
              a.stop_loss calls
            ≡ ok profit)
          × (actual ≡ abs profit)
    of_result (ok profit) e k = (profit, e, ground arith)
    of_result (err x) e k = absurd (ground arith)

-- The answer that `check_volume` goes by.
check_volume_answer :
    (b : Broker) (a : SizingRequest) (allowed loss volume : Decimal) (calls : Trace)
    (r : PositionSizingResult)
    → (check_volume b a allowed loss volume calls).0 ≡ ok r
    → ((loss_at_stop b a volume calls).0 ≡ ok r.cash_risk)
      × (r.risk_fraction ≡ r.cash_risk ⊘ a.account.equity)
unfolding check_volume
check_volume_answer b a allowed loss volume calls r h = (ground arith, ground arith)

loss_at_stop_calls :
    (b : Broker) (a : SizingRequest) (volume : Decimal) (calls : Trace)
    → (loss_at_stop b a volume calls).1
      ≡ Call.calculate_profit a.symbol.name a.direction volume a.entry_price a.stop_loss ∷ calls
loss_at_stop_calls b a volume calls = ground arith

check_volume-IsAsked :
    (b : Broker) (a : SizingRequest) (allowed loss volume : Decimal) (calls calls' : Trace)
    (r : PositionSizingResult)
    → calls'
      ≡ Call.calculate_profit a.symbol.name a.direction (of_ℕ 1) a.entry_price a.stop_loss ∷ calls
    → (check_volume b a allowed loss volume calls').0 ≡ ok r
    → r.volume ≡ volume
    → IsAsked b a calls r
check_volume-IsAsked b a allowed loss volume calls calls' r earlier h same =
    let (taken, fraction) = check_volume_answer b a allowed loss volume calls' r h in
    let (profit, answered, at_risk) = answer_of b a volume calls' r.cash_risk taken in
    record {
      profit = profit;
      answered =
          ap
            (λ v. b.calculate_profit a.symbol.name a.direction v a.entry_price a.stop_loss (
              Call.calculate_profit a.symbol.name a.direction (of_ℕ 1) a.entry_price a.stop_loss
              ∷ calls))
            same
          ∙ ap (b.calculate_profit a.symbol.name a.direction volume a.entry_price a.stop_loss)
              (sym earlier)
          ∙ answered;
      at_risk = at_risk;
      as_fraction = fraction;
    }

size_by_loss_risk :
    (b : Broker) (a : SizingRequest) (allowed loss : Decimal) (calls : Trace)
    (r : PositionSizingResult)
    → (size_by_loss b a allowed loss calls).0 ≡ ok r
    → (capped : Decimal) × ((check_volume b a allowed loss (stepped_volume a.symbol capped) calls).0
        ≡ ok r)
unfolding size_by_loss
size_by_loss_risk b a allowed loss calls r h =
    (min (allowed ⊘ loss) a.symbol.volume_max, ground arith)

calculate_steps :
    (b : Broker) (a : SizingRequest) (calls : Trace) (r : PositionSizingResult)
    → (calculate b a calls).0 ≡ ok r
    → StopBehind a.direction a.entry_price a.stop_loss
      × (((loss_at_stop b a (of_ℕ 1) >>= size_by_loss b a (a.account.equity ⊗ a.risk_fraction))
            calls).0
          ≡ ok r)
unfolding calculate
calculate_steps b a calls r h = ground arith

-- Every size that is returned lies between the broker's minimum and maximum volume, is the minimum
-- plus a whole number of steps, and risks a positive amount of cash of at most the equity times the
-- risk fraction, with the stop behind the entry. The cash at risk is the size of what the broker
-- answered for this very volume at the stop, when it was asked after one lot, and the reported
-- fraction is this cash over the equity.
pub calculate-IsSized :
    (b : Broker) (a : SizingRequest) (calls : Trace) (r : PositionSizingResult)
    → (calculate b a calls).0 ≡ ok r
    → IsSized b a calls r
calculate-IsSized b a calls r h =
    let allowed : Decimal = a.account.equity ⊗ a.risk_fraction in
    let (behind, e) = calculate_steps b a calls r h in
    let (loss, _, e') = bind-eq-ok (loss_at_stop b a (of_ℕ 1)) (size_by_loss b a allowed) calls e in
    let calls' = (loss_at_stop b a (of_ℕ 1) calls).1 in
    let (capped, e'') = size_by_loss_risk b a allowed loss calls' r e' in
    let (low, high, same, budget, positive, bounded) =
      check_volume_risk b a allowed loss (stepped_volume a.symbol capped) calls' r e'' in
    record {
      asked =
          check_volume-IsAsked b a allowed loss (stepped_volume a.symbol capped) calls calls' r
            (loss_at_stop_calls b a (of_ℕ 1) calls) e'' same;
      at_least_minimum = rw same low;
      at_most_maximum = rw same high;
      on_step = (floor ((capped ⊖ a.symbol.volume_min) ⊘ a.symbol.volume_step), same);
      allowed = budget;
      risk_positive = positive;
      risk_bounded = rw budget bounded;
      stop_behind = behind;
    }
