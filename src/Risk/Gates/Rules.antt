-- ===== src/Risk/Gates/Rules.antt =====
-- What app/risk/gates.py asks of an order, in terms of the order, the limits and the snapshot alone.
use sarkfxbot.Base.{
  String, ◌+◌, ◌≤◌, ◌<◌, ◌≡◌, ◌≢◌, ◌⊎◌, true, false, Option, none, some, List, ◌∷◌, All, length,
}
use sarkfxbot.Base.Decimal.{Decimal, abs, dec_eqb, ◌⊕◌, ◌⊖◌, ◌⊗◌, ◌⊘◌, of_ℤ, zero_dec, ◌≼◌, ◌≺◌}
use sarkfxbot.Domain.Enums.{Direction}
use sarkfxbot.Domain.Models.{Tick, second}
use sarkfxbot.Domain.Orders.{OrderRequest}
use sarkfxbot.Risk.Models.{RiskLimits, PositionSizingResult, PreTradeSnapshot}

-- A bound that may be absent.
abbrev pub IfSome {ℓ} : {A : Type 0} → (A → Type ℓ) → Option A → Type ℓ
IfSome P none = Unit
IfSome P (some a) = P a

-- The stop on the losing side of the price, and every target on the winning side.
abbrev pub IsProtected : Direction → Decimal → Decimal → List Decimal → Type 0
IsProtected Direction.long price stop targets = (stop ≺ price) × All (λ t. price ≺ t) targets
IsProtected Direction.short price stop targets = (price ≺ stop) × All (λ t. t ≺ price) targets

-- The loss since the peak, as a share of the peak and at least zero, reaches the limit.
abbrev pub IsDrawnDown : Decimal → Decimal → Option Decimal → Type 0
IsDrawnDown limit equity none = ⊥
IsDrawnDown limit equity (some peak) = (limit ≼ zero_dec) ⊎ (limit ≼ (peak ⊖ equity) ⊘ peak)

-- None of the symbols has this name.
abbrev pub IsOther : List String → String → Type 0
IsOther symbols name = All (λ symbol. name ≢ symbol) symbols

-- The price that an order is judged at: the price that it asks for, unless that is absent or zero;
-- then the ask where it buys, and the bid where it sells.
pub data IsPrice (r : OrderRequest) (t : Tick) (p : Decimal) : Type 0 where
  requested : r.requested_price ≡ some p → dec_eqb p zero_dec ≡ false → IsPrice r t p
  bought :
      IfSome (λ q. dec_eqb q zero_dec ≡ true) r.requested_price
      → r.direction ≡ Direction.long
      → p ≡ t.ask
      → IsPrice r t p
  sold :
      IfSome (λ q. dec_eqb q zero_dec ≡ true) r.requested_price
      → r.direction ≡ Direction.short
      → p ≡ t.bid
      → IsPrice r t p

module _ (l : RiskLimits) (r : OrderRequest) (z : PositionSizingResult) (s : PreTradeSnapshot) where
  -- The safety switches, the broker and the session allow trading in this symbol.
  pub record IsOpen : Type 0 where
    pub kill_switch : s.kill_switch ≡ false
    pub circuit : s.circuit_locked ≡ false
    pub healthy : s.health.healthy ≡ true
    pub connected : s.health.connected ≡ true
    pub trading_allowed : s.health.trading_allowed ≡ true
    pub market_open : s.market_open ≡ true
    pub session_allowed : s.session_allowed ≡ true
    pub symbol_enabled : s.symbol.trade_enabled ≡ true
    pub tick_symbol : s.tick.symbol ≡ s.symbol.name
    pub order_symbol : r.symbol ≡ s.symbol.name

  module _ (p : Decimal) where
    -- The tick is at most a second ahead and not too old, the spread is small, the signal has not
    -- expired, and the price lies in the entry zone.
    pub record IsPriced : Type 0 where
      pub tick_not_ahead : s.tick.timestamp ≤ s.now + second
      pub tick_fresh : s.now ≤ s.tick.timestamp + l.maximum_tick_age
      pub spread_small : s.tick.ask ⊖ s.tick.bid ≼ l.maximum_spread
      pub not_expired : IfSome (λ limit. s.now < limit) r.expires_at
      pub above_entry_min : IfSome (λ low. low ≼ p) r.entry_min
      pub below_entry_max : IfSome (λ high. p ≼ high) r.entry_max
      pub slippage_valid : zero_dec ≼ r.maximum_slippage

    -- The stop is far enough and on the right side, and so are the targets.
    pub record IsStopped : Type 0 where
      pub distance_positive : zero_dec ≺ abs (p ⊖ r.stop_loss)
      pub distance_enough :
          s.symbol.point ⊗ of_ℤ s.symbol.stops_level_points ≼ abs (p ⊖ r.stop_loss)
      pub sides : IsProtected r.direction (p) r.stop_loss r.take_profits

    -- The reward of every target is large enough against the risk at the stop; margin, volume and
    -- cash risk are within the limits.
    pub record IsFunded : Type 0 where
      pub reward :
          All (λ t. l.minimum_risk_reward ≼ abs (t ⊖ p) ⊘ abs (p ⊖ r.stop_loss)) r.take_profits
      pub equity_positive : zero_dec ≺ s.account.equity
      pub free_margin_positive : zero_dec ≺ s.account.free_margin
      pub margin_positive : zero_dec ≺ s.required_margin
      pub margin_covered : s.required_margin ≼ s.account.free_margin
      pub volume_sized : dec_eqb r.volume z.volume ≡ true
      pub risk_bounded : z.cash_risk ≼ z.allowed_cash_risk

  -- No position or order in this or an equivalent symbol is open, no order has this key, the number
  -- of positions is below the limit, and a position in the metal is allowed.
  pub record IsAlone : Type 0 where
    pub positions_below : length s.positions < l.maximum_open_positions
    pub gold_allowed : 0 < l.maximum_gold_positions
    pub no_position : All (λ q. IsOther (s.symbol.name ∷ s.equivalent_symbols) q.symbol) s.positions
    pub no_order :
        All
          (λ o.
            IsOther (s.symbol.name ∷ s.equivalent_symbols) o.symbol
            × (o.idempotency_key ≢ r.idempotency_key))
          s.orders

  -- The order's risk fits under the daily and the weekly loss limit, and the limit on the
  -- drawdown is positive and above the drawdown from the peak, as a share of the peak.
  pub record IsAffordable : Type 0 where
    pub daily :
        s.usage.daily_realized_loss ⊕ s.usage.open_risk ⊕ z.cash_risk
        ≺ s.account.equity ⊗ l.maximum_daily_loss
    pub weekly :
        s.usage.weekly_realized_loss ⊕ s.usage.open_risk ⊕ z.cash_risk
        ≺ s.account.equity ⊗ l.maximum_weekly_loss
    pub drawdown :
        IfSome
          (λ peak.
            (zero_dec ≺ l.maximum_account_drawdown)
            × ((peak ⊖ s.account.equity) ⊘ peak ≺ l.maximum_account_drawdown))
          s.usage.peak_equity

  pub record IsTradable : Type 0 where
    pub at : Decimal
    pub at_price : IsPrice r s.tick at
    pub opened : IsOpen
    pub priced : IsPriced at
    pub stopped : IsStopped at
    pub funded : IsFunded at
    pub alone : IsAlone
    pub affordable : IsAffordable
