-- ===== src/Risk/Gates.antt =====
-- app/risk/gates.py: the rules that every order passes before it is sent, in the order of the
-- source. `validate` is one run of guarded reasons; it is cut here into six parts that follow each
-- other.
pub mod Rules
pub mod Bounds
pub mod Tradable
use sarkfxbot.Base.{
  ℕ, ◌+◌, String, str_eq, Bool, true, false, not, ◌&&◌, ◌||◌, Option, none, some, List, [], ◌∷◌,
  ◌++◌, map, any, count, length, is_empty, ltb, leb, ◌==◌, if◌then◌else◌,
}
use sarkfxbot.Base.Decimal.{
  Decimal, dec_ltb, dec_leb, dec_eqb, ◌⊕◌, ◌⊖◌, ◌⊗◌, ◌⊘◌, of_ℤ, abs, min, max, zero_dec,
}
use sarkfxbot.Base.Reasons.{Check, failing, unique}
use sarkfxbot.Domain.Enums.{is_long}
use sarkfxbot.Domain.Models.{Tick, second, spread, expired_at}
use sarkfxbot.Domain.Orders.{OrderRequest, BrokerPosition, BrokerOrder}
use sarkfxbot.Risk.Models.{RiskLimits, PositionSizingResult, PreTradeSnapshot, RiskDecision}

-- `price or other`: None and a zero are false in Python.
abbrev pub price_or : Option Decimal → Decimal → Decimal
price_or none other = other
price_or (some p) other = if dec_eqb p zero_dec then other else p

-- The reference price of an order.
unfoldable pub reference_price : OrderRequest → Tick → Decimal
reference_price r t = price_or r.requested_price (if is_long r.direction then t.ask else t.bid)

-- `bound is not None and price < bound`, and the other way round
abbrev pub below : Decimal → Option Decimal → Bool
below price none = false
below price (some bound) = dec_ltb price bound

abbrev pub above : Decimal → Option Decimal → Bool
above price none = false
above price (some bound) = dec_ltb bound price

abbrev pub least : Decimal → List Decimal → Decimal
least d [] = d
least d (x ∷ xs) = least (min d x) xs

-- min(reward_distances) / stop_distance
abbrev pub risk_reward_of : Decimal → Decimal → List Decimal → Option Decimal
risk_reward_of price stop_distance [] = none
risk_reward_of price stop_distance (t ∷ ts) =
    if dec_ltb zero_dec stop_distance
    then some (least (abs (t ⊖ price)) (map (λ x. abs (x ⊖ price)) ts) ⊘ stop_distance)
    else none

abbrev pub ratio_below : Option Decimal → Decimal → Bool
ratio_below none limit = false
ratio_below (some ratio) limit = dec_ltb ratio limit

abbrev pub drawdown_of : Decimal → Decimal → Decimal
drawdown_of peak equity = max zero_dec ((peak ⊖ equity) ⊘ peak)

abbrev pub drawdown_reached : Option Decimal → Decimal → Decimal → Bool
drawdown_reached none equity limit = false
drawdown_reached (some peak) equity limit = dec_leb limit (drawdown_of peak equity)

-- symbol in equivalent_symbols
abbrev pub in_symbols : List String → String → Bool
in_symbols symbols name = any (str_eq name) symbols

module _ (l : RiskLimits) (r : OrderRequest) (z : PositionSizingResult) (s : PreTradeSnapshot) where
  abbrev pub price : Decimal
  price = reference_price r s.tick

  abbrev pub stop_distance : Decimal
  stop_distance = abs (price ⊖ r.stop_loss)

  -- set(snapshot.equivalent_symbols) | {spec.name}
  abbrev pub symbols : List String
  symbols = s.symbol.name ∷ s.equivalent_symbols

  unfoldable pub health_checks : List Check
  health_checks =
      (s.kill_switch, "KILL_SWITCH_ACTIVE")
      ∷ (s.circuit_locked, "CIRCUIT_BREAKER_LOCKED")
      ∷ (not s.health.healthy || not s.health.connected, "BROKER_UNHEALTHY")
      ∷ (not s.health.trading_allowed, "BROKER_TRADING_DISABLED")
      ∷ (not s.market_open, "MARKET_CLOSED")
      ∷ (not s.session_allowed, "TRADING_SESSION_NOT_ALLOWED")
      ∷ (not s.symbol.trade_enabled, "SYMBOL_TRADING_DISABLED")
      ∷ (
        not (str_eq s.tick.symbol s.symbol.name) || not (str_eq r.symbol s.symbol.name),
        "SYMBOL_MISMATCH",
      )
      ∷ []

  -- `tick_age` is `now - tick.timestamp`; the test for a stale tick is an `elif`.
  unfoldable pub price_checks : List Check
  price_checks =
      (ltb (s.now + second) s.tick.timestamp, "TICK_FROM_FUTURE")
      ∷ (
        not (ltb (s.now + second) s.tick.timestamp)
            && ltb (s.tick.timestamp + l.maximum_tick_age) s.now,
        "STALE_TICK",
      )
      ∷ (dec_ltb l.maximum_spread (spread s.tick), "TRADE_SKIPPED_HIGH_SPREAD")
      ∷ (expired_at r.expires_at s.now, "SIGNAL_EXPIRED")
      ∷ (below price r.entry_min, "PRICE_OUTSIDE_ENTRY_ZONE")
      ∷ (above price r.entry_max, "PRICE_OUTSIDE_ENTRY_ZONE")
      ∷ (dec_ltb r.maximum_slippage zero_dec, "INVALID_SLIPPAGE_TOLERANCE")
      ∷ []

  unfoldable pub stop_checks : List Check
  stop_checks =
      (
        dec_leb stop_distance zero_dec
            || dec_ltb stop_distance (s.symbol.point ⊗ of_ℤ s.symbol.stops_level_points),
        "INVALID_STOP_DISTANCE",
      )
      ∷ (if is_long r.direction
          then (dec_leb price r.stop_loss, "LONG_STOP_NOT_BELOW_ENTRY")
            ∷ (any (λ t. dec_leb t price) r.take_profits, "LONG_TAKE_PROFIT_NOT_ABOVE_ENTRY")
            ∷ []
          else (dec_leb r.stop_loss price, "SHORT_STOP_NOT_ABOVE_ENTRY")
            ∷ (any (λ t. dec_leb price t) r.take_profits, "SHORT_TAKE_PROFIT_NOT_BELOW_ENTRY")
            ∷ [])

  abbrev pub risk_reward : Option Decimal
  risk_reward = risk_reward_of price stop_distance r.take_profits

  unfoldable pub money_checks : List Check
  money_checks =
      (ratio_below risk_reward l.minimum_risk_reward, "RISK_REWARD_BELOW_MINIMUM")
      ∷ (
        dec_leb s.account.equity zero_dec || dec_leb s.account.free_margin zero_dec,
        "ACCOUNT_EQUITY_OR_MARGIN_INVALID",
      )
      ∷ (
        dec_leb s.required_margin zero_dec || dec_ltb s.account.free_margin s.required_margin,
        "INSUFFICIENT_OR_INVALID_MARGIN",
      )
      ∷ (not (dec_eqb r.volume z.volume), "ORDER_VOLUME_DIFFERS_FROM_RISK_SIZE")
      ∷ (dec_ltb z.allowed_cash_risk z.cash_risk, "TRADE_RISK_EXCEEDS_LIMIT")
      ∷ []

  -- The broker holds a position in this metal, or an order that is the same.
  abbrev pub held : BrokerPosition → Bool
  held p = in_symbols symbols p.symbol

  abbrev pub ordered : BrokerOrder → Bool
  ordered o = in_symbols symbols o.symbol || str_eq o.idempotency_key r.idempotency_key

  unfoldable pub exposure_checks : List Check
  exposure_checks =
      (leb l.maximum_open_positions (length s.positions), "MAXIMUM_OPEN_POSITIONS_REACHED")
      ∷ (leb l.maximum_gold_positions (count held s.positions), "MAXIMUM_GOLD_POSITIONS_REACHED")
      ∷ (any held s.positions, "DUPLICATE_POSITION")
      ∷ (any ordered s.orders, "DUPLICATE_PENDING_ORDER")
      ∷ []

  unfoldable pub loss_checks : List Check
  loss_checks =
      (
        dec_leb (s.account.equity ⊗ l.maximum_daily_loss)
            (s.usage.daily_realized_loss ⊕ s.usage.open_risk ⊕ z.cash_risk),
        "DAILY_LOSS_LIMIT_REACHED",
      )
      ∷ (
        dec_leb (s.account.equity ⊗ l.maximum_weekly_loss)
            (s.usage.weekly_realized_loss ⊕ s.usage.open_risk ⊕ z.cash_risk),
        "WEEKLY_LOSS_LIMIT_REACHED",
      )
      ∷ (
        drawdown_reached s.usage.peak_equity s.account.equity l.maximum_account_drawdown,
        "ACCOUNT_DRAWDOWN_LIMIT_REACHED",
      )
      ∷ []

  unfoldable pub gate_checks : List Check
  gate_checks =
      health_checks
      ++ (price_checks ++ (stop_checks ++ (money_checks ++ (exposure_checks ++ loss_checks))))

  -- RiskGateValidator.validate
  unfoldable pub validate : RiskDecision
  validate =
      let reasons = unique (failing gate_checks) in
      record {
        accepted = is_empty reasons;
        reasons = reasons;
        risk_amount = z.cash_risk;
        risk_fraction = z.risk_fraction;
        risk_reward = risk_reward;
        required_margin = s.required_margin;
      }
