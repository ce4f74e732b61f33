-- ===== src/Risk/Gates/Tradable.antt =====
-- What an accepted order of app/risk/gates.py satisfies.
use sarkfxbot.Base.{
  ◌≡◌, ◌≢◌, ◌↔◌, ◌∙◌, sym, ap, subst, eq_iff, true, false, List, ◌++◌, All, All-map, is_empty,
  arith, any, any-eq-false, any-false_of_All,
}
use sarkfxbot.Base.Decimal.{◌≺◌, zero_dec}
use sarkfxbot.Base.Reasons.{
  Check, AllClear, failing, clear_of_failing, failing_of_clear, is_empty-unique, AllClear-append,
}
use sarkfxbot.Domain.Models.{spread}
use sarkfxbot.Domain.Orders.{OrderRequest, BrokerPosition, BrokerOrder}
use sarkfxbot.Risk.Models.{RiskLimits, PositionSizingResult, PreTradeSnapshot}
use sarkfxbot.Risk.Gates.{
  price, stop_distance, symbols, health_checks, price_checks, stop_checks, money_checks,
  exposure_checks, loss_checks, gate_checks, validate, held, ordered,
}
use sarkfxbot.Risk.Gates.Rules.{
  IsOther, IsOpen, IsPriced, IsStopped, IsFunded, IsAlone, IsAffordable, IsTradable,
}
use sarkfxbot.Risk.Gates.Bounds.{
  expired_at_iff, below_iff, above_iff, ratio_below_iff, drawdown_reached_iff, targets_above_iff,
  targets_below_iff, in_symbols_iff, no_key_iff, count-none, reference_price-IsPrice,
  IsPrice-reference_price,
}

module _ (l : RiskLimits) (r : OrderRequest) (z : PositionSizingResult) (s : PreTradeSnapshot) where
  health_checks_iff : AllClear (health_checks l r z s) ↔ IsOpen l r z s
  unfolding health_checks
  health_checks_iff = (
    λ h. ground (arith, eq_iff s.tick.symbol s.symbol.name, eq_iff r.symbol s.symbol.name),
    λ h. ground (arith, eq_iff s.tick.symbol s.symbol.name, eq_iff r.symbol s.symbol.name),
  )

  price_checks_iff : AllClear (price_checks l r z s) ↔ IsPriced l r z s (price l r z s)
  unfolding price_checks spread
  price_checks_iff = (
    λ h. ground (
      arith,
      expired_at_iff r.expires_at s.now,
      below_iff (price l r z s) r.entry_min,
      above_iff (price l r z s) r.entry_max,
    ),
    λ h. ground (
      arith,
      expired_at_iff r.expires_at s.now,
      below_iff (price l r z s) r.entry_min,
      above_iff (price l r z s) r.entry_max,
    ),
  )

  stop_checks_iff : AllClear (stop_checks l r z s) ↔ IsStopped l r z s (price l r z s)
  unfolding stop_checks
  stop_checks_iff = (
    λ h. ground (
      arith,
      targets_above_iff (price l r z s) r.take_profits,
      targets_below_iff (price l r z s) r.take_profits,
    ),
    λ h. ground (
      arith,
      targets_above_iff (price l r z s) r.take_profits,
      targets_below_iff (price l r z s) r.take_profits,
    ),
  )

  money_checks_iff :
      zero_dec ≺ stop_distance l r z s
      → AllClear (money_checks l r z s) ↔ IsFunded l r z s (price l r z s)
  unfolding money_checks
  money_checks_iff positive =
      let reward =
        ratio_below_iff (price l r z s) (stop_distance l r z s) l.minimum_risk_reward r.take_profits
          positive in
      (λ h. ground (arith, reward), λ h. ground (arith, reward))

  no_position_iff :
      (ps : List BrokerPosition)
      → (any (held l r z s) ps ≡ false) ↔ All (λ q. IsOther (symbols l r z s) q.symbol) ps
  no_position_iff ps = (
    λ h.
        All-map (λ q. (in_symbols_iff (symbols l r z s) q.symbol).0) ps
          (any-eq-false (held l r z s) ps h),
    λ h.
        any-false_of_All (held l r z s) ps
          (All-map (λ q. (in_symbols_iff (symbols l r z s) q.symbol).1) ps h),
  )

  ordered_iff :
      (o : BrokerOrder)
      → (ordered l r z s o ≡ false)
        ↔ (IsOther (symbols l r z s) o.symbol × (o.idempotency_key ≢ r.idempotency_key))
  ordered_iff o =
      let (to, from) = in_symbols_iff (symbols l r z s) o.symbol in
      let (to', from') = no_key_iff o.idempotency_key r.idempotency_key in
      (
        λ h. (to (ground arith), to' (ground arith)),
        λ h. let a = from h.0 in let b = from' h.1 in ground arith,
      )

  no_order_iff :
      (os : List BrokerOrder)
      → (any (ordered l r z s) os ≡ false)
        ↔ All (λ o. IsOther (symbols l r z s) o.symbol × (o.idempotency_key ≢ r.idempotency_key)) os
  no_order_iff os = (
    λ h. All-map (λ o. (ordered_iff o).0) os (any-eq-false (ordered l r z s) os h),
    λ h. any-false_of_All (ordered l r z s) os (All-map (λ o. (ordered_iff o).1) os h),
  )

  exposure_checks_iff : AllClear (exposure_checks l r z s) ↔ IsAlone l r z s
  unfolding exposure_checks
  exposure_checks_iff =
      let positions = no_position_iff s.positions in
      let orders = no_order_iff s.orders in
      let none_held = count-none (held l r z s) s.positions in
      (
        λ h.
            let free : any (held l r z s) s.positions ≡ false = ground arith in
            let zero_held = none_held free in
            record {
              positions_below = ground arith;
              gold_allowed = ground arith;
              no_position = positions.0 free;
              no_order = orders.0 (ground arith);
            },
        λ h.
            let free = positions.1 h.no_position in
            let zero_held = none_held free in
            let no_order = orders.1 h.no_order in
            let below = h.positions_below in let allowed = h.gold_allowed in ground arith,
      )

  loss_checks_iff : AllClear (loss_checks l r z s) ↔ IsAffordable l r z s
  unfolding loss_checks
  loss_checks_iff = (
    λ h. ground (
      arith,
      drawdown_reached_iff s.usage.peak_equity s.account.equity l.maximum_account_drawdown,
    ),
    λ h. ground (
      arith,
      drawdown_reached_iff s.usage.peak_equity s.account.equity l.maximum_account_drawdown,
    ),
  )

  -- The parts of the run from each point on.
  abbrev after_money : List Check
  after_money = exposure_checks l r z s ++ loss_checks l r z s

  abbrev after_stop : List Check
  after_stop = money_checks l r z s ++ after_money

  abbrev after_price : List Check
  after_price = stop_checks l r z s ++ after_stop

  abbrev after_health : List Check
  after_health = price_checks l r z s ++ after_price

  gate_checks_iff : AllClear (gate_checks l r z s) ↔ IsTradable l r z s
  unfolding gate_checks
  gate_checks_iff = (
    λ h.
        let (a, h1) = (AllClear-append (health_checks l r z s) after_health).0 h in
        let (b, h2) = (AllClear-append (price_checks l r z s) after_price).0 h1 in
        let (c, h3) = (AllClear-append (stop_checks l r z s) after_stop).0 h2 in
        let (d, h4) = (AllClear-append (money_checks l r z s) after_money).0 h3 in
        let (e, f) = (AllClear-append (exposure_checks l r z s) (loss_checks l r z s)).0 h4 in
        let stopped = stop_checks_iff.0 c in
        record {
          at = price l r z s;
          at_price = reference_price-IsPrice r s.tick;
          opened = health_checks_iff.0 a;
          priced = price_checks_iff.0 b;
          stopped = stopped;
          funded = (money_checks_iff stopped.distance_positive).0 d;
          alone = exposure_checks_iff.0 e;
          affordable = loss_checks_iff.0 f;
        },
    λ t.
        let same = sym (IsPrice-reference_price r s.tick t.at t.at_price) in
        let stopped = subst (IsStopped l r z s) same t.stopped in
        (AllClear-append (health_checks l r z s) after_health).1 (
          health_checks_iff.1 t.opened,
          (AllClear-append (price_checks l r z s) after_price).1 (
            price_checks_iff.1 (subst (IsPriced l r z s) same t.priced),
            (AllClear-append (stop_checks l r z s) after_stop).1 (
              stop_checks_iff.1 stopped,
              (AllClear-append (money_checks l r z s) after_money).1 (
                (money_checks_iff stopped.distance_positive).1
                    (subst (IsFunded l r z s) same t.funded),
                (AllClear-append (exposure_checks l r z s) (loss_checks l r z s)).1
                    (exposure_checks_iff.1 t.alone, loss_checks_iff.1 t.affordable),
              ),
            ),
          ),
        ),
  )

  -- An order passes the gates exactly when every rule of `IsTradable` holds, which is written in terms
  -- of the order, the limits and the snapshot: trading is open; at the order's price, which is its own
  -- or else the ask for a buy and the bid for a sale, the tick is fresh and the price in the entry
  -- zone, stop and targets are on the right sides, the distance of every target over that of the stop
  -- reaches the minimum, and the margin covers the order; no position or order in the metal and no
  -- order with the same key is there; and the loss limits and the limit on the drawdown from the peak
  -- are kept.
  pub validate_iff : ((validate l r z s).accepted ≡ true) ↔ IsTradable l r z s
  unfolding validate
  validate_iff = (
    λ h. gate_checks_iff.0 (
        clear_of_failing (gate_checks l r z s)
          (sym (is_empty-unique (failing (gate_checks l r z s))) ∙ h)),
    λ t.
        is_empty-unique (failing (gate_checks l r z s))
        ∙ ap is_empty (failing_of_clear (gate_checks l r z s) (gate_checks_iff.1 t)),
  )
