-- ===== src/Execution/Executor/Reads.antt =====
-- The reads that app/execution/executor.py and app/risk/calculator.py make before an order: none of
-- them changes the account.
use sarkfxbot.Base.{Bool, ◌||◌, ◌&&◌, not, refl, some, none}
use sarkfxbot.Base.Decimal.{Decimal, dec_leb, dec_ltb, dec_eqb, of_ℕ, ◌⊗◌, min, ◌⊘◌, zero_dec}
use sarkfxbot.Base.Exec.{pure}
use sarkfxbot.Domain.Enums.{is_long}
use sarkfxbot.Domain.Models.{AccountSnapshot, SymbolSpecification, Tick}
use sarkfxbot.Domain.Orders.{OrderRequest}
use sarkfxbot.Brokers.Port.{Broker, BrokerHealth, Call}
use sarkfxbot.Brokers.Avoids.{
  is_mutation, IsKind, Avoids, Avoids-pure, Avoids-raise, Avoids-ask, Avoids-if, Avoids-bind,
}
use sarkfxbot.Risk.Calculator.{
  SizingRequest, profit_call, loss_at_stop, stepped_volume, check_volume, size_by_loss, calculate,
}
use sarkfxbot.Execution.Models.{ExecutionCommand}
use sarkfxbot.Execution.World.{Executor}
use sarkfxbot.Execution.Decision.{Entry, market_reads}
use sarkfxbot.Execution.Executor.{entry_price_of, sizing_request, sizing_reads, connect}

module _ (p : Call → Bool) (h : IsKind is_mutation p) where
  loss_at_stop-Avoids :
      (b : Broker) (a : SizingRequest) (volume : Decimal) → Avoids p (loss_at_stop b a volume)
  loss_at_stop-Avoids b a volume =
      Avoids-bind p _ _ (Avoids-ask p _ _ (h (profit_call a volume) refl)) (λ r. Avoids-pure p _)

  check_volume-Avoids :
      (b : Broker) (a : SizingRequest) (allowed one volume : Decimal)
      → Avoids p (check_volume b a allowed one volume)
  unfolding check_volume
  check_volume-Avoids b a allowed one volume = Avoids-if p _ (Avoids-raise p _) (
      Avoids-bind p _ _ (loss_at_stop-Avoids b a volume)
        (λ r. Avoids-if p _ (Avoids-raise p _) (Avoids-pure p _)))

  size_by_loss-Avoids :
      (b : Broker) (a : SizingRequest) (allowed one : Decimal)
      → Avoids p (size_by_loss b a allowed one)
  unfolding size_by_loss
  size_by_loss-Avoids b a allowed one =
      let capped = min (allowed ⊘ one) a.symbol.volume_max in
      Avoids-if p (dec_leb one zero_dec) (Avoids-raise p _) (
        Avoids-if p (dec_ltb capped a.symbol.volume_min) (Avoids-raise p _)
          (check_volume-Avoids b a allowed one (stepped_volume a.symbol capped)))

  calculate-Avoids : (b : Broker) (a : SizingRequest) → Avoids p (calculate b a)
  unfolding calculate
  calculate-Avoids b a =
      let e = a.entry_price in
      let s = a.stop_loss in
      Avoids-if p (dec_leb a.account.equity zero_dec || dec_leb a.account.free_margin zero_dec)
        (Avoids-raise p _)
        (Avoids-if p (dec_leb a.risk_fraction zero_dec || dec_ltb (of_ℕ 1) a.risk_fraction)
          (Avoids-raise p _)
          (Avoids-if p (dec_leb e zero_dec || dec_leb s zero_dec || dec_eqb e s) (Avoids-raise p _)
            (Avoids-if p (is_long a.direction && dec_leb e s) (Avoids-raise p _) (
              Avoids-if p (not (is_long a.direction) && dec_leb s e) (Avoids-raise p _) (
                Avoids-bind p _ _ (loss_at_stop-Avoids b a (of_ℕ 1))
                  (size_by_loss-Avoids b a (a.account.equity ⊗ a.risk_fraction)))))))

  pub sizing_reads-Avoids :
      (x : Executor) (c : ExecutionCommand) (n : Entry) (account : AccountSnapshot)
      → Avoids p (sizing_reads x c n account)
  unfolding sizing_reads
  sizing_reads-Avoids x c n account =
      let name = c.trade_signal.canonical_symbol in
      Avoids-bind p _ _
        (Avoids-ask p _ (x.adapter.resolve_symbol name) (h (Call.resolve_symbol name) refl))
        (λ (spec : SymbolSpecification).
          Avoids-bind p _ _
            (Avoids-ask p _ (x.adapter.get_tick spec.name) (h (Call.get_tick spec.name) refl))
            (λ (tick : Tick).
              let price = entry_price_of x c n tick in
              Avoids-bind p (calculate x.adapter (sizing_request x c n account spec price))
                (λ z. pure (spec, (tick, (price, z)))) (calculate-Avoids _ _)
                (λ z. Avoids-pure p _)))

  pub connect-Avoids : (x : Executor) (c : ExecutionCommand) → Avoids p (connect x c)
  unfolding connect
  connect-Avoids x c =
      let b = x.adapter in
      Avoids-bind p _ _ (Avoids-ask p _ b.health_check (h Call.health_check refl))
        (λ (health : BrokerHealth).
          Avoids-if p (not health.healthy || not health.connected) (Avoids-pure p _) (
            Avoids-bind p _ (λ account. pure (some (health, account)))
              (Avoids-ask p _ b.get_account (h Call.get_account refl))
              (λ account. Avoids-pure p _)))

  pub market_reads-Avoids :
      (x : Executor) (c : ExecutionCommand) (q : OrderRequest) (spec : SymbolSpecification)
      (price : Decimal)
      → Avoids p (market_reads x c q spec price)
  unfolding market_reads
  market_reads-Avoids x c q spec price =
      let b = x.adapter in
      Avoids-bind p _ _ (Avoids-ask p _ (b.get_positions none) (h (Call.get_positions none) refl))
        (λ _.
          Avoids-bind p _ _ (Avoids-ask p _ (b.get_orders none) (h (Call.get_orders none) refl))
            (λ _. Avoids-bind p _ _ (Avoids-ask p _ b.get_symbols (h Call.get_symbols refl)) (λ _.
              Avoids-bind p _ _
                (Avoids-ask p _ (b.is_market_open spec.name)
                  (h (Call.is_market_open spec.name) refl))
                (λ _.
                  Avoids-bind p _ _
                    (Avoids-ask p _ (b.calculate_margin q price)
                      (h (Call.calculate_margin q price) refl))
                    (λ _. Avoids-pure p _)))))
