-- ===== src/Brokers/Mock/Checks.antt =====
-- app/brokers/mock.py: the check of an order before it is placed.
use sarkfxbot.Base.{
  suc, String, false, not, ◌&&◌, ◌||◌, Option, none, some, List, [], ◌∷◌, ◌++◌, any, is_empty,
  if◌then◌else◌,
}
use sarkfxbot.Base.Decimal.{
  Decimal, of_ℤ, dec_ltb, dec_leb, dec_eqb, ◌⊖◌, ◌⊗◌, ◌⊘◌, floor, zero_dec,
}
use sarkfxbot.Base.Exec.{Error, broker, ok, Exec, pure, raise, attempt, ◌>>=◌, ◌>>◌}
use sarkfxbot.Base.Reasons.{Check, failing}
use sarkfxbot.Domain.Enums.{is_long}
use sarkfxbot.Domain.Models.{SymbolSpecification, Tick}
use sarkfxbot.Domain.Orders.{OrderCheckResult, OrderRequest}
use sarkfxbot.Brokers.Mock.{Mock, reads, health_check}
use sarkfxbot.Brokers.Mock.Reads.{get_tick, is_market_open, specification, calculate_margin}

-- request.requested_price or (tick.ask if long else tick.bid): a price of zero counts as none
abbrev pub price_or : Option Decimal → Decimal → Decimal
price_or none default = default
price_or (some p) default = if dec_eqb p zero_dec then default else p

unfoldable pub price_of : OrderRequest → Tick → Decimal
price_of q t = price_or q.requested_price (if is_long q.direction then t.ask else t.bid)

-- a % b of two decimals that are not negative
abbrev pub remainder : Decimal → Decimal → Decimal
remainder a b = a ⊖ of_ℤ (floor (a ⊘ b)) ⊗ b

abbrev pub volume_checks : Decimal → SymbolSpecification → List Check
volume_checks v s =
    let outside = dec_ltb v s.volume_min || dec_ltb s.volume_max v in
    (outside, "INVALID_VOLUME")
    ∷ (
      not outside && not (dec_eqb (remainder (v ⊖ s.volume_min) s.volume_step) zero_dec),
      "INVALID_VOLUME_STEP",
    )
    ∷ []

abbrev pub protection_checks : OrderRequest → SymbolSpecification → Decimal → List Check
protection_checks q s price =
    let minimum_distance = s.point ⊗ of_ℤ s.stops_level_points in
    if is_long q.direction
    then (
      dec_leb price q.stop_loss || any (λ t. dec_leb t price) q.take_profits,
      "INVALID_PROTECTION_SIDE",
    )
      ∷ (dec_ltb (price ⊖ q.stop_loss) minimum_distance, "STOP_TOO_CLOSE")
      ∷ []
    else (
      dec_leb q.stop_loss price || any (λ t. dec_leb price t) q.take_profits,
      "INVALID_PROTECTION_SIDE",
    )
      ∷ (dec_ltb (q.stop_loss ⊖ price) minimum_distance, "STOP_TOO_CLOSE")
      ∷ []

abbrev pub unavailable_check : OrderCheckResult
unavailable_check = record {
  accepted = false;
  reasons = "SYMBOL_OR_TICK_UNAVAILABLE" ∷ [];
  margin_required = none;
  broker_code = some "MOCK_INVALID";
}

abbrev pub checked : List String → Decimal → OrderCheckResult
checked reasons margin = record {
  accepted = is_empty reasons;
  reasons = reasons;
  margin_required = some margin;
  broker_code = some (if is_empty reasons then "MOCK_OK" else "MOCK_REJECT");
}

-- The rest of validate_order, with the specification and the tick.
unfoldable pub check_order : OrderRequest → SymbolSpecification × Tick → Exec Mock OrderCheckResult
check_order q (s, t) = do
  open_market ← is_market_open q.symbol
  let price = price_of q t
  margin ← calculate_margin q price
  reads (λ m. ok (
      checked
        (failing (
          (not (health_check m).trading_allowed, "BROKER_UNHEALTHY")
          ∷ (not open_market, "MARKET_CLOSED")
          ∷ (volume_checks q.volume s
              ++ (protection_checks q s price
                  ++ ((dec_ltb m.account.free_margin margin, "INSUFFICIENT_MARGIN") ∷ [])))))
        margin))

abbrev pub find_symbol : OrderRequest → Exec Mock (SymbolSpecification × Tick)
find_symbol q = do s ← specification q.symbol; t ← get_tick q.symbol; pure (s, t)

-- except BrokerError
abbrev pub symbol_unavailable : Error → Exec Mock OrderCheckResult
symbol_unavailable (broker kind message) = pure unavailable_check
symbol_unavailable other = raise other

abbrev pub count_check : Exec Mock (Unit {0})
count_check m = (ok tt, record m { order_check_calls = suc m.order_check_calls })

unfoldable pub validate_order : OrderRequest → Exec Mock OrderCheckResult
validate_order q = do count_check; attempt (find_symbol q) (check_order q) symbol_unavailable
