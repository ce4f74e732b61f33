-- ===== src/Execution/Payloads/RoundTrips.antt =====
-- The payloads of app/execution/sqlalchemy_idempotency.py, written and read again.
use sarkfxbot.Base.{◌≡◌, refl, false, Option, none, some, List, [], ◌∷◌, map, str_eq, String}
use sarkfxbot.Base.Decimal.{Decimal, dec_eqb, zero_dec}
use sarkfxbot.Base.Dict.{lookup}
use sarkfxbot.Base.Exec.{ok}
use sarkfxbot.Domain.Enums.{Direction, OrderType}
use sarkfxbot.Domain.Models.{Timestamp}
use sarkfxbot.Domain.Orders.{OrderRequest, ExecutionReport, make_request}
use sarkfxbot.Execution.Payloads.{
  price_value, instant_value, text_value, direction_text, direction_of_text, order_type_text,
  order_type_of_text, request_payload, request_from_payload, report_payload, report_of,
}
use sarkfxbot.Execution.Json.{decimal, decimals_of, decimal_or_none, instant_or_none, text_or_none}

-- Not the price zero, which is written as None.
abbrev pub IsPrice : Option Decimal → Type 0
IsPrice none = Unit
IsPrice (some d) = dec_eqb d zero_dec ≡ false

-- Not the empty text, which is read as None.
abbrev pub IsName : Option String → Type 0
IsName none = Unit
IsName (some s) = str_eq s "" ≡ false

price-back : (o : Option Decimal) → IsPrice o → decimal_or_none (price_value o) ≡ ok o
price-back none h = refl
price-back (some d) h = rw h refl

name-back : (o : Option String) → IsName o → text_or_none (text_value o) ≡ ok o
name-back none h = refl
name-back (some s) h = rw h refl

instant-back : (o : Option Timestamp) → instant_or_none (instant_value o) ≡ ok o
instant-back none = refl
instant-back (some t) = refl

decimals-back : (ds : List Decimal) → decimals_of (map decimal ds) ≡ ok ds
unfolding decimals_of
decimals-back [] = refl
decimals-back (d ∷ ds) = rw (decimals-back ds) refl

direction-back : (d : Direction) → direction_of_text (direction_text d) ≡ ok d
direction-back Direction.long = refl
direction-back Direction.short = refl

order_type-back : (t : OrderType) → order_type_of_text (order_type_text t) ≡ ok t
order_type-back OrderType.market = refl
order_type-back OrderType.limit = refl
order_type-back OrderType.stop = refl

-- A request that the store gives back as it was.
pub record IsStorable (r : OrderRequest) : Type 0 where
  pub valid : make_request r ≡ ok r
  pub requested : IsPrice r.requested_price
  pub lowest : IsPrice r.entry_min
  pub highest : IsPrice r.entry_max

-- A valid request without prices of zero is read from its payload as it was.
pub request-back :
    (r : OrderRequest) → IsStorable r → request_from_payload (request_payload r) ≡ ok r
unfolding request_from_payload request_payload lookup
request-back r h =
    rw
      (
        direction-back r.direction,
        order_type-back r.order_type,
        decimals-back r.take_profits,
        price-back r.requested_price h.requested,
        price-back r.entry_min h.lowest,
        price-back r.entry_max h.highest,
        instant-back r.expires_at,
      )
      (h.valid)

-- A report that the store gives back as it was.
pub record IsReportable (r : ExecutionReport) : Type 0 where
  pub ticket : IsName r.broker_ticket
  pub code : IsName r.broker_code
  pub requested : IsPrice r.requested_price
  pub executed : IsPrice r.executed_price

-- A report without prices of zero and empty names is read from its payload as it was.
pub report-back : (r : ExecutionReport) → IsReportable r → report_of (report_payload r) ≡ ok r
unfolding report_of report_payload lookup
report-back r h =
    rw
      (
        name-back r.broker_ticket h.ticket,
        price-back r.requested_price h.requested,
        price-back r.executed_price h.executed,
        name-back r.broker_code h.code,
      )
      refl
