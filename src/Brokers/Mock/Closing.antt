-- ===== src/Brokers/Mock/Closing.antt =====
-- app/brokers/mock.py: changing, closing and cancelling what was placed.
use sarkfxbot.Base.{
  suc, String, Bool, true, false, not, ◌||◌, Option, none, some, [], ◌∷◌, ◌++◌, if◌then◌else◌,
}
use Prim.Native.String
use sarkfxbot.Base.Decimal.{Decimal, dec_ltb, dec_leb, dec_eqb, ◌⊖◌, zero_dec}
use sarkfxbot.Base.Dict.{lookup, insert, remove}
use sarkfxbot.Base.Exec.{
  broker, broker_error, key_error, Result, ok, Exec, pure, raise, lift, ◌>>=◌, ◌>>◌,
}
use sarkfxbot.Domain.Models.{Timestamp}
use sarkfxbot.Domain.Orders.{BrokerPosition, make_position, ExecutionReport}
use sarkfxbot.Brokers.Mock.{Mock, entry_out, read_clock, require_connection}
use sarkfxbot.Brokers.Mock.Reads.{is_known}
use sarkfxbot.Brokers.Mock.Trading.{digits, store}

-- replace(position, stop_loss=stop_loss, take_profit=take_profit) under the ticket
unfoldable pub protect : String → BrokerPosition → Decimal → Option Decimal → Exec Mock (Unit {0})
protect ticket p stop target = do
  changed ← lift (make_position (record p { stop_loss = stop; take_profit = target }))
  store (λ m. record m { positions = insert ticket changed m.positions })

abbrev pub protect_found :
    String → Decimal → Option Decimal → Option BrokerPosition → Exec Mock (Unit {0})
protect_found ticket stop target none = raise (key_error "mock position does not exist")
protect_found ticket stop target (some p) = protect ticket p stop target

unfoldable pub corrupt_position_protection :
    String → Decimal → Option Decimal → Exec Mock (Unit {0})
corrupt_position_protection ticket stop target m =
    protect_found ticket stop target (lookup ticket m.positions) m

abbrev pub modify_found :
    String → Decimal → Option Decimal → Bool → Option BrokerPosition → Exec Mock Bool
modify_found ticket stop target allowed none = pure false
modify_found ticket stop target allowed (some p) =
    if dec_leb stop zero_dec || not allowed
    then pure false
    else (do protect ticket p stop target; pure true)

unfoldable pub modify_position : String → Decimal → Option Decimal → Exec Mock Bool
modify_position ticket stop target = do
  require_connection
  store (λ m. record m { modify_calls = suc m.modify_calls })
  λ m. modify_found ticket stop target m.position_modification_allowed (lookup ticket m.positions) m

-- volume or position.volume: a volume of zero counts as none
abbrev pub volume_or : Option Decimal → Decimal → Decimal
volume_or none all = all
volume_or (some v) all = if dec_eqb v zero_dec then all else v

abbrev pub not_found_report : String → Timestamp → ExecutionReport
not_found_report ticket now = record {
  success = false;
  idempotency_key = String.◌++◌ "close:" ticket;
  broker_ticket = some ticket;
  requested_price = none;
  executed_price = none;
  volume = zero_dec;
  broker_code = some "MOCK_NOT_FOUND";
  message = "position not found";
  submitted_at = now;
}

abbrev pub closed_report : String → String → BrokerPosition → Decimal → Timestamp → ExecutionReport
closed_report ticket number p volume now = record {
  success = true;
  idempotency_key = String.◌++◌ "close:" (String.◌++◌ ticket (String.◌++◌ ":" number));
  broker_ticket = some ticket;
  requested_price = some p.current_price;
  executed_price = some p.current_price;
  volume = volume;
  broker_code = some "MOCK_CLOSED";
  message = "position closed";
  submitted_at = now;
}

abbrev pub numbered_report :
    String → BrokerPosition → Decimal → Timestamp → Mock → Result ExecutionReport
numbered_report ticket p volume now m =
    ok (closed_report ticket (digits (suc m.close_calls) m.close_calls "") p volume now)

-- The position without the closed volume, or no position.
unfoldable pub take_volume : String → BrokerPosition → Decimal → Exec Mock (Unit {0})
take_volume ticket p volume =
    if dec_eqb volume p.volume
    then store (λ m. record m { positions = remove ticket m.positions })
    else (do
      rest ← lift (make_position (record p { volume = p.volume ⊖ volume }))
      store (λ m. record m { positions = insert ticket rest m.positions }))

unfoldable pub close_volume : String → BrokerPosition → Decimal → Exec Mock ExecutionReport
close_volume ticket p volume =
    if dec_leb volume zero_dec || dec_ltb p.volume volume
    then raise (broker broker_error "close volume is outside the open position volume")
    else (do
      take_volume ticket p volume
      now ← read_clock
      store (λ m. record m { deals = m.deals ++ (entry_out ticket now volume ∷ []) })
      later ← read_clock
      λ m.
          pure (closed_report ticket (digits (suc m.close_calls) m.close_calls "") p volume later)
            m)

abbrev pub close_found : String → Option Decimal → Option BrokerPosition → Exec Mock ExecutionReport
close_found ticket volume none = do now ← read_clock; pure (not_found_report ticket now)
close_found ticket volume (some p) = close_volume ticket p (volume_or volume p.volume)

unfoldable pub close_position : String → Option Decimal → Exec Mock ExecutionReport
close_position ticket volume = do
  require_connection
  store (λ m. record m { close_calls = suc m.close_calls })
  λ m. close_found ticket volume (lookup ticket m.positions) m

unfoldable pub cancel_order : String → Exec Mock Bool
cancel_order ticket = do
  require_connection
  λ m. (ok (is_known (lookup ticket m.orders)), record m { orders = remove ticket m.orders })
