-- ===== src/Domain/Orders.antt =====
-- The second half of app/domain/models.py: order requests, what a broker answers to them, and the
-- positions and orders that it holds.
use sarkfxbot.Base.{String, Bool, ◌||◌, Option, none, some, List, any, is_empty, if◌then◌else◌}
use sarkfxbot.Base.Decimal.{Decimal, dec_leb, ◌⊖◌, abs, zero_dec}
use sarkfxbot.Base.Exec.{value_error, Result, ok, err}
use sarkfxbot.Base.Text.{is_blank}
use sarkfxbot.Domain.Models.{Timestamp}
use sarkfxbot.Domain.Enums.{Direction, OrderStatus, OrderType}

pub record OrderRequest : Type 0 where
  pub signal_id : String
  pub strategy_id : String
  pub symbol : String
  pub direction : Direction
  pub order_type : OrderType
  pub volume : Decimal
  pub stop_loss : Decimal
  pub take_profits : List Decimal
  pub idempotency_key : String
  pub requested_price : Option Decimal
  pub entry_min : Option Decimal
  pub entry_max : Option Decimal
  pub expires_at : Option Timestamp
  pub maximum_slippage : Decimal
  pub comment : String

-- OrderRequest.__post_init__
unfoldable pub make_request : OrderRequest → Result OrderRequest
make_request r =
    if dec_leb r.volume zero_dec || dec_leb r.stop_loss zero_dec
    then err (value_error "order volume and stop loss must be positive")
    else if is_empty r.take_profits || any (λ v. dec_leb v zero_dec) r.take_profits
    then err (value_error "at least one positive take profit is required")
    else if is_blank r.idempotency_key
    then err (value_error "idempotency key is required")
    else ok r

pub record OrderCheckResult : Type 0 where
  pub accepted : Bool
  pub reasons : List String
  pub margin_required : Option Decimal
  pub broker_code : Option String

pub record ExecutionReport : Type 0 where
  pub success : Bool
  pub idempotency_key : String
  pub broker_ticket : Option String
  pub requested_price : Option Decimal
  pub executed_price : Option Decimal
  pub volume : Decimal
  pub broker_code : Option String
  pub message : String
  pub submitted_at : Timestamp

-- ExecutionReport.slippage
abbrev pub slippage_of : Option Decimal → Option Decimal → Option Decimal
slippage_of (some requested) (some executed) = some (abs (executed ⊖ requested))
slippage_of _ _ = none

unfoldable pub slippage : ExecutionReport → Option Decimal
slippage r = slippage_of r.requested_price r.executed_price

pub record BrokerPosition : Type 0 where
  pub ticket : String
  pub symbol : String
  pub direction : Direction
  pub volume : Decimal
  pub open_price : Decimal
  pub current_price : Decimal
  pub stop_loss : Decimal
  pub take_profit : Option Decimal
  pub profit : Decimal
  pub opened_at : Timestamp
  pub strategy_id : String
  pub signal_id : Option String

-- BrokerPosition.__post_init__
unfoldable pub make_position : BrokerPosition → Result BrokerPosition
make_position p =
    if dec_leb p.volume zero_dec || dec_leb p.open_price zero_dec || dec_leb p.stop_loss zero_dec
    then err (value_error "broker position has invalid protected trade values")
    else ok p

pub record BrokerOrder : Type 0 where
  pub ticket : String
  pub symbol : String
  pub direction : Direction
  pub order_type : OrderType
  pub volume : Decimal
  pub price : Decimal
  pub stop_loss : Decimal
  pub take_profit : Option Decimal
  pub status : OrderStatus
  pub created_at : Timestamp
  pub idempotency_key : String
