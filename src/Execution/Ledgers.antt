-- ===== src/Execution/Ledgers.antt =====
-- The ledger of app/execution/reconciliation.py: entries, incidents, and what differs between the
-- loops on positions and those on orders, which are the same code with other names.
use sarkfxbot.Base.{ℕ, String, str_eq, Bool, true, false, not, ◌&&◌, Option, none, some, ◌==◌}
use sarkfxbot.Base.Decimal.{dec_eqb}
use sarkfxbot.Domain.Enums.{Direction, is_long, OrderType, OrderStatus}
use sarkfxbot.Domain.Models.{Timestamp}
use sarkfxbot.Domain.Orders.{BrokerPosition, BrokerOrder}

pub data LedgerStatus : Type 0 where
  opened closed pending cancelled : LedgerStatus

abbrev pub same_status : LedgerStatus → LedgerStatus → Bool
same_status opened opened = true
same_status closed closed = true
same_status pending pending = true
same_status cancelled cancelled = true
same_status _ _ = false

-- LedgerPosition and LedgerOrder: `item` is their position or order.
pub record Entry (V : Type 0) : Type 0 where
  pub item : V
  pub status : LedgerStatus
  pub recovered : Bool
  pub updated_at : Timestamp

pub record ReconciliationIncident : Type 0 where
  pub code : String
  pub ticket : String
  pub detail : String

-- What differs between the loops on positions and those on orders.
pub record Kind (V : Type 0) : Type 0 where
  pub ticket_of : V → String
  pub same : V → V → Bool
  pub live : LedgerStatus
  pub gone : LedgerStatus
  pub recovered_code : String
  pub recovered_detail : String
  pub drift_code : String
  pub gone_code : String
  pub gone_detail : String

abbrev pub incident : String → String → String → ReconciliationIncident
incident code ticket detail = record { code = code; ticket = ticket; detail = detail }

abbrev pub same_direction : Direction → Direction → Bool
same_direction Direction.long d = is_long d
same_direction Direction.short d = not (is_long d)

abbrev pub same_option : {A : Type 0} → (A → A → Bool) → Option A → Option A → Bool
same_option same none none = true
same_option same (some a) (some b) = same a b
same_option same _ _ = false

-- BrokerPosition.__eq__, which a dataclass has by its fields
unfoldable pub same_position : BrokerPosition → BrokerPosition → Bool
same_position p q =
    str_eq p.ticket q.ticket
    && str_eq p.symbol q.symbol
    && same_direction p.direction q.direction
    && dec_eqb p.volume q.volume
    && dec_eqb p.open_price q.open_price
    && dec_eqb p.current_price q.current_price
    && dec_eqb p.stop_loss q.stop_loss
    && same_option dec_eqb p.take_profit q.take_profit
    && dec_eqb p.profit q.profit
    && p.opened_at == q.opened_at
    && str_eq p.strategy_id q.strategy_id
    && same_option str_eq p.signal_id q.signal_id

abbrev type_index : OrderType → ℕ
type_index OrderType.market = 0
type_index OrderType.limit = 1
type_index OrderType.stop = 2

abbrev order_index : OrderStatus → ℕ
order_index OrderStatus.pending = 0
order_index OrderStatus.filled = 1
order_index OrderStatus.partially_filled = 2
order_index OrderStatus.cancelled = 3
order_index OrderStatus.rejected = 4

-- BrokerOrder.__eq__
unfoldable pub same_order : BrokerOrder → BrokerOrder → Bool
same_order p q =
    str_eq p.ticket q.ticket
    && str_eq p.symbol q.symbol
    && same_direction p.direction q.direction
    && type_index p.order_type == type_index q.order_type
    && dec_eqb p.volume q.volume
    && dec_eqb p.price q.price
    && dec_eqb p.stop_loss q.stop_loss
    && same_option dec_eqb p.take_profit q.take_profit
    && order_index p.status == order_index q.status
    && p.created_at == q.created_at
    && str_eq p.idempotency_key q.idempotency_key

abbrev pub position_kind : Kind BrokerPosition
position_kind = record {
  ticket_of = λ p. p.ticket;
  same = same_position;
  live = opened;
  gone = closed;
  recovered_code = "BROKER_POSITION_RECOVERED";
  recovered_detail = "broker position restored to ledger";
  drift_code = "POSITION_DRIFT_REPAIRED";
  gone_code = "LEDGER_POSITION_MARKED_CLOSED";
  gone_detail = "position absent at healthy broker";
}

abbrev pub order_kind : Kind BrokerOrder
order_kind = record {
  ticket_of = λ o. o.ticket;
  same = same_order;
  live = pending;
  gone = cancelled;
  recovered_code = "BROKER_ORDER_RECOVERED";
  recovered_detail = "broker order restored to ledger";
  drift_code = "ORDER_DRIFT_REPAIRED";
  gone_code = "LEDGER_ORDER_MARKED_CANCELLED";
  gone_detail = "order absent at healthy broker";
}
