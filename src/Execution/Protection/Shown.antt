-- ===== src/Execution/Protection/Shown.antt =====
-- What app/execution/executor.py may take as proof that a fill is protected, in terms of the calls to
-- the broker and of its answers.
use sarkfxbot.Base.{String, ◌≡◌, true, Option, some, List, ◌∷◌, ◌++◌, get_last?, ap}
use sarkfxbot.Base.Decimal.{Decimal, dec_eqb}
use sarkfxbot.Base.Exec.{ok}
use sarkfxbot.Domain.Orders.{OrderRequest, ExecutionReport, BrokerPosition}
use sarkfxbot.Brokers.Port.{Broker, Call, Trace, broker_correlation_key}

-- Calls were added to a trace.
abbrev pub IsLater : Trace → Trace → Type 0
IsLater before calls = (more : List Call) × (calls ≡ more ++ before)

pub IsLater-cons :
    (before calls : Trace) (c : Call) → IsLater before calls → IsLater before (c ∷ calls)
IsLater-cons before calls c (more, e) = (c ∷ more, ap (λ t. c ∷ t) e)

module _ (b : Broker) (q : OrderRequest) (report : ExecutionReport) where
  -- A position of the request: it has the ticket that was reported, the signal of the request, or the
  -- key by which the broker tells its orders.
  pub data IsOwn (p : BrokerPosition) : Type 0 where
    by_ticket : report.broker_ticket ≡ some p.ticket → IsOwn p
    by_signal : p.signal_id ≡ some q.signal_id → IsOwn p
    by_key : p.strategy_id ≡ broker_correlation_key b q.idempotency_key → IsOwn p

  -- Asked after the calls `calls`, which follow `before`, the broker showed this position of the
  -- request.
  pub record IsShown (before calls : Trace) (p : BrokerPosition) : Type 0 where
    pub later : IsLater before calls
    pub first : List BrokerPosition
    pub rest : List BrokerPosition
    pub answered : b.get_positions (some q.symbol) calls ≡ ok (first ++ p ∷ rest)
    pub own : IsOwn p

  -- The position has the stop and the last target of the request.
  pub record IsCarrying (p : BrokerPosition) : Type 0 where
    pub stop : dec_eqb p.stop_loss q.stop_loss ≡ true
    pub target : Decimal
    pub last : get_last? q.take_profits ≡ some target
    pub price : Decimal
    pub set : p.take_profit ≡ some price
    pub same : dec_eqb price target ≡ true

  -- The ticket of the request's position, at the trace `now`: the one that was reported, or that of a
  -- position of the request that the broker showed in a call since `before`.
  pub data IsTicket (before now : Trace) (ticket : Option String) : Type 0 where
    reported : ticket ≡ report.broker_ticket → IsTicket before now ticket
    shown :
        (calls : Trace) (p : BrokerPosition)
        → IsShown before calls p
        → IsLater (Call.get_positions (some q.symbol) ∷ calls) now
        → ticket ≡ some p.ticket
        → IsTicket before now ticket

  -- The last call showed the request's position with its stop and its last target, or set both for
  -- the ticket of the request's position.
  pub data IsSecured (before after : Trace) : Type 0 where
    was_seen :
        (calls : Trace) (p : BrokerPosition)
        → IsShown before calls p
        → IsCarrying p
        → after ≡ Call.get_positions (some q.symbol) ∷ calls
        → IsSecured before after
    was_repaired :
        (ticket : String) (calls : Trace) (target : Decimal)
        → IsLater before calls
        → IsTicket before calls (some ticket)
        → get_last? q.take_profits ≡ some target
        → b.modify_position ticket q.stop_loss (some target) calls ≡ ok true
        → after ≡ Call.modify_position ticket q.stop_loss (some target) ∷ calls
        → IsSecured before after
