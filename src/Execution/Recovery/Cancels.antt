-- ===== src/Execution/Recovery/Cancels.antt =====
-- `cancel_pending_entries` of app/execution/executor.py against a broker that answers.
use sarkfxbot.Base.{String, ◌≡◌, refl, Bool, true, false, none, List, [], ◌∷◌, if◌then◌else◌}
use sarkfxbot.Base.Exec.{Result, ok}
use sarkfxbot.Domain.Orders.{BrokerOrder}
use sarkfxbot.Brokers.Port.{Broker, Call, Trace}
use sarkfxbot.Execution.Recovery.{cancel_all, cancel_pending_entries}

-- The calls after one cancellation of each order, in their order.
abbrev pub cancelled : List BrokerOrder → Trace → Trace
cancelled [] calls = calls
cancelled (o ∷ os) calls = cancelled os (Call.cancel_order o.ticket ∷ calls)

-- The tickets of the orders whose cancellation the broker accepts, asked one after the other.
pub data Accepts (b : Broker) : Trace → List BrokerOrder → List String → Type 0 where
  nothing : {calls : Trace} → Accepts b calls [] []
  accepted :
      {calls : Trace} {os : List BrokerOrder} {ts : List String} (o : BrokerOrder)
      → b.cancel_order o.ticket calls ≡ ok true
      → Accepts b (Call.cancel_order o.ticket ∷ calls) os ts
      → Accepts b calls (o ∷ os) (o.ticket ∷ ts)
  declined :
      {calls : Trace} {os : List BrokerOrder} {ts : List String} (o : BrokerOrder)
      → b.cancel_order o.ticket calls ≡ ok false
      → Accepts b (Call.cancel_order o.ticket ∷ calls) os ts
      → Accepts b calls (o ∷ os) ts

-- The broker answers every cancellation, with either answer.
abbrev pub Answers : Broker → Type 0
Answers b =
    (ticket : String) (calls : Trace) → (done : Bool) × (b.cancel_order ticket calls ≡ ok done)

-- What cancelling reports and calls.
abbrev pub IsCancelled : Broker → List BrokerOrder → Trace → Result (List String) × Trace → Type 0
IsCancelled b os calls (r, after) =
    ((ts : List String) × (r ≡ ok ts) × Accepts b calls os ts) × (after ≡ cancelled os calls)

by_answer :
    (b : Broker) (done : Bool) (o : BrokerOrder) {calls : Trace} {ts : List String}
    {os : List BrokerOrder}
    → b.cancel_order o.ticket calls ≡ ok done
    → Accepts b (Call.cancel_order o.ticket ∷ calls) os ts
    → Accepts b calls (o ∷ os) (if done then o.ticket ∷ ts else ts)
by_answer b true o e rest = accepted o e rest
by_answer b false o e rest = declined o e rest

module _ (b : Broker) (answers : Answers b) where
  cancel_all-IsCancelled :
      (os : List BrokerOrder) (calls : Trace) → IsCancelled b os calls (cancel_all b os calls)
  unfolding cancel_all
  cancel_all-IsCancelled [] calls = (([], refl, nothing), refl)
  cancel_all-IsCancelled (o ∷ os) calls =
      let (done, e) = answers o.ticket calls in
      let ((ts, e', part), same) = cancel_all-IsCancelled os (Call.cancel_order o.ticket ∷ calls) in
      (
        (if done then o.ticket ∷ ts else ts, simp (e, e'), by_answer b done o e part),
        simp (e, e', same),
      )

-- Cancelling the pending entries, on a broker that lists them and answers every cancellation, asks
-- for the list and then once for the cancellation of every listed order, in the order of the list,
-- and returns the tickets of exactly those
-- whose cancellation the broker accepted.
pub cancel_pending_entries-IsCancelled :
    (b : Broker) (os : List BrokerOrder) (calls : Trace)
    → Answers b
    → b.get_orders none calls ≡ ok os
    → IsCancelled b os (Call.get_orders none ∷ calls) (cancel_pending_entries b calls)
unfolding cancel_pending_entries
cancel_pending_entries-IsCancelled b os calls answers listed =
    let ((ts, e, part), same) =
      cancel_all-IsCancelled b answers os (Call.get_orders none ∷ calls) in
    ((ts, simp (listed, e), part), simp (listed, same))
