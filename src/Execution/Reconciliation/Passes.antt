-- ===== src/Execution/Reconciliation/Passes.antt =====
-- `ReconciliationService.reconcile` of app/execution/reconciliation.py as a whole.
use sarkfxbot.Base.{
  ◌≡◌, refl, sym, ap, subst, ◌∙◌, Bool, true, false, not, ◌||◌, none, List, [], ◌∷◌, ◌⊎◌, inl, inr,
  if◌then◌else◌,
}
use sarkfxbot.Base.Exec.{Result, ok, err, pure, continue}
use sarkfxbot.Domain.Models.{Timestamp}
use sarkfxbot.Domain.Orders.{BrokerPosition, BrokerOrder}
use sarkfxbot.Brokers.Port.{BrokerHealth, Broker, Call, Trace}
use sarkfxbot.Execution.Reconciliation.{
  ReconciliationReport, shown_by, run_pass, Recovery, deferred, settle, when_healthy, then_orders,
  read_all, reconcile,
}
use sarkfxbot.Execution.Ledgers.{position_kind, order_kind}
use sarkfxbot.Execution.Reconciliation.Loops.{IsLedger}
use sarkfxbot.Execution.Reconciliation.Synced.{IsSynced, run_pass-IsSynced, run_pass-quiet}
use sarkfxbot.Execution.Reconciliation.Kept.{run_pass-IsLedger}
use sarkfxbot.Execution.Reconciliation.Lawful.{order-IsLawful, position-IsLawful}

-- Both parts of the ledger have the tickets of their entries as different keys.
pub record HasLedgers (w : Recovery) : Type 0 where
  pub positions : IsLedger position_kind w.positions
  pub orders : IsLedger order_kind w.orders

-- The broker is healthy and shows these positions and orders.
pub record Shows (b : Broker) (w : Recovery) (ps : List BrokerPosition) (os : List BrokerOrder)
    : Type 0 where
  pub health : BrokerHealth
  pub answered : b.health_check w.calls ≡ ok health
  pub healthy : health.healthy ≡ true
  pub connected : health.connected ≡ true
  pub positions : b.get_positions none (Call.health_check ∷ w.calls) ≡ ok ps
  pub orders : b.get_orders none (Call.get_positions none ∷ Call.health_check ∷ w.calls) ≡ ok os

-- Both parts of the ledger agree with what the broker shows.
pub record InLine (ps : List BrokerPosition) (os : List BrokerOrder) (w : Recovery) : Type 0 where
  pub positions : IsSynced position_kind (shown_by position_kind ps) w.positions
  pub orders : IsSynced order_kind (shown_by order_kind os) w.orders

abbrev asked_calls : Recovery → Recovery
asked_calls w = record w {
  calls = Call.get_orders none ∷ Call.get_positions none ∷ Call.health_check ∷ w.calls;
}

-- With answers, a pass is its loops.
reconcile_shown :
    (b : Broker) (w : Recovery) (ps : List BrokerPosition) (os : List BrokerOrder)
    → Shows b w ps os
    → reconcile b w ≡ settle (b.clock (asked_calls w).calls) ps os (asked_calls w)
unfolding reconcile
reconcile_shown b w ps os h = simp (h.answered, h.healthy, h.connected, h.positions, h.orders)

-- What a settled result promises.
abbrev IsSettled :
    List BrokerPosition → List BrokerOrder → Result ReconciliationReport × Recovery → Type 0
IsSettled ps os (r, w) =
    ((report : ReconciliationReport) × (r ≡ ok report) × (report.healthy ≡ true))
    × InLine ps os w
    × HasLedgers w

settle-IsSettled :
    (now : Timestamp) (ps : List BrokerPosition) (os : List BrokerOrder) (w : Recovery)
    → HasLedgers w
    → IsSettled ps os (settle now ps os w)
unfolding settle
settle-IsSettled now ps os w valid =
    let p = run_pass position_kind now ps w.positions [] in
    (
      (_, refl, refl),
      record {
        positions =
            run_pass-IsSynced position_kind position-IsLawful now ps w.positions [] valid.positions;
        orders =
            run_pass-IsSynced order_kind order-IsLawful now os w.orders p.incidents valid.orders;
      },
      record {
        positions = run_pass-IsLedger position_kind now ps w.positions [] valid.positions;
        orders = run_pass-IsLedger order_kind now os w.orders p.incidents valid.orders;
      },
    )

abbrev nothing_found : ReconciliationReport
nothing_found = record {
  healthy = true;
  incidents = [];
  recovered_positions = 0;
  recovered_orders = 0;
  closed_positions = 0;
  cancelled_orders = 0;
}

settle_quiet :
    (now : Timestamp) (ps : List BrokerPosition) (os : List BrokerOrder) (w : Recovery)
    → HasLedgers w
    → InLine ps os w
    → settle now ps os w ≡ (ok nothing_found, w)
unfolding settle
settle_quiet now ps os w valid line =
    let e =
      run_pass-quiet position_kind position-IsLawful now ps w.positions [] valid.positions
        line.positions in
    let f = run_pass-quiet order_kind order-IsLawful now os w.orders [] valid.orders line.orders in
    rw e (rw f refl)

-- After a pass on a healthy broker, which always reports success, the ledger agrees with the broker:
-- every position and order that the broker shows has an entry with equal values that is not marked as
-- closed or cancelled, whatever the broker does not show is not marked as open or pending, and the
-- keys of the ledger are still the different tickets of its entries.
pub reconcile-InLine :
    (b : Broker) (w : Recovery) (ps : List BrokerPosition) (os : List BrokerOrder)
    → HasLedgers w
    → Shows b w ps os
    → ((r : ReconciliationReport) × ((reconcile b w).0 ≡ ok r) × (r.healthy ≡ true))
      × InLine ps os (reconcile b w).1
      × HasLedgers (reconcile b w).1
reconcile-InLine b w ps os valid h = subst (IsSettled ps os) (sym (reconcile_shown b w ps os h)) (
    settle-IsSettled (b.clock (asked_calls w).calls) ps os (asked_calls w)
      (record { positions = valid.positions; orders = valid.orders }))

-- A second pass on a healthy broker that shows what the first one saw reports no incident and no
-- change, and leaves the ledger as it is.
pub reconcile_again :
    (b : Broker) (w : Recovery) (ps : List BrokerPosition) (os : List BrokerOrder)
    → HasLedgers w
    → InLine ps os w
    → Shows b w ps os
    → ((reconcile b w).0
        ≡ ok (record {
          healthy = true;
          incidents = [];
          recovered_positions = 0;
          recovered_orders = 0;
          closed_positions = 0;
          cancelled_orders = 0;
        }))
      × ((reconcile b w).1.positions ≡ w.positions)
      × ((reconcile b w).1.orders ≡ w.orders)
reconcile_again b w ps os valid line h =
    let e =
      reconcile_shown b w ps os h
      ∙ settle_quiet (b.clock (asked_calls w).calls) ps os (asked_calls w)
          (record { positions = valid.positions; orders = valid.orders })
          (record { positions = line.positions; orders = line.orders }) in
    (ap (λ r. r.0) e, ap (λ r. r.1.positions) e, ap (λ r. r.1.orders) e)

-- The report is a healthy one, or both parts of the ledger are those of `w`.
abbrev IsCareful : Recovery → Result ReconciliationReport × Recovery → Type 0
IsCareful w (r, w') =
    ((report : ReconciliationReport) × (r ≡ ok report) × (report.healthy ≡ true))
    ⊎ ((w'.positions ≡ w.positions) × (w'.orders ≡ w.orders))

orders-IsCareful :
    (b : Broker) (w : Recovery) (r : Result (List BrokerOrder)) (ps : List BrokerPosition)
    (calls : Trace)
    → IsCareful w
        (continue r (λ os v. settle (b.clock v.calls) ps os v) (record w { calls = calls }))
unfolding settle
orders-IsCareful b w (ok os) ps calls = inl (_, refl, refl)
orders-IsCareful b w (err e) ps calls = inr (refl, refl)

positions-IsCareful :
    (b : Broker) (w : Recovery) (r : Result (List BrokerPosition)) (calls : Trace)
    → IsCareful w (continue r (then_orders b) (record w { calls = calls }))
positions-IsCareful b w (ok ps) calls =
    orders-IsCareful b w (b.get_orders none calls) ps (Call.get_orders none ∷ calls)
positions-IsCareful b w (err e) calls = inr (refl, refl)

health-IsCareful :
    (b : Broker) (w : Recovery) (r : Result BrokerHealth) (calls : Trace)
    → IsCareful w (continue r (when_healthy b) (record w { calls = calls }))
health-IsCareful b w (err e) calls = inr (refl, refl)
health-IsCareful b w (ok h) calls = by_test (not h.healthy || not h.connected)
  where
    by_test :
        (unavailable : Bool)
        → IsCareful w
            ((if unavailable then pure deferred else read_all b) (record w { calls = calls }))
    by_test true = inr (refl, refl)
    by_test false =
        positions-IsCareful b w (b.get_positions none calls) (Call.get_positions none ∷ calls)

-- A pass that raises, or whose report is not healthy, leaves the whole ledger as it was.
pub reconcile-IsUntouched :
    (b : Broker) (w : Recovery)
    → ((r : ReconciliationReport) × ((reconcile b w).0 ≡ ok r) × (r.healthy ≡ true))
      ⊎ (((reconcile b w).1.positions ≡ w.positions) × ((reconcile b w).1.orders ≡ w.orders))
unfolding reconcile
reconcile-IsUntouched b w =
    health-IsCareful b w (b.health_check w.calls) (Call.health_check ∷ w.calls)
