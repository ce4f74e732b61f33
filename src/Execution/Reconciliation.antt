-- ===== src/Execution/Reconciliation.antt =====
-- app/execution/reconciliation.py: one pass that brings the ledger of positions and orders into line
-- with what a healthy broker shows. The ledger is the InMemoryRecoveryLedger.
pub mod Passes
pub mod Loops
pub mod Kept
pub mod Synced
pub mod Lawful
use sarkfxbot.Base.{
  ℕ, suc, String, str_eq, Bool, true, false, not, ◌&&◌, ◌||◌, Option, none, some, List, [], ◌∷◌,
  ◌++◌, ◌==◌, if◌then◌else◌,
}
use sarkfxbot.Base.Decimal.{Decimal, dec_eqb}
use sarkfxbot.Base.Dict.{Dict, lookup, insert, values}
use sarkfxbot.Base.Dict.Keys.{collect}
use sarkfxbot.Base.Exec.{Result, Exec, pure, ◌>>=◌}
use sarkfxbot.Domain.Enums.{Direction, is_long, OrderType, OrderStatus}
use sarkfxbot.Domain.Models.{Timestamp}
use sarkfxbot.Domain.Orders.{BrokerPosition, BrokerOrder}
use sarkfxbot.Brokers.Port.{BrokerHealth, Broker, Call, Trace, ask}
use sarkfxbot.Execution.Ledgers.{
  Entry, Kind, LedgerStatus, ReconciliationIncident, cancelled, closed, incident, opened,
  order_kind, pending, position_kind, same_direction, same_option, same_order, same_position,
  same_status,
}

-- The state of the two loops on positions, or on orders.
pub record Pass (V : Type 0) : Type 0 where
  pub ledger : Dict (Entry V)
  pub incidents : List ReconciliationIncident
  pub restored : ℕ
  pub retired : ℕ

module _ {V : Type 0} (k : Kind V) where
  -- {item.ticket: item for item in await self._broker.get_positions()}
  unfoldable pub shown_by : List V → Dict V
  shown_by items = collect k.ticket_of items []

  -- {item.position.ticket: item for item in await self._ledger.positions()}
  unfoldable pub local_of : Dict (Entry V) → Dict (Entry V)
  local_of ledger = collect (λ e. k.ticket_of e.item) (values ledger) []

abbrev pub start : {V : Type 0} → Dict (Entry V) → List ReconciliationIncident → Pass V
start ledger incidents = record {
  ledger = ledger;
  incidents = incidents;
  restored = 0;
  retired = 0;
}

module _ {V : Type 0} (k : Kind V) (now : Timestamp) where
  abbrev pub new_entry : V → Entry V
  new_entry b = record { item = b; status = k.live; recovered = true; updated_at = now }

  -- replace(local, position=broker_position, updated_at=now)
  abbrev pub repaired : Entry V → V → Entry V
  repaired l b = record l { item = b; updated_at = now }

  -- replace(local, status=CLOSED, updated_at=now)
  abbrev pub retired_entry : Entry V → Entry V
  retired_entry l = record l { status = k.gone; updated_at = now }

  abbrev pub recover_item : String → V → Pass V → Pass V
  recover_item t b p = record p {
    ledger = insert t (new_entry b) p.ledger;
    incidents = p.incidents ++ (incident k.recovered_code t k.recovered_detail ∷ []);
    restored = suc p.restored;
  }

  abbrev pub repair_item : String → Entry V → V → Pass V → Pass V
  repair_item t l b p = record p {
    ledger = insert t (repaired l b) p.ledger;
    incidents =
        p.incidents ++ (incident k.drift_code t "broker values replaced ledger values" ∷ []);
  }

  abbrev pub retire_item : String → Entry V → Pass V → Pass V
  retire_item t l p = record p {
    ledger = insert t (retired_entry l) p.ledger;
    incidents = p.incidents ++ (incident k.gone_code t k.gone_detail ∷ []);
    retired = suc p.retired;
  }

  -- One round of the loop on what the broker shows, by what the ledger had.
  abbrev pub restore_one : Option (Entry V) → String → V → Pass V → Pass V
  restore_one none t b p = recover_item t b p
  restore_one (some l) t b p =
      if same_status l.status k.gone
      then recover_item t b p
      else if not (k.same l.item b)
      then repair_item t l b p
      else p

  unfoldable pub restore_all : Dict (Entry V) → Dict V → Pass V → Pass V
  restore_all local [] p = p
  restore_all local ((t, b) ∷ d) p = restore_all local d (restore_one (lookup t local) t b p)

  -- One round of the loop on what the ledger had, by what the broker shows.
  abbrev pub retire_one : Option V → String → Entry V → Pass V → Pass V
  retire_one (some b) t l p = p
  retire_one none t l p = if same_status l.status k.live then retire_item t l p else p

  unfoldable pub retire_all : Dict V → Dict (Entry V) → Pass V → Pass V
  retire_all shown [] p = p
  retire_all shown ((t, l) ∷ d) p = retire_all shown d (retire_one (lookup t shown) t l p)

  -- Both loops, after earlier incidents.
  unfoldable pub run_pass : List V → Dict (Entry V) → List ReconciliationIncident → Pass V
  run_pass items ledger incidents =
      let shown = shown_by k items in
      let local = local_of k ledger in
      retire_all shown local (restore_all local shown (start ledger incidents))

pub record ReconciliationReport : Type 0 where
  pub healthy : Bool
  pub incidents : List ReconciliationIncident
  pub recovered_positions : ℕ
  pub recovered_orders : ℕ
  pub closed_positions : ℕ
  pub cancelled_orders : ℕ

-- The broker's calls and the ledger.
pub record Recovery : Type 0 where
  pub calls : Trace
  pub positions : Dict (Entry BrokerPosition)
  pub orders : Dict (Entry BrokerOrder)

abbrev pub asked : {A : Type 0} → Exec Trace A → Exec Recovery A
asked m w = let (r, calls) = m w.calls in (r, record w { calls = calls })

abbrev pub deferred : ReconciliationReport
deferred = record {
  healthy = false;
  incidents = incident "BROKER_UNAVAILABLE" "" "reconciliation deferred; ledger unchanged" ∷ [];
  recovered_positions = 0;
  recovered_orders = 0;
  closed_positions = 0;
  cancelled_orders = 0;
}

-- The loops, after all that the broker and the ledger were asked.
unfoldable pub settle :
    Timestamp → List BrokerPosition → List BrokerOrder → Exec Recovery ReconciliationReport
settle now ps os w =
    let p = run_pass position_kind now ps w.positions [] in
    let o = run_pass order_kind now os w.orders p.incidents in
    pure
      (record {
        healthy = true;
        incidents = o.incidents;
        recovered_positions = p.restored;
        recovered_orders = o.restored;
        closed_positions = p.retired;
        cancelled_orders = o.retired;
      })
      (record w { positions = p.ledger; orders = o.ledger })

module _ (b : Broker) where
  abbrev pub then_orders : List BrokerPosition → Exec Recovery ReconciliationReport
  then_orders ps = do
    os ← asked (ask (Call.get_orders none) (b.get_orders none))
    λ w. settle (b.clock w.calls) ps os w

  abbrev pub read_all : Exec Recovery ReconciliationReport
  read_all = do ps ← asked (ask (Call.get_positions none) (b.get_positions none)); then_orders ps

  abbrev pub when_healthy : BrokerHealth → Exec Recovery ReconciliationReport
  when_healthy h = if not h.healthy || not h.connected then pure deferred else read_all

  -- ReconciliationService.reconcile, which recover_on_startup calls
  unfoldable pub reconcile : Exec Recovery ReconciliationReport
  reconcile = do h ← asked (ask Call.health_check b.health_check); when_healthy h
